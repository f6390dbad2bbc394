-- ===== src/Search/Rank/Results.antt =====
-- What `rangComics` returns: the best of the comics that score, and how many there are.
use microservice_comics.Base.{
  ℕ, ◌<◌, ◌≤◌, ◌^◌, String, List, ◌≡◌, ◌↔◌, inl, inr, refl, sym, ap, ap₂, arith, Bool-cases, Elem,
  length, take, length-take, length-map, take_of_length-le, ltb, sort_by, Elem-sort_by,
  length-sort_by,
}
use microservice_comics.Search.Model.{Comics}
use microservice_comics.Search.Rank.{
  score_comic, Scored, scored_list, ranks_before, comics_of, u32_length, rang_comics,
}
use microservice_comics.Search.Rank.Order.{Elem-scored_list}

-- All results in their order, before the limit.
unfoldable pub ranking : List Comics → List String → List Scored
ranking cs toks = sort_by ranks_before (scored_list cs toks)

pub length-ranking :
    (cs : List Comics) (toks : List String)
    → length (ranking cs toks) ≡ length (scored_list cs toks)
unfolding ranking
length-ranking cs toks = length-sort_by ranks_before (scored_list cs toks)

-- With fewer than 2^32 results, the first `limit` of the ranking are returned, with their number.
pub rang_comics_lem :
    (cs : List Comics) (toks : List String) (limit : ℕ)
    → length (scored_list cs toks) < 2 ^ 32
    → rang_comics cs toks limit
      ≡ (comics_of (take limit (ranking cs toks)), length (scored_list cs toks))
unfolding rang_comics ranking
rang_comics_lem cs toks limit few =
    let small : u32_length (ranking cs toks) ≡ length (ranking cs toks) =
      omega (arith, length-ranking cs toks) in
    let total : u32_length (scored_list cs toks) ≡ length (scored_list cs toks) = omega arith in
    elim (Bool-cases (ltb limit (u32_length (ranking cs toks)))) [
      | inl e ↦ rw e (ap₂ (λ (a : List Comics) (b : ℕ). (a, b)) refl total)
      | inr e ↦ rw e (
          ap₂ (λ (a : List Comics) (b : ℕ). (a, b))
            (ap comics_of (sym (take_of_length-le limit (ranking cs toks) (ground arith)))) total)
    ]

-- A result is a comic of the list with a positive score, and the other way round.
pub Elem-ranking :
    (s : Scored) (cs : List Comics) (toks : List String)
    → Elem s (ranking cs toks)
      ↔ (Elem s.comic cs × (s.score ≡ score_comic s.comic toks) × (0 < s.score))
unfolding ranking
Elem-ranking s cs toks =
    let (to, from) = Elem-sort_by ranks_before s (scored_list cs toks) in
    let (to_list, from_list) = Elem-scored_list s cs toks in
    (λ m. to_list (to m), λ k. from (from_list k))

-- With fewer than 2^32 comics that score, never more comics than the limit are returned.
pub length-rang_comics-le :
    (cs : List Comics) (toks : List String) (limit : ℕ)
    → length (scored_list cs toks) < 2 ^ 32
    → length (rang_comics cs toks limit).0 ≤ limit
length-rang_comics-le cs toks limit few = rw (rang_comics_lem cs toks limit few) (
    omega (
      arith,
      length-map (λ (s : Scored). s.comic) (take limit (ranking cs toks)),
      length-take limit (ranking cs toks),
    ))
