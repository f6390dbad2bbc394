-- ===== src/Search/Rank/Cut.antt =====
-- search-services/search/core/service.go, `rangComics`: the order of what it returns, and what the
-- limit leaves out.
use microservice_comics.Base.{
  false, All, All-of_Elem, nat_beq, nat_beq_iff, leb, ltb_ℤ, ◌⊎◌, ◌∙◌, ℕ, zero, suc, ◌<◌, ◌≤◌, ◌^◌,
  String, true, List, [], ◌∷◌, ◌≡◌, inl, inr, refl, sym, ap, arith, Bool-cases, Elem, All_elem,
  length, take, length-take, length-map, take_of_length-le, ltb, IsSorted,
}
use microservice_comics.Search.Model.{Comics, HasDistinctIds}
use microservice_comics.Search.Rank.{
  score_comic, Scored, scored_list, ranks_before, comics_of, rang_comics,
}
use microservice_comics.Search.Rank.Order.{sort_by-scored_list-IsSorted}
use microservice_comics.Search.Rank.Results.{ranking, rang_comics_lem, Elem-ranking}

above_taken :
    (n : ℕ) (l : List Scored) (x y : Scored)
    → IsSorted ranks_before l
    → Elem x (take n l)
    → Elem y l
    → ¬ Elem y (take n l)
    → ranks_before x y ≡ true
above_taken zero l x y s m k out = absurd m
above_taken (suc n) [] x y s m k out = absurd m
above_taken (suc n) (z ∷ l) x y s m k out = elim k [
  | inl same ↦ absurd (out (inl same))
  | inr later ↦ elim m [
    | inl first ↦ rw first (All_elem _ l s.0 y later)
    | inr deeper ↦ above_taken n l x y s.1 deeper later (λ h. out (inr h))
  ]
]

-- The first comic scores more, or as much with a smaller id.
abbrev pub Outranks : List String → Comics → Comics → Type 0
Outranks toks a b =
    (score_comic b toks < score_comic a toks)
    ⊎ ((score_comic b toks ≡ score_comic a toks) × (ltb_ℤ a.id b.id ≡ true))

abbrev pub IsRanked : List String → List Comics → Type 0
IsRanked toks [] = Unit
IsRanked toks (c ∷ cs) = All (Outranks toks c) cs × IsRanked toks cs

scored_above :
    (toks : List String) (x y : Scored)
    → x.score ≡ score_comic x.comic toks
    → y.score ≡ score_comic y.comic toks
    → ranks_before x y ≡ true
    → Outranks toks x.comic y.comic
scored_above toks x y own own' before = elim (Bool-cases (nat_beq x.score y.score)) [
  | inl e ↦ inr (sym own' ∙ (sym ((nat_beq_iff x.score y.score).0 e) ∙ own), rw e at before)
  | inr e ↦
      let less : ltb y.score x.score ≡ true = rw e at before in
      let fewer : y.score < x.score = ground arith in inl (omega (arith, own, own', fewer))
]

Elem-take : (n : ℕ) (l : List Scored) (s : Scored) → Elem s (take n l) → Elem s l
Elem-take zero l s m = absurd m
Elem-take (suc n) [] s m = absurd m
Elem-take (suc n) (x ∷ l) s (inl e) = inl e
Elem-take (suc n) (x ∷ l) s (inr m) = inr (Elem-take n l s m)

take-IsSorted :
    (n : ℕ) (l : List Scored) → IsSorted ranks_before l → IsSorted ranks_before (take n l)
take-IsSorted zero l h = tt
take-IsSorted (suc n) [] h = tt
take-IsSorted (suc n) (x ∷ l) h = (
  All-of_Elem _ (take n l) (λ s m. All_elem _ l h.0 s (Elem-take n l s m)),
  take-IsSorted n l h.1,
)

All-comics_of :
    (P : Comics → Type 0) (l : List Scored)
    → ((s : Scored) → Elem s l → P s.comic)
    → All P (comics_of l)
All-comics_of P [] h = tt
All-comics_of P (s ∷ l) h = (h s (inl refl), All-comics_of P l (λ r m. h r (inr m)))

Elem-comics_of : (s : Scored) (l : List Scored) → Elem s l → Elem s.comic (comics_of l)
Elem-comics_of s [] m = absurd m
Elem-comics_of s (r ∷ l) (inl e) = inl (ap (λ (q : Scored). q.comic) e)
Elem-comics_of s (r ∷ l) (inr m) = inr (Elem-comics_of s l m)

comics_of-IsRanked :
    (toks : List String) (l : List Scored)
    → ((s : Scored) → Elem s l → s.score ≡ score_comic s.comic toks)
    → IsSorted ranks_before l
    → IsRanked toks (comics_of l)
comics_of-IsRanked toks [] own h = tt
comics_of-IsRanked toks (s ∷ l) own h = (
  All-comics_of (Outranks toks s.comic) l
      (λ r m. scored_above toks s r (own s (inl refl)) (own r (inr m)) (All_elem _ l h.0 r m)),
  comics_of-IsRanked toks l (λ r m. own r (inr m)) h.1,
)

length-scored_list-le :
    (cs : List Comics) (toks : List String) → length (scored_list cs toks) ≤ length cs
unfolding scored_list
length-scored_list-le [] toks = omega arith
length-scored_list-le (c ∷ cs) toks = ground (arith, length-scored_list-le cs toks)

-- What is left out of the first `n` shows that there are more.
length-take_of_out :
    (n : ℕ) (l : List Scored) (y : Scored) → Elem y l → ¬ Elem y (take n l) → length (take n l) ≡ n
length-take_of_out n l y m out = elim (Bool-cases (leb (length l) n)) [
  | inl e ↦ absurd (out (rw (take_of_length-le n l (ground arith)) m))
  | inr e ↦ omega (arith, length-take n l, more e)
]
  where
    more : leb (length l) n ≡ false → n ≤ length l
    more e = ground arith

ranking-IsSorted :
    (cs : List Comics) (toks : List String)
    → HasDistinctIds cs
    → IsSorted ranks_before (ranking cs toks)
unfolding ranking
ranking-IsSorted cs toks distinct = sort_by-scored_list-IsSorted cs toks distinct

-- With distinct ids and fewer than 2^32 comics, `rangComics` returns its comics by falling score, and
-- by rising id where the score is the same. If it leaves out a comic that scores, it returns as many
-- as the limit says, and each of them scores more than that comic, or as much with a smaller id.
pub rang_comics-IsRanked :
    (cs : List Comics) (toks : List String) (limit : ℕ)
    → HasDistinctIds cs
    → length cs < 2 ^ 32
    → IsRanked toks (rang_comics cs toks limit).0
      × ((y : Comics)
          → Elem y cs
          → 0 < score_comic y toks
          → ¬ Elem y (rang_comics cs toks limit).0
          → (length (rang_comics cs toks limit).0 ≡ limit)
            × All (λ x. Outranks toks x y) (rang_comics cs toks limit).0)
rang_comics-IsRanked cs toks limit distinct few =
    let scored : length (scored_list cs toks) < 2 ^ 32 =
      omega (arith, length-scored_list-le cs toks) in
    rw (rang_comics_lem cs toks limit scored) (
      comics_of-IsRanked toks (take limit (ranking cs toks)) own
          (take-IsSorted limit (ranking cs toks) (ranking-IsSorted cs toks distinct)),
      λ y listed positive out.
          let entry : Scored = record { comic = y; score = score_comic y toks } in
          let here = (Elem-ranking entry cs toks).1 (listed, refl, positive) in
          let left : ¬ Elem entry (take limit (ranking cs toks)) =
            (λ m. out (Elem-comics_of entry (take limit (ranking cs toks)) m)) in
          (
            length-map (λ (s : Scored). s.comic) (take limit (ranking cs toks))
                ∙ length-take_of_out limit (ranking cs toks) entry here left,
            All-comics_of (λ x. Outranks toks x y) (take limit (ranking cs toks))
                (λ x m. scored_above toks x entry (own x m) refl (
                  above_taken limit (ranking cs toks) x entry (ranking-IsSorted cs toks distinct) m
                    here left)),
          ),
    )
  where
    own : (s : Scored) → Elem s (take limit (ranking cs toks)) → s.score ≡ score_comic s.comic toks
    own s m = ((Elem-ranking s cs toks).0 (Elem-take limit (ranking cs toks) s m)).1
