-- ===== src/Search/Rank/Order.antt =====
-- The ranking as a function of the set of comics: `sort.Slice` is given a strict order in which
-- any two results are comparable, so the order in which they come does not matter.
use microservice_comics.Base.{
  ℕ, ◌<◌, String, true, false, List, [], ◌∷◌, ◌≡◌, ◌≢◌, ◌↔◌, ◌⊎◌, inl, inr, refl, sym, ap, ◌∙◌,
  arith, Bool-cases, Elem, All_elem, All-of_Elem, length, ltb, ltb_ℤ_trans, ltb_ℤ_irrefl,
  ltb_ℤ_antisymm, sort_by, Elem-sort_by, length-sort_by, IsSorted, IsDistinct, sort_by-IsSorted,
  IsSorted-unique,
}
use microservice_comics.Search.Model.{Comics, HasDistinctIds}
use microservice_comics.Search.Rank.{score_comic, Scored, scored_list, ranks_before, rang_comics}

pub ranks_before_trans :
    (a b c : Scored) → ranks_before a b ≡ true → ranks_before b c ≡ true → ranks_before a c ≡ true
ranks_before_trans a b c h k = ground (arith, ltb_ℤ_trans a.comic.id b.comic.id c.comic.id)

pub ranks_before_irrefl : (a : Scored) → ranks_before a a ≡ false
ranks_before_irrefl a = ground (arith, ltb_ℤ_irrefl a.comic.id)

ranks_comparable :
    (a b : Scored) → a.comic.id ≢ b.comic.id → (ranks_before a b ≡ true) ⊎ (ranks_before b a ≡ true)
ranks_comparable a b h = ground (arith, ltb_ℤ_antisymm a.comic.id b.comic.id)

-- An entry of the scored list is a comic of the list with its positive score.
pub Elem-scored_list :
    (s : Scored) (cs : List Comics) (toks : List String)
    → Elem s (scored_list cs toks)
      ↔ (Elem s.comic cs × (s.score ≡ score_comic s.comic toks) × (0 < s.score))
unfolding scored_list
Elem-scored_list s [] toks = (λ m. absurd m, λ m. absurd m.0)
Elem-scored_list s (c ∷ cs) toks =
    let (to, from) = Elem-scored_list s cs toks in
    elim (Bool-cases (ltb 0 (score_comic c toks))) [
      | inl e ↦ rw e (
        λ m. elim m [
          | inl same ↦ (
            inl (ap (λ (r : Scored). r.comic) same),
            ap (λ (r : Scored). r.score) same
                ∙ ap (λ (r : Scored). score_comic r.comic toks) (sym same),
            ground arith,
          )
          | inr later ↦ (let k = to later in (inr k.0, k.1, k.2))
        ],
        λ (here, score, positive). elim here [
          | inl same ↦ inl (λ i. record {
            comic = same i;
            score = (score ∙ ap (λ (d : Comics). score_comic d toks) same) i;
          })
          | inr later ↦ inr (from (later, score, positive))
        ],
      )
      | inr e ↦ rw e (
        λ m. (let k = to m in (inr k.0, k.1, k.2)),
        λ (here, score, positive). elim here [
          | inl same ↦
              let zero_score = score ∙ ap (λ (d : Comics). score_comic d toks) same in
              absurd (ground arith)
          | inr later ↦ from (later, score, positive)
        ],
      )
    ]

scored_list-IsDistinct :
    (cs : List Comics) (toks : List String)
    → HasDistinctIds cs
    → IsDistinct ranks_before (scored_list cs toks)
unfolding scored_list
scored_list-IsDistinct [] toks d = tt
scored_list-IsDistinct (c ∷ cs) toks d = elim (Bool-cases (ltb 0 (score_comic c toks))) [
  | inl e ↦ rw e (
    All-of_Elem _ (scored_list cs toks) (λ s m.
        ranks_comparable (record { comic = c; score = score_comic c toks }) s
          (All_elem (λ (b : Comics). c.id ≢ b.id) cs d.0 s.comic
            ((Elem-scored_list s cs toks).0 m).0)),
    scored_list-IsDistinct cs toks d.1,
  )
  | inr e ↦ rw e (scored_list-IsDistinct cs toks d.1)
]

-- With distinct ids, the sorted list is sorted: scores fall, and among equal scores the ids rise.
pub sort_by-scored_list-IsSorted :
    (cs : List Comics) (toks : List String)
    → HasDistinctIds cs
    → IsSorted ranks_before (sort_by ranks_before (scored_list cs toks))
sort_by-scored_list-IsSorted cs toks d =
    sort_by-IsSorted ranks_before ranks_before_trans ranks_before_irrefl (scored_list cs toks)
      (scored_list-IsDistinct cs toks d)

-- The comics of both lists that score are the same.
abbrev pub SameScoring : List Comics → List Comics → List String → Type 0
SameScoring cs ds toks = (c : Comics) → 0 < score_comic c toks → Elem c cs ↔ Elem c ds

module _ (cs ds : List Comics) (toks : List String) (dc : HasDistinctIds cs)
    (dd : HasDistinctIds ds) (same : SameScoring cs ds toks) where
  same_scored : (s : Scored) → Elem s (scored_list cs toks) → Elem s (scored_list ds toks)
  same_scored s m =
      let (listed, score, positive) = (Elem-scored_list s cs toks).0 m in
      (Elem-scored_list s ds toks).1 ((same s.comic (omega arith)).0 listed, score, positive)

  scored_same : (s : Scored) → Elem s (scored_list ds toks) → Elem s (scored_list cs toks)
  scored_same s m =
      let (listed, score, positive) = (Elem-scored_list s ds toks).0 m in
      (Elem-scored_list s cs toks).1 ((same s.comic (omega arith)).1 listed, score, positive)

  sorted_same :
      sort_by ranks_before (scored_list cs toks) ≡ sort_by ranks_before (scored_list ds toks)
  sorted_same =
      IsSorted-unique ranks_before ranks_before_trans ranks_before_irrefl _ _
        (sort_by-scored_list-IsSorted cs toks dc) (sort_by-scored_list-IsSorted ds toks dd)
        (λ s. (
          (λ m.
              (Elem-sort_by ranks_before s (scored_list ds toks)).1
                (same_scored s ((Elem-sort_by ranks_before s (scored_list cs toks)).0 m))),
          (λ m.
              (Elem-sort_by ranks_before s (scored_list cs toks)).1
                (scored_same s ((Elem-sort_by ranks_before s (scored_list ds toks)).0 m))),
        ))

  length_same : length (scored_list cs toks) ≡ length (scored_list ds toks)
  length_same =
      sym (length-sort_by ranks_before (scored_list cs toks))
      ∙ (ap length sorted_same ∙ length-sort_by ranks_before (scored_list ds toks))

  -- Two lists of comics with distinct ids that agree on what scores are ranked alike.
  pub rang_comics_same : (limit : ℕ) → rang_comics cs toks limit ≡ rang_comics ds toks limit
  unfolding rang_comics
  rang_comics_same limit = rw (sorted_same, length_same) refl
