-- ===== src/Search/Index/Distinct.antt =====
-- The candidates of the index have distinct ids.
use microservice_comics.Base.{
  int_eq, ℤ, String, List, [], ◌∷◌, ◌++◌, ◌≡◌, ◌≢◌, ◌⊎◌, inl, inr, refl, some, true, Option-cases,
  Bool-cases, Elem, All, All_elem, All-of_Elem, All-append, has, Elem→has, put, lookup, IsSorted,
  IsDistinct, sort_by-IsSorted, ltb_ℤ, ltb_ℤ_trans, ltb_ℤ_irrefl, ltb_ℤ_antisymm,
}
use microservice_comics.Search.Model.{Comics, HasDistinctIds}
use microservice_comics.Search.Index.{
  InvertedIndex, postings, build, put_all, collect, docs_for_tokens, docs_by_ids,
}
use microservice_comics.Search.Index.Candidates.{build_docs}

comparable : (a b : ℤ) → a ≢ b → (ltb_ℤ a b ≡ true) ⊎ (ltb_ℤ b a ≡ true)
comparable a b h = elim (Bool-cases (ltb_ℤ a b)) [
  | inl e ↦ inl e
  | inr e ↦ elim (Bool-cases (ltb_ℤ b a)) [
    | inl f ↦ inr f
    | inr f ↦ absurd (h (ltb_ℤ_antisymm a b e f))
  ]
]

IsDistinct-concat :
    (xs : List ℤ) (a : ℤ)
    → ((x : ℤ) → Elem x xs → x ≢ a)
    → IsDistinct ltb_ℤ xs
    → IsDistinct ltb_ℤ (xs ++ a ∷ [])
IsDistinct-concat [] a h d = (tt, tt)
IsDistinct-concat (x ∷ xs) a h d = (
  All-append _ xs (a ∷ []) d.0 (comparable x a (h x (inl refl)), tt),
  IsDistinct-concat xs a (λ y m. h y (inr m)) d.1,
)

put-IsDistinct : (a : ℤ) (xs : List ℤ) → IsDistinct ltb_ℤ xs → IsDistinct ltb_ℤ (put a xs)
put-IsDistinct a xs d = elim (Bool-cases (has xs a)) [
  | inl e ↦ rw e d
  | inr e ↦ rw e (IsDistinct-concat xs a (λ x m p. cc (e, Elem→has xs a (rw p at m))) d)
]

put_all-IsDistinct : (set ids : List ℤ) → IsDistinct ltb_ℤ set → IsDistinct ltb_ℤ (put_all set ids)
unfolding put_all
put_all-IsDistinct set [] d = d
put_all-IsDistinct set (id ∷ ids) d = put_all-IsDistinct (put id set) ids (put-IsDistinct id set d)

collect-IsDistinct :
    (idx : InvertedIndex) (set : List ℤ) (toks : List String)
    → IsDistinct ltb_ℤ set
    → IsDistinct ltb_ℤ (collect idx set toks)
unfolding collect
collect-IsDistinct idx set [] d = d
collect-IsDistinct idx set (tok ∷ toks) d =
    collect-IsDistinct idx (put_all set (postings tok idx.by_token)) toks
      (put_all-IsDistinct set (postings tok idx.by_token) d)

-- The ids that `DocsForTokens` returns ascend strictly, whatever the index holds.
pub docs_for_tokens-IsSorted :
    (idx : InvertedIndex) (toks : List String) → IsSorted ltb_ℤ (docs_for_tokens idx toks)
unfolding docs_for_tokens
docs_for_tokens-IsSorted idx [] = tt
docs_for_tokens-IsSorted idx (tok ∷ toks) =
    sort_by-IsSorted ltb_ℤ ltb_ℤ_trans ltb_ℤ_irrefl _ (collect-IsDistinct idx [] (tok ∷ toks) tt)

module _ (idx : InvertedIndex)
    (keyed : (i : ℤ) (c : Comics) → lookup i idx.docs ≡ some c → c.id ≡ i) where
  docs_by_ids_above :
      (i : ℤ) (ids : List ℤ)
      → All (λ j. ltb_ℤ i j ≡ true) ids
      → All (λ (d : Comics). ltb_ℤ i d.id ≡ true) (docs_by_ids idx ids)
  unfolding docs_by_ids
  docs_by_ids_above i [] h = tt
  docs_by_ids_above i (j ∷ ids) h = elim (Option-cases (lookup j idx.docs)) [
    | inl e ↦ rw e (docs_by_ids_above i ids h.1)
    | inr (c, e) ↦ rw e (rw (keyed j c e) h.0, docs_by_ids_above i ids h.1)
  ]

  docs_by_ids-HasDistinctIds :
      (ids : List ℤ) → IsSorted ltb_ℤ ids → HasDistinctIds (docs_by_ids idx ids)
  unfolding docs_by_ids
  docs_by_ids-HasDistinctIds [] s = tt
  docs_by_ids-HasDistinctIds (j ∷ ids) s = elim (Option-cases (lookup j idx.docs)) [
    | inl e ↦ rw e (docs_by_ids-HasDistinctIds ids s.1)
    | inr (c, e) ↦ rw e (
      All-of_Elem _ (docs_by_ids idx ids) (λ d m p. cc (
        rw (← keyed j c e) at (All_elem _ _ (docs_by_ids_above j ids s.0) d m),
        p,
        ltb_ℤ_irrefl c.id,
      )),
      docs_by_ids-HasDistinctIds ids s.1,
    )
  ]

pub candidates-HasDistinctIds :
    (comics : List Comics) (toks : List String)
    → HasDistinctIds comics
    → HasDistinctIds (docs_by_ids (build comics) (docs_for_tokens (build comics) toks))
candidates-HasDistinctIds comics toks d =
    docs_by_ids-HasDistinctIds (build comics) (λ i c found. ((build_docs comics i c d).0 found).1)
      (docs_for_tokens (build comics) toks) (docs_for_tokens-IsSorted (build comics) toks)
