-- ===== src/Search/Index/Candidates.antt =====
-- Which comics the index gives for a list of tokens.
use microservice_comics.Base.{
  string_eq, int_eq, ℤ, String, List, [], ◌∷◌, ◌≡◌, ◌≢◌, ◌↔◌, ◌⊎◌, inl, inr, refl, sym, ap, ◌∙◌,
  some, arith, Bool-cases, Option-cases, Elem, Elem-put, All, ◌==◌, ==→≡, ==_refl, put, lookup,
  insert, lookup-insert, Elem-sort_by, ltb_ℤ,
}
use microservice_comics.Search.Model.{Comics, tokens_of, HasDistinctIds}
use microservice_comics.Search.Index.{
  InvertedIndex, postings, docs_from, build, put_all, collect, docs_for_tokens, docs_by_ids,
}
use microservice_comics.Search.Index.Postings.{build-postings}

docs_from_other :
    (id : ℤ) (docs : List (ℤ × Comics)) (cs : List Comics)
    → All (λ d. id ≢ d.id) cs
    → lookup id (docs_from docs cs) ≡ lookup id docs
unfolding docs_from
docs_from_other id docs [] h = refl
docs_from_other id docs (c ∷ cs) h =
    docs_from_other id (insert c.id c docs) cs h.1
    ∙ (lookup-insert c.id id c docs ∙ (elim (Bool-cases (c.id == id)) [
      | inl e ↦ absurd (h.0 (sym (==→≡ c.id id e)))
      | inr e ↦ rw e refl
    ]))

docs_from_listed :
    (c : Comics) (docs : List (ℤ × Comics)) (cs : List Comics)
    → HasDistinctIds cs
    → Elem c cs
    → lookup c.id (docs_from docs cs) ≡ some c
unfolding docs_from
docs_from_listed c docs [] d m = absurd m
docs_from_listed c docs (x ∷ cs) d (inl e) = rw e (
    docs_from_other x.id (insert x.id x docs) cs d.0
    ∙ (lookup-insert x.id x.id x docs ∙ rw (==_refl x.id) refl))
docs_from_listed c docs (x ∷ cs) d (inr m) = docs_from_listed c (insert x.id x docs) cs d.1 m

docs_from_found :
    (id : ℤ) (c : Comics) (docs : List (ℤ × Comics)) (cs : List Comics)
    → lookup id (docs_from docs cs) ≡ some c
    → (Elem c cs × (c.id ≡ id)) ⊎ (lookup id docs ≡ some c)
unfolding docs_from
docs_from_found id c docs [] h = inr h
docs_from_found id c docs (x ∷ cs) h = elim (docs_from_found id c (insert x.id x docs) cs h) [
  | inl (m, e) ↦ inl (inr m, e)
  | inr k ↦
      let l = sym (lookup-insert x.id id x docs) ∙ k in
      elim (Bool-cases (x.id == id)) [
        | inl e ↦
            let same : x ≡ c = cc (rw e at l) in
            inl (inl (sym same), ap (λ (y : Comics). y.id) (sym same) ∙ ==→≡ x.id id e)
        | inr e ↦ inr (rw e at l)
      ]
]

-- With distinct ids, after `build` the documents are the given comics, by their ids.
pub build_docs :
    (comics : List Comics) (id : ℤ) (c : Comics)
    → HasDistinctIds comics
    → (lookup id (build comics).docs ≡ some c) ↔ (Elem c comics × (c.id ≡ id))
unfolding build lookup
build_docs comics id c d = (
  λ h. elim (docs_from_found id c [] comics h) [ inl k ↦ k | inr k ↦ cc ],
  λ h. rw (← h.1) (docs_from_listed c [] comics d h.0),
)

Elem-put_all : (i : ℤ) (set ids : List ℤ) → Elem i (put_all set ids) ↔ (Elem i set ⊎ Elem i ids)
unfolding put_all
Elem-put_all i set [] = (inl, λ m. elim m [ inl h ↦ h | inr z ↦ absurd z ])
Elem-put_all i set (id ∷ ids) = ground (arith, Elem-put i id set, Elem-put_all i (put id set) ids)

-- A token of the list whose postings hold the id.
abbrev HasPosting : InvertedIndex → List String → ℤ → Type 0
HasPosting idx toks i = (t : String) × Elem t toks × Elem i (postings t idx.by_token)

Elem-collect :
    (i : ℤ) (idx : InvertedIndex) (set : List ℤ) (toks : List String)
    → Elem i (collect idx set toks) ↔ (Elem i set ⊎ HasPosting idx toks i)
unfolding collect
Elem-collect i idx set [] = (inl, λ m. elim m [ inl h ↦ h | inr k ↦ absurd k.1 ])
Elem-collect i idx set (tok ∷ toks) =
    let (to, from) = Elem-collect i idx (put_all set (postings tok idx.by_token)) toks in
    let (to_one, from_one) = Elem-put_all i set (postings tok idx.by_token) in
    (
      λ m. elim (to m) [
        | inl h ↦ elim (to_one h) [ inl p ↦ inl p | inr p ↦ inr (tok, inl refl, p) ]
        | inr k ↦ inr (k.0, inr k.1, k.2)
      ],
      λ m. from (elim m [
        | inl h ↦ inl (from_one (inl h))
        | inr (t, here, p) ↦ elim here [
          | inl e ↦ inl (from_one (inr (rw e at p)))
          | inr later ↦ inr (t, later, p)
        ]
      ]),
    )

Elem-docs_for_tokens :
    (i : ℤ) (idx : InvertedIndex) (toks : List String)
    → Elem i (docs_for_tokens idx toks) ↔ HasPosting idx toks i
unfolding docs_for_tokens
Elem-docs_for_tokens i idx [] = (λ m. absurd m, λ k. absurd k.1)
Elem-docs_for_tokens i idx (tok ∷ toks) =
    let (to, from) = Elem-collect i idx [] (tok ∷ toks) in
    let (to_sorted, from_sorted) = Elem-sort_by ltb_ℤ i (collect idx [] (tok ∷ toks)) in
    (λ m. elim (to (to_sorted m)) [ inl z ↦ absurd z | inr k ↦ k ], λ k. from_sorted (from (inr k)))

Elem-docs_by_ids :
    (c : Comics) (idx : InvertedIndex) (ids : List ℤ)
    → Elem c (docs_by_ids idx ids) ↔ ((i : ℤ) × Elem i ids × (lookup i idx.docs ≡ some c))
unfolding docs_by_ids
Elem-docs_by_ids c idx [] = (λ m. absurd m, λ k. absurd k.1)
Elem-docs_by_ids c idx (id ∷ ids) =
    let (to, from) = Elem-docs_by_ids c idx ids in
    elim (Option-cases (lookup id idx.docs)) [
      | inl e ↦ rw e (
        λ m. (let k = to m in (k.0, inr k.1, k.2)),
        λ (i, here, found). elim here [
          | inl same ↦ absurd (cc (rw same at found))
          | inr later ↦ from (i, later, found)
        ],
      )
      | inr (d, e) ↦ rw e (
        λ m. elim m [
          | inl same ↦ (id, inl refl, cc)
          | inr later ↦ (let k = to later in (k.0, inr k.1, k.2))
        ],
        λ (i, here, found). elim here [
          | inl same ↦ inl (cc (rw same at found))
          | inr later ↦ inr (from (i, later, found))
        ],
      )
    ]

-- The comic has a non-empty token of the list.
abbrev pub HasAnyToken : Comics → List String → Type 0
HasAnyToken c toks = (t : String) × Elem t toks × (t ≢ "") × Elem t (tokens_of c)

-- With distinct ids, the candidates of a search by the index are the comics with a non-empty token
-- of the query.
pub build_candidates :
    (comics : List Comics) (toks : List String) (c : Comics)
    → HasDistinctIds comics
    → Elem c (docs_by_ids (build comics) (docs_for_tokens (build comics) toks))
      ↔ (Elem c comics × HasAnyToken c toks)
build_candidates comics toks c d =
    let idx = build comics in
    let (to, from) = Elem-docs_by_ids c idx (docs_for_tokens idx toks) in
    (
      λ m.
          let (i, listed, found) = to m in
          let (member, same) = (build_docs comics i c d).0 found in
          let (t, asked, posted) = (Elem-docs_for_tokens i idx toks).0 listed in
          let (c', member', same', full, k) = (build-postings comics t i).0 posted in
          let one : c' ≡ c =
            cc (rw (← same') at ((build_docs comics c'.id c' d).1 (member', refl)), found) in
          (member, (t, asked, full, rw one at k)),
      λ (member, (t, asked, full, k)). from (
        c.id,
        (Elem-docs_for_tokens c.id idx toks).1
            (t, asked, (build-postings comics t c.id).1 (c, member, refl, full, k)),
        (build_docs comics c.id c d).1 (member, refl),
      ),
    )
