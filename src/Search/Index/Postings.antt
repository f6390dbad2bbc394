-- ===== src/Search/Index/Postings.antt =====
-- What the index holds after `build`: postings and documents, by the comics that were given.
use microservice_comics.Base.{
  string_eq, int_eq, ℤ, String, List, [], ◌∷◌, ◌++◌, ◌≡◌, ◌≢◌, ◌↔◌, ◌⊎◌, inl, inr, refl, ap, ◌∙◌,
  true, false, arith, if◌then◌else◌, Bool-cases, Elem, Elem-append, Elem-put, has→Elem, has, ◌==◌,
  ==→≡, ==_refl, put, lookup, insert, lookup-insert,
}
use microservice_comics.Search.Model.{Comics, tokens_of}
use microservice_comics.Search.Index.{
  postings, Building, add, add_all, add_comic, tokens_from, build,
}

-- While the tokens of one comic are added: a token that was seen has its posting.
abbrev IsRecorded : ℤ → Building → Type 0
IsRecorded id b = (t : String) → Elem t b.seen → Elem id (postings t b.by_token)

-- The postings of `t` after the tokens `toks` of `id` were added.
abbrev Posted : ℤ → List String → Building → Building → Type 0
Posted id toks b b' =
    (t : String) (i : ℤ)
    → Elem i (postings t b'.by_token)
      ↔ (Elem i (postings t b.by_token) ⊎ ((i ≡ id) × (t ≢ "") × Elem t toks))

postings-insert :
    (tok t : String) (id : ℤ) (m : List (String × List ℤ))
    → postings t (insert tok (postings tok m ++ id ∷ []) m)
      ≡ (if tok == t then postings tok m ++ id ∷ [] else postings t m)
unfolding postings
postings-insert tok t id m = elim (Bool-cases (tok == t)) [
  | inl e ↦ rw e (rw (lookup-insert tok t (postings tok m ++ id ∷ []) m, e) refl)
  | inr e ↦ rw e (rw (lookup-insert tok t (postings tok m ++ id ∷ []) m, e) refl)
]

add_empty : (id : ℤ) (tok : String) (b : Building) → (tok == "") ≡ true → add id tok b ≡ b
unfolding add
add_empty id tok b e = rw e refl

add_seen : (id : ℤ) (tok : String) (b : Building) → has b.seen tok ≡ true → add id tok b ≡ b
unfolding add
add_seen id tok b s = ground arith

add_new :
    (id : ℤ) (tok : String) (b : Building)
    → (tok == "") ≡ false
    → has b.seen tok ≡ false
    → add id tok b ≡ record {
      seen = put tok b.seen;
      by_token = insert tok (postings tok b.by_token ++ id ∷ []) b.by_token;
    }
unfolding add
add_new id tok b e s = ground arith

Posted-same :
    (id : ℤ) (tok : String) (b : Building)
    → ((t : String) → t ≢ "" → t ≡ tok → Elem id (postings t b.by_token))
    → Posted id (tok ∷ []) b b
Posted-same id tok b known t i = (
  inl,
  λ m. elim m [
    | inl h ↦ h
    | inr (same, full, here) ↦ rw same (known t full (elim here [ inl e ↦ e | inr z ↦ absurd z ]))
  ],
)

Posted-new :
    (id : ℤ) (tok : String) (b : Building) (seen : List String)
    → tok ≢ ""
    → Posted id (tok ∷ []) b (record {
      seen = seen;
      by_token = insert tok (postings tok b.by_token ++ id ∷ []) b.by_token;
    })
Posted-new id tok b seen full t i = elim (Bool-cases (tok == t)) [
  | inl e ↦
      let same : tok ≡ t = ==→≡ tok t e in
      rw (postings-insert tok t id b.by_token) (
        rw e (
          rw (← same) (
            λ m. elim ((Elem-append i (postings tok b.by_token) (id ∷ [])).0 m) [
              | inl h ↦ inl h
              | inr h ↦ elim h [ inl p ↦ inr (p, full, inl refl) | inr z ↦ absurd z ]
            ],
            λ m.
                (Elem-append i (postings tok b.by_token) (id ∷ [])).1
                  (elim m [ inl h ↦ inl h | inr h ↦ inr (inl h.0) ]),
          )))
  | inr e ↦ rw (postings-insert tok t id b.by_token) (
      rw e (
        inl,
        λ m. elim m [
          | inl h ↦ h
          | inr (p, q, here) ↦ elim here [
            | inl r ↦ absurd (cc (==_refl tok, e, r))
            | inr z ↦ absurd z
          ]
        ],
      ))
]

add_Posted :
    (id : ℤ) (tok : String) (b : Building) → IsRecorded id b → Posted id (tok ∷ []) b (add id tok b)
add_Posted id tok b r = elim (Bool-cases (tok == "")) [
  | inl e ↦
      rw (add_empty id tok b e)
        (Posted-same id tok b (λ t full same. absurd (full (same ∙ ==→≡ tok "" e))))
  | inr e ↦ elim (Bool-cases (has b.seen tok)) [
    | inl s ↦
        rw (add_seen id tok b s)
          (Posted-same id tok b (λ t full same. r t (rw same (has→Elem b.seen tok s))))
    | inr s ↦
        rw (add_new id tok b e s)
          (Posted-new id tok b (put tok b.seen) (λ p. cc (==_refl tok, e, p)))
  ]
]

add_seen_iff :
    (id : ℤ) (tok : String) (b : Building) (t : String)
    → Elem t (add id tok b).seen
    → Elem t b.seen ⊎ ((t ≢ "") × (t ≡ tok))
unfolding add
add_seen_iff id tok b t m = elim (Bool-cases (tok == "")) [
  | inl e ↦ inl (rw (add_empty id tok b e) at m)
  | inr e ↦ elim (Bool-cases (has b.seen tok)) [
    | inl s ↦ inl (rw (add_seen id tok b s) at m)
    | inr s ↦ elim ((Elem-put t tok b.seen).0 (rw (add_new id tok b e s) at m)) [
      | inl h ↦ inl h
      | inr p ↦ inr ((λ q. cc (==_refl tok, e, p, q)), p)
    ]
  ]
]

add_IsRecorded :
    (id : ℤ) (tok : String) (b : Building) → IsRecorded id b → IsRecorded id (add id tok b)
add_IsRecorded id tok b r t m = (add_Posted id tok b r t id).1 (elim (add_seen_iff id tok b t m) [
  | inl h ↦ inl (r t h)
  | inr (full, same) ↦ inr (refl, full, inl same)
])

add_all-Posted :
    (id : ℤ) (toks : List String) (b : Building)
    → IsRecorded id b
    → Posted id toks b (add_all id toks b)
unfolding add_all
add_all-Posted id [] b r t i = (inl, λ m. elim m [ inl h ↦ h | inr (p, q, z) ↦ absurd z ])
add_all-Posted id (tok ∷ toks) b r t i = ground (
  arith,
  add_Posted id tok b r t i,
  add_all-Posted id toks (add id tok b) (add_IsRecorded id tok b r) t i,
)

add_all-append :
    (id : ℤ) (xs ys : List String) (b : Building)
    → add_all id ys (add_all id xs b) ≡ add_all id (xs ++ ys) b
unfolding add_all
add_all-append id [] ys b = refl
add_all-append id (x ∷ xs) ys b = add_all-append id xs ys (add id x b)

add_comic-add_all :
    (c : Comics) (m : List (String × List ℤ))
    → add_comic c m ≡ (add_all c.id (tokens_of c) (record { seen = []; by_token = m })).by_token
unfolding add_comic
add_comic-add_all c m =
    let start : Building = record { seen = []; by_token = m } in
    ap (λ (b : Building). b.by_token)
      (add_all-append c.id c.alt c.words (add_all c.id c.title start)
        ∙ add_all-append c.id c.title (c.alt ++ c.words) start)

-- One comic: its id is added to the postings of its non-empty tokens, and to no others.
add_comic-postings :
    (c : Comics) (m : List (String × List ℤ)) (t : String) (i : ℤ)
    → Elem i (postings t (add_comic c m))
      ↔ (Elem i (postings t m) ⊎ ((i ≡ c.id) × (t ≢ "") × Elem t (tokens_of c)))
add_comic-postings c m t i =
    rw (add_comic-add_all c m) (add_all-Posted c.id (tokens_of c) _ (λ u z. absurd z) t i)

-- A comic of the list that has the id and the token.
abbrev pub HasToken : List Comics → String → ℤ → Type 0
HasToken comics t i = (c : Comics) × Elem c comics × (i ≡ c.id) × (t ≢ "") × Elem t (tokens_of c)

tokens_from-postings :
    (m : List (String × List ℤ)) (comics : List Comics) (t : String) (i : ℤ)
    → Elem i (postings t (tokens_from m comics)) ↔ (Elem i (postings t m) ⊎ HasToken comics t i)
unfolding tokens_from
tokens_from-postings m [] t i = (inl, λ h. elim h [ inl p ↦ p | inr k ↦ absurd k.1 ])
tokens_from-postings m (c ∷ cs) t i =
    let (to, from) = tokens_from-postings (add_comic c m) cs t i in
    let (to_one, from_one) = add_comic-postings c m t i in
    (
      λ h. elim (to h) [
        | inl p ↦ elim (to_one p) [ inl q ↦ inl q | inr q ↦ inr (c, inl refl, q.0, q.1, q.2) ]
        | inr (d, here, same, full, k) ↦ inr (d, inr here, same, full, k)
      ],
      λ h. from (elim h [
        | inl p ↦ inl (from_one (inl p))
        | inr (d, here, same, full, k) ↦ elim here [
          | inl e ↦ inl (from_one (inr (cc, full, rw e at k)))
          | inr later ↦ inr (d, later, same, full, k)
        ]
      ]),
    )

-- After `build` the postings of a token are the ids of the comics that have it; the empty token
-- has none.
pub build-postings :
    (comics : List Comics) (t : String) (i : ℤ)
    → Elem i (postings t (build comics).by_token) ↔ HasToken comics t i
unfolding build postings lookup
build-postings comics t i =
    let (to, from) = tokens_from-postings [] comics t i in
    (λ h. elim (to h) [ inl z ↦ absurd z | inr k ↦ k ], λ h. from (inr h))
