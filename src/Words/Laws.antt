-- ===== src/Words/Laws.antt =====
-- What `Norm` returns.
use microservice_comics.Base.{
  true, false, List, [], ◌∷◌, ◌++◌, ◌≡◌, ◌≢◌, ◌↔◌, ◌⊎◌, inl, inr, refl, sym, has, put, has→Elem,
  Elem→has, Elem-put, Elem, Elem-append, All, All-append, text_eq, Bool-cases,
}
use microservice_comics.Words.Service.{
  Text, Snowball, Output, is_digits, or_word, add_word, take_token, take_tokens, tokens_of, norm,
}

-- No word twice.
abbrev pub HasDistinctWords : List Text → Type 0
HasDistinctWords [] = Unit
HasDistinctWords (w ∷ ws) = All (λ v. w ≢ v) ws × HasDistinctWords ws

-- The loop's invariant: `seen` has the words of `out`, each of which is there once.
record IsOutput (o : Output) : Type 0 where
  same : (w : Text) → Elem w o.seen ↔ Elem w o.out
  distinct : HasDistinctWords o.out

distinct_end :
    (w : Text) (ws : List Text)
    → ¬ Elem w ws
    → HasDistinctWords ws
    → HasDistinctWords (ws ++ w ∷ [])
distinct_end w [] new d = (tt, tt)
distinct_end w (v ∷ ws) new d = (
  All-append _ ws (w ∷ []) d.0 (λ e. new (inl (sym e)), tt),
  distinct_end w ws (λ m. new (inr m)) d.1,
)

grown :
    (w : Text) (o : Output)
    → IsOutput o
    → ¬ Elem w o.out
    → IsOutput (record { out = o.out ++ w ∷ []; seen = put w o.seen })
grown w o good fresh = record {
  same = λ v. (
    λ m. (Elem-append v o.out (w ∷ [])).1 (elim ((Elem-put v w o.seen).0 m) [
      | inl h ↦ inl ((good.same v).0 h)
      | inr e ↦ inr (inl e)
    ]),
    λ m. (Elem-put v w o.seen).1 (elim ((Elem-append v o.out (w ∷ [])).0 m) [
      | inl h ↦ inl ((good.same v).1 h)
      | inr k ↦ elim k [ inl e ↦ inr e | inr z ↦ absurd z ]
    ]),
  );
  distinct = distinct_end w o.out fresh good.distinct;
}

add_word-IsOutput : (w : Text) (o : Output) → IsOutput o → IsOutput (add_word w o)
add_word-IsOutput w o good = elim (Bool-cases (has o.seen w)) [
  | inl old ↦ rw old good
  | inr new ↦
      let fresh : ¬ Elem w o.out = λ m. cc (new, Elem→has o.seen w ((good.same w).1 m)) in
      rw new (rw new at (grown w o good fresh))
]

-- What a token contributes.
abbrev pub Gives : Snowball → Text → Text → Type 0
Gives snowball t w =
    (t ≢ [])
    × (((is_digits t ≡ true) × (w ≡ t))
        ⊎ ((is_digits t ≡ false)
            × (snowball.is_stop_word t ≡ false)
            × (w ≡ or_word t (snowball.stem t))))

Elem-add_word :
    (v w : Text) (o : Output) → IsOutput o → Elem v (add_word w o).out ↔ (Elem v o.out ⊎ (v ≡ w))
Elem-add_word v w o good = elim (Bool-cases (has o.seen w)) [
  | inl old ↦
      rw old
        (inl, λ m. elim m [ inl h ↦ h | inr e ↦ rw e ((good.same w).0 (has→Elem o.seen w old)) ])
  | inr new ↦ rw new (
    λ m. elim ((Elem-append v o.out (w ∷ [])).0 m) [
      | inl h ↦ inl h
      | inr k ↦ elim k [ inl e ↦ inr e | inr z ↦ absurd z ]
    ],
    λ m. (Elem-append v o.out (w ∷ [])).1 (elim m [ inl h ↦ inl h | inr e ↦ inr (inl e) ]),
  )
]

module _ (snowball : Snowball) where
  take_token-IsOutput : (t : Text) (o : Output) → IsOutput o → IsOutput (take_token snowball t o)
  unfolding take_token
  take_token-IsOutput [] o good = good
  take_token-IsOutput (c ∷ s) o good = elim (Bool-cases (is_digits (c ∷ s))) [
    | inl e ↦ rw e (add_word-IsOutput (c ∷ s) o good)
    | inr e ↦ rw e (elim (Bool-cases (snowball.is_stop_word (c ∷ s))) [
      | inl f ↦ rw f good
      | inr f ↦ rw f (add_word-IsOutput (or_word (c ∷ s) (snowball.stem (c ∷ s))) o good)
    ])
  ]

  take_tokens-IsOutput :
      (ts : List Text) (o : Output) → IsOutput o → IsOutput (take_tokens snowball ts o)
  unfolding take_tokens
  take_tokens-IsOutput [] o good = good
  take_tokens-IsOutput (t ∷ ts) o good =
      take_tokens-IsOutput ts (take_token snowball t o) (take_token-IsOutput t o good)

  -- No word comes twice, whatever the phrase and the stemmer are.
  pub norm-HasDistinctWords : (phrase : Text) → HasDistinctWords (norm snowball phrase)
  unfolding norm
  norm-HasDistinctWords phrase =
      (take_tokens-IsOutput (tokens_of phrase) (record { out = []; seen = [] })
        (record { same = λ w. (λ m. m, λ m. m); distinct = tt })).distinct

  Elem-take_token :
      (w t : Text) (o : Output)
      → IsOutput o
      → Elem w (take_token snowball t o).out ↔ (Elem w o.out ⊎ Gives snowball t w)
  unfolding take_token
  Elem-take_token w [] o good = (inl, λ m. elim m [ inl h ↦ h | inr g ↦ absurd (g.0 refl) ])
  Elem-take_token w (c ∷ s) o good = elim (Bool-cases (is_digits (c ∷ s))) [
    | inl e ↦
        let (to, from) = Elem-add_word w (c ∷ s) o good in
        rw e (
          λ m. elim (to m) [ inl h ↦ inl h | inr same ↦ inr (λ z. cc, inl (refl, same)) ],
          λ m. elim m [
            | inl h ↦ from (inl h)
            | inr g ↦ from (inr (elim g.1 [ inl d ↦ d.1 | inr d ↦ absurd (cc (d.0)) ]))
          ],
        )
    | inr e ↦ elim (Bool-cases (snowball.is_stop_word (c ∷ s))) [
      | inl f ↦ rw e (
          rw f (
            inl,
            λ m. elim m [
              | inl h ↦ h
              | inr g ↦ absurd (elim g.1 [ inl d ↦ cc (d.0) | inr d ↦ cc (d.1) ])
            ],
          ))
      | inr f ↦
          let (to, from) = Elem-add_word w (or_word (c ∷ s) (snowball.stem (c ∷ s))) o good in
          rw e (
            rw f (
              λ m. elim (to m) [ inl h ↦ inl h | inr same ↦ inr (λ z. cc, inr (refl, refl, same)) ],
              λ m. elim m [
                | inl h ↦ from (inl h)
                | inr g ↦ from (inr (elim g.1 [ inl d ↦ absurd (cc (d.0)) | inr d ↦ d.2 ]))
              ],
            ))
    ]
  ]

  Elem-take_tokens :
      (w : Text) (ts : List Text) (o : Output)
      → IsOutput o
      → Elem w (take_tokens snowball ts o).out
        ↔ (Elem w o.out ⊎ ((t : Text) × Elem t ts × Gives snowball t w))
  unfolding take_tokens
  Elem-take_tokens w [] o good = (inl, λ m. elim m [ inl h ↦ h | inr g ↦ absurd g.1 ])
  Elem-take_tokens w (u ∷ ts) o good =
      let (later, from_later) =
        Elem-take_tokens w ts (take_token snowball u o) (take_token-IsOutput u o good) in
      let (now, from_now) = Elem-take_token w u o good in
      (
        λ m. elim (later m) [
          | inl h ↦ elim (now h) [ inl old ↦ inl old | inr g ↦ inr (u, inl refl, g) ]
          | inr (t, here, g) ↦ inr (t, inr here, g)
        ],
        λ m. elim m [
          | inl old ↦ from_later (inl (from_now (inl old)))
          | inr (t, here, g) ↦ elim here [
            | inl same ↦ from_later (inl (from_now (inr (rw same at g))))
            | inr there ↦ from_later (inr (t, there, g))
          ]
        ],
      )

  -- The words of a phrase are what its tokens give: a number gives itself, a stop word nothing, and
  -- any other token its stem, or itself if there is none.
  pub norm_words :
      (phrase w : Text)
      → Elem w (norm snowball phrase)
        ↔ ((t : Text) × Elem t (tokens_of phrase) × Gives snowball t w)
  unfolding norm
  norm_words phrase w =
      let (to, from) =
        Elem-take_tokens w (tokens_of phrase) (record { out = []; seen = [] })
          (record { same = λ w. (λ m. m, λ m. m); distinct = tt }) in
      (λ m. elim (to m) [ inl z ↦ absurd z | inr g ↦ g ], λ g. from (inr g))
