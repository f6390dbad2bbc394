-- ===== src/Search/Rank/Score.antt =====
-- What a score is, and when it is positive.
use microservice_comics.Base.{
  string_eq, ◌<◌, String, Bool, true, List, [], ◌∷◌, ◌++◌, ◌≡◌, ◌≢◌, ◌↔◌, ◌⊎◌, inl, inr, refl, sym,
  ◌∙◌, arith, ◌==◌, ==→≡, ==_refl, has, put, has→Elem, Elem→has, Elem-put, Elem, Elem-append,
  Bool-cases, length, ◌||◌,
}
use microservice_comics.Search.Model.{Comics, tokens_of}
use microservice_comics.Search.Rank.{
  make_set_from, make_set, Tally, tally_token, tally, no_tally, total_score, score_comic,
}
use microservice_comics.Search.Index.Candidates.{HasAnyToken}

Elem-make_set_from :
    (t : String) (m arr : List String)
    → Elem t (make_set_from m arr) ↔ (Elem t m ⊎ ((t ≢ "") × Elem t arr))
unfolding make_set_from
Elem-make_set_from t m [] = (inl, λ h. elim h [ inl k ↦ k | inr k ↦ absurd k.1 ])
Elem-make_set_from t m (v ∷ vs) = elim (Bool-cases (v == "")) [
  | inl e ↦
      let empty : v ≡ "" = ==→≡ v "" e in
      let (to, from) = Elem-make_set_from t m vs in
      rw e (
        λ h. elim (to h) [ inl k ↦ inl k | inr k ↦ inr (k.0, inr k.1) ],
        λ h. from (elim h [
          | inl k ↦ inl k
          | inr (full, here) ↦ elim here [
            | inl p ↦ absurd (full (p ∙ empty))
            | inr later ↦ inr (full, later)
          ]
        ]),
      )
  | inr e ↦
      let full : v ≢ "" = λ p. cc (==_refl v, e, p) in
      let (to, from) = Elem-make_set_from t (put v m) vs in
      let (to_put, from_put) = Elem-put t v m in
      rw e (
        λ h. elim (to h) [
          | inl k ↦ elim (to_put k) [
            | inl old ↦ inl old
            | inr p ↦ inr ((λ q. full (sym p ∙ q)), inl p)
          ]
          | inr k ↦ inr (k.0, inr k.1)
        ],
        λ h. from (elim h [
          | inl k ↦ inl (from_put (inl k))
          | inr (some_text, here) ↦ elim here [
            | inl p ↦ inl (from_put (inr p))
            | inr later ↦ inr (some_text, later)
          ]
        ]),
      )
]

-- `makeSet` holds the non-empty strings of the slice.
pub has-make_set :
    (t : String) (arr : List String) → (has (make_set arr) t ≡ true) ↔ ((t ≢ "") × Elem t arr)
unfolding make_set
has-make_set t arr =
    let (to, from) = Elem-make_set_from t [] arr in
    (
      λ h. elim (to (has→Elem _ t h)) [ inl z ↦ absurd z | inr k ↦ k ],
      λ k. Elem→has _ t (from (inr k)),
    )

-- The token stands in some field of the comic.
abbrev pub matches : Comics → String → Bool
matches c t = has (make_set c.title) t || has (make_set c.alt) t || has (make_set c.words) t

pub matches_iff :
    (c : Comics) (t : String) → (matches c t ≡ true) ↔ ((t ≢ "") × Elem t (tokens_of c))
matches_iff c t = ground (
  arith,
  has-make_set t c.title,
  has-make_set t c.alt,
  has-make_set t c.words,
  Elem-append t c.title (c.alt ++ c.words),
  Elem-append t c.alt c.words,
)

pub tally_token_covered :
    (c : Comics) (u : String) (y : Tally) (t : String)
    → Elem t (tally_token c u y).covered ↔ (Elem t y.covered ⊎ ((t ≡ u) × (matches c u ≡ true)))
unfolding tally_token
tally_token_covered c u y t = elim (Bool-cases (matches c u)) [
  | inl e ↦ rw e (
      let (to, from) = Elem-put t u y.covered in
      (
        λ h. elim (to h) [ inl k ↦ inl k | inr k ↦ inr (k, refl) ],
        λ h. from (elim h [ inl k ↦ inl k | inr k ↦ inr k.0 ]),
      ))
  | inr e ↦ rw e (inl, λ h. elim h [ inl k ↦ k | inr k ↦ cc (k.1) ])
]

Elem-covered :
    (c : Comics) (toks : List String) (y : Tally) (t : String)
    → Elem t (tally c toks y).covered ↔ (Elem t y.covered ⊎ (Elem t toks × (matches c t ≡ true)))
unfolding tally
Elem-covered c [] y t = (inl, λ h. elim h [ inl k ↦ k | inr k ↦ absurd k.0 ])
Elem-covered c (u ∷ us) y t =
    let (to, from) = Elem-covered c us (tally_token c u y) t in
    let (to_one, from_one) = tally_token_covered c u y t in
    (
      λ h. elim (to h) [
        | inl k ↦ elim (to_one k) [ inl old ↦ inl old | inr (p, hit) ↦ inr (inl p, rw p hit) ]
        | inr (later, hit) ↦ inr (inr later, hit)
      ],
      λ h. from (elim h [
        | inl k ↦ inl (from_one (inl k))
        | inr (here, hit) ↦ elim here [
          | inl p ↦ inl (from_one (inr (p, rw p at hit)))
          | inr later ↦ inr (later, hit)
        ]
      ]),
    )

length-eq-zero {ℓ} : {A : Type ℓ} (xs : List A) → length xs ≡ 0 → xs ≡ []
length-eq-zero [] h = refl
length-eq-zero (x ∷ xs) h = absurd (omega arith)

-- A score is positive exactly when the comic has a non-empty token of the query.
pub score_comic-pos_iff :
    (c : Comics) (toks : List String) → (0 < score_comic c toks) ↔ HasAnyToken c toks
unfolding score_comic total_score
score_comic-pos_iff c toks = (
  positive,
  λ (t, asked, full, k).
      covered_pos
        (t, (Elem-covered c toks no_tally t).1 (inr (asked, (matches_iff c t).1 (full, k)))),
)
  where
    y : Tally
    y = tally c toks no_tally

    witness : (l : List String) → 0 < length l → (t : String) × Elem t l
    witness [] h = elim h [ ]
    witness (t ∷ l) h = (t, inl refl)

    positive : 0 < score_comic c toks → HasAnyToken c toks
    positive h =
        let (t, m) = witness y.covered (ground arith) in
        elim ((Elem-covered c toks no_tally t).0 m) [
          | inl z ↦ absurd z
          | inr (asked, hit) ↦ let (full, k) = (matches_iff c t).0 hit in (t, asked, full, k)
        ]

    nonempty : (l : List String) (t : String) → Elem t l → 0 < length l
    nonempty [] t m = absurd m
    nonempty (u ∷ l) t m = omega arith

    covered_pos : ((t : String) × Elem t y.covered) → 0 < score_comic c toks
    covered_pos (t, m) = ground (arith, nonempty y.covered t m)
