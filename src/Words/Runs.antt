-- ===== src/Words/Runs.antt =====
-- The tokens of a phrase as the runs of its letters and digits: case, and what stands between the
-- words, do not matter.
use microservice_comics.Base.{
  ℕ, true, false, List, [], ◌∷◌, ◌++◌, map, nat_beq, if◌then◌else◌, All, ◌≡◌, inl, inr, refl, sym,
  ap, ap₂, ◌∙◌, arith, Bool-cases,
}
use microservice_comics.Words.Service.{Text, to_lower, is_alnum, clean, end_word, fields, tokens_of}

-- The maximal runs of letters and digits of ASCII, in lower case, in one pass; `word` is what was
-- read of the current run.
runs : (word : Text) → Text → List Text
runs word [] = end_word word []
runs word (c ∷ s) =
    let longer = runs (word ++ to_lower c ∷ []) s in
    let closed = runs [] s in if is_alnum (to_lower c) then longer else end_word word closed

alnum_no_space : (c : ℕ) → is_alnum c ≡ true → nat_beq c b' ' ≡ false
alnum_no_space c h = ground arith

-- The three passes of the code give the runs.
cleaned :
    (s : Text)
    → ((word : Text) → fields word (clean false s) ≡ runs word s)
      × (fields [] (clean true s) ≡ runs [] s)
unfolding fields clean runs
cleaned [] = (λ word. refl, refl)
cleaned (c ∷ s) =
    let (after_word, after_gap) = cleaned s in
    elim (Bool-cases (is_alnum (to_lower c))) [
      | inl e ↦
          let letter = alnum_no_space (to_lower c) e in
          (
            λ word. rw e (rw letter (after_word (word ++ to_lower c ∷ []))),
            rw e (rw letter (after_word (to_lower c ∷ []))),
          )
      | inr e ↦ (λ word. rw e (ap (end_word word) after_gap), rw e after_gap)
    ]

tokens_of-runs : (s : Text) → tokens_of s ≡ runs [] s
unfolding tokens_of
tokens_of-runs s = (cleaned s).0 []

end_word-append :
    (word : Text) (ws vs : List Text) → end_word word (ws ++ vs) ≡ end_word word ws ++ vs
end_word-append [] ws vs = refl
end_word-append (c ∷ s) ws vs = refl

-- What is neither a letter nor a digit of ASCII, and is not lowered to one.
abbrev pub IsSeparator : ℕ → Type 0
IsSeparator c = is_alnum (to_lower c) ≡ false

runs-append :
    (word s : Text) (c : ℕ) (t : Text)
    → IsSeparator c
    → runs word (s ++ c ∷ t) ≡ runs word s ++ runs [] t
unfolding runs
runs-append word [] c t apart = rw apart (end_word-append word [] (runs [] t))
runs-append word (d ∷ s) c t apart = elim (Bool-cases (is_alnum (to_lower d))) [
  | inl e ↦ rw e (runs-append (word ++ to_lower d ∷ []) s c t apart)
  | inr e ↦ rw e (
      ap (end_word word) (runs-append [] s c t apart)
      ∙ end_word-append word (runs [] s) (runs [] t))
]

runs-separators : (seps t : Text) → All IsSeparator seps → runs [] (seps ++ t) ≡ runs [] t
unfolding runs
runs-separators [] t apart = refl
runs-separators (c ∷ seps) t apart = rw apart.0 (runs-separators seps t apart.1)

to_lower_twice : (c : ℕ) → to_lower (to_lower c) ≡ to_lower c
to_lower_twice c = ground arith

runs-map-to_lower : (word s : Text) → runs word (map to_lower s) ≡ runs word s
unfolding runs
runs-map-to_lower word [] = refl
runs-map-to_lower word (c ∷ s) = rw (to_lower_twice c) (elim (Bool-cases (is_alnum (to_lower c))) [
  | inl e ↦ rw e (runs-map-to_lower (word ++ to_lower c ∷ []) s)
  | inr e ↦ rw e (ap (end_word word) (runs-map-to_lower [] s))
])

-- Two phrases with something between them that is neither a letter nor a digit of ASCII, nor is
-- lowered to one, have the tokens of the one and then those of the other: whatever stands between
-- them, however much of it, and also if the first one is written in lower case.
pub tokens_apart :
    (s : Text) (c : ℕ) (seps t : Text)
    → IsSeparator c
    → All IsSeparator seps
    → (tokens_of (s ++ c ∷ (seps ++ t)) ≡ tokens_of s ++ tokens_of t)
      × (tokens_of (map to_lower s ++ c ∷ (seps ++ t)) ≡ tokens_of s ++ tokens_of t)
tokens_apart s c seps t apart all_apart = (split s, split (map to_lower s) ∙ lowered)
  where
    split : (u : Text) → tokens_of (u ++ c ∷ (seps ++ t)) ≡ tokens_of u ++ tokens_of t
    split u =
        tokens_of-runs (u ++ c ∷ (seps ++ t))
        ∙ (runs-append [] u c (seps ++ t) apart
            ∙ ap₂ ◌++◌ (sym (tokens_of-runs u))
                (runs-separators seps t all_apart ∙ sym (tokens_of-runs t)))

    lowered : tokens_of (map to_lower s) ++ tokens_of t ≡ tokens_of s ++ tokens_of t
    lowered =
        ap (λ (ws : List Text). ws ++ tokens_of t)
          (tokens_of-runs (map to_lower s) ∙ (runs-map-to_lower [] s ∙ sym (tokens_of-runs s)))
