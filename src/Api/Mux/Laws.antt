-- ===== src/Api/Mux/Laws.antt =====
-- What a routed request says of the patterns.
use microservice_comics.Base.{
  string_eq, ℕ, String, Bool, true, false, List, [], ◌∷◌, map, Option, none, some, ◌==◌, ==→≡, leb,
  ◌≡◌, ◌⊎◌, inl, inr, refl, sym, ap, ap₂, ◌∙◌, Bool-cases, All,
}
use microservice_comics.Api.Mux.{
  literal, Route, found, path_value, takes_method, with_method, outcome, wildcards, more_specific,
  best_match, routed,
}

-- A path that a pattern of literals matches is the one of these literals.
pub path_value_literals :
    (ls path : List String) (id : String) → path_value (map literal ls) path ≡ some id → path ≡ ls
unfolding path_value
path_value_literals [] [] id h = refl
path_value_literals [] (s ∷ ss) id h = absurd (cc h)
path_value_literals (l ∷ ls) [] id h = absurd (cc h)
path_value_literals (l ∷ ls) (s ∷ ss) id h = elim (Bool-cases (l == s)) [
  | inl e ↦ ap₂ ◌∷◌ (sym (==→≡ l s e)) (path_value_literals ls ss id (rw e at h))
  | inr e ↦ absurd (cc (rw e at h))
]

-- Only POST is taken for POST.
pub post_only : (method : String) → takes_method "POST" method ≡ true → method ≡ "POST"
post_only method h = elim (Bool-cases ("POST" == method)) [
  | inl e ↦ sym (==→≡ "POST" method e)
  | inr e ↦ absurd (cc (rw e at h))
]

module _ {E : Type 0} (P : Route E → Type 0) (method : String) (path : List String) where
  -- A route with `P` that the request matches.
  abbrev Matched : E → String → Type 0
  Matched e id =
      (r : Route E) × P r
      × (r.endpoint ≡ e)
      × (path_value r.pattern path ≡ some id)
      × (takes_method r.method method ≡ true)

  with_method-Matched :
      (r : Route E) (o : Option String) (m : ℕ × E × String)
      → P r
      → path_value r.pattern path ≡ o
      → with_method r method o ≡ some m
      → Matched m.1 m.2
  with_method-Matched r none m p e h = absurd (cc h)
  with_method-Matched r (some id) m p e h = elim (Bool-cases (takes_method r.method method)) [
    | inl t ↦
        let same : (wildcards r.pattern, r.endpoint, id) ≡ m = cc (rw t at h) in
        (
          r,
          p,
          ap (λ (m : ℕ × E × String). m.1) same,
          e ∙ ap (λ (m : ℕ × E × String). some m.2) same,
          t,
        )
    | inr t ↦ absurd (cc (rw t at h))
  ]

  more_specific-cases :
      (m n : Option (ℕ × E × String)) (k : ℕ × E × String)
      → more_specific m n ≡ some k
      → (m ≡ some k) ⊎ (n ≡ some k)
  more_specific-cases none n k h = inr h
  more_specific-cases (some m) none k h = inl h
  more_specific-cases (some m) (some n) k h = elim (Bool-cases (leb m.0 n.0)) [
    | inl e ↦ inl (rw e at h)
    | inr e ↦ inr (rw e at h)
  ]

  best_match-Matched :
      (rs : List (Route E)) (m : ℕ × E × String)
      → All P rs
      → best_match rs method path ≡ some m
      → Matched m.1 m.2
  unfolding best_match
  best_match-Matched [] m ps h = absurd (cc h)
  best_match-Matched (r ∷ rs) m ps h =
      elim (more_specific-cases _ (best_match rs method path) m h) [
        | inl e ↦ with_method-Matched r (path_value r.pattern path) m ps.0 refl e
        | inr e ↦ best_match-Matched rs m ps.1 e
      ]

  outcome_found :
      (b : Bool) (o : Option (ℕ × E × String)) (e : E) (id : String)
      → outcome b o ≡ found e id
      → (n : ℕ) × (o ≡ some (n, e, id))
  outcome_found true none e id h = absurd (cc h)
  outcome_found false none e id h = absurd (cc h)
  outcome_found b (some (n, e', id')) e id h = (n, cc h)

  -- A request that is routed is routed by a pattern that it matches.
  pub routed_found :
      (rs : List (Route E)) (e : E) (id : String)
      → All P rs
      → routed rs method path ≡ found e id
      → Matched e id
  routed_found rs e id ps h =
      let (n, k) = outcome_found _ (best_match rs method path) e id h in
      best_match-Matched rs (n, e, id) ps k
