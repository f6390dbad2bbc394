-- ===== src/Base/Eq.antt =====
-- Equality tests as an interface, finite maps and sets over it.
use Prim.Native.String.{String}
use Prim.Native.Nat.{ℕ}
use mathlib.Core.Bool.{Bool, true, false, ◌&&◌}
use mathlib.Core.List.{List, [], ◌∷◌, ◌++◌}
use mathlib.Core.Logic.{◌↔◌, ◌⊎◌, inl, inr}
use mathlib.Core.Option.{Option, none, some}
use mathlib.Core.Path.{◌≡◌, refl, sym}
use native.Mathlib.Omega.{arith}
use text.Mathlib.Text.{◌==◌ as str_eq}
use text.Mathlib.TextEquality.{eq_iff}
use microservice_comics.Base.Int.{ℤ, beq_ℤ, beq_ℤ_iff}
use microservice_comics.Base.Lists.{Elem, Elem-append}
use microservice_comics.Base.Tests.{if◌then◌else◌, Bool-cases, nat_beq, nat_beq_iff}

pub record Eq {ℓ} (A : Type ℓ) : Type ℓ where
  pub beq : A → A → Bool
  pub beq_iff : (x y : A) → (beq x y ≡ true) ↔ (x ≡ y)

instance abbrev pub int_eq : Eq ℤ
int_eq = record { beq = beq_ℤ; beq_iff = beq_ℤ_iff }

-- Texts as lists of code points.
abbrev pub text_beq : List ℕ → List ℕ → Bool
text_beq [] [] = true
text_beq [] (d ∷ t) = false
text_beq (c ∷ s) [] = false
text_beq (c ∷ s) (d ∷ t) = nat_beq c d && text_beq s t

pub text_beq_iff : (s t : List ℕ) → (text_beq s t ≡ true) ↔ (s ≡ t)
text_beq_iff [] [] = ground arith
text_beq_iff [] (d ∷ t) = ground arith
text_beq_iff (c ∷ s) [] = ground arith
text_beq_iff (c ∷ s) (d ∷ t) = ground (arith, text_beq_iff s t)

instance abbrev pub text_eq : Eq (List ℕ)
text_eq = record { beq = text_beq; beq_iff = text_beq_iff }

instance abbrev pub string_eq : Eq String
string_eq = record { beq = str_eq; beq_iff = eq_iff }

instance abbrev pub nat_eq : Eq ℕ
nat_eq = record { beq = nat_beq; beq_iff = nat_beq_iff }

infix 50 ◌==◌
abbrev pub ◌==◌ {ℓ} : {A : Type ℓ} ⦃eq : Eq A⦄ → A → A → Bool
◌==◌ ⦃eq⦄ = eq.beq

module _ {ℓ} {A : Type ℓ} ⦃e : Eq A⦄ where
  pub ==_refl : (a : A) → (a == a) ≡ true
  ==_refl a = (e.beq_iff a a).1 refl

  pub ==→≡ : (a b : A) → (a == b) ≡ true → a ≡ b
  ==→≡ a b h = (e.beq_iff a b).0 h

  -- A Go `map[K]struct{}` or `map[K]bool` of true entries: its keys, each once.
  abbrev pub has : List A → A → Bool
  has [] a = false
  has (x ∷ xs) a = if x == a then true else has xs a

  -- `set[a] = struct{}{}`
  abbrev pub put : A → List A → List A
  put a xs = if has xs a then xs else xs ++ a ∷ []

module _ {A : Type 0} ⦃e : Eq A⦄ where
  pub has→Elem : (xs : List A) (a : A) → has xs a ≡ true → Elem a xs
  has→Elem [] a h = cc
  has→Elem (x ∷ xs) a h = elim (Bool-cases (x == a)) [
    | inl same ↦ inl (sym (==→≡ x a same))
    | inr other ↦ inr (has→Elem xs a (rw other at h))
  ]

  pub Elem→has : (xs : List A) (a : A) → Elem a xs → has xs a ≡ true
  Elem→has [] a m = absurd m
  Elem→has (x ∷ xs) a (inl p) = rw ((e.beq_iff x a).1 (sym p)) refl
  Elem→has (x ∷ xs) a (inr m) = ground (arith, Elem→has xs a m)

  pub Elem-put : (b a : A) (xs : List A) → Elem b (put a xs) ↔ (Elem b xs ⊎ (b ≡ a))
  Elem-put b a xs = elim (Bool-cases (has xs a)) [
    | inl old ↦ rw old (inl, λ m. elim m [ inl h ↦ h | inr p ↦ rw p (has→Elem xs a old) ])
    | inr new ↦ rw new (
      λ m. elim ((Elem-append b xs (a ∷ [])).0 m) [
        | inl h ↦ inl h
        | inr h ↦ elim h [ inl p ↦ inr p | inr z ↦ absurd z ]
      ],
      λ m. (Elem-append b xs (a ∷ [])).1 (elim m [ inl h ↦ inl h | inr p ↦ inr (inl p) ]),
    )
  ]

module _ {ℓ κ} {K : Type ℓ} {V : Type κ} ⦃e : Eq K⦄ where
  -- A Go map as an association list: `m[k]`, and `m[k] = v`.
  unfoldable pub lookup : K → List (K × V) → Option V
  lookup key [] = none
  lookup key ((other, value) ∷ rest) = if other == key then some value else lookup key rest

  unfoldable pub insert : K → V → List (K × V) → List (K × V)
  insert key new [] = (key, new) ∷ []
  insert key new ((other, old) ∷ rest) =
      if other == key then (key, new) ∷ rest else (other, old) ∷ insert key new rest

  pub lookup-insert :
      (key asked : K) (new : V) (entries : List (K × V))
      → lookup asked (insert key new entries)
        ≡ (if key == asked then some new else lookup asked entries)
  unfolding lookup insert
  lookup-insert key asked new [] = refl
  lookup-insert key asked new ((other, old) ∷ rest) = ground (
    arith,
    e.beq_iff key asked,
    e.beq_iff other key,
    e.beq_iff other asked,
    lookup-insert key asked new rest,
  )
