-- ===== src/Base/Sort.antt =====
-- `sort.Slice` and `sort.Ints`: a sort by a Boolean `less`, and why its result is unique.
use mathlib.Core.Bool.{Bool, true, false}
use mathlib.Core.List.{List, [], ◌∷◌}
use mathlib.Core.Logic.{◌↔◌, ◌⊎◌, inl, inr}
use mathlib.Core.Path.{◌≡◌, refl, sym, ap, ap₂, ◌∙◌}
use Prim.Native.Nat.{suc}
use native.Mathlib.Omega.{arith}
use microservice_comics.Base.Lists.{length, All, All_elem, All-of_Elem, Elem}
use microservice_comics.Base.Tests.{if◌then◌else◌, Bool-cases}

module _ {A : Type 0} (less : A → A → Bool) where
  unfoldable pub insert_by : A → List A → List A
  insert_by x [] = x ∷ []
  insert_by x (y ∷ ys) = if less y x then y ∷ insert_by x ys else x ∷ y ∷ ys

  unfoldable pub sort_by : List A → List A
  unfolding insert_by
  sort_by [] = []
  sort_by (x ∷ xs) = insert_by x (sort_by xs)

  -- Every element is `less` than all that follow it.
  abbrev pub IsSorted : List A → Type 0
  IsSorted [] = Unit
  IsSorted (x ∷ xs) = All (λ y. less x y ≡ true) xs × IsSorted xs

  -- Of any two elements at different places one is `less` than the other.
  abbrev pub IsDistinct : List A → Type 0
  IsDistinct [] = Unit
  IsDistinct (x ∷ xs) = All (λ y. (less x y ≡ true) ⊎ (less y x ≡ true)) xs × IsDistinct xs

  pub Elem-insert_by : (a x : A) (xs : List A) → Elem a (insert_by x xs) ↔ ((a ≡ x) ⊎ Elem a xs)
  unfolding insert_by
  Elem-insert_by a x [] = ((λ m. m), λ m. m)
  Elem-insert_by a x (y ∷ ys) = ground (arith, Elem-insert_by a x ys)

  -- Sorting keeps the elements.
  pub Elem-sort_by : (a : A) (xs : List A) → Elem a (sort_by xs) ↔ Elem a xs
  unfolding sort_by
  Elem-sort_by a [] = ((λ m. m), λ m. m)
  Elem-sort_by a (x ∷ xs) = ground (arith, Elem-insert_by a x (sort_by xs), Elem-sort_by a xs)

  length-insert_by : (x : A) (xs : List A) → length (insert_by x xs) ≡ suc (length xs)
  unfolding insert_by
  length-insert_by x [] = refl
  length-insert_by x (y ∷ ys) = ground (arith, length-insert_by x ys)

  pub length-sort_by : (xs : List A) → length (sort_by xs) ≡ length xs
  unfolding sort_by
  length-sort_by [] = refl
  length-sort_by (x ∷ xs) = length-insert_by x (sort_by xs) ∙ ap suc (length-sort_by xs)

  module _ (trans : (a b c : A) → less a b ≡ true → less b c ≡ true → less a c ≡ true)
      (irrefl : (a : A) → less a a ≡ false) where
    insert_by-IsSorted :
        (x : A) (xs : List A)
        → All (λ y. (less x y ≡ true) ⊎ (less y x ≡ true)) xs
        → IsSorted xs
        → IsSorted (insert_by x xs)
    unfolding insert_by
    insert_by-IsSorted x [] d s = (tt, tt)
    insert_by-IsSorted x (y ∷ ys) d s = elim (Bool-cases (less y x)) [
      | inl before ↦
          rw (before, insert_by)
            (
              All-of_Elem _ (insert_by x ys) (λ a m. elim ((Elem-insert_by a x ys).0 m) [
                | inl same ↦ rw same before
                | inr old ↦ All_elem _ ys s.0 a old
              ]),
              insert_by-IsSorted x ys d.1 s.1,
            )
      | inr after ↦
          let first : less x y ≡ true = ground arith in
          rw (after, insert_by)
            ((first, All-of_Elem _ ys (λ a m. trans x y a first (All_elem _ ys s.0 a m))), s)
    ]

    pub sort_by-IsSorted : (xs : List A) → IsDistinct xs → IsSorted (sort_by xs)
    unfolding sort_by
    sort_by-IsSorted [] d = tt
    sort_by-IsSorted (x ∷ xs) d =
        insert_by-IsSorted x (sort_by xs)
          (All-of_Elem _ (sort_by xs) (λ a m. All_elem _ xs d.0 a ((Elem-sort_by a xs).0 m)))
          (sort_by-IsSorted xs d.1)

    above_head :
        (x y : A) (xs : List A) → IsSorted (x ∷ xs) → Elem y (x ∷ xs) → (y ≡ x) ⊎ (less x y ≡ true)
    above_head x y xs s (inl e) = inl e
    above_head x y xs s (inr m) = inr (All_elem _ xs s.0 y m)

    below_itself : (x y : A) → less x y ≡ true → less y x ≡ true → ⊥
    below_itself x y h k = cc (trans x y x h k, irrefl x)

    heads_eq :
        (x y : A) (xs ys : List A)
        → IsSorted (x ∷ xs)
        → IsSorted (y ∷ ys)
        → Elem y (x ∷ xs)
        → Elem x (y ∷ ys)
        → x ≡ y
    heads_eq x y xs ys s t m n = elim (above_head x y xs s m) [
      | inl e ↦ sym e
      | inr h ↦ elim (above_head y x ys t n) [ inl e ↦ e | inr k ↦ absurd (below_itself x y h k) ]
    ]

    tail-Elem :
        (x a : A) (xs ys : List A) → IsSorted (x ∷ xs) → Elem a xs → Elem a (x ∷ ys) → Elem a ys
    tail-Elem x a xs ys s m (inl e) = absurd (cc (All_elem _ xs s.0 a m, irrefl x, e))
    tail-Elem x a xs ys s m (inr k) = k

    -- A sorted list is determined by its elements.
    pub IsSorted-unique :
        (xs ys : List A) → IsSorted xs → IsSorted ys → ((a : A) → Elem a xs ↔ Elem a ys) → xs ≡ ys
    IsSorted-unique [] [] s t h = refl
    IsSorted-unique [] (y ∷ ys) s t h = absurd ((h y).1 (inl refl))
    IsSorted-unique (x ∷ xs) [] s t h = absurd ((h x).0 (inl refl))
    IsSorted-unique (x ∷ xs) (y ∷ ys) s t h =
        let heads : x ≡ y = heads_eq x y xs ys s t ((h y).1 (inl refl)) ((h x).0 (inl refl)) in
        ap₂ ◌∷◌ heads (
          IsSorted-unique xs ys s.1 t.1 (λ a. (
            (λ m. tail-Elem x a xs ys s m (rw (← heads) at ((h a).0 (inr m)))),
            (λ m. tail-Elem y a ys xs t m (rw heads at ((h a).1 (inr m)))),
          )))
