-- ===== src/Favorites/Rows.antt =====
-- The favorites as a set of pairs of a user and a comic, and the service over its table.
use microservice_comics.Base.{
  nat_eq, int_eq, ℕ, ◌≤◌, ℤ, Bool, true, false, not, ◌&&◌, ◌||◌, List, [], ◌∷◌, ◌++◌, map, none,
  Result, ok, err, ◌≡◌, ◌↔◌, inl, inr, refl, ap, arith, ◌==◌, Bool-cases, Elem, Elem-sort_by,
  Elem-filter, any, filter, length, nat_beq, is_nonpositive, sort_by, if◌then◌else◌,
}
use microservice_comics.Favorites.Model.{Favorite, Error, already_exists, not_found, invalid_args}
use microservice_comics.Favorites.Storage
use microservice_comics.Favorites.Storage.{Row, Database, is_row, newer, to_favorite, storage}
use microservice_comics.Favorites.Service.{add, delete, list}

-- The table holds the pair.
abbrev pub contains : Database → ℕ → ℤ → Bool
contains d user comic = any (is_row user comic) d.rows

-- The sets of pairs, and what the service promises on them.
abbrev pub Pairs : Type 0
Pairs = ℕ → ℤ → Bool

abbrev pub is_pair : ℕ → ℤ → ℕ → ℤ → Bool
is_pair user comic u c = user == u && comic == c

abbrev pub bad_pair : ℕ → ℤ → Bool
bad_pair user comic = nat_beq user 0 || is_nonpositive comic

abbrev pub set_add : Pairs → ℕ → ℤ → Pairs × Result Error (Unit {0})
set_add f user comic =
    if bad_pair user comic
    then (f, err invalid_args)
    else if f user comic
    then (f, err already_exists)
    else (λ u c. f u c || is_pair user comic u c, ok tt)

abbrev pub set_delete : Pairs → ℕ → ℤ → Pairs × Result Error (Unit {0})
set_delete f user comic =
    if bad_pair user comic
    then (f, err invalid_args)
    else if f user comic
    then (λ u c. f u c && not (is_pair user comic u c), ok tt)
    else (f, err not_found)

any_append : (p : Row → Bool) (rs : List Row) (r : Row) → any p (rs ++ r ∷ []) ≡ (any p rs || p r)
any_append p [] r = ground arith
any_append p (x ∷ rs) r = ground (arith, any_append p rs r)

pub length-filter_iff :
    (p : Row → Bool) (rs : List Row) → nat_beq (length (filter p rs)) 0 ≡ not (any p rs)
length-filter_iff p [] = refl
length-filter_iff p (r ∷ rs) = ground (arith, length-filter_iff p rs)

same_row :
    (user : ℕ) (comic : ℤ) (u : ℕ) (c : ℤ) (r : Row)
    → is_row u c r ≡ true
    → is_row user comic r ≡ is_pair user comic u c
same_row user comic u c r h = ground arith

any-filter-not :
    (user : ℕ) (comic : ℤ) (u : ℕ) (c : ℤ) (rs : List Row)
    → any (is_row u c) (filter (λ r. not (is_row user comic r)) rs)
      ≡ (any (is_row u c) rs && not (is_pair user comic u c))
any-filter-not user comic u c [] = refl
any-filter-not user comic u c (r ∷ rs) =
    ground (arith, any-filter-not user comic u c rs, same_row user comic u c r)

-- While the database answers, `Add` does to the table what adding a pair does to the set, and
-- gives the same reply: invalid arguments, a pair that is there already, or success.
pub add_refines :
    (d : Database) (user : ℕ) (comic : ℤ)
    → d.outage ≡ none
    → ((add storage d user comic).1 ≡ (set_add (contains d) user comic).1)
      × ((u : ℕ) (c : ℤ)
          → contains (add storage d user comic).0 u c ≡ (set_add (contains d) user comic).0 u c)
unfolding add storage
add_refines d user comic h = elim (Bool-cases (bad_pair user comic)) [
  | inl bad ↦ rw bad (refl, λ u c. refl)
  | inr fine ↦ rw fine (
      rw (Storage.add, h)
        (elim (Bool-cases (contains d user comic)) [
          | inl old ↦ rw old (refl, λ u c. refl)
          | inr new ↦ rw new (
            refl,
            λ u c.
                any_append (is_row u c) d.rows
                  (record { user_id = user; comic_id = comic; created_at = d.now }),
          )
        ]))
]

-- While the database answers, `Delete` does to the table what taking a pair away does to the set,
-- and gives the same reply: invalid arguments, a pair that is not there, or success.
pub delete_refines :
    (d : Database) (user : ℕ) (comic : ℤ)
    → d.outage ≡ none
    → ((delete storage d user comic).1 ≡ (set_delete (contains d) user comic).1)
      × ((u : ℕ) (c : ℤ)
          → contains (delete storage d user comic).0 u c
            ≡ (set_delete (contains d) user comic).0 u c)
unfolding delete storage
delete_refines d user comic h = elim (Bool-cases (bad_pair user comic)) [
  | inl bad ↦ rw bad (refl, λ u c. refl)
  | inr fine ↦ rw fine (
      rw (Storage.delete, h, length-filter_iff (is_row user comic) d.rows)
        (elim (Bool-cases (contains d user comic)) [
          | inl old ↦ rw old (refl, λ u c. any-filter-not user comic u c d.rows)
          | inr new ↦ rw new (refl, λ u c. refl)
        ]))
]

any→Elem : (p : Row → Bool) (rs : List Row) → any p rs ≡ true → (r : Row) × Elem r rs × (p r ≡ true)
any→Elem p [] h = cc
any→Elem p (x ∷ rs) h = elim (Bool-cases (p x)) [
  | inl e ↦ (x, inl refl, e)
  | inr e ↦ (let (r, m, k) = any→Elem p rs (rw e at h) in (r, inr m, k))
]

Elem→any : (p : Row → Bool) (rs : List Row) (r : Row) → Elem r rs → p r ≡ true → any p rs ≡ true
Elem→any p [] r m h = absurd m
Elem→any p (x ∷ rs) r (inl e) h = rw (rw e at h) refl
Elem→any p (x ∷ rs) r (inr m) h = ground (arith, Elem→any p rs r m h)

is_row-parts :
    (user : ℕ) (c : ℤ) (r : Row)
    → is_row user c r ≡ true
    → ((r.user_id == user) ≡ true) × (r.comic_id ≡ c)
is_row-parts user c r h = ground arith

parts-is_row :
    (user : ℕ) (c : ℤ) (r : Row)
    → (r.user_id == user) ≡ true
    → r.comic_id ≡ c
    → is_row user c r ≡ true
parts-is_row user c r h k = ground arith

Elem-to_favorite :
    (f : Favorite) (rs : List Row)
    → Elem f (map to_favorite rs)
    → (r : Row) × Elem r rs × (f ≡ to_favorite r)
Elem-to_favorite f [] m = absurd m
Elem-to_favorite f (x ∷ rs) (inl e) = (x, inl refl, e)
Elem-to_favorite f (x ∷ rs) (inr m) = let (r, k, e) = Elem-to_favorite f rs m in (r, inr k, e)

to_favorite-Elem : (r : Row) (rs : List Row) → Elem r rs → Elem (to_favorite r) (map to_favorite rs)
to_favorite-Elem r [] m = absurd m
to_favorite-Elem r (x ∷ rs) (inl e) = inl (ap to_favorite e)
to_favorite-Elem r (x ∷ rs) (inr m) = inr (to_favorite-Elem r rs m)

-- While the database answers, `List` returns, for a user with a positive id, exactly the comics of
-- that user's pairs in the table.
pub list_refines :
    (d : Database) (user : ℕ)
    → d.outage ≡ none
    → 1 ≤ user
    → (fs : List Favorite) × (list storage d user ≡ ok fs)
      × ((c : ℤ) → ((f : Favorite) × Elem f fs × (f.comic_id ≡ c)) ↔ (contains d user c ≡ true))
unfolding list storage
list_refines d user h known =
    let named : nat_beq user 0 ≡ false = ground arith in
    let mine = filter (λ (r : Row). r.user_id == user) d.rows in
    (
      map to_favorite (sort_by newer mine),
      rw named (rw (Storage.list, h) refl),
      λ c. (
        λ (f, m, e).
            let (r, k, same) = Elem-to_favorite f (sort_by newer mine) m in
            let (here, own) =
              (Elem-filter (λ (r : Row). r.user_id == user) r d.rows).0
                ((Elem-sort_by newer r mine).0 k) in
            Elem→any (is_row user c) d.rows r here (parts-is_row user c r own (rw same at e)),
        λ there.
            let (r, m, k) = any→Elem (is_row user c) d.rows there in
            let (own, e) = is_row-parts user c r k in
            (
              to_favorite r,
              to_favorite-Elem r (sort_by newer mine) (
                  (Elem-sort_by newer r mine).1
                    ((Elem-filter (λ (r : Row). r.user_id == user) r d.rows).1 (m, own))),
              e,
            ),
      ),
    )
