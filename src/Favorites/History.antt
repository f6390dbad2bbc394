-- ===== src/Favorites/History.antt =====
-- The table of favorites through any sequence of calls.
use microservice_comics.Base.{
  nat_eq, int_eq, String, ℕ, ◌+◌, ◌≤◌, ℤ, Bool, true, false, not, List, [], ◌∷◌, ◌++◌, Option, ◌≡◌,
  inl, inr, arith, Bool-cases, Option-cases, any, filter, length, nat_beq, if◌then◌else◌,
}
use microservice_comics.Favorites.Storage
use microservice_comics.Favorites.Storage.{Row, Database, is_row, storage}
use microservice_comics.Favorites.Service.{add, delete}
use microservice_comics.Favorites.Rows.{contains, bad_pair, length-filter_iff}

-- The primary key: no pair stands in the table twice.
abbrev pub HasUniquePairs : List Row → Type 0
HasUniquePairs rs = (u : ℕ) (c : ℤ) → length (filter (is_row u c) rs) ≤ 1

-- A call of the service, or a change of what surrounds it.
pub data Event : Type 0 where
  adds deletes : ℕ → ℤ → Event
  clock : ℤ → Event
  connection : Option String → Event

abbrev pub happen : Event → Database → Database
happen (adds user comic) d = (add storage d user comic).0
happen (deletes user comic) d = (delete storage d user comic).0
happen (clock t) d = record d { now = t }
happen (connection o) d = record d { outage = o }

abbrev pub history : List Event → Database → Database
history [] d = d
history (e ∷ es) d = history es (happen e d)

length-filter_append :
    (p : Row → Bool) (rs : List Row) (r : Row)
    → length (filter p (rs ++ r ∷ [])) ≡ length (filter p rs) + (if p r then 1 else 0)
length-filter_append p [] r = ground arith
length-filter_append p (x ∷ rs) r = ground (arith, length-filter_append p rs r)

length-filter-filter :
    (p q : Row → Bool) (rs : List Row) → length (filter p (filter q rs)) ≤ length (filter p rs)
length-filter-filter p q [] = omega arith
length-filter-filter p q (r ∷ rs) = ground (arith, length-filter-filter p q rs)

same_pair :
    (user : ℕ) (comic now : ℤ) (u : ℕ) (c : ℤ) (rs : List Row)
    → any (is_row user comic) rs ≡ false
    → is_row u c (record { user_id = user; comic_id = comic; created_at = now }) ≡ true
    → any (is_row u c) rs ≡ false
same_pair user comic now u c rs h k = let (e, f) = parts in rw (← e, ← f) h
  where
    parts : (user ≡ u) × (comic ≡ c)
    parts = ground arith

new_row-HasUniquePairs :
    (user : ℕ) (comic now : ℤ) (rs : List Row)
    → any (is_row user comic) rs ≡ false
    → HasUniquePairs rs
    → HasUniquePairs (rs ++ record { user_id = user; comic_id = comic; created_at = now } ∷ [])
new_row-HasUniquePairs user comic now rs h one u c =
    let r : Row = record { user_id = user; comic_id = comic; created_at = now } in
    rw (length-filter_append (is_row u c) rs r) (elim (Bool-cases (is_row u c r)) [
      | inl e ↦
          let none_yet = length-filter_iff (is_row u c) rs in
          let fresh = same_pair user comic now u c rs h e in rw e (ground (arith, none_yet, fresh))
      | inr e ↦ rw e (omega (arith, one u c))
    ])

add-HasUniquePairs :
    (d : Database) (user : ℕ) (comic : ℤ)
    → HasUniquePairs d.rows
    → HasUniquePairs (add storage d user comic).0.rows
unfolding add storage
add-HasUniquePairs d user comic one = elim (Bool-cases (bad_pair user comic)) [
  | inl bad ↦ rw bad one
  | inr fine ↦ rw fine (elim (Option-cases d.outage) [
    | inr (o, down) ↦ rw (Storage.add, down) one
    | inl up ↦
        rw (Storage.add, up)
          (elim (Bool-cases (contains d user comic)) [
            | inl old ↦ rw old one
            | inr new ↦ rw new (new_row-HasUniquePairs user comic d.now d.rows new one)
          ])
  ])
]

delete-HasUniquePairs :
    (d : Database) (user : ℕ) (comic : ℤ)
    → HasUniquePairs d.rows
    → HasUniquePairs (delete storage d user comic).0.rows
unfolding delete storage
delete-HasUniquePairs d user comic one = elim (Bool-cases (bad_pair user comic)) [
  | inl bad ↦ rw bad one
  | inr fine ↦ rw fine (elim (Option-cases d.outage) [
    | inr (o, down) ↦ rw (Storage.delete, down) one
    | inl up ↦
        rw (Storage.delete, up)
          (elim (Bool-cases (nat_beq (length (filter (is_row user comic) d.rows)) 0)) [
            | inl absent ↦ rw absent one
            | inr present ↦ rw present (λ u c. omega (
              arith,
              one u c,
              length-filter-filter (is_row u c) (λ r. not (is_row user comic r)) d.rows,
            ))
          ])
  ])
]

-- From a table with no pair twice: whatever is called, and however the database fails in between,
-- no user gets a comic twice.
pub history-HasUniquePairs :
    (es : List Event) (d : Database) → HasUniquePairs d.rows → HasUniquePairs (history es d).rows
history-HasUniquePairs [] d one = one
history-HasUniquePairs (adds user comic ∷ es) d one =
    history-HasUniquePairs es _ (add-HasUniquePairs d user comic one)
history-HasUniquePairs (deletes user comic ∷ es) d one =
    history-HasUniquePairs es _ (delete-HasUniquePairs d user comic one)
history-HasUniquePairs (clock t ∷ es) d one = history-HasUniquePairs es _ one
history-HasUniquePairs (connection o ∷ es) d one = history-HasUniquePairs es _ one
