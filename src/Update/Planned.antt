-- ===== src/Update/Planned.antt =====
-- search-services/update/core/service.go: what `Update` has found out when the workers start.
use microservice_comics.Base.{
  int_eq, ℤ, Bool, true, false, List, [], ◌∷◌, map, Option, none, some, ok, >>=-eq-ok, ok_injective,
  err_ok, ◌≡◌, ◌↔◌, ◌⊎◌, inl, inr, refl, sym, ap, ◌∙◌, arith, has, has→Elem, Elem→has, put,
  Elem-put, ◌==◌, ==→≡, ==_refl, Elem, Bool-cases, Option-cases, ltb_ℤ, if◌then◌else◌,
}
use microservice_comics.Update.Model.{Comics, Xkcd}
use microservice_comics.Update.Service.{Plan, plan, known_ids, worker_limit}
use microservice_comics.Update.Storage.{Database, storage, ids, row_of}

Elem-known_ids : (a : ℤ) (set l : List ℤ) → Elem a (known_ids set l) ↔ (Elem a set ⊎ Elem a l)
unfolding known_ids
Elem-known_ids a set [] = (inl, λ m. elim m [ inl h ↦ h | inr z ↦ absurd z ])
Elem-known_ids a set (x ∷ l) = ground (arith, Elem-known_ids a (put x set) l, Elem-put a x set)

abbrev pub is_some : Option Comics → Bool
is_some none = false
is_some (some c) = true

row_of-is_some :
    (id : ℤ) (rows : List Comics)
    → (is_some (row_of id rows) ≡ true) ↔ Elem id (map (λ (r : Comics). r.id) rows)
unfolding row_of
row_of-is_some id [] = (λ h. cc, λ m. absurd m)
row_of-is_some id (r ∷ rs) = elim (Bool-cases (r.id == id)) [
  | inl e ↦ rw e (λ h. inl (sym (==→≡ r.id id e)), λ m. refl)
  | inr e ↦ rw e (
    λ h. inr ((row_of-is_some id rs).0 h),
    λ m. elim m [
      | inl same ↦ cc (e, ==_refl id, same)
      | inr later ↦ (row_of-is_some id rs).1 later
    ],
  )
]

bool_ext : (a b : Bool) → (a ≡ true → b ≡ true) → (b ≡ true → a ≡ true) → a ≡ b
bool_ext a b f g = elim (Bool-cases a) [
  | inl e ↦ e ∙ sym (f e)
  | inr e ↦ elim (Bool-cases b) [ inl k ↦ cc (e, g k) | inr k ↦ e ∙ sym k ]
]

-- The set `exists` holds an id exactly if the table has its row.
pub known_row :
    (id : ℤ) (rows : List Comics)
    → has (known_ids [] (map (λ (r : Comics). r.id) rows)) id ≡ is_some (row_of id rows)
known_row id rows =
    let have = map (λ (r : Comics). r.id) rows in
    let (to, from) = Elem-known_ids id [] have in
    bool_ext _ _
      (λ h.
        (row_of-is_some id rows).1
          (elim (to (has→Elem (known_ids [] have) id h)) [ inl z ↦ absurd z | inr m ↦ m ]))
      (λ h. Elem→has (known_ids [] have) id (from (inr ((row_of-is_some id rows).0 h))))

abbrev pub capped : ℤ → ℤ
capped concurrency = if ltb_ℤ worker_limit concurrency then worker_limit else concurrency

listed_ids :
    (d : Database) (have : List ℤ)
    → ids d ≡ ok have
    → (d.outage ≡ none) × (have ≡ map (λ (r : Comics). r.id) d.rows)
unfolding ids
listed_ids d have h = elim (Option-cases d.outage) [
  | inr (o, down) ↦ absurd (err_ok (rw down at h))
  | inl up ↦ (up, sym (ok_injective (rw up at h)))
]

-- What a plan that was made says of the database.
pub plan_parts :
    (xkcd : Xkcd) (concurrency : ℤ) (d : Database) (p : Plan)
    → plan storage xkcd concurrency d ≡ ok p
    → (d.outage ≡ none)
      × (p.exists ≡ known_ids [] (map (λ (r : Comics). r.id) d.rows))
      × (p.workers ≡ capped concurrency)
      × (xkcd.last_id ≡ ok p.latest)
unfolding plan storage ids
plan_parts xkcd concurrency d p h =
    let (latest, asked, rest) = >>=-eq-ok xkcd.last_id _ h in
    let (have, listed, made) = >>=-eq-ok (ids d) _ rest in
    let (up, same) = listed_ids d have listed in
    let made_plan = ok_injective made in
    (
      up,
      ap (λ (q : Plan). q.exists) (sym made_plan) ∙ ap (known_ids []) same,
      ap (λ (q : Plan). q.workers) (sym made_plan),
      asked ∙ ap (λ (q : Plan). ok q.latest) made_plan,
    )

-- With the last number and the database, the plan is made.
pub plan_made :
    (xkcd : Xkcd) (concurrency latest : ℤ) (d : Database)
    → xkcd.last_id ≡ ok latest
    → d.outage ≡ none
    → (p : Plan) × (plan storage xkcd concurrency d ≡ ok p)
unfolding plan storage ids
plan_made xkcd concurrency latest d last up = (
  record {
    latest = latest;
    exists = known_ids [] (map (λ (r : Comics). r.id) d.rows);
    workers = capped concurrency;
  },
  rw last (rw up refl),
)
