-- ===== src/Search/Storage/Laws.antt =====
-- What the storage gives the core, while the database answers: the contract `Snapshot`.
use microservice_comics.Base.{
  string_eq, int_eq, String, Bool, true, ◌||◌, List, [], ◌∷◌, ◌++◌, map, none, ◌≡◌, ◌≢◌, ◌↔◌, inl,
  inr, refl, arith, has, has→Elem, Elem→has, Bool-cases, Elem, All, filter, any,
}
use microservice_comics.Search.Model.{Comics, tokens_of, HasDistinctIds}
use microservice_comics.Search.Service.Agreement.{Snapshot, Overlaps}
use microservice_comics.Search.Storage.{ComicsRow, to_comics, overlaps, is_candidate, open_db}

overlaps_iff :
    (xs ys : List String) → (overlaps xs ys ≡ true) ↔ ((t : String) × Elem t ys × Elem t xs)
overlaps_iff [] ys = (λ h. cc, λ k. absurd k.2)
overlaps_iff (x ∷ xs) ys =
    let (to, from) = overlaps_iff xs ys in
    elim (Bool-cases (has ys x)) [
      | inl e ↦ rw e (λ h. (x, has→Elem ys x e, inl refl), λ k. refl)
      | inr e ↦ rw e (
        λ h. (let k = to h in (k.0, k.1, inr k.2)),
        λ (t, asked, here). elim here [
          | inl same ↦ cc (e, Elem→has ys x (rw same at asked))
          | inr later ↦ from (t, asked, later)
        ],
      )
    ]

any-append :
    {A : Type 0} (p : A → Bool) (xs ys : List A) → any p (xs ++ ys) ≡ (any p xs || any p ys)
any-append p [] ys = refl
any-append p (x ∷ xs) ys = ground (arith, any-append p xs ys)

is_candidate_lem :
    (tokens : List String) (r : ComicsRow)
    → is_candidate tokens r ≡ overlaps (tokens_of (to_comics r)) tokens
is_candidate_lem tokens r = ground (
  arith,
  any-append (has tokens) r.title (r.alt ++ r.words),
  any-append (has tokens) r.alt r.words,
)

-- The `WHERE` clause of `Find` accepts the rows with a token of the query in some field.
pub is_candidate_iff :
    (tokens : List String) (r : ComicsRow)
    → (is_candidate tokens r ≡ true) ↔ Overlaps (to_comics r) tokens
is_candidate_iff tokens r =
    rw (is_candidate_lem tokens r) (overlaps_iff (tokens_of (to_comics r)) tokens)

pub Elem-filter-map :
    (tokens : List String) (c : Comics) (rs : List ComicsRow)
    → Elem c (map to_comics (filter (is_candidate tokens) rs))
      ↔ (Elem c (map to_comics rs) × Overlaps c tokens)
Elem-filter-map tokens c [] = (λ m. absurd m, λ m. absurd m.0)
Elem-filter-map tokens c (r ∷ rs) =
    let (to, from) = Elem-filter-map tokens c rs in
    elim (Bool-cases (is_candidate tokens r)) [
      | inl e ↦ rw e (
        λ m. elim m [
          | inl same ↦ (inl same, rw same ((is_candidate_iff tokens r).0 e))
          | inr later ↦ (let k = to later in (inr k.0, k.1))
        ],
        λ (here, over). elim here [ inl same ↦ inl same | inr later ↦ inr (from (later, over)) ],
      )
      | inr e ↦ rw e (
        λ m. (let k = to m in (inr k.0, k.1)),
        λ (here, over). elim here [
          | inl same ↦ absurd (cc (e, (is_candidate_iff tokens r).1 (rw same at over)))
          | inr later ↦ from (later, over)
        ],
      )
    ]

HasDistinctIds-filter :
    (p : ComicsRow → Bool) (rs : List ComicsRow)
    → HasDistinctIds (map to_comics rs)
    → HasDistinctIds (map to_comics (filter p rs))
HasDistinctIds-filter p [] d = tt
HasDistinctIds-filter p (r ∷ rs) d = elim (Bool-cases (p r)) [
  | inl e ↦ rw e (apart rs d.0, HasDistinctIds-filter p rs d.1)
  | inr e ↦ rw e (HasDistinctIds-filter p rs d.1)
]
  where
    apart :
        (l : List ComicsRow)
        → All (λ (c : Comics). r.id ≢ c.id) (map to_comics l)
        → All (λ (c : Comics). r.id ≢ c.id) (map to_comics (filter p l))
    apart [] h = tt
    apart (x ∷ l) h = elim (Bool-cases (p x)) [
      | inl e ↦ rw e (h.0, apart l h.1)
      | inr e ↦ rw e (apart l h.1)
    ]

-- A database that answers, with the primary key of its table, keeps the contract of the port.
pub open_db-Snapshot :
    (rows : List ComicsRow)
    → HasDistinctIds (map to_comics rows)
    → Snapshot (open_db (record { rows = rows; outage = none })) (map to_comics rows)
unfolding open_db
open_db-Snapshot rows d = record {
  distinct = d;
  all_rows = refl;
  found = λ tokens. (
    map to_comics (filter (is_candidate tokens) rows),
    refl,
    HasDistinctIds-filter (is_candidate tokens) rows d,
    λ c. Elem-filter-map tokens c rows,
  );
}
