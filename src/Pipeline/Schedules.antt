-- ===== src/Pipeline/Schedules.antt =====
-- What a search answers after an update depends neither on the number of the workers of
-- search-services/update nor on their schedule.
use mathlib.Core.Quot
use microservice_comics.Base.{
  int_eq, ℕ, ◌≤◌, ℤ, pos, String, Bool, false, List, map, none, Result, ok, map_ok, ◌≡◌, ◌↔◌, refl,
  sym, ap, ◌∙◌, Elem, Elem-map,
}
use microservice_comics.Update.Model
use microservice_comics.Update.Model.{XkcdInfo, Xkcd}
use microservice_comics.Update.Storage
use microservice_comics.Update.Storage.{row_of}
use microservice_comics.Update.Whole.{Returns}
use microservice_comics.Update.Keys.{HasKeys, update-HasKeys}
use microservice_comics.Update.Schedules.{Elem-row_of, same_row}
use microservice_comics.Search.Model.{Comics, Words}
use microservice_comics.Search.Storage.{to_comics}
use microservice_comics.Search.Storage.Laws.{open_db-Snapshot}
use microservice_comics.Search.Index.{build}
use microservice_comics.Search.Service.{find, indexed_search}
use microservice_comics.Search.Service.Agreement.{indexed_search-find}
use microservice_comics.Search.Service.Pages.{answering}
use microservice_comics.Search.Unordered.{Listing, SameRows, Table, search_table}
use microservice_comics.Pipeline.{to_row, read, HasKeys-HasDistinctIds}

abbrev pub listed : Storage.Database → List Comics
listed d = map to_comics (map to_row d.rows)

abbrev listing : (d : Storage.Database) → HasKeys d.rows → Listing
listing d keys = (listed d, HasKeys-HasDistinctIds d.rows keys)

-- The table of the update service, as the search service reads it, without an order of its rows.
abbrev pub as_table : (d : Storage.Database) → HasKeys d.rows → Table
as_table d keys = Quot.mk (listing d keys)

Elem-listed :
    (c : Comics) (rows : List Model.Comics)
    → Elem c (map to_comics (map to_row rows)) ↔ ((r : Model.Comics) × Elem r rows × (c ≡ read r))
Elem-listed c rows = (
  λ m.
      let (a, here, e) = (Elem-map to_comics c (map to_row rows)).0 m in
      let (r, listed, e') = (Elem-map to_row a rows).0 here in (r, listed, e ∙ ap to_comics e'),
  λ (r, listed, e).
      (Elem-map to_comics c (map to_row rows)).1
        (to_row r, (Elem-map to_row (to_row r) rows).1 (r, listed, refl), e),
)

-- Two tables with distinct ids and the same row at each id.
module _ (d e : Storage.Database) (keys : HasKeys d.rows) (keys' : HasKeys e.rows)
    (same : (id : ℤ) → row_of id d.rows ≡ row_of id e.rows) where
  in_both : (r : Model.Comics) → Elem r d.rows ↔ Elem r e.rows
  in_both r =
      let (to, from) = Elem-row_of r d.rows keys in
      let (to', from') = Elem-row_of r e.rows keys' in
      (λ m. from' (sym (same r.id) ∙ to m), λ m. from (same r.id ∙ to' m))

  listing_same : SameRows (listing d keys) (listing e keys')
  listing_same c =
      let (to, from) = Elem-listed c d.rows in
      let (to', from') = Elem-listed c e.rows in
      (
        λ m. (let (r, here, own) = to m in from' (r, (in_both r).0 here, own)),
        λ m. (let (r, here, own) = to' m in from (r, (in_both r).1 here, own)),
      )

  same_table : as_table d keys ≡ as_table e keys'
  same_table = Quot.sound listing_same

  searched_same :
      (words : Words) (phrase : String) (limit : ℕ)
      → (indexed_search (build (listed d)) words phrase limit
          ≡ indexed_search (build (listed e)) words phrase limit)
        × (find (answering (map to_row d.rows)) words phrase limit
            ≡ find (answering (map to_row e.rows)) words phrase limit)
  unfolding search_table
  searched_same words phrase limit =
      let indexed : indexed_search (build (listed d)) words phrase limit
          ≡ indexed_search (build (listed e)) words phrase limit =
        ap (search_table words phrase limit) same_table in
      (
        indexed,
        sym (
              indexed_search-find
                (open_db-Snapshot (map to_row d.rows) (HasKeys-HasDistinctIds d.rows keys)) words
                phrase limit)
            ∙ (ap (map_ok (λ (r : List Comics × ℕ). r.0)) indexed
                ∙ indexed_search-find
                    (open_db-Snapshot (map to_row e.rows) (HasKeys-HasDistinctIds e.rows keys'))
                    words phrase limit),
      )

module _ (xkcd : Xkcd) (stem : Model.Words)
    (numbered : (id : ℤ) (info : XkcdInfo) → xkcd.get id ≡ ok info → info.id ≡ id) where
  -- Let the site give, for each number it answers, the comic of that number. Two calls of `Update`
  -- on the same table, with distinct ids, each with at least one worker, that find the flag free,
  -- the last number and the database, and are not cancelled, leave the same table up to the order of
  -- its rows, and the ids stay distinct: the number of the workers and how they take turns do not
  -- show. Any search, by an index of the table or by the database, then answers the same, with the
  -- same comics in the same order.
  pub schedules_agree :
      (n n' latest : ℕ) (d : Storage.Database)
      (t t' : (Bool × Storage.Database) × Result Model.Error (Unit {0}))
      → 1 ≤ n
      → 1 ≤ n'
      → xkcd.last_id ≡ ok (pos latest)
      → d.outage ≡ none
      → HasKeys d.rows
      → Returns xkcd stem numbered (pos n) false false d t
      → Returns xkcd stem numbered (pos n') false false d t'
      → ((keys : HasKeys t.0.1.rows) × (keys' : HasKeys t'.0.1.rows) × (as_table t.0.1 keys
            ≡ as_table t'.0.1 keys'))
        × ((words : Words) (phrase : String) (limit : ℕ)
            → (indexed_search (build (listed t.0.1)) words phrase limit
                ≡ indexed_search (build (listed t'.0.1)) words phrase limit)
              × (find (answering (map to_row t.0.1.rows)) words phrase limit
                  ≡ find (answering (map to_row t'.0.1.rows)) words phrase limit))
  schedules_agree n n' latest d t t' some_worker some_worker' last up keyed returns returns' =
      let keys = update-HasKeys xkcd stem numbered (pos n) false false d t returns keyed in
      let keys' = update-HasKeys xkcd stem numbered (pos n') false false d t' returns' keyed in
      let same =
        same_row xkcd stem numbered n n' latest d t t' some_worker some_worker' last up returns
          returns' in
      (
        (keys, keys', same_table t.0.1 t'.0.1 keys keys' same),
        λ words phrase limit. searched_same t.0.1 t'.0.1 keys keys' same words phrase limit,
      )
