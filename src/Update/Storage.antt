-- ===== src/Update/Storage.antt =====
-- search-services/update/adapters/db/storage.go: the statements on the table of comics.
use microservice_comics.Base.{
  int_eq, fits_int4, string_eq, ℕ, ◌+◌, ℤ, pos, String, List, [], ◌∷◌, map, Option, none, some,
  Result, ok, err, ◌==◌, put, length, if◌then◌else◌,
}
use microservice_comics.Update.Model.{Comics, DbStats, Error, failure, Db}

-- The rows of the table; `outage` is the driver's error, while there is one.
pub record Database : Type 0 where
  pub rows : List Comics
  pub outage : Option String

-- `INSERT ... ON CONFLICT (id) DO UPDATE`: `EXCLUDED` is the new row.
unfoldable pub upsert : Comics → List Comics → List Comics
upsert c [] = c ∷ []
upsert c (r ∷ rs) = if r.id == c.id then c ∷ rs else r ∷ upsert c rs

-- A statement that changes the rows, and its reply.
abbrev execute : Database → List Comics → String → Database × Result Error (Unit {0})
execute d rows what = elim d.outage [
  | none ↦ (record d { rows = rows }, ok tt)
  | some e ↦ (d, err (failure what))
]

-- The column `id` is an INT: the driver refuses what it cannot hold.
unfoldable pub add : Database → Comics → Database × Result Error (Unit {0})
unfolding upsert
add d c =
    if fits_int4 c.id
    then execute d (upsert c d.rows) "upsert comics"
    else (d, err (failure "upsert comics"))

-- `SUM(cardinality(words))`
unfoldable pub words_total : List Comics → ℕ
words_total [] = 0
words_total (r ∷ rs) = length r.words + words_total rs

put_words : List String → List String → List String
put_words set [] = set
put_words set (w ∷ ws) = put_words (put w set) ws

-- `COUNT(DISTINCT w)` over `UNNEST(words)`
unfoldable pub distinct_words : List String → List Comics → List String
unfolding put_words
distinct_words set [] = set
distinct_words set (r ∷ rs) = distinct_words (put_words set r.words) rs

-- A query that reads the rows.
abbrev select : {A : Type 0} → Database → String → A → Result Error A
select d what a = elim d.outage [ none ↦ ok a | some e ↦ err (failure what) ]

unfoldable pub stats : Database → Result Error DbStats
unfolding words_total distinct_words
stats d = select d "stats" (record {
  words_total = pos (words_total d.rows);
  words_unique = pos (length (distinct_words [] d.rows));
  comics_fetched = pos (length d.rows);
})

unfoldable pub ids : Database → Result Error (List ℤ)
ids d = select d "get ids" (map (λ (r : Comics). r.id) d.rows)

-- `TRUNCATE`
unfoldable pub drop : Database → Database × Result Error (Unit {0})
drop d = execute d [] "truncate"

-- `*DB` as the port of the core.
unfoldable pub storage : Db Database
unfolding add stats drop ids
storage = record { add = add; stats = stats; drop = drop; ids = ids }

-- The row with an id.
unfoldable pub row_of : ℤ → List Comics → Option Comics
row_of id [] = none
row_of id (r ∷ rs) = if r.id == id then some r else row_of id rs
