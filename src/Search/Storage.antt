-- ===== src/Search/Storage.antt =====
-- search-services/search/adapters/db/storage.go: the queries on the table of comics. The table
-- is a list in the order in which the server returns rows that no clause orders; a query fails
-- as a whole while the database does not answer.
pub mod Laws
use microservice_comics.Base.{
  string_eq, int_eq, fits_int4, ℕ, ℤ, pos, negsuc, String, Bool, ◌||◌, List, [], ◌∷◌, map, Option,
  none, some, Result, ok, err, ◌>>=◌, ◌==◌, has, length, take, drop, filter, any, sort_by, ltb_ℤ,
  if◌then◌else◌,
}
use microservice_comics.Search.Model.{Comics, Error, comic_not_found, failure, Db}

pub record ComicsRow : Type 0 where
  pub id : ℤ
  pub img_url : String
  pub title : List String
  pub alt : List String
  pub words : List String

-- `outage` is the driver's error, while there is one.
pub record Database : Type 0 where
  pub rows : List ComicsRow
  pub outage : Option String

abbrev pub to_comics : ComicsRow → Comics
to_comics r = record { id = r.id; url = r.img_url; title = r.title; alt = r.alt; words = r.words }

-- A query that returns rows, and its conversion.
abbrev query : Database → String → List ComicsRow → Result Error (List Comics)
query d what rows = elim d.outage [ none ↦ ok (map to_comics rows) | some e ↦ err (failure what) ]

-- `a && b` on arrays: some element in common.
abbrev pub overlaps : List String → List String → Bool
overlaps xs ys = any (λ x. has ys x) xs

-- `WHERE title && $1 OR alt && $1 OR words && $1`
abbrev pub is_candidate : List String → ComicsRow → Bool
is_candidate tokens r = overlaps r.title tokens || overlaps r.alt tokens || overlaps r.words tokens

unfoldable pub find : Database → List String → Result Error (List Comics)
find d tokens = query d "find comics by tokens" (filter (is_candidate tokens) d.rows)

unfoldable pub all : Database → Result Error (List Comics)
all d = query d "get all comics" d.rows

-- `ErrNoRows` is a reply of a database that answers.
abbrev pub first_row : List ComicsRow → Result Error Comics
first_row [] = err comic_not_found
first_row (r ∷ rs) = ok (to_comics r)

-- The column `id` is an INT: the driver refuses an argument that it cannot hold.
unfoldable pub get_by_id : Database → ℤ → Result Error Comics
get_by_id d id = elim d.outage [
  | none ↦
      if fits_int4 id
      then first_row (filter (λ r. r.id == id) d.rows)
      else err (failure "get comic by id")
  | some e ↦ err (failure "get comic by id")
]

abbrev pub id_before : ComicsRow → ComicsRow → Bool
id_before a b = ltb_ℤ a.id b.id

-- `ORDER BY id OFFSET $1 LIMIT $2`. PostgreSQL refuses a negative number in either place.
unfoldable pub get_all : Database → ℤ → ℤ → Result Error (List Comics)
unfolding sort_by
get_all d (pos offset) (pos limit) =
    query d "list comics" (take limit (drop offset (sort_by id_before d.rows)))
get_all d _ _ = err (failure "list comics")

unfoldable pub count : Database → Result Error ℤ
count d = elim d.outage [ none ↦ ok (pos (length d.rows)) | some e ↦ err (failure "count comics") ]

unfoldable pub ping : Database → Result Error (Unit {0})
ping d = elim d.outage [ none ↦ ok tt | some e ↦ err (failure e) ]

-- `*DB` as the port of the core.
unfoldable pub open_db : Database → Db
unfolding find all ping get_by_id get_all count
open_db d = record {
  find = find d;
  all = all d;
  ping = ping d;
  get_by_id = get_by_id d;
  get_all = get_all d;
  count = count d;
}
