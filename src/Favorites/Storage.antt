-- ===== src/Favorites/Storage.antt =====
-- search-services/favorites/adapters/db/storage.go: the statements on the table of favorites.

use microservice_comics.Base.{
  nat_eq, int_eq, ℕ, ℤ, String, Bool, not, ◌&&◌, List, [], ◌∷◌, ◌++◌, map, Option, none, some,
  Result, ok, err, ◌==◌, any, filter, length, nat_beq, sort_by, ltb_ℤ, if◌then◌else◌,
}
use microservice_comics.Favorites.Model.{Favorite, Error, already_exists, not_found, failure, Db}

pub record Row : Type 0 where
  pub user_id : ℕ
  pub comic_id : ℤ
  pub created_at : ℤ

-- `now` is the server's clock, `outage` the driver's error, while there is one.
pub record Database : Type 0 where
  pub rows : List Row
  pub now : ℤ
  pub outage : Option String

abbrev pub is_row : ℕ → ℤ → Row → Bool
is_row user comic r = r.user_id == user && r.comic_id == comic

-- `INSERT`: the primary key (user_id, comic_id) refuses a second row.
unfoldable pub add : Database → ℕ → ℤ → Database × Result Error (Unit {0})
add d user comic = elim d.outage [
  | some e ↦ (d, err (failure "insert favorite"))
  | none ↦ if any (is_row user comic) d.rows then (d, err already_exists) else (
    record d {
      rows = d.rows ++ record { user_id = user; comic_id = comic; created_at = d.now } ∷ [];
    },
    ok tt,
  )
]

-- `DELETE`, and the number of rows that it met.
unfoldable pub delete : Database → ℕ → ℤ → Database × Result Error (Unit {0})
delete d user comic = elim d.outage [
  | some e ↦ (d, err (failure "delete favorite"))
  | none ↦
      if nat_beq (length (filter (is_row user comic) d.rows)) 0
      then (d, err not_found)
      else (record d { rows = filter (λ r. not (is_row user comic r)) d.rows }, ok tt)
]

abbrev pub newer : Row → Row → Bool
newer a b = ltb_ℤ b.created_at a.created_at

abbrev pub to_favorite : Row → Favorite
to_favorite r = record { comic_id = r.comic_id; created_at = r.created_at }

-- `WHERE user_id=$1 ORDER BY created_at DESC`
unfoldable pub list : Database → ℕ → Result Error (List Favorite)
unfolding sort_by
list d user = elim d.outage [
  | some e ↦ err (failure "select favorites")
  | none ↦ ok (map to_favorite (sort_by newer (filter (λ r. r.user_id == user) d.rows)))
]

unfoldable pub ping : Database → Result Error (Unit {0})
ping d = elim d.outage [ none ↦ ok tt | some e ↦ err (failure e) ]

-- `*DB` as the port of the core.
unfoldable pub storage : Db Database
unfolding add delete list ping
storage = record { add = add; delete = delete; list = list; ping = ping }
