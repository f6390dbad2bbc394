-- ===== src/Favorites/Service.antt =====
-- search-services/favorites: core/service.go and adapters/grpc/server.go. A comic id is an int32.
use microservice_comics.Base.{
  ℕ, ℤ, ◌||◌, List, map, Result, err, ◌>>◌, reject_if, map_err, map_ok, nat_beq, is_nonpositive,
  if◌then◌else◌,
}
use microservice_comics.Base.Grpc.{Code, unavailable, invalid_argument, internal}
use microservice_comics.Favorites.Model.{
  Favorite, Error, already_exists, not_found, invalid_args, Db,
}

module _ {S : Type 0} (db : Db S) where
  unfoldable pub add : S → ℕ → ℤ → S × Result Error (Unit {0})
  add s user comic =
      if nat_beq user 0 || is_nonpositive comic then (s, err invalid_args) else db.add s user comic

  unfoldable pub delete : S → ℕ → ℤ → S × Result Error (Unit {0})
  delete s user comic =
      if nat_beq user 0 || is_nonpositive comic
      then (s, err invalid_args)
      else db.delete s user comic

  unfoldable pub list : S → ℕ → Result Error (List Favorite)
  list s user = do reject_if (nat_beq user 0) invalid_args; db.list s user

-- `favoritespb.FavoriteItem`
pub record FavoriteItem : Type 0 where
  pub comic_id : ℤ
  pub created_at_unix : ℤ

abbrev pub to_item : Favorite → FavoriteItem
to_item f = record { comic_id = f.comic_id; created_at_unix = f.created_at }

unfoldable pub add_code : Error → Code
add_code invalid_args = invalid_argument
add_code already_exists = Code.already_exists
add_code _ = internal

unfoldable pub delete_code : Error → Code
delete_code invalid_args = invalid_argument
delete_code not_found = Code.not_found
delete_code _ = internal

unfoldable pub list_code : Error → Code
list_code invalid_args = invalid_argument
list_code _ = internal

module _ {S : Type 0} (db : Db S) where
  unfoldable pub add_rpc : S → ℕ → ℤ → S × Result Code (Unit {0})
  unfolding add add_code
  add_rpc s user comic = let (s', r) = add db s user comic in (s', map_err add_code r)

  unfoldable pub delete_rpc : S → ℕ → ℤ → S × Result Code (Unit {0})
  unfolding delete delete_code
  delete_rpc s user comic = let (s', r) = delete db s user comic in (s', map_err delete_code r)

  unfoldable pub list_rpc : S → ℕ → Result Code (List FavoriteItem)
  unfolding list list_code
  list_rpc s user = map_ok (map to_item) (map_err list_code (list db s user))

  unfoldable pub ping_rpc : S → Result Code (Unit {0})
  ping_rpc s = map_err (λ e. unavailable) (db.ping s)

-- `favoritespb.FavoritesClient`.
pub record FavoritesClient (S : Type 0) : Type 0 where
  pub add : S → ℕ → ℤ → S × Result Code (Unit {0})
  pub delete : S → ℕ → ℤ → S × Result Code (Unit {0})
  pub list : S → ℕ → Result Code (List FavoriteItem)
  pub ping : S → Result Code (Unit {0})

-- A network that delivers every call and every reply.
unfoldable pub serve : {S : Type 0} → Db S → FavoritesClient S
unfolding add_rpc delete_rpc list_rpc ping_rpc
serve db = record {
  add = add_rpc db;
  delete = delete_rpc db;
  list = list_rpc db;
  ping = ping_rpc db;
}
