-- ===== src/Api/Clients/Favorites.antt =====
-- search-services/api/adapters/favorites/favorites.go: the client of the favorites service.
use microservice_comics.Base.{ℕ, ℤ, List, map, Result, map_err, map_ok, if◌then◌else◌}
use microservice_comics.Base.Grpc.{Code, is_outage}
use microservice_comics.Api.Model.{
  Error, bad_arguments, already_exists, not_found, unavailable, status, FavoriteItem, Favorites,
}
use microservice_comics.Api.Clients.Search.{call_error}
use microservice_comics.Favorites.Service
use microservice_comics.Favorites.Service.{FavoritesClient}

unfoldable pub add_error : Code → Error
add_error Code.invalid_argument = bad_arguments
add_error Code.already_exists = already_exists
add_error c = if is_outage c then unavailable else status c

unfoldable pub delete_error : Code → Error
delete_error Code.invalid_argument = bad_arguments
delete_error Code.not_found = not_found
delete_error c = if is_outage c then unavailable else status c

unfoldable pub list_error : Code → Error
list_error Code.invalid_argument = bad_arguments
list_error c = if is_outage c then unavailable else status c

abbrev pub to_item : Service.FavoriteItem → FavoriteItem
to_item it = record { comic_id = it.comic_id; created_at_unix = it.created_at_unix }

module _ {S : Type 0} (c : FavoritesClient S) where
  unfoldable pub ping : S → Result Error (Unit {0})
  unfolding call_error
  ping s = map_err call_error (c.ping s)

  unfoldable pub add : S → ℕ → ℤ → S × Result Error (Unit {0})
  unfolding add_error
  add s user comic = let (s', r) = c.add s user comic in (s', map_err add_error r)

  unfoldable pub delete : S → ℕ → ℤ → S × Result Error (Unit {0})
  unfolding delete_error
  delete s user comic = let (s', r) = c.delete s user comic in (s', map_err delete_error r)

  unfoldable pub list : S → ℕ → Result Error (List FavoriteItem)
  unfolding list_error
  list s user = map_ok (map to_item) (map_err list_error (c.list s user))

-- `*Client` as `core.Favorites`.
unfoldable pub favorites : {S : Type 0} → FavoritesClient S → Favorites S
unfolding ping add delete list
favorites c = record { add = add c; delete = delete c; list = list c; ping = ping c }
