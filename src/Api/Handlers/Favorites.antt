-- ===== src/Api/Handlers/Favorites.antt =====
-- The handlers of the favorites in search-services/api/adapters/rest/api.go. `user` is what
-- `UserIDFromContext` finds.
use microservice_comics.Base.{
  ℕ, ℤ, map, Option, none, some, Result, ok, err, map_err, ◌>>=◌, nat_beq, to_i32, if◌then◌else◌,
}
use microservice_comics.Api.Model.{
  Error, bad_arguments, already_exists, not_found, unavailable, FavoriteItem, Favorites, Searcher,
}
use microservice_comics.Api.Http.{Request, Response, FavoriteItemResponse, Body, json, refuse, bare}
use microservice_comics.Api.Handlers.{respond}
use microservice_comics.Api.Handlers.Search.{positive_id, get_comic_failure}

-- The answer to a failed `Add`, `Delete` and `List`.
unfoldable pub add_failure : Error → Response
add_failure already_exists = refuse "already exists" 409
add_failure bad_arguments = refuse "bad request" 400
add_failure unavailable = refuse "dependency unavailable" 503
add_failure _ = refuse "internal error" 500

unfoldable pub delete_failure : Error → Response
delete_failure not_found = refuse "not found" 404
delete_failure bad_arguments = refuse "bad request" 400
delete_failure unavailable = refuse "dependency unavailable" 503
delete_failure _ = refuse "internal error" 500

unfoldable pub list_failure : Error → Response
list_failure bad_arguments = refuse "bad request" 400
list_failure unavailable = refuse "dependency unavailable" 503
list_failure _ = refuse "internal error" 500

abbrev pub to_response : FavoriteItem → FavoriteItemResponse
to_response it = record { comic_id = it.comic_id; created_at_unix = it.created_at_unix }

-- `!ok || userID == 0`
unfoldable pub known_user : Option ℕ → Result Response ℕ
known_user none = err (refuse "unauthorized" 401)
known_user (some user) = if nat_beq user 0 then err (refuse "unauthorized" 401) else ok user

module _ {S : Type 0} (fav : Favorites S) where
  unfoldable pub favorites_list_handler : Option ℕ → S → Response
  unfolding known_user list_failure
  favorites_list_handler user s = respond (do
    id ← known_user user
    items ← map_err list_failure (fav.list s id)
    ok (json (Body.favorites (map to_response items)) 200))

  -- The user and the comic id that a call of `Add` or `Delete` is made with.
  unfoldable pub favorite_request : Option ℕ → Request → Result Response (ℕ × ℤ)
  unfolding known_user positive_id
  favorite_request user req = do
    id ← known_user user
    comic ← positive_id req.path_id
    ok (id, comic)

  -- A call that changes the state, once its arguments are known.
  abbrev called :
      (S → ℕ → ℤ → S × Result Error (Unit {0}))
      → (Error → Response)
      → S
      → Result Response (ℕ × ℤ)
      → S × Response
  called call failed s (err r) = (s, r)
  called call failed s (ok (user, comic)) =
      let (s', r) = call s user (to_i32 comic) in
      (s', respond (do done ← map_err failed r; ok (bare 204)))

  -- The comic must exist.
  abbrev checked : Searcher → Result Response (ℕ × ℤ) → Result Response (ℕ × ℤ)
  checked search args = do
    (user, comic) ← args
    found ← map_err get_comic_failure (search.get_comic comic)
    ok (user, comic)

  unfoldable pub favorites_add_handler : Searcher → Option ℕ → Request → S → S × Response
  unfolding favorite_request add_failure get_comic_failure
  favorites_add_handler search user req s =
      called fav.add add_failure s (checked search (favorite_request user req))

  unfoldable pub favorites_delete_handler : Option ℕ → Request → S → S × Response
  unfolding favorite_request delete_failure
  favorites_delete_handler user req s =
      called fav.delete delete_failure s (favorite_request user req)
