-- ===== src/Gateway/Served/Requests.antt =====
-- Listing and deleting a favorite: the requests, their routes, and what the handlers of
-- search-services/api make of the replies of search-services/favorites.
use microservice_comics.Base.{
  string_eq, int_eq, nat_eq, ℕ, suc, ◌<◌, ◌≤◌, ◌^◌, ℤ, pos, String, List, [], ◌∷◌, map, none, some,
  Result, ok, ◌>>=◌, map_err, map_ok, atoi, ◌≡◌, ◌≢◌, ◌↔◌, refl, sym, ap, ◌∙◌, inl, inr, arith,
  Elem,
}
use microservice_comics.Favorites.Model.{Favorite, Error}
use microservice_comics.Favorites.Storage
use microservice_comics.Favorites.Storage.{Database, storage}
use microservice_comics.Favorites.Service
use microservice_comics.Favorites.Service.{serve, add, delete, delete_code, list, list_code}
use microservice_comics.Api.Clients.Favorites.{delete_error, list_error, to_item}
use microservice_comics.Api.Http.{Request, Response, FavoriteItemResponse, Body, json, bare}
use microservice_comics.Api.Handlers.{respond}
use microservice_comics.Api.Handlers.Favorites.{
  favorites_list_handler, favorites_delete_handler, delete_failure, list_failure, to_response,
}
use microservice_comics.Api.Middleware.{read_token}
use microservice_comics.Api.Mux.{found, best_match, routed, path_value}
use microservice_comics.Api.Routes.{favorites_list, favorites_delete, public_routes}
use microservice_comics.Api.Server.{Incoming, to_request}
use microservice_comics.Gateway.Search.{positive_id_lem}
use microservice_comics.Gateway.Favorites.{favorites_gateway, known, low_bits}
use microservice_comics.Gateway.Paths.{not_empty}
use microservice_comics.Gateway.Served.{add_request}

-- A GET of /api/mycomics.
abbrev pub list_request : (authorization : String) → Incoming
list_request authorization = record (add_request authorization "") {
  method = "GET";
  path = "api" ∷ "mycomics" ∷ [];
}

-- A DELETE of /api/mycomics/ and a segment.
abbrev pub delete_request : (authorization segment : String) → Incoming
delete_request authorization segment = record (add_request authorization segment) {
  method = "DELETE";
}

pub list_routed : routed public_routes "GET" ("api" ∷ "mycomics" ∷ []) ≡ found favorites_list ""
unfolding public_routes best_match path_value
list_routed = refl

pub delete_routed :
    (segment : String)
    → segment ≢ ""
    → routed public_routes "DELETE" ("api" ∷ "mycomics" ∷ segment ∷ [])
      ≡ found favorites_delete segment
unfolding public_routes best_match path_value
delete_routed segment full = rw (not_empty segment full) refl

-- A favorite on its way from the service to the response.
abbrev pub shown : Favorite → FavoriteItemResponse
shown f = to_response (to_item (Service.to_item f))

-- The response lists the comic.
abbrev pub Lists : List FavoriteItemResponse → ℤ → Type 0
Lists items k = (it : FavoriteItemResponse) × Elem it items × (it.comic_id ≡ k)

abbrev pub shown_all : List Favorite → List FavoriteItemResponse
shown_all fs = map to_response (map to_item (map Service.to_item fs))

pub Lists-shown_all :
    (fs : List Favorite) (k : ℤ)
    → Lists (shown_all fs) k ↔ ((f : Favorite) × Elem f fs × (f.comic_id ≡ k))
Lists-shown_all [] k = (λ m. absurd m.1, λ m. absurd m.1)
Lists-shown_all (f ∷ fs) k =
    let (to, from) = Lists-shown_all fs k in
    (
      λ (it, here, e). elim here [
        | inl same ↦ (f, inl refl, ap (λ (i : FavoriteItemResponse). i.comic_id) (sym same) ∙ e)
        | inr later ↦ (let m = to (it, later, e) in (m.0, inr m.1, m.2))
      ],
      λ (g, here, e). elim here [
        | inl same ↦ (shown f, inl refl, ap (λ (g : Favorite). g.comic_id) (sym same) ∙ e)
        | inr later ↦ (let m = from (g, later, e) in (m.0, inr m.1, m.2))
      ],
    )

-- What the handler makes of the reply of the service.
abbrev pub list_answer : Result Error (List Favorite) → Response
list_answer r = respond (do
  items ← map_err list_failure (
      map_ok (map to_item)
        (map_err list_error (map_ok (map Service.to_item) (map_err list_code r))))
  ok (json (Body.favorites (map to_response items)) 200))

pub listed :
    (d : Database) (uid : ℕ)
    → 1 ≤ uid
    → favorites_list_handler favorites_gateway (some uid) d ≡ list_answer (list storage d uid)
unfolding favorites_list_handler favorites_gateway
listed d uid h = rw (known uid h) refl

abbrev pub delete_answer : Result Error (Unit {0}) → Response
delete_answer r =
    respond (do
      done ← map_err delete_failure (map_err delete_error (map_err delete_code r))
      ok (bare 204))

pub deleted :
    (d : Database) (uid n : ℕ) (req : Request)
    → 1 ≤ uid
    → suc n < 2 ^ 31
    → atoi req.path_id ≡ some (pos (suc n))
    → favorites_delete_handler favorites_gateway (some uid) req d ≡ (
      (delete storage d uid (pos (suc n))).0,
      delete_answer (delete storage d uid (pos (suc n))).1,
    )
unfolding favorites_delete_handler favorites_gateway
deleted d uid n req h small given =
    rw (known uid h) (rw (positive_id_lem req.path_id n given) (rw (low_bits n small) refl))

pub token_of_request :
    (authorization segment : String)
    → read_token (to_request (add_request authorization segment) segment)
      ≡ read_token (to_request (list_request authorization) "")
unfolding read_token
token_of_request authorization segment = refl

pub token_of_delete :
    (authorization segment : String)
    → read_token (to_request (delete_request authorization segment) segment)
      ≡ read_token (to_request (list_request authorization) "")
unfolding read_token
token_of_delete authorization segment = refl

pub add-outage :
    (d : Database) (uid : ℕ) (k : ℤ) → d.outage ≡ none → (add storage d uid k).0.outage ≡ none
unfolding add storage Storage.add
add-outage d uid k up = rw up (ground (arith, up))

pub delete-outage :
    (d : Database) (uid : ℕ) (k : ℤ) → d.outage ≡ none → (delete storage d uid k).0.outage ≡ none
unfolding delete storage Storage.delete
delete-outage d uid k up = rw up (ground (arith, up))
