-- ===== src/Gateway/Served.antt =====
-- A favorite through the public server of search-services/api: the routes and the middleware of
-- main.go, the handler, the clients, and the services and tables of favorites and search.
pub mod Requests
pub mod Cycle
use microservice_comics.Base.{
  string_eq, int_eq, ℕ, suc, ◌<◌, ◌≤◌, ◌^◌, ℤ, pos, String, ◌||◌, List, [], ◌∷◌, filter, Option,
  none, some, ◌==◌, atoi, atoi-nonempty, if◌then◌else◌, ◌≡◌, ◌≢◌, refl, ap, ◌∙◌,
}
use microservice_comics.Auth.Model.{Jwt}
use microservice_comics.Search.Model.{Words}
use microservice_comics.Search.Index.{InvertedIndex}
use microservice_comics.Search.Storage.{ComicsRow}
use microservice_comics.Search.Service.Pages.{answering}
use microservice_comics.Favorites.Storage.{Database, storage}
use microservice_comics.Favorites.Service.{add}
use microservice_comics.Favorites.Rows.{contains, is_pair}
use microservice_comics.Api.Http.{Request, Response, refuse, bare}
use microservice_comics.Api.Middleware.{read_token, user_of, require_user}
use microservice_comics.Api.Handlers.Favorites.{favorites_add_handler}
use microservice_comics.Api.Mux.{found, best_match, routed, path_value}
use microservice_comics.Api.Routes.{favorites_add, public_routes}
use microservice_comics.Api.Server.{
  Settings, Services, Backend, Incoming, Moment, to_request, handle, serve_public, dispatched,
}
use microservice_comics.Gateway.Search.{gateway}
use microservice_comics.Gateway.Favorites.{
  favorites_gateway, favorites_add_handled, favorites_add_response,
}
use microservice_comics.Gateway.Paths.{not_empty}

-- A POST to /api/mycomics/ and a segment.
abbrev pub add_request : (authorization segment : String) → Incoming
add_request authorization segment = record {
  method = "POST";
  path = "api" ∷ "mycomics" ∷ segment ∷ [];
  authorization = authorization;
  query = λ key. "";
  login = none;
  credentials = none;
  telegram = none;
}

add_routed :
    (segment : String)
    → segment ≢ ""
    → routed public_routes "POST" ("api" ∷ "mycomics" ∷ segment ∷ []) ≡ found favorites_add segment
unfolding public_routes best_match path_value
add_routed segment full = rw (not_empty segment full) refl

pub require_user-some :
    {S : Type 0} (jwt : Jwt) (secret : String) (now : ℕ) (h : Option ℕ → Request → S → S × Response)
    (req : Request) (s : S) (uid : ℕ)
    → user_of jwt secret now (read_token req) ≡ some uid
    → require_user jwt secret now h req s ≡ h (some uid) req s
unfolding require_user
require_user-some jwt secret now h req s uid given = rw given refl

module _ {U A : Type 0} (jwt : Jwt) (cfg : Settings) (c : Services U A Database) (intn : ℤ → ℤ)
    (rows : List ComicsRow) (words : Words) (index : InvertedIndex) where
  -- The clients, with the services of favorites and search at the other end.
  abbrev pub joined : Services U A Database
  joined = record c {
    favorites = favorites_gateway;
    search = gateway intn (answering rows) words index;
  }

  module _ (m : Moment) (b : Backend U A Database) (authorization segment : String) (uid n : ℕ)
      (known : user_of jwt cfg.auth_jwt_secret m.now
          (read_token (to_request (add_request authorization segment) segment))
        ≡ some uid)
      (given : atoi segment ≡ some (pos (suc n))) where
    abbrev req : Request
    req = to_request (add_request authorization segment) segment

    abbrev added : Database × Response
    added =
        favorites_add_handler favorites_gateway (gateway intn (answering rows) words index)
          (some uid) req b.favorites

    served :
        serve_public jwt cfg joined m (add_request authorization segment) b
        ≡ (record b { favorites = added.0 }, added.1)
    unfolding serve_public handle
    served =
        ap (λ r. dispatched jwt cfg joined m (add_request authorization segment) r b)
          (add_routed segment (atoi-nonempty segment (pos (suc n)) given))
        ∙ ap (λ (p : Database × Response). (record b { favorites = p.0 }, p.1))
            (require_user-some jwt cfg.auth_jwt_secret m.now _ req b.favorites uid known)

    -- What it leaves of the favorites.
    pub add_left :
        (r : ComicsRow) (rs : List ComicsRow)
        → 1 ≤ uid
        → suc n < 2 ^ 31
        → b.favorites.outage ≡ none
        → filter (λ r. r.id == pos (suc n)) rows ≡ r ∷ rs
        → (serve_public jwt cfg joined m (add_request authorization segment) b).0.favorites
          ≡ (add storage b.favorites uid (pos (suc n))).0
    add_left r rs some_user small up here =
        ap (λ t. t.0.favorites) served
        ∙ ap (λ t. t.0)
            (favorites_add_handled intn rows words index uid n req b.favorites some_user small given
              up r rs here)

    -- A POST to /api/mycomics/ and a number below 2^31 that the search service has, with a token
    -- that names a user, while both databases answer: the pair is stored with the number that was
    -- asked for, no other pair changes, and the response says whether it was there before.
    pub add_served :
        (r : ComicsRow) (rs : List ComicsRow)
        → 1 ≤ uid
        → suc n < 2 ^ 31
        → b.favorites.outage ≡ none
        → filter (λ r. r.id == pos (suc n)) rows ≡ r ∷ rs
        → let t = serve_public jwt cfg joined m (add_request authorization segment) b in
          (t.1 ≡ (
            if contains b.favorites uid (pos (suc n))
            then refuse "already exists" 409
            else bare 204))
          × ((u : ℕ) (k : ℤ)
              → contains t.0.favorites u k
                ≡ (contains b.favorites u k || is_pair uid (pos (suc n)) u k))
    add_served r rs some_user small up here =
        let (reply, pairs) =
          favorites_add_response intn rows words index uid n req b.favorites some_user small given
            up r rs here in
        (
          ap (λ t. t.1) served ∙ reply,
          λ u k. ap (λ t. contains t.0.favorites u k) served ∙ pairs u k,
        )
