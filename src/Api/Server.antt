-- ===== src/Api/Server.antt =====
-- `main` of search-services/api/main.go: which handler stands behind which route, and in which
-- middleware. The state behind the handlers is that of the services that a request can change.
use microservice_comics.Base.{ℕ, ℤ, String, Bool, List, [], ◌∷◌, Option, Result}
use microservice_comics.Auth.Model.{Jwt}
use microservice_comics.Api.Model.{Error, TelegramProfile, Searcher, Updater, Auth, Favorites}
use microservice_comics.Api.Http.{Request, Response, Body, json}
use microservice_comics.Api.Handlers.Search.{
  search_handler, indexed_search_handler, comic_by_id_handler, comics_list_handler,
  random_comic_handler,
}
use microservice_comics.Api.Handlers.Update.{
  update_handler, update_stats_handler, update_status_handler, drop_handler,
}
use microservice_comics.Api.Handlers.Favorites.{
  favorites_list_handler, favorites_add_handler, favorites_delete_handler,
}
use microservice_comics.Api.Handlers.Auth.{
  CredentialsRequest, register_handler, user_login_handler, bot_telegram_login_handler,
}
use microservice_comics.Api.Handlers.Ping.{ping_handler}
use microservice_comics.Api.Middleware.{
  LoginRequest, login_handler, require_user, require_superuser,
}
use microservice_comics.Api.Middleware.Limits.{with_concurrency_limit, with_rate_limit}
use microservice_comics.Api.Mux.{Routed, no_path, wrong_method, found, best_match, routed}
use microservice_comics.Api.Routes.{
  Endpoint, login, isearch, comics, comic_by_id, random_comic, stats, status, user_login,
  bot_telegram_login, favorites_list, favorites_add, favorites_delete, public_routes,
  internal_routes,
}

-- What the handlers take from the configuration.
pub record Settings : Type 0 where
  pub admin_user : String
  pub admin_password : String
  pub token_ttl : ℕ
  pub auth_jwt_secret : String
  pub search_concurrency : ℤ
  pub search_rate : ℤ

-- The clients. The clients without a state of their own are what they answer.
pub record Services (U A F : Type 0) : Type 0 where
  pub words_ping : Result Error (Unit {0})
  pub search : Searcher
  pub updater : Updater U
  pub auth : Auth A
  pub favorites : Favorites F

-- The states of the services that a request can change.
pub record Backend (U A F : Type 0) : Type 0 where
  pub update : U
  pub auth : A
  pub favorites : F

-- A request as it comes: the path is not matched yet, and the body is what each decoder would make
-- of it.
pub record Incoming : Type 0 where
  pub method : String
  pub path : List String
  pub authorization : String
  pub query : String → String
  pub login : Option LoginRequest
  pub credentials : Option CredentialsRequest
  pub telegram : Option TelegramProfile

-- What else the time of a request decides: the clock, the requests in the search, and whether the
-- wait of the rate limiter ends without an error.
pub record Moment : Type 0 where
  pub now : ℕ
  pub searching : ℕ
  pub waits : Bool

abbrev pub to_request : Incoming → String → Request
to_request i id = record {
  method = i.method;
  authorization = i.authorization;
  query = i.query;
  path_id = id;
}

module _ {U A F : Type 0} where
  -- A handler that only reads, or that changes one of the services.
  abbrev reads : Response → Backend U A F → Backend U A F × Response
  reads r b = (b, r)

  abbrev pub on_update : (U → U × Response) → Backend U A F → Backend U A F × Response
  on_update h b = let (u, r) = h b.update in (record b { update = u }, r)

  abbrev pub on_auth : (A → A × Response) → Backend U A F → Backend U A F × Response
  on_auth h b = let (a, r) = h b.auth in (record b { auth = a }, r)

  abbrev pub on_favorites : (F → F × Response) → Backend U A F → Backend U A F × Response
  on_favorites h b = let (f, r) = h b.favorites in (record b { favorites = f }, r)

  -- `pingmap`
  unfoldable pub pingmap : Services U A F → Backend U A F → List (String × Result Error (Unit {0}))
  pingmap c b =
      ("words", c.words_ping)
      ∷ ("update", c.updater.ping b.update)
      ∷ ("search", c.search.ping)
      ∷ ("auth", c.auth.ping b.auth)
      ∷ ("favorites", c.favorites.ping b.favorites)
      ∷ []

  module _ (jwt : Jwt) (cfg : Settings) (c : Services U A F) (m : Moment) (i : Incoming) where
    abbrev pub only_superuser :
        (Request → U → U × Response) → Request → Backend U A F → Backend U A F × Response
    only_superuser h req = on_update (require_superuser jwt m.now h req)

    abbrev pub only_user :
        (Option ℕ → Request → F → F × Response) → Request → Backend U A F → Backend U A F × Response
    only_user h req = on_favorites (require_user jwt cfg.auth_jwt_secret m.now h req)

    unfoldable pub handle : Endpoint → Request → Backend U A F → Backend U A F × Response
    unfolding pingmap
    handle Endpoint.ping req b = reads (ping_handler (pingmap c b)) b
    handle login req b =
        reads (login_handler jwt cfg.admin_user cfg.admin_password cfg.token_ttl m.now req i.login)
          b
    handle Endpoint.search req b =
        reads
          (with_concurrency_limit cfg.search_concurrency m.searching (search_handler c.search req))
          b
    handle isearch req b =
        reads (with_rate_limit cfg.search_rate m.waits (indexed_search_handler c.search req)) b
    handle comics req b = reads (comics_list_handler c.search req) b
    handle comic_by_id req b = reads (comic_by_id_handler c.search req) b
    handle random_comic req b = reads (random_comic_handler c.search) b
    handle Endpoint.update req b = only_superuser (λ r. update_handler c.updater) req b
    handle stats req b = reads (update_stats_handler c.updater b.update) b
    handle status req b = reads (update_status_handler c.updater b.update) b
    handle Endpoint.drop req b = only_superuser (λ r. drop_handler c.updater) req b
    handle Endpoint.register req b = on_auth (register_handler c.auth req i.credentials) b
    handle user_login req b = reads (user_login_handler c.auth req i.credentials b.auth) b
    handle bot_telegram_login req b = on_auth (bot_telegram_login_handler c.auth i.telegram) b
    handle favorites_list req b =
        only_user (λ user r f. (f, favorites_list_handler c.favorites user f)) req b
    handle favorites_add req b = only_user (favorites_add_handler c.favorites c.search) req b
    handle favorites_delete req b = only_user (favorites_delete_handler c.favorites) req b

    abbrev pub dispatched : Routed Endpoint → Backend U A F → Backend U A F × Response
    dispatched no_path = reads (json (Body.text "404 page not found\n") 404)
    dispatched wrong_method = reads (json (Body.text "Method Not Allowed\n") 405)
    dispatched (found e id) = handle e (to_request i id)

    -- The handlers of `server` and of `internalServer`.
    unfoldable pub serve_public : Backend U A F → Backend U A F × Response
    unfolding handle public_routes best_match
    serve_public = dispatched (routed public_routes i.method i.path)

    unfoldable pub serve_internal : Backend U A F → Backend U A F × Response
    unfolding handle internal_routes best_match
    serve_internal = dispatched (routed internal_routes i.method i.path)
