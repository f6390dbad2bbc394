-- ===== src/Api/Routes.antt =====
-- The routes of the two servers in search-services/api/main.go.
use microservice_comics.Base.{String, List, [], ◌∷◌}
use microservice_comics.Api.Mux.{Segment, literal, id_wildcard, Route}

-- The handlers that are registered.
pub data Endpoint : Type 0 where
  ping login search isearch comics comic_by_id random_comic : Endpoint
  update stats status drop : Endpoint
  register user_login bot_telegram_login : Endpoint
  favorites_list favorites_add favorites_delete : Endpoint

abbrev route : String → List Segment → Endpoint → Route Endpoint
route method pattern endpoint = record { method = method; pattern = pattern; endpoint = endpoint }

abbrev api : List Segment → List Segment
api ps = literal "api" ∷ ps

-- `mux`
unfoldable pub public_routes : List (Route Endpoint)
public_routes =
    route "GET" (api (literal "ping" ∷ [])) Endpoint.ping
    ∷ route "POST" (api (literal "login" ∷ [])) login
    ∷ route "GET" (api (literal "search" ∷ [])) Endpoint.search
    ∷ route "GET" (api (literal "isearch" ∷ [])) isearch
    ∷ route "GET" (api (literal "comics" ∷ [])) comics
    ∷ route "GET" (api (literal "comics" ∷ id_wildcard ∷ [])) comic_by_id
    ∷ route "GET" (api (literal "comics" ∷ literal "random" ∷ [])) random_comic
    ∷ route "POST" (api (literal "db" ∷ literal "update" ∷ [])) Endpoint.update
    ∷ route "GET" (api (literal "db" ∷ literal "stats" ∷ [])) stats
    ∷ route "GET" (api (literal "db" ∷ literal "status" ∷ [])) status
    ∷ route "DELETE" (api (literal "db" ∷ [])) Endpoint.drop
    ∷ route "POST" (api (literal "auth" ∷ literal "register" ∷ [])) Endpoint.register
    ∷ route "POST" (api (literal "auth" ∷ literal "login" ∷ [])) user_login
    ∷ route "GET" (api (literal "mycomics" ∷ [])) favorites_list
    ∷ route "POST" (api (literal "mycomics" ∷ id_wildcard ∷ [])) favorites_add
    ∷ route "DELETE" (api (literal "mycomics" ∷ id_wildcard ∷ [])) favorites_delete
    ∷ []

-- `internalmux`
unfoldable pub internal_routes : List (Route Endpoint)
internal_routes =
    route "POST" (api (literal "auth" ∷ literal "bot" ∷ literal "telegram" ∷ literal "login" ∷ []))
      bot_telegram_login
    ∷ []
