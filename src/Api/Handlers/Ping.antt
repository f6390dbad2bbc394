-- ===== src/Api/Handlers/Ping.antt =====
-- The handler of ping in search-services/api/adapters/rest/api.go. The map of the services that
-- answer is a list by their names.
use microservice_comics.Base.{String, List, map, Result, ok, err}
use microservice_comics.Api.Model.{Error}
use microservice_comics.Api.Http.{Response, Body, json}

abbrev pub reply_of : Result Error (Unit {0}) → String
reply_of (ok u) = "ok"
reply_of (err e) = "unavailable"

unfoldable pub ping_handler : List (String × Result Error (Unit {0})) → Response
ping_handler pingers =
    json
      (Body.replies (map (λ (p : String × Result Error (Unit {0})). (p.0, reply_of p.1)) pingers))
      200
