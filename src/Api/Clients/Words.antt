-- ===== src/Api/Clients/Words.antt =====
-- search-services/api/adapters/words/words.go: the client of the words service.
use microservice_comics.Base.{String, List, Result, map_err, if◌then◌else◌}
use microservice_comics.Base.Grpc.{Code, is_outage}
use microservice_comics.Api.Model.{Error, bad_arguments, unavailable, status}
use microservice_comics.Api.Clients.Search.{call_error}
use microservice_comics.Words.Server.{WordsClient}

unfoldable pub norm_error : Code → Error
norm_error Code.resource_exhausted = bad_arguments
norm_error c = if is_outage c then unavailable else status c

module _ (c : WordsClient) where
  unfoldable pub norm : String → Result Error (List String)
  unfolding norm_error
  norm phrase = map_err norm_error (c.norm phrase)

  unfoldable pub ping : Result Error (Unit {0})
  unfolding call_error
  ping = map_err call_error c.ping
