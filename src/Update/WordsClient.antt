-- ===== src/Update/WordsClient.antt =====
-- search-services/update/adapters/words/words.go: the client of the words service.
use microservice_comics.Base.{map_err}
use microservice_comics.Base.Grpc.{Code}
use microservice_comics.Update.Model.{Error, bad_arguments, unavailable, status, Words}
use microservice_comics.Words.Server.{WordsClient}

unfoldable pub norm_error : Code → Error
norm_error Code.resource_exhausted = bad_arguments
norm_error Code.unavailable = unavailable
norm_error Code.deadline_exceeded = unavailable
norm_error c = status c

-- `*Client` as the port `Words`.
unfoldable pub words : WordsClient → Words
unfolding norm_error
words c = record { norm = λ phrase. map_err norm_error (c.norm phrase) }
