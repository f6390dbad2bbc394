-- ===== src/Update/Publisher.antt =====
-- search-services/update/adapters/broker/publisher.go: the events to the broker. The connection is
-- that of the NATS library, which is what its calls reply.
use microservice_comics.Base.{ℕ, ◌+◌, String, Option, none, some, Result, ok, err, map_ok}
use microservice_comics.Update.Model.{Error}

-- What `Publish` and `Flush` reply, and what the server gets of a message.
pub record Connection : Type 0 where
  pub publish : (subject message : String) → Result Error (Unit {0})
  pub flush : Result Error (Unit {0})

pub record Publisher : Type 0 where
  pub connection : Connection
  pub subject : String

-- `connect` is `nats.Connect`.
unfoldable pub new_publisher :
    (connect : String → Result Error Connection) → (addr subject : String) → Result Error Publisher
new_publisher connect addr subject =
    map_ok (λ nc. record { connection = nc; subject = subject }) (connect addr)

-- The number of events that were handed to the connection: none if `Publish` fails. An error of
-- `Flush` is only logged, and what was handed over stays there.
unfoldable pub notify_db_updated : Publisher → ℕ → ℕ
notify_db_updated p n = elim (p.connection.publish p.subject "XKCD DB has been updated") [
  | err e ↦ n
  | ok done ↦ n + 1
]

-- `if s.notifier != nil`
abbrev pub notify_if_set : Option Publisher → ℕ → ℕ
notify_if_set none n = n
notify_if_set (some p) n = notify_db_updated p n
