-- ===== src/Gateway/Update.antt =====
-- From an HTTP request to drop the comics to the update service and back: the handler of
-- search-services/api over the client, the server, the service and the storage of
-- search-services/update.
use microservice_comics.Base.{
  ℕ, Bool, true, false, List, [], String, Option, none, some, Result, ◌≡◌, refl,
}
use microservice_comics.Update.Model.{Comics, Error, Xkcd}
use microservice_comics.Update.Service
use microservice_comics.Update.Service.{get_status, try_start}
use microservice_comics.Update.Storage.{Database, storage}
use microservice_comics.Update.Publisher.{Publisher, notify_if_set}
use microservice_comics.Update.Server.{ServerState, Updater, serve}
use microservice_comics.Api.Clients.Search.{call_error}
use microservice_comics.Api.Clients.Update.{updater}
use microservice_comics.Api.Http.{Response, refuse, bare}
use microservice_comics.Api.Handlers.Update.{drop_handler, outage_failure}

-- `*Service` as `core.Updater`, whatever a call of `update` does.
abbrev pub core :
    Xkcd
    → (Bool × Database → (Bool × Database) × Result Error (Unit {0}))
    → Updater (Bool × Database)
core xkcd update = record {
  update = update;
  stats = λ s. Service.stats storage xkcd s.1;
  get_status = λ s. get_status s.0;
  drop = Service.drop storage;
}

-- What a request to drop leaves and answers, by the flag and the driver's error.
abbrev pub drop_outcome :
    Option Publisher
    → Bool
    → Option String
    → ServerState (Bool × Database)
    → ServerState (Bool × Database) × Response
drop_outcome notifier true o s = (s, refuse "internal error" 500)
drop_outcome notifier false (some e) s = (s, refuse "internal error" 500)
drop_outcome notifier false none s = (
  record {
    service = (false, record { rows = []; outage = none });
    published = notify_if_set notifier s.published;
  },
  bare 200,
)

-- While an update runs, or the database does not answer, a request to drop is answered by 500 and
-- changes nothing, and no event is published. Otherwise the table is empty afterwards, and one
-- event is published if there is a publisher.
pub drop_response :
    (xkcd : Xkcd) (update : Bool × Database → (Bool × Database) × Result Error (Unit {0}))
    (notifier : Option Publisher) (s : ServerState (Bool × Database))
    → drop_handler (updater (serve (core xkcd update) notifier)) s
      ≡ drop_outcome notifier s.service.0 s.service.1.outage s
unfolding drop_handler updater serve outage_failure call_error Service.drop try_start storage
drop_response xkcd update notifier s =
    by_cases s.service.0 s.service.1.outage s.service.1.rows s.published
  where
    by_cases :
        (flag : Bool) (o : Option String) (rows : List Comics) (n : ℕ)
        → let s : ServerState (Bool × Database) = record {
          service = (flag, record { rows = rows; outage = o });
          published = n;
        } in
          drop_handler (updater (serve (core xkcd update) notifier)) s
          ≡ drop_outcome notifier flag o s
    by_cases true o rows n = refl
    by_cases false (some e) rows n = refl
    by_cases false none rows n = refl
