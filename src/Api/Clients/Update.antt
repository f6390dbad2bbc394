-- ===== src/Api/Clients/Update.antt =====
-- search-services/api/adapters/update/update.go: the client of the update service.
use microservice_comics.Base.{Result, map_err, map_ok, if◌then◌else◌}
use microservice_comics.Base.Grpc.{Code, is_outage}
use microservice_comics.Api.Model.{
  Error, already_exists, unavailable, status, UpdateStatus, unknown, idle, running, UpdateStats,
  Updater,
}
use microservice_comics.Api.Clients.Search.{call_error}
use microservice_comics.Update.Server.{
  ProtoStatus, unspecified, proto_idle, proto_running, StatsReply, UpdateClient,
}

abbrev pub to_status : ProtoStatus → UpdateStatus
to_status proto_idle = idle
to_status proto_running = running
to_status unspecified = unknown

abbrev pub to_stats : StatsReply → UpdateStats
to_stats r = record {
  words_total = r.words_total;
  words_unique = r.words_unique;
  comics_fetched = r.comics_fetched;
  comics_total = r.comics_total;
}

-- The `switch` of `Update`.
unfoldable pub update_error : Code → Error
update_error Code.already_exists = already_exists
update_error c = if is_outage c then unavailable else status c

module _ {S : Type 0} (c : UpdateClient S) where
  unfoldable pub ping : S → Result Error (Unit {0})
  unfolding call_error
  ping s = map_err call_error (c.ping s)

  unfoldable pub get_status : S → Result Error UpdateStatus
  unfolding call_error
  get_status s = map_ok to_status (map_err call_error (c.get_status s))

  unfoldable pub stats : S → Result Error UpdateStats
  unfolding call_error
  stats s = map_ok to_stats (map_err call_error (c.stats s))

  unfoldable pub update : S → S × Result Error (Unit {0})
  unfolding update_error
  update s = let (s', r) = c.update s in (s', map_err update_error r)

  unfoldable pub drop : S → S × Result Error (Unit {0})
  unfolding call_error
  drop s = let (s', r) = c.drop s in (s', map_err call_error r)

-- `*Client` as `core.Updater`.
unfoldable pub updater : {S : Type 0} → UpdateClient S → Updater S
unfolding ping get_status stats update drop
updater c = record {
  update = update c;
  stats = stats c;
  get_status = get_status c;
  drop = drop c;
  ping = ping c;
}
