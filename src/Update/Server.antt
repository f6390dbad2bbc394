-- ===== src/Update/Server.antt =====
-- search-services/update/adapters/grpc/server.go, with the events that it has published.
use microservice_comics.Base.{ℕ, ℤ, Option, Result, ok, err, map_err, map_ok}
use microservice_comics.Base.Grpc.{Code, internal}
use microservice_comics.Update.Model.{
  Error, already_exists, ServiceStatus, running, idle, ServiceStats,
}
use microservice_comics.Update.Publisher.{Publisher, notify_if_set}

-- `core.Updater`.
pub record Updater (S : Type 0) : Type 0 where
  pub update : S → S × Result Error (Unit {0})
  pub stats : S → Result Error ServiceStats
  pub get_status : S → ServiceStatus
  pub drop : S → S × Result Error (Unit {0})

-- `updatepb.Status`
pub data ProtoStatus : Type 0 where
  unspecified proto_idle proto_running : ProtoStatus

pub record StatsReply : Type 0 where
  pub words_total : ℤ
  pub words_unique : ℤ
  pub comics_fetched : ℤ
  pub comics_total : ℤ

-- The service, and the number of events that were published.
pub record ServerState (S : Type 0) : Type 0 where
  pub service : S
  pub published : ℕ

abbrev pub to_stats_reply : ServiceStats → StatsReply
to_stats_reply st = record {
  words_total = st.db_stats.words_total;
  words_unique = st.db_stats.words_unique;
  comics_fetched = st.db_stats.comics_fetched;
  comics_total = st.comics_total;
}

unfoldable pub update_code : Error → Code
update_code already_exists = Code.already_exists
update_code _ = internal

abbrev pub status_reply : ServiceStatus → ProtoStatus
status_reply running = proto_running
status_reply idle = proto_idle

-- An event follows a success only.
abbrev pub notified : Option Publisher → ℕ → Result Error (Unit {0}) → ℕ
notified notifier n (ok u) = notify_if_set notifier n
notified notifier n (err e) = n

module _ {S : Type 0} (core : Updater S) (notifier : Option Publisher) where
  unfoldable pub status_rpc : ServerState S → Result Code ProtoStatus
  status_rpc s = ok (status_reply (core.get_status s.service))

  unfoldable pub update_rpc : ServerState S → ServerState S × Result Code (Unit {0})
  unfolding update_code
  update_rpc s =
      let (service, r) = core.update s.service in
      (
        record { service = service; published = notified notifier s.published r },
        map_err update_code r,
      )

  unfoldable pub stats_rpc : ServerState S → Result Code StatsReply
  stats_rpc s = map_ok to_stats_reply (map_err (λ e. internal) (core.stats s.service))

  -- Every error is `Internal`, that of a busy service too.
  unfoldable pub drop_rpc : ServerState S → ServerState S × Result Code (Unit {0})
  drop_rpc s =
      let (service, r) = core.drop s.service in
      (
        record { service = service; published = notified notifier s.published r },
        map_err (λ e. internal) r,
      )

  unfoldable pub ping_rpc : ServerState S → Result Code (Unit {0})
  ping_rpc s = ok tt

-- `updatepb.UpdateClient`.
pub record UpdateClient (S : Type 0) : Type 0 where
  pub ping : S → Result Code (Unit {0})
  pub get_status : S → Result Code ProtoStatus
  pub stats : S → Result Code StatsReply
  pub update : S → S × Result Code (Unit {0})
  pub drop : S → S × Result Code (Unit {0})

-- A network that delivers every call and every reply.
unfoldable pub serve : {S : Type 0} → Updater S → Option Publisher → UpdateClient (ServerState S)
unfolding ping_rpc status_rpc stats_rpc update_rpc drop_rpc
serve core notifier = record {
  ping = ping_rpc core notifier;
  get_status = status_rpc core notifier;
  stats = stats_rpc core notifier;
  update = update_rpc core notifier;
  drop = drop_rpc core notifier;
}
