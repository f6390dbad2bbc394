-- ===== src/Tests/Refresh.antt =====
-- The theorems on the rebuilds of the index, on the slots of the gateway and on the login of the
-- Telegram bot.
use microservice_comics.Base.{
  int_eq, suc, ◌+◌, ◌≤◌, List, [], ◌∷◌, ◌++◌, ok, err, ◌≡◌, refl, inl, pos,
}
use microservice_comics.Search.Model.{Comics}
use microservice_comics.Search.Index.{build}
use microservice_comics.Search.Refresh.{
  waiting, building, Refresh, after_all, fails, RefreshStep, initiator_reads, initiator_builds,
  begun, RefreshReach,
}
use microservice_comics.Search.Refresh.Fresh.{SerialReach, fresh_index}
use microservice_comics.Search.Refresh.Race.{IsQuiet, overlap_stale}
use microservice_comics.Api.Middleware.Slots.{
  arrived, inside, answered, Requests, ask, asks, comes, RequestReach, no_requests, inside_count,
  slots_bound,
}
use microservice_comics.Api.Middleware.Limits.{service_unavailable}
use microservice_comics.Auth.Model.{TelegramProfile, failure}
use microservice_comics.Auth.Storage.{Database}
use microservice_comics.Auth.Telegram.{upsert_between, conflict_refused}
use microservice_comics.Tests.Auth.{new_database}

abbrev barrel : Comics
barrel = record { id = pos 1; url = "u"; title = "barrel" ∷ []; alt = []; words = [] }

abbrev table : List Comics
table = barrel ∷ []

abbrev has_read : Refresh
has_read = record (begun table) { initiator = building table }

abbrev has_built : Refresh
has_built = record has_read { initiator = waiting; index = build table }

reads : RefreshStep (begun table) has_read
unfolding after_all fails
reads = initiator_reads (ok table) refl refl refl

builds : RefreshStep has_read has_built
builds = initiator_builds table refl refl

first_rebuild : SerialReach (begun table) has_built
first_rebuild =
    SerialReach.next (SerialReach.next SerialReach.here reads (inl refl)) builds (inl refl)

fresh_index_example : has_built.index ≡ build table
fresh_index_example = fresh_index table has_built first_rebuild refl refl refl refl refl

overlap_stale_example :
    (s : Refresh) × RefreshReach (begun []) s × IsQuiet s × (s.table ≡ table) × (s.index ≡ build [])
overlap_stale_example = overlap_stale [] table

abbrev two_came : Requests
two_came = record { sem = 0; phases = arrived ∷ arrived ∷ [] }

abbrev one_inside : Requests
one_inside = record { sem = 1; phases = inside ∷ arrived ∷ [] }

one_came : RequestReach 1 no_requests (record { sem = 0; phases = arrived ∷ [] })
one_came = RequestReach.next RequestReach.here (comes refl)

both_came : RequestReach 1 no_requests two_came
both_came = RequestReach.next one_came (comes refl)

one_asked : RequestReach 1 no_requests one_inside
unfolding ask
one_asked = RequestReach.next both_came (asks [] (arrived ∷ []) refl refl)

slots_bound_example :
    (inside_count one_inside.phases ≤ 1)
    × (suc (inside_count one_inside.phases) ≤ 1
        → (ask 1 one_inside.sem (inside ∷ []) []).phases ≡ (inside ∷ []) ++ inside ∷ [])
    × (inside_count one_inside.phases ≡ 1
        → (ask 1 one_inside.sem (inside ∷ []) []).phases
          ≡ (inside ∷ []) ++ answered service_unavailable ∷ [])
slots_bound_example = slots_bound 1 one_inside (inside ∷ []) [] one_asked refl

abbrev user : TelegramProfile
user = record { tg_id = pos 9; username = "u"; first_name = "f"; last_name = "l" }

abbrev one_user : Database
one_user = record new_database {
  users = record { id = pos 1; created_at = 5 } ∷ [];
  telegram = record { user_id = pos 1; profile = user } ∷ [];
  next_id = 1;
}

conflict_refused_example : upsert_between new_database one_user user ≡ (
  record one_user { next_id = one_user.next_id + 1 },
  err (failure "reload user_telegram after conflict"),
)
conflict_refused_example = conflict_refused new_database one_user user refl refl
