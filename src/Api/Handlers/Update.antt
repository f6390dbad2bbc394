-- ===== src/Api/Handlers/Update.antt =====
-- The handlers of the update service in search-services/api/adapters/rest/api.go.
use microservice_comics.Base.{String, ok, map_err, ◌>>=◌}
use microservice_comics.Api.Model.{
  Error, already_exists, unavailable, UpdateStatus, unknown, idle, running, UpdateStats, Updater,
}
use microservice_comics.Api.Http.{Response, UpdateStatsResponse, Body, json, refuse, bare}
use microservice_comics.Api.Handlers.{respond}

-- The answer to a failed `Update`: a second call while one runs is accepted.
unfoldable pub update_failure : Error → Response
update_failure already_exists = json (Body.status_text "already running") 202
update_failure unavailable = refuse "dependency unavailable" 503
update_failure _ = refuse "internal error" 500

-- The answer to a failed `Stats`, `Status` or `Drop`.
unfoldable pub outage_failure : Error → Response
outage_failure unavailable = refuse "dependency unavailable" 503
outage_failure _ = refuse "internal error" 500

abbrev pub status_string : UpdateStatus → String
status_string unknown = "unknown"
status_string idle = "idle"
status_string running = "running"

abbrev pub to_stats_response : UpdateStats → UpdateStatsResponse
to_stats_response st = record {
  words_total = st.words_total;
  words_unique = st.words_unique;
  comics_fetched = st.comics_fetched;
  comics_total = st.comics_total;
}

module _ {S : Type 0} (updater : Updater S) where
  unfoldable pub update_handler : S → S × Response
  unfolding update_failure
  update_handler s =
      let (s', r) = updater.update s in
      (s', respond (do done ← map_err update_failure r; ok (json (Body.status_text "started") 200)))

  unfoldable pub update_stats_handler : S → Response
  unfolding outage_failure
  update_stats_handler s = respond (do
    st ← map_err outage_failure (updater.stats s)
    ok (json (Body.stats (to_stats_response st)) 200))

  unfoldable pub update_status_handler : S → Response
  unfolding outage_failure
  update_status_handler s = respond (do
    st ← map_err outage_failure (updater.get_status s)
    ok (json (Body.status_text (status_string st)) 200))

  unfoldable pub drop_handler : S → S × Response
  unfolding outage_failure
  drop_handler s =
      let (s', r) = updater.drop s in
      (s', respond (do done ← map_err outage_failure r; ok (bare 200)))
