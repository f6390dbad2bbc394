-- ===== src/Update/Main.antt =====
-- search-services/update/main.go: what `run` does until it serves. What a call to the outside
-- replies is a parameter.
use microservice_comics.Base.{
  ℕ, suc, ◌≤◌, ℤ, pos, negsuc, String, Bool, false, ◌&&◌, Result, ok, err_ok, ok_injective,
  >>=-eq-ok, ◌>>=◌, ◌>>◌, map_err, map_err_ok, ltb_ℤ, subst, none, leb, ◌≡◌, sym, ap, ◌∙◌, inl, inr,
  arith, Bool-cases, if◌then◌else◌,
}
use microservice_comics.Update.Model.{Error, failure, Words}
use microservice_comics.Update.Service.{new_service}
use microservice_comics.Update.Storage.{Database, row_of}
use microservice_comics.Update.Contents.{fetched}
use microservice_comics.Update.Whole.{Returns, or_new}
use microservice_comics.Update.Xkcd.{HttpReply, new_client, xkcd}
use microservice_comics.Update.Xkcd.Site.{IsNumbered, numbered, update_site}

pub record Config : Type 0 where
  pub address : String
  pub xkcd_url : String
  pub xkcd_concurrency : ℤ
  pub db_address : String
  pub words_address : String
  pub broker_address : String

-- `db.New`, `Migrate`, the dialling of the words service, `net.Listen` and the connection to the
-- broker.
pub record Outside : Type 0 where
  pub connect_db : String → Result Error (Unit {0})
  pub migrate : Result Error (Unit {0})
  pub dial_words : String → Result Error (Unit {0})
  pub listen : String → Result Error (Unit {0})
  pub connect_broker : String → Result Error (Unit {0})

-- What the server is then made of: the base URL of the client, and the service's `concurrency`.
pub record Server : Type 0 where
  pub url : String
  pub concurrency : ℤ

abbrev because : {A : Type 0} → String → Result Error A → Result Error A
because what r = map_err (λ e. failure what) r

unfoldable pub run : Config → Outside → Result Error Server
unfolding new_client new_service
run cfg out = do
  because "failed to connect to db" (out.connect_db cfg.db_address)
  because "failed to migrate db" out.migrate
  url ← because "failed create XKCD client" (new_client cfg.xkcd_url)
  because "failed create Words client" (out.dial_words cfg.words_address)
  workers ← because "failed create Update service" (new_service cfg.xkcd_concurrency)
  because "failed to listen" (out.listen cfg.address)
  because "failed to create publisher" (out.connect_broker cfg.broker_address)
  ok (record { url = url; concurrency = workers })

some_worker : (c w : ℤ) → new_service c ≡ ok w → (n : ℕ) × (w ≡ pos n) × (1 ≤ n)
unfolding new_service
some_worker (pos n) w h = elim (Bool-cases (ltb_ℤ (pos n) (pos 1))) [
  | inl e ↦ absurd (err_ok (rw e at h))
  | inr e ↦ (n, sym (ok_injective (rw e at h)), ground arith)
]
some_worker (negsuc n) w h = absurd (err_ok h)

-- A server that has started has a worker.
run-some_worker :
    (cfg : Config) (out : Outside) (s : Server)
    → run cfg out ≡ ok s
    → (n : ℕ) × (s.concurrency ≡ pos n) × (1 ≤ n)
unfolding run
run-some_worker cfg out s h =
    let (a, db, h1) =
      >>=-eq-ok (because "failed to connect to db" (out.connect_db cfg.db_address)) _ h in
    let (b, migrated, h2) = >>=-eq-ok (because "failed to migrate db" out.migrate) _ h1 in
    let (url, made, h3) =
      >>=-eq-ok (because "failed create XKCD client" (new_client cfg.xkcd_url)) _ h2 in
    let (c, dialled, h4) =
      >>=-eq-ok (because "failed create Words client" (out.dial_words cfg.words_address)) _ h3 in
    let (w, created, h5) =
      >>=-eq-ok (because "failed create Update service" (new_service cfg.xkcd_concurrency)) _ h4 in
    let (d, listening, h6) = >>=-eq-ok (because "failed to listen" (out.listen cfg.address)) _ h5 in
    let (e, connected, h7) =
      >>=-eq-ok (because "failed to create publisher" (out.connect_broker cfg.broker_address)) _
        h6 in
    let (n, same, positive) =
      some_worker cfg.xkcd_concurrency w
        (map_err_ok _ (new_service cfg.xkcd_concurrency) created) in
    (n, ap (λ (s : Server). s.concurrency) (sym (ok_injective h7)) ∙ same, positive)

-- Let the site answer each number with a comic of that number, at the base URL of a server that has
-- started. A call of `Update` there with a free flag, a known last number and a database that
-- answers, that is not cancelled, succeeds: a server that has started has a worker. The last number
-- is positive, and afterwards each number from 1 to it has its old row if it had one, and else what
-- one fetch over HTTP gives, if the column can hold the number; each other natural number has the
-- row that it had.
pub started_fills :
    (cfg : Config) (out : Outside) (s : Server) (site : String → Result Error HttpReply)
    (law : IsNumbered site s.url) (words : Words) (latest : ℤ) (d : Database)
    (t : (Bool × Database) × Result Error (Unit {0}))
    → run cfg out ≡ ok s
    → (xkcd site s.url).last_id ≡ ok latest
    → d.outage ≡ none
    → Returns (xkcd site s.url) words (numbered site s.url law) s.concurrency false false d t
    → (t.1 ≡ ok tt)
      × ((m : ℕ) × (latest ≡ pos (suc m))
          × ((i : ℕ)
              → row_of (pos i) t.0.1.rows ≡ (
                  if leb 1 i && leb i (suc m)
                  then or_new (row_of (pos i) d.rows) (fetched (xkcd site s.url) words (pos i))
                  else row_of (pos i) d.rows)))
started_fills cfg out s site law words latest d t started last up returns =
    let (n, same, positive) = run-some_worker cfg out s started in
    update_site site s.url law words n latest d t positive last up (
      subst (λ c. Returns (xkcd site s.url) words (numbered site s.url law) c false false d t) same
        returns)
