-- ===== src/Update/Service.antt =====
-- search-services/update/core/service.go: what one worker does with a job, what `Update` finds
-- out before it starts the workers, and the short methods.
use microservice_comics.Base.{
  int_eq, ℤ, pos, String, Bool, true, false, List, [], ◌∷◌, Option, none, some, Result, ok, err,
  ◌>>=◌, put, ltb_ℤ, if◌then◌else◌,
}
use microservice_comics.Update.Model.{
  Comics, XkcdInfo, Error, not_found, already_exists, failure, Db, ServiceStats, ServiceStatus,
  running, idle, Xkcd, Words,
}

-- `NewService` refuses less than one worker.
unfoldable pub new_service : ℤ → Result Error ℤ
new_service concurrency =
    if ltb_ℤ concurrency (pos 1)
    then err (failure "wrong concurrency specified")
    else ok concurrency

-- A text that cannot be normalised is stored as no words.
abbrev pub or_no_words : Result Error (List String) → List String
or_no_words (ok ws) = ws
or_no_words (err e) = []

abbrev pub normalised : Words → XkcdInfo → Comics
normalised words info = record {
  id = info.id;
  url = info.url;
  title = or_no_words (words.norm info.title);
  alt = or_no_words (words.norm info.alt);
  words = or_no_words (words.norm info.description);
}

-- A number without a comic is stored with empty values.
abbrev pub placeholder : ℤ → Comics
placeholder id = record { id = id; url = ""; title = []; alt = []; words = [] }

abbrev pub row_for : Words → ℤ → Result Error XkcdInfo → Option Comics
row_for words id (ok info) = some (normalised words info)
row_for words id (err not_found) = some (placeholder id)
row_for words id (err e) = none

-- What a worker stores for a job, if anything.
unfoldable pub fetch : Xkcd → Words → ℤ → Option Comics
fetch xkcd words id = row_for words id (xkcd.get id)

module _ {S : Type 0} (db : Db S) where
  -- The error of `Add` is dropped or logged: the state is what matters.
  abbrev pub store : Option Comics → S → S
  store none s = s
  store (some c) s = (db.add s c).0

  -- One job of a worker.
  unfoldable pub process : Xkcd → Words → ℤ → S → S
  unfolding fetch
  process xkcd words id s = store (fetch xkcd words id) s

-- The set `exists`.
unfoldable pub known_ids : List ℤ → List ℤ → List ℤ
known_ids set [] = set
known_ids set (id ∷ ids) = known_ids (put id set) ids

-- What `Update` knows when it starts the workers.
pub record Plan : Type 0 where
  pub latest : ℤ
  pub exists : List ℤ
  pub workers : ℤ

abbrev pub worker_limit : ℤ
worker_limit = pos 64

module _ {S : Type 0} (db : Db S) (xkcd : Xkcd) where
  unfoldable pub plan : (concurrency : ℤ) → S → Result Error Plan
  unfolding known_ids
  plan concurrency s = do
    latest ← xkcd.last_id
    have ← db.ids s
    ok (record {
      latest = latest;
      exists = known_ids [] have;
      workers = if ltb_ℤ worker_limit concurrency then worker_limit else concurrency;
    })

  unfoldable pub stats : S → Result Error ServiceStats
  stats s = do
    dbst ← db.stats s
    total ← xkcd.last_id
    ok (record { db_stats = dbst; comics_total = total })

-- `s.running.Load()`
unfoldable pub get_status : Bool → ServiceStatus
get_status true = running
get_status false = idle

-- `CompareAndSwap(false, true)`: the new flag, and whether the call may go on.
unfoldable pub try_start : Bool → Bool × Bool
try_start false = (true, true)
try_start true = (true, false)

module _ {S : Type 0} (db : Db S) where
  -- The part of `Drop` between the test of the flag and its return.
  abbrev drop_if : Bool → Bool → S → (Bool × S) × Result Error (Unit {0})
  drop_if flag true s = let (s', r) = db.drop s in ((false, s'), r)
  drop_if flag false s = ((flag, s), err already_exists)

  -- `Drop`, its deferred `Store(false)` included, as one step of the service.
  unfoldable pub drop : Bool × S → (Bool × S) × Result Error (Unit {0})
  unfolding try_start
  drop (flag, s) = let (flag', go) = try_start flag in drop_if flag' go s
