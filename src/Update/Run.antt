-- ===== src/Update/Run.antt =====
-- search-services/update/core/service.go, the body of `Update`: the loop that sends the missing
-- ids into a channel, and the workers that take them, as steps of one system. A step is what
-- one goroutine does between two points where it can wait. `work` is what a worker does with a
-- job to the database.

pub mod Exactly
pub mod Ends
pub mod Progress
use microservice_comics.Base.{
  ℕ, zero, suc, ◌+◌, ◌*◌, ◌≤◌, ◌<◌, Bool, true, false, List, [], ◌∷◌, ◌++◌, ◌≡◌, length,
}

pub data Worker : Type 0 where
  ready gone : Worker
  busy : ℕ → Worker

-- `next` is the loop's `id`, `jobs` the buffer of the channel, `log` the jobs that were finished,
-- `lost` those that a cancellation cut short.
pub record Run (S : Type 0) : Type 0 where
  pub next : ℕ
  pub jobs : List ℕ
  pub closed : Bool
  pub cancelled : Bool
  pub workers : List Worker
  pub table : S
  pub log : List ℕ
  pub lost : List ℕ

module _ {S : Type 0} (latest : ℕ) (exists : ℕ → Bool) (work : ℕ → S → S) where
  -- `latest` jobs and `exists` are fixed; the buffer holds two jobs for each worker.
  pub data Step (s t : Run S) : Type 0 where
    -- `continue` of the loop: the id is in the database.
    skip :
        s.closed ≡ false
        → s.next ≤ latest
        → exists s.next ≡ true
        → t ≡ record s { next = suc s.next }
        → Step s t
    -- `jobs <- job{id: id}`
    send :
        s.closed ≡ false
        → s.next ≤ latest
        → exists s.next ≡ false
        → length s.jobs < length s.workers * 2
        → t ≡ record s { next = suc s.next; jobs = s.jobs ++ s.next ∷ [] }
        → Step s t
    -- `close(jobs)` behind the loop.
    close : s.closed ≡ false → latest < s.next → t ≡ record s { closed = true } → Step s t
    -- `close(jobs)` in the loop, on `<-ctx.Done()`.
    give_up :
        s.closed ≡ false
        → s.cancelled ≡ true
        → s.next ≤ latest
        → exists s.next ≡ false
        → t ≡ record s { closed = true }
        → Step s t
    -- `j, ok := <-jobs` with a job.
    take :
        (before after : List Worker) (j : ℕ) (js : List ℕ)
        → s.workers ≡ before ++ ready ∷ after
        → s.jobs ≡ j ∷ js
        → t ≡ record s { workers = before ++ busy j ∷ after; jobs = js }
        → Step s t
    -- The rest of the loop's body.
    finish :
        (before after : List Worker) (j : ℕ)
        → s.workers ≡ before ++ busy j ∷ after
        → t ≡ record s {
          workers = before ++ ready ∷ after;
          table = work j s.table;
          log = s.log ++ j ∷ [];
        }
        → Step s t
    -- The rest of the body, with a context that is done before `Add` is through: a call with such a
    -- context fails, so `Get` or at the latest `Add` does, and the table stays as it is.
    abandon :
        (before after : List Worker) (j : ℕ)
        → s.workers ≡ before ++ busy j ∷ after
        → s.cancelled ≡ true
        → t ≡ record s { workers = before ++ ready ∷ after; lost = s.lost ++ j ∷ [] }
        → Step s t
    -- `if !ok { return }`
    leave :
        (before after : List Worker)
        → s.workers ≡ before ++ ready ∷ after
        → s.jobs ≡ []
        → s.closed ≡ true
        → t ≡ record s { workers = before ++ gone ∷ after }
        → Step s t
    -- `case <-ctx.Done(): return`
    quit :
        (before after : List Worker)
        → s.workers ≡ before ++ ready ∷ after
        → s.cancelled ≡ true
        → t ≡ record s { workers = before ++ gone ∷ after }
        → Step s t
    -- The caller gives up.
    cancel : s.cancelled ≡ false → t ≡ record s { cancelled = true } → Step s t

  pub data Reach (s : Run S) : Run S → Type 0 where
    here : Reach s s
    next : {t u : Run S} → Reach s t → Step t u → Reach s u

abbrev pub copies {ℓ} : {A : Type ℓ} → ℕ → A → List A
copies zero a = []
copies (suc n) a = a ∷ copies n a

-- When the workers have been started.
abbrev pub started : {S : Type 0} → ℕ → S → Run S
started workers table = record {
  next = 1;
  jobs = [];
  closed = false;
  cancelled = false;
  workers = copies workers ready;
  table = table;
  log = [];
  lost = [];
}

abbrev pub all_gone : List Worker → Bool
all_gone [] = true
all_gone (gone ∷ ws) = all_gone ws
all_gone (_ ∷ ws) = false

-- `wg.Wait()` returns.
pub record IsDone {S : Type 0} (s : Run S) : Type 0 where
  pub closed : s.closed ≡ true
  pub workers : all_gone s.workers ≡ true
