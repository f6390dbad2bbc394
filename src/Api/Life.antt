-- ===== src/Api/Life.antt =====
-- The end of `main` in search-services/api/main.go: two goroutines serve, and main waits for an
-- interrupt or for the first of them to return. A step is what one of the three does between two
-- points where it can wait.
pub mod Orderly
pub mod Ends
use microservice_comics.Base.{ℕ, ◌<◌, Bool, true, false, List, [], ◌∷◌, ◌++◌, length, ◌≡◌, ◌≢◌}

-- What `ListenAndServe` returns: `http.ErrServerClosed`, or another error.
pub data Outcome : Type 0 where
  server_closed failed : Outcome

-- A goroutine serves, has an outcome to send, or has sent it.
pub data Serving : Type 0 where
  listening sent : Serving
  returned : Outcome → Serving

-- Main is at its `select`, before the two calls of `Shutdown`, before the second, or at its end. The
-- process ends with main, with exit code 0 whatever it has received.
pub data MainPhase : Type 0 where
  selecting stopping_public stopping_internal ended : MainPhase

-- `shut_public` and `shut_internal` say that `Shutdown` was called; `err_ch` is the channel.
pub record Process : Type 0 where
  pub public_server : Serving
  pub internal_server : Serving
  pub shut_public : Bool
  pub shut_internal : Bool
  pub err_ch : List Outcome
  pub interrupted : Bool
  pub main : MainPhase

-- `make(chan error, 2)`
abbrev pub capacity : ℕ
capacity = 2

-- A server returns `ErrServerClosed` only after a call of `Shutdown`.
abbrev pub CanReturn : Outcome → Bool → Type 0
CanReturn server_closed shut = shut ≡ true
CanReturn failed shut = Unit

pub data LifeStep (s t : Process) : Type 0 where
  interrupts :
      s.main ≢ ended → s.interrupted ≡ false → t ≡ record s { interrupted = true } → LifeStep s t
  public_returns :
      (o : Outcome)
      → s.main ≢ ended
      → s.public_server ≡ listening
      → CanReturn o s.shut_public
      → t ≡ record s { public_server = returned o }
      → LifeStep s t
  internal_returns :
      (o : Outcome)
      → s.main ≢ ended
      → s.internal_server ≡ listening
      → CanReturn o s.shut_internal
      → t ≡ record s { internal_server = returned o }
      → LifeStep s t
  public_sends :
      (o : Outcome)
      → s.main ≢ ended
      → s.public_server ≡ returned o
      → length s.err_ch < capacity
      → t ≡ record s { public_server = sent; err_ch = s.err_ch ++ o ∷ [] }
      → LifeStep s t
  internal_sends :
      (o : Outcome)
      → s.main ≢ ended
      → s.internal_server ≡ returned o
      → length s.err_ch < capacity
      → t ≡ record s { internal_server = sent; err_ch = s.err_ch ++ o ∷ [] }
      → LifeStep s t
  -- `case <-ctx.Done()`
  is_done :
      s.main ≡ selecting
      → s.interrupted ≡ true
      → t ≡ record s { main = stopping_public }
      → LifeStep s t
  -- `case err := <-errCh`
  receives :
      (o : Outcome) (os : List Outcome)
      → s.main ≡ selecting
      → s.err_ch ≡ o ∷ os
      → t ≡ record s { main = stopping_public; err_ch = os }
      → LifeStep s t
  shuts_public :
      s.main ≡ stopping_public
      → t ≡ record s { main = stopping_internal; shut_public = true }
      → LifeStep s t
  shuts_internal :
      s.main ≡ stopping_internal
      → t ≡ record s { main = ended; shut_internal = true }
      → LifeStep s t

-- When both goroutines have been started.
abbrev pub launched : Process
launched = record {
  public_server = listening;
  internal_server = listening;
  shut_public = false;
  shut_internal = false;
  err_ch = [];
  interrupted = false;
  main = selecting;
}

pub data LifeReach (s : Process) : Process → Type 0 where
  here : LifeReach s s
  next : {t u : Process} → LifeReach s t → LifeStep t u → LifeReach s u
