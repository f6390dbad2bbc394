-- ===== src/Update/Calls.antt =====
-- The flag `running` of the update service: calls of `Update` and `Drop` that overlap.
use microservice_comics.Base.{
  ℕ, zero, suc, ◌+◌, ◌-◌, ◌≤◌, Bool, true, false, ◌≡◌, refl, arith, if◌then◌else◌,
}
use microservice_comics.Update.Model.{running, idle}
use microservice_comics.Update.Service.{try_start, get_status}

-- `flag` is `s.running`, `active` the number of calls between their `CompareAndSwap` and their
-- return, `refused` the number of calls that got `ErrAlreadyExists`.
pub record Calls : Type 0 where
  pub flag : Bool
  pub active : ℕ
  pub refused : ℕ

-- The test of a call: it goes on, or it is refused.
unfoldable pub enter : Calls → Calls
unfolding try_start
enter s =
    let (flag, go) = try_start s.flag in
    if go
    then record s { flag = flag; active = s.active + 1 }
    else record s { flag = flag; refused = s.refused + 1 }

-- The deferred `s.running.Store(false)` of a call that went on, on each of its returns.
abbrev pub exit : Calls → Calls
exit s = record s { flag = false; active = s.active - 1 }

pub data CallStep (s t : Calls) : Type 0 where
  enters : t ≡ enter s → CallStep s t
  exits : 1 ≤ s.active → t ≡ exit s → CallStep s t

pub data CallReach (s : Calls) : Calls → Type 0 where
  here : CallReach s s
  next : {t u : Calls} → CallReach s t → CallStep t u → CallReach s u

abbrev pub no_calls : Calls
no_calls = record { flag = false; active = 0; refused = 0 }

-- The flag tells whether a call is active.
abbrev pub flag_count : Bool → ℕ
flag_count true = 1
flag_count false = 0

step_flag :
    (s t : Calls) → CallStep s t → s.active ≡ flag_count s.flag → t.active ≡ flag_count t.flag
unfolding enter
step_flag s t (enters e) h = ground arith
step_flag s t (exits pos e) h = ground arith

pub reach_flag : (s : Calls) → CallReach no_calls s → s.active ≡ flag_count s.flag
reach_flag s here = refl
reach_flag s (next {t} r st) = step_flag t s st (reach_flag t r)

-- However calls of `Update` and `Drop` overlap, at most one of them works on the database; a new
-- call is refused exactly while one does, and `Status` says so.
pub one_at_a_time :
    (s : Calls)
    → CallReach no_calls s
    → (s.active ≤ 1)
      × ((enter s).refused ≡ s.refused + s.active)
      × ((enter s).active ≡ 1)
      × (get_status s.flag
          ≡ (if elim s.active [ zero ↦ false | suc n ↦ true ] then running else idle))
unfolding enter get_status
one_at_a_time s r = ground (arith, reach_flag s r)
