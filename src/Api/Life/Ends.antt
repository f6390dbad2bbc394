-- ===== src/Api/Life/Ends.antt =====
-- How the gateway ends.
use microservice_comics.Base.{
  ℕ, ◌+◌, ◌≤◌, ◌<◌, Bool, true, false, List, [], ◌∷◌, ◌++◌, length, ◌≡◌, ◌≢◌, ◌⊎◌, inl, inr, refl,
  sym, ap, ◌∙◌, arith, if◌then◌else◌,
}
use microservice_comics.Api.Life.{
  Outcome, server_closed, failed, Serving, listening, sent, returned, MainPhase, selecting,
  stopping_public, stopping_internal, ended, Process, LifeStep, interrupts, public_returns,
  internal_returns, public_sends, internal_sends, is_done, receives, shuts_public, shuts_internal,
  launched, LifeReach, here, next,
}
use microservice_comics.Api.Life.Orderly.{given, reach-IsOrderly, sends_freely}

-- The number of steps of a run, and what is left of one at most.
abbrev pub life_steps : {s t : Process} → LifeReach s t → ℕ
life_steps here = 0
life_steps (next r st) = life_steps r + 1

abbrev serving_left : Serving → ℕ
serving_left listening = 2
serving_left (returned o) = 1
serving_left sent = 0

abbrev main_left : MainPhase → ℕ
main_left selecting = 3
main_left stopping_public = 2
main_left stopping_internal = 1
main_left ended = 0

abbrev steps_left : Process → ℕ
steps_left s =
    (if s.interrupted then 0 else 1)
    + (serving_left s.public_server + (serving_left s.internal_server + main_left s.main))

step_left : (s t : Process) → LifeStep s t → steps_left t + 1 ≤ steps_left s
step_left s t (interrupts on new e) = rw e (rw new (omega arith))
step_left s t (public_returns o on at_work can e) =
    let before : serving_left s.public_server ≡ 2 = ap serving_left at_work in
    rw e (omega (arith, before))
step_left s t (internal_returns o on at_work can e) =
    let before : serving_left s.internal_server ≡ 2 = ap serving_left at_work in
    rw e (omega (arith, before))
step_left s t (public_sends o on at_end free e) =
    let before : serving_left s.public_server ≡ 1 = ap serving_left at_end in
    rw e (omega (arith, before))
step_left s t (internal_sends o on at_end free e) =
    let before : serving_left s.internal_server ≡ 1 = ap serving_left at_end in
    rw e (omega (arith, before))
step_left s t (is_done at_select on e) =
    let before : main_left s.main ≡ 3 = ap main_left at_select in rw e (omega (arith, before))
step_left s t (receives o os at_select full e) =
    let before : main_left s.main ≡ 3 = ap main_left at_select in rw e (omega (arith, before))
step_left s t (shuts_public at_first e) =
    let before : main_left s.main ≡ 2 = ap main_left at_first in rw e (omega (arith, before))
step_left s t (shuts_internal at_second e) =
    let before : main_left s.main ≡ 1 = ap main_left at_second in rw e (omega (arith, before))

life_steps-le : (s : Process) (r : LifeReach launched s) → life_steps r + steps_left s ≤ 8
life_steps-le s here = omega arith
life_steps-le s (next {t} r st) = omega (arith, life_steps-le t r, step_left t s st)

-- There was an interrupt, or a server has returned.
abbrev pub IsTriggered : Process → Type 0
IsTriggered s =
    (s.interrupted ≡ true) ⊎ ((s.public_server ≢ listening) ⊎ (s.internal_server ≢ listening))

-- A step that needs neither an interrupt nor a server that fails: of main, of a goroutine that sends
-- what its server has returned, or the return of a server that was shut down.
abbrev pub is_own : {s t : Process} → LifeStep s t → Bool
is_own (interrupts on new e) = false
is_own (public_returns server_closed on at_work can e) = true
is_own (public_returns failed on at_work can e) = false
is_own (internal_returns server_closed on at_work can e) = true
is_own (internal_returns failed on at_work can e) = false
is_own (public_sends o on at_end free e) = true
is_own (internal_sends o on at_end free e) = true
is_own (is_done at_select on e) = true
is_own (receives o os at_select full e) = true
is_own (shuts_public at_first e) = true
is_own (shuts_internal at_second e) = true

-- The program can make a step by itself.
abbrev pub GoesOn : Process → Type 0
GoesOn s = (t : Process) × (st : LifeStep s t) × (is_own st ≡ true)

abbrev pub HasEnded : Process → Type 0
HasEnded s = (s.main ≡ ended) × (s.shut_public ≡ true) × (s.shut_internal ≡ true)

takes_first :
    (s : Process) (os : List Outcome)
    → s.main ≡ selecting
    → s.err_ch ≡ os
    → 1 ≤ length os
    → GoesOn s
takes_first s [] at_select held filled = absurd (omega arith)
takes_first s (o ∷ os) at_select held filled =
    (record s { main = stopping_public; err_ch = os }, receives o os at_select held refl, refl)

busy : (s : Process) (p : MainPhase) → s.main ≡ p → p ≢ ended → s.main ≢ ended
busy s p e other h = other (sym e ∙ h)

selecting_busy : selecting ≢ ended
selecting_busy h = cc h

-- While main selects, a server that has returned has something to send or has sent it.
public-GoesOn :
    (s : Process) (p : Serving)
    → LifeReach launched s
    → s.main ≡ selecting
    → s.public_server ≡ p
    → p ≢ listening
    → GoesOn s
public-GoesOn s listening r at_select e other = absurd (other refl)
public-GoesOn s (returned o) r at_select e other = (
  record s { public_server = sent; err_ch = s.err_ch ++ o ∷ [] },
  public_sends o (busy s selecting at_select selecting_busy) e (sends_freely s o r (inl e)) refl,
  refl,
)
public-GoesOn s sent r at_select e other =
    let held = rw at_select at ((reach-IsOrderly s r).room) in
    let one : given s.public_server ≡ 1 = ap given e in
    takes_first s s.err_ch at_select refl (omega (arith, held, one))

internal-GoesOn :
    (s : Process) (p : Serving)
    → LifeReach launched s
    → s.main ≡ selecting
    → s.internal_server ≡ p
    → p ≢ listening
    → GoesOn s
internal-GoesOn s listening r at_select e other = absurd (other refl)
internal-GoesOn s (returned o) r at_select e other = (
  record s { internal_server = sent; err_ch = s.err_ch ++ o ∷ [] },
  internal_sends o (busy s selecting at_select selecting_busy) e (sends_freely s o r (inr e)) refl,
  refl,
)
internal-GoesOn s sent r at_select e other =
    let held = rw at_select at ((reach-IsOrderly s r).room) in
    let one : given s.internal_server ≡ 1 = ap given e in
    takes_first s s.err_ch at_select refl (omega (arith, held, one))

goes_on :
    (s : Process) (p : MainPhase)
    → LifeReach launched s
    → s.main ≡ p
    → p ≢ ended
    → IsTriggered s
    → GoesOn s
goes_on s ended r e other trigger = absurd (other refl)
goes_on s stopping_public r e other trigger =
    (record s { main = stopping_internal; shut_public = true }, shuts_public e refl, refl)
goes_on s stopping_internal r e other trigger =
    (record s { main = ended; shut_internal = true }, shuts_internal e refl, refl)
goes_on s selecting r e other (inl on) =
    (record s { main = stopping_public }, is_done e on refl, refl)
goes_on s selecting r e other (inr (inl back)) = public-GoesOn s s.public_server r e refl back
goes_on s selecting r e other (inr (inr back)) = internal-GoesOn s s.internal_server r e refl back

step_taken : (s t : Process) → LifeStep s t → 1 ≤ steps_left s
step_taken s t st = omega (arith, step_left s t st)

-- In whatever order the two servers, main and an interrupt take turns: once there was an interrupt,
-- or one of the servers has returned, the process has ended with both servers shut down, or it has
-- taken fewer than eight steps and can make one by itself: one of main, of a goroutine that sends
-- what its server has returned, or the return of a server that was shut down. It need not wait for
-- the other server to fail, nor for an interrupt.
pub gateway_ends :
    (s : Process) (r : LifeReach launched s)
    → IsTriggered s
    → HasEnded s ⊎ (GoesOn s × (life_steps r < 8))
gateway_ends s r trigger = by_phase s.main refl
  where
    unfinished :
        (p : MainPhase) → s.main ≡ p → p ≢ ended → HasEnded s ⊎ (GoesOn s × (life_steps r < 8))
    unfinished p e other =
        let (t, st, own) = goes_on s p r e other trigger in
        let few : life_steps r < 8 = omega (arith, life_steps-le s r, step_taken s t st) in
        inr ((t, st, own), few)

    by_phase : (p : MainPhase) → s.main ≡ p → HasEnded s ⊎ (GoesOn s × (life_steps r < 8))
    by_phase ended e = let shut = rw e at ((reach-IsOrderly s r).shut) in inl (e, shut.0, shut.1)
    by_phase selecting e = unfinished selecting e (λ h. cc h)
    by_phase stopping_public e = unfinished stopping_public e (λ h. cc h)
    by_phase stopping_internal e = unfinished stopping_internal e (λ h. cc h)
