-- ===== src/Tests/Update.antt =====
-- The theorems on the update service, at a run that fetches one comic.
use microservice_comics.Base.{
  int_eq, ℕ, zero, suc, ◌+◌, ◌*◌, ◌≤◌, ◌<◌, ◌&&◌, ℤ, pos, Bool, true, false, [], ◌∷◌, none, Result,
  ok, err, ◌≡◌, ◌⊎◌, refl, sym, ap, arith, leb, if◌then◌else◌,
}
use microservice_comics.Update.Model.{XkcdInfo, Xkcd, Words, Error, running, idle}
use microservice_comics.Update.Service.{Plan, plan, get_status}
use microservice_comics.Update.Storage.{Database, storage, ids, row_of}
use microservice_comics.Update.Run.{ready, gone, busy, Run, Step, Reach, started, IsDone}
use microservice_comics.Update.Run.Exactly.{count, due}
use microservice_comics.Update.Run.Ends.{replay, done_exactly}
use microservice_comics.Update.Run.Progress.{GoesOn, steps, steps-le, not_stuck}
use microservice_comics.Update.Contents.{job}
use microservice_comics.Update.Contents.{fetched}
use microservice_comics.Update.Whole.{Returns, ran, or_new, update_fills}
use microservice_comics.Update.Kept.{IsKeptOrFetched, update_keeps}
use microservice_comics.Update.Keys.{HasKeys, update-HasKeys}
use microservice_comics.Update.Calls.{Calls, CallReach, CallStep, enter, no_calls, one_at_a_time}

abbrev pub one_info : ℤ → XkcdInfo
one_info id = record { id = id; url = "u"; title = "t"; alt = "a"; description = "d" }

abbrev pub xkcd : Xkcd
xkcd = record { get = λ id. ok (one_info id); last_id = ok (pos 1) }

abbrev pub words : Words
words = record { norm = λ phrase. ok (phrase ∷ []) }

abbrev nothing_known : ℕ → Bool
nothing_known i = false

abbrev pub empty : Database
empty = record { rows = []; outage = none }

abbrev id_or : ℤ → Result Error XkcdInfo → ℤ
id_or id (ok info) = info.id
id_or id (err e) = id

abbrev pub is_numbered : (id : ℤ) (info : XkcdInfo) → xkcd.get id ≡ ok info → info.id ≡ id
is_numbered id info h = sym (ap (id_or id) h)

abbrev work : ℕ → Database → Database
work = job xkcd words is_numbered

abbrev sent : Run Database
sent = record (started 1 empty) { next = 2; jobs = 1 ∷ [] }

abbrev taken : Run Database
taken = record (started 1 empty) { next = 2; workers = busy 1 ∷ [] }

abbrev stored_one : Run Database
stored_one = record (started 1 empty) { next = 2; table = work 1 empty; log = 1 ∷ [] }

abbrev shut : Run Database
shut = record stored_one { closed = true }

abbrev left : Run Database
left = record shut { workers = gone ∷ [] }

pub one_le_one : 1 ≤ 1
one_le_one = omega arith

one_lt_two : 1 < 2
one_lt_two = omega arith

zero_lt_two : 0 < 1 * 2
zero_lt_two = omega arith

abbrev OneStep : Run Database → Run Database → Type 0
OneStep = Step 1 nothing_known work

sends : OneStep (started 1 empty) sent
sends = Step.send refl one_le_one refl zero_lt_two refl

takes : OneStep sent taken
takes = Step.take [] [] 1 [] refl refl refl

finishes : OneStep taken stored_one
finishes = Step.finish [] [] 1 refl refl

closes : OneStep stored_one shut
closes = Step.close refl one_lt_two refl

leaves : OneStep shut left
leaves = Step.leave [] [] refl refl refl refl

run : Reach 1 nothing_known work (started 1 empty) left
run =
    Reach.next
      (Reach.next (Reach.next (Reach.next (Reach.next Reach.here sends) takes) finishes) closes)
      leaves

steps-le_example : steps 1 nothing_known work run ≤ 3 * 1 + 1 + 2
steps-le_example = steps-le 1 nothing_known work 1 empty left run

not_stuck_example : IsDone left ⊎ GoesOn 1 nothing_known work left
not_stuck_example = not_stuck 1 nothing_known work 1 empty left one_le_one run

left-IsDone : IsDone left
left-IsDone = record { closed = refl; workers = refl }

done_exactly_example :
    ((i : ℕ) → count i left.log ≡ due 1 nothing_known i) × (left.table ≡ replay work left.log empty)
done_exactly_example =
    done_exactly 1 nothing_known work 1 empty left one_le_one run left-IsDone refl

abbrev one_call : Calls
one_call = enter no_calls

one_call_active : CallReach no_calls one_call
one_call_active = CallReach.next CallReach.here (CallStep.enters refl)

one_at_a_time_example :
    (one_call.active ≤ 1)
    × ((enter one_call).refused ≡ one_call.refused + one_call.active)
    × ((enter one_call).active ≡ 1)
    × (get_status one_call.flag
        ≡ (if elim one_call.active [ zero ↦ false | suc n ↦ true ] then running else idle))
one_at_a_time_example = one_at_a_time one_call one_call_active

abbrev one_plan : Plan
one_plan = record { latest = pos 1; exists = []; workers = pos 1 }

makes_plan : plan storage xkcd (pos 1) empty ≡ ok one_plan
unfolding plan storage ids
makes_plan = refl

abbrev pub after : (Bool × Database) × Result Error (Unit {0})
after = ((false, left.table), ok tt)

pub one_update : Returns xkcd words is_numbered (pos 1) false false empty after
one_update = ran one_plan left refl makes_plan run left-IsDone refl refl

update_fills_example :
    (after.1 ≡ ok tt)
    × (after.0.0 ≡ false)
    × ((i : ℕ)
        → row_of (pos i) after.0.1.rows ≡ (
            if leb 1 i && leb i 1
            then or_new (row_of (pos i) empty.rows) (fetched xkcd words (pos i))
            else row_of (pos i) empty.rows))
update_fills_example =
    update_fills xkcd words is_numbered 1 1 empty after one_le_one refl refl one_update

update-HasKeys_example : HasKeys after.0.1.rows
update-HasKeys_example =
    update-HasKeys xkcd words is_numbered (pos 1) false false empty after one_update tt

-- A run that is cancelled while its job is at the worker.
abbrev cancelled : Run Database
cancelled = record taken { cancelled = true }

abbrev cut_short : Run Database
cut_short = record cancelled { workers = ready ∷ []; lost = 1 ∷ [] }

abbrev sealed : Run Database
sealed = record cut_short { closed = true }

abbrev quit : Run Database
quit = record sealed { workers = gone ∷ [] }

cancels : OneStep taken cancelled
cancels = Step.cancel refl refl

abandons : OneStep cancelled cut_short
abandons = Step.abandon [] [] 1 refl refl refl

seals : OneStep cut_short sealed
seals = Step.close refl one_lt_two refl

quits : OneStep sealed quit
quits = Step.quit [] [] refl refl refl

cancelled_run : Reach 1 nothing_known work (started 1 empty) quit
cancelled_run =
    Reach.next
      (Reach.next
        (Reach.next (Reach.next (Reach.next (Reach.next Reach.here sends) takes) cancels) abandons)
        seals)
      quits

quit-IsDone : IsDone quit
quit-IsDone = record { closed = refl; workers = refl }

abbrev after_cancel : (Bool × Database) × Result Error (Unit {0})
after_cancel = ((false, empty), ok tt)

cancelled_update : Returns xkcd words is_numbered (pos 1) true false empty after_cancel
cancelled_update = ran one_plan quit refl makes_plan cancelled_run quit-IsDone refl refl

update_keeps_example : IsKeptOrFetched xkcd words is_numbered (pos 1) empty after_cancel.0.1
update_keeps_example =
    update_keeps xkcd words is_numbered (pos 1) true false empty after_cancel (pos 1)
      cancelled_update
