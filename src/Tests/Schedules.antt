-- ===== src/Tests/Schedules.antt =====
-- The theorem on two schedules: one worker fetches two comics in turn, and two workers fetch them
-- at once and store them in the other order.
use microservice_comics.Base.{
  ℕ, ◌*◌, ◌≤◌, ◌<◌, ℤ, pos, String, Bool, true, false, List, [], ◌∷◌, map, Result, ok, ◌≡◌, refl,
  arith,
}
use microservice_comics.Update.Model
use microservice_comics.Update.Model.{Xkcd, Error}
use microservice_comics.Update.Service.{Plan, plan, process, fetch}
use microservice_comics.Update.Storage.{Database, storage, add, ids}
use microservice_comics.Update.Run.{gone, busy, ready, Run, Step, Reach, started, IsDone}
use microservice_comics.Update.Contents.{job}
use microservice_comics.Update.Whole.{Returns, ran}
use microservice_comics.Update.Keys.{HasKeys}
use microservice_comics.Search.Model.{Words}
use microservice_comics.Search.Index.{build}
use microservice_comics.Search.Service.{find, indexed_search}
use microservice_comics.Search.Service.Pages.{answering}
use microservice_comics.Pipeline.{to_row}
use microservice_comics.Pipeline.Schedules.{listed, as_table, schedules_agree}
use microservice_comics.Tests.Update
use microservice_comics.Tests.Update.{words, empty, is_numbered, one_le_one}

abbrev xkcd : Xkcd
xkcd = record Update.xkcd { last_id = ok (pos 2) }

abbrev work : ℕ → Database → Database
work = job xkcd words is_numbered

abbrev TwoStep : Run Database → Run Database → Type 0
TwoStep = Step 2 (λ i. false) work

abbrev both_sent : ℕ → Run Database
both_sent n = record (started n empty) { next = 3; jobs = 1 ∷ 2 ∷ [] }

abbrev one_sent : ℕ → Run Database
one_sent n = record (started n empty) { next = 2; jobs = 1 ∷ [] }

one_le_two : 1 ≤ 2
one_le_two = omega arith

two_le_two : 2 ≤ 2
two_le_two = omega arith

two_lt_three : 2 < 3
two_lt_three = omega arith

zero_lt_two : 0 < 1 * 2
zero_lt_two = omega arith

one_lt_two : 1 < 1 * 2
one_lt_two = omega arith

zero_lt_four : 0 < 2 * 2
zero_lt_four = omega arith

one_lt_four : 1 < 2 * 2
one_lt_four = omega arith

-- One worker.
abbrev first_done : Run Database
first_done = record (both_sent 1) { jobs = 2 ∷ []; table = work 1 empty; log = 1 ∷ [] }

abbrev in_turn : Run Database
in_turn = record first_done { jobs = []; table = work 2 (work 1 empty); log = 1 ∷ 2 ∷ [] }

abbrev in_turn_left : Run Database
in_turn_left = record in_turn { closed = true; workers = gone ∷ [] }

in_turn_run : Reach 2 (λ i. false) work (started 1 empty) in_turn_left
in_turn_run =
    let sent : Reach 2 (λ i. false) work (started 1 empty) (both_sent 1) =
      Reach.next (Reach.next Reach.here (Step.send refl one_le_two refl zero_lt_two refl))
        (Step.send refl two_le_two refl one_lt_two refl) in
    let first : Reach 2 (λ i. false) work (started 1 empty) first_done =
      Reach.next (Reach.next {t = both_sent 1} sent (Step.take [] [] 1 (2 ∷ []) refl refl refl))
        (Step.finish [] [] 1 refl refl) in
    let second : Reach 2 (λ i. false) work (started 1 empty) in_turn =
      Reach.next (Reach.next {t = first_done} first (Step.take [] [] 2 [] refl refl refl))
        (Step.finish [] [] 2 refl refl) in
    Reach.next (Reach.next {t = in_turn} second (Step.close refl two_lt_three refl))
      (Step.leave [] [] refl refl refl refl)

-- Two workers.
abbrev both_taken : Run Database
both_taken = record (both_sent 2) { jobs = []; workers = busy 1 ∷ busy 2 ∷ [] }

abbrev at_once : Run Database
at_once = record (both_sent 2) { jobs = []; table = work 1 (work 2 empty); log = 2 ∷ 1 ∷ [] }

abbrev at_once_left : Run Database
at_once_left = record at_once { closed = true; workers = gone ∷ gone ∷ [] }

at_once_run : Reach 2 (λ i. false) work (started 2 empty) at_once_left
at_once_run =
    let sent : Reach 2 (λ i. false) work (started 2 empty) (both_sent 2) =
      Reach.next (Reach.next Reach.here (Step.send refl one_le_two refl zero_lt_four refl))
        (Step.send refl two_le_two refl one_lt_four refl) in
    let taken : Reach 2 (λ i. false) work (started 2 empty) both_taken =
      Reach.next
        (Reach.next {t = both_sent 2} sent (Step.take [] (ready ∷ []) 1 (2 ∷ []) refl refl refl))
        (Step.take (busy 1 ∷ []) [] 2 [] refl refl refl) in
    let stored : Reach 2 (λ i. false) work (started 2 empty) at_once =
      Reach.next (Reach.next {t = both_taken} taken (Step.finish (busy 1 ∷ []) [] 2 refl refl))
        (Step.finish [] (ready ∷ []) 1 refl refl) in
    Reach.next
      (Reach.next (Reach.next {t = at_once} stored (Step.close refl two_lt_three refl))
        (Step.leave [] (ready ∷ []) refl refl refl refl))
      (Step.leave (gone ∷ []) [] refl refl refl refl)

abbrev two_plan : ℤ → Plan
two_plan n = record { latest = pos 2; exists = []; workers = n }

plans_one : plan storage xkcd (pos 1) empty ≡ ok (two_plan (pos 1))
unfolding plan storage ids
plans_one = refl

plans_two : plan storage xkcd (pos 2) empty ≡ ok (two_plan (pos 2))
unfolding plan storage ids
plans_two = refl

in_turn-IsDone : IsDone in_turn_left
in_turn-IsDone = record { closed = refl; workers = refl }

at_once-IsDone : IsDone at_once_left
at_once-IsDone = record { closed = refl; workers = refl }

abbrev after_one : (Bool × Database) × Result Error (Unit {0})
after_one = ((false, in_turn_left.table), ok tt)

abbrev after_two : (Bool × Database) × Result Error (Unit {0})
after_two = ((false, at_once_left.table), ok tt)

one-Returns : Returns xkcd words is_numbered (pos 1) false false empty after_one
one-Returns =
    ran (two_plan (pos 1)) in_turn_left refl plans_one in_turn_run in_turn-IsDone refl refl

two-Returns : Returns xkcd words is_numbered (pos 2) false false empty after_two
two-Returns =
    ran (two_plan (pos 2)) at_once_left refl plans_two at_once_run at_once-IsDone refl refl

abbrev first_id : List Model.Comics → ℤ
first_id [] = pos 0
first_id (c ∷ cs) = c.id

-- The rows stand in another order.
other_order : (first_id after_one.0.1.rows ≡ pos 1) × (first_id after_two.0.1.rows ≡ pos 2)
unfolding process fetch add storage
other_order = (refl, refl)

schedules_agree_example :
    ((keys : HasKeys after_one.0.1.rows) × (keys' : HasKeys after_two.0.1.rows) × (as_table
          after_one.0.1 keys
        ≡ as_table after_two.0.1 keys'))
    × ((words : Words) (phrase : String) (limit : ℕ)
        → (indexed_search (build (listed after_one.0.1)) words phrase limit
            ≡ indexed_search (build (listed after_two.0.1)) words phrase limit)
          × (find (answering (map to_row after_one.0.1.rows)) words phrase limit
              ≡ find (answering (map to_row after_two.0.1.rows)) words phrase limit))
schedules_agree_example =
    schedules_agree xkcd words is_numbered 1 2 2 empty after_one after_two one_le_one one_le_two
      refl refl tt one-Returns two-Returns
