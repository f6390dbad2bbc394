-- ===== src/Update/Run/Progress.antt =====
-- A run cannot go on for ever and cannot get stuck.
use microservice_comics.Base.{
  ℕ, zero, suc, ◌+◌, ◌-◌, ◌*◌, ◌≤◌, ◌<◌, Bool, true, false, List, [], ◌∷◌, ◌++◌, ◌≡◌, ◌⊎◌, inl, inr,
  refl, ap, arith, Bool-cases, leb, length, length-append,
}
use microservice_comics.Update.Run.{
  Worker, ready, gone, busy, Run, Step, skip, send, close, give_up, take, finish, abandon, leave,
  quit, cancel, Reach, here, next, copies, started, all_gone, IsDone,
}
use microservice_comics.Update.Run.Ends.{reach-IsOrderly, all_gone_some}

-- What a worker can still do without a new job.
abbrev worker_weight : Worker → ℕ
worker_weight ready = 1
worker_weight gone = 0
worker_weight (busy j) = 2

abbrev weights : List Worker → ℕ
weights [] = 0
weights (w ∷ ws) = worker_weight w + weights ws

abbrev bit : Bool → ℕ
bit true = 0
bit false = 1

weights-append : (xs ys : List Worker) → weights (xs ++ ys) ≡ weights xs + weights ys
weights-append [] ys = omega arith
weights-append (x ∷ xs) ys = omega (arith, weights-append xs ys)

pub data Kind (ws : List Worker) : Type 0 where
  has_busy : (before after : List Worker) (j : ℕ) → ws ≡ before ++ busy j ∷ after → Kind ws
  has_ready : (before after : List Worker) → ws ≡ before ++ ready ∷ after → Kind ws
  none_left : all_gone ws ≡ true → Kind ws

kind : (ws : List Worker) → Kind ws
kind [] = none_left refl
kind (ready ∷ ws) = has_ready [] ws refl
kind (busy j ∷ ws) = has_busy [] ws j refl
kind (gone ∷ ws) = elim (kind ws) [
  | has_busy before after j e ↦ has_busy (gone ∷ before) after j (ap (◌∷◌ gone) e)
  | has_ready before after e ↦ has_ready (gone ∷ before) after (ap (◌∷◌ gone) e)
  | none_left e ↦ none_left e
]

module _ {S : Type 0} (latest : ℕ) (exists : ℕ → Bool) (work : ℕ → S → S) where
  -- An upper bound of the steps that are left.
  abbrev pub measure : Run S → ℕ
  measure s =
      3 * (suc latest - s.next)
      + 2 * length s.jobs
      + weights s.workers
      + bit s.closed
      + bit s.cancelled

  step_measure : (s t : Run S) → Step latest exists work s t → measure t < measure s
  step_measure s t (skip o le ex e) = rw e (omega arith)
  step_measure s t (send o le ex room e) = rw e (omega (arith, length-append s.jobs (s.next ∷ [])))
  step_measure s t (close o lt e) = rw e (rw o (omega arith))
  step_measure s t (give_up o c le ex e) = rw e (rw o (omega arith))
  step_measure s t (take before after j js w q e) = rw e (
      rw (w, q)
        (omega
          (arith, weights-append before (ready ∷ after), weights-append before (busy j ∷ after))))
  step_measure s t (finish before after j w e) = rw e (
      rw w (
        omega
          (arith, weights-append before (ready ∷ after), weights-append before (busy j ∷ after))))
  step_measure s t (abandon before after j w c e) = rw e (
      rw w (
        omega
          (arith, weights-append before (ready ∷ after), weights-append before (busy j ∷ after))))
  step_measure s t (leave before after w q c e) = rw e (
      rw w (
        omega (arith, weights-append before (ready ∷ after), weights-append before (gone ∷ after))))
  step_measure s t (quit before after w c e) = rw e (
      rw w (
        omega (arith, weights-append before (ready ∷ after), weights-append before (gone ∷ after))))
  step_measure s t (cancel c e) = rw e (rw c (omega arith))

  abbrev pub steps : {s t : Run S} → Reach latest exists work s t → ℕ
  steps here = 0
  steps (next r st) = suc (steps r)

  reach_measure : (s t : Run S) (r : Reach latest exists work s t) → steps r + measure t ≤ measure s
  reach_measure s t here = omega arith
  reach_measure s t (next {t = m} r st) = omega (arith, reach_measure s m r, step_measure m t st)

  weights-copies : (n : ℕ) → weights (copies n ready) ≡ n
  weights-copies zero = refl
  weights-copies (suc n) = omega (arith, weights-copies n)

  -- Every run is finite: it has at most three steps for each id, one for each worker, and two.
  pub steps-le :
      (n : ℕ) (table : S) (s : Run S) (r : Reach latest exists work (started n table) s)
      → steps r ≤ 3 * latest + n + 2
  steps-le n table s r = omega (arith, reach_measure (started n table) s r, weights-copies n)

  -- A step of the loop or of a worker: it does not cancel.
  abbrev pub GoesOn : Run S → Type 0
  GoesOn s = (t : Run S) × Step latest exists work s t × (t.cancelled ≡ s.cancelled)

  -- The loop can go on, if the buffer has room.
  loop_step : (s : Run S) → s.closed ≡ false → length s.jobs < length s.workers * 2 → GoesOn s
  loop_step s o room = elim (Bool-cases (leb s.next latest)) [
    | inl le ↦ elim (Bool-cases (exists s.next)) [
      | inl known ↦ (record s { next = suc s.next }, skip o (ground arith) known refl, refl)
      | inr missing ↦ (
        record s { next = suc s.next; jobs = s.jobs ++ s.next ∷ [] },
        send o (ground arith) missing room refl,
        refl,
      )
    ]
    | inr gt ↦ (record s { closed = true }, close o (ground arith) refl, refl)
  ]

  ready_step :
      (s : Run S) (before after : List Worker) (js : List ℕ)
      → s.workers ≡ before ++ ready ∷ after
      → s.jobs ≡ js
      → GoesOn s
  ready_step s before after (j ∷ js) w q = (
    record s { workers = before ++ busy j ∷ after; jobs = js },
    take before after j js w q refl,
    refl,
  )
  ready_step s before after [] w q = elim (Bool-cases s.closed) [
    | inl c ↦ (record s { workers = before ++ gone ∷ after }, leave before after w q c refl, refl)
    | inr o ↦
        loop_step s o
          (omega (arith, ap length q, ap length w, length-append before (ready ∷ after)))
  ]

  -- The loop alone, when a cancelled run has no worker left.
  cancelled_step : (s : Run S) → s.closed ≡ false → s.cancelled ≡ true → GoesOn s
  cancelled_step s o c = elim (Bool-cases (leb s.next latest)) [
    | inl le ↦ elim (Bool-cases (exists s.next)) [
      | inl known ↦ (record s { next = suc s.next }, skip o (ground arith) known refl, refl)
      | inr missing ↦ (record s { closed = true }, give_up o c (ground arith) missing refl, refl)
    ]
    | inr gt ↦ (record s { closed = true }, close o (ground arith) refl, refl)
  ]

  -- No deadlock with at least one worker: as long as `Update` has not returned, the loop or a
  -- worker can make a step, which is not the caller's to cancel, whether or not it was cancelled.
  pub not_stuck :
      (n : ℕ) (table : S) (s : Run S)
      → 1 ≤ n
      → Reach latest exists work (started n table) s
      → IsDone s ⊎ GoesOn s
  not_stuck n table s pos r =
      let v = reach-IsOrderly latest exists work n table s r in
      elim (kind s.workers) [
        | has_busy before after j w ↦ inr (
          record s {
            workers = before ++ ready ∷ after;
            table = work j s.table;
            log = s.log ++ j ∷ [];
          },
          finish before after j w refl,
          refl,
        )
        | has_ready before after w ↦ inr (ready_step s before after s.jobs w refl)
        | none_left g ↦ elim (Bool-cases s.closed) [
          | inl c ↦ inl (record { closed = c; workers = g })
          | inr o ↦ elim (Bool-cases s.cancelled) [
            | inl k ↦ inr (cancelled_step s o k)
            | inr k ↦ absurd (
                cc (
                  o,
                  v.shut k (all_gone_some latest exists work s.workers (omega (arith, v.size)) g),
                ))
          ]
        ]
      ]
