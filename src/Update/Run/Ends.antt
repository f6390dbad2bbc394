-- ===== src/Update/Run/Ends.antt =====
-- How a run ends: it cannot go on for ever, it cannot get stuck, and when it ends without being
-- cancelled no job is left.
use microservice_comics.Base.{
  ℕ, zero, suc, ◌≤◌, ◌<◌, Bool, true, false, List, [], ◌∷◌, ◌++◌, ◌≡◌, refl, sym, ap, ◌∙◌, arith,
  if◌then◌else◌, length, length-append,
}
use microservice_comics.Update.Run.{
  Worker, ready, gone, busy, Run, Step, skip, send, close, give_up, take, finish, abandon, leave,
  quit, cancel, Reach, here, next, copies, started, all_gone, IsDone,
}
use microservice_comics.Update.Run.Exactly.{count, held, due, waits, reach_total}

abbrev pub is_gone : Worker → Bool
is_gone gone = true
is_gone _ = false

abbrev pub some_gone : List Worker → Bool
some_gone [] = false
some_gone (w ∷ ws) = if is_gone w then true else some_gone ws

some_gone-swap :
    (before after : List Worker) (v w : Worker)
    → is_gone v ≡ is_gone w
    → some_gone (before ++ v ∷ after) ≡ some_gone (before ++ w ∷ after)
some_gone-swap [] after v w e = rw e refl
some_gone-swap (b ∷ before) after v w e = ground (arith, some_gone-swap before after v w e)

length-swap :
    (before after : List Worker) (v w : Worker)
    → length (before ++ v ∷ after) ≡ length (before ++ w ∷ after)
length-swap before after v w =
    omega (arith, length-append before (v ∷ after), length-append before (w ∷ after))

-- Jobs one after the other.
module _ {S : Type 0} (work : ℕ → S → S) where
  abbrev pub replay : List ℕ → S → S
  replay [] t = t
  replay (j ∷ js) t = replay js (work j t)

  replay-append : (js : List ℕ) (j : ℕ) (t : S) → replay (js ++ j ∷ []) t ≡ work j (replay js t)
  replay-append [] j t = refl
  replay-append (k ∷ js) j t = replay-append js j (work k t)

module _ {S : Type 0} (latest : ℕ) (exists : ℕ → Bool) (work : ℕ → S → S) where
  -- What holds at every moment of a run with `n` workers that was not cancelled.
  pub record IsOrderly (n : ℕ) (table : S) (s : Run S) : Type 0 where
    pub size : length s.workers ≡ n
    pub none_lost : s.cancelled ≡ false → s.lost ≡ []
    pub replayed : s.table ≡ replay work s.log table
    pub sent : s.cancelled ≡ false → s.closed ≡ true → latest < s.next
    pub drained : s.cancelled ≡ false → some_gone s.workers ≡ true → s.jobs ≡ []
    pub shut : s.cancelled ≡ false → some_gone s.workers ≡ true → s.closed ≡ true

  step-IsOrderly :
      (n : ℕ) (table : S) (s t : Run S)
      → IsOrderly n table s
      → Step latest exists work s t
      → IsOrderly n table t
  step-IsOrderly n table s t v (skip o le ex e) = rw e (record {
    size = v.size;
    none_lost = v.none_lost;
    replayed = v.replayed;
    sent = λ c k. cc;
    drained = v.drained;
    shut = v.shut;
  })
  step-IsOrderly n table s t v (send o le ex room e) = rw e (record {
    size = v.size;
    none_lost = v.none_lost;
    replayed = v.replayed;
    sent = λ c k. cc;
    drained = λ c g. absurd (cc (v.shut c g));
    shut = v.shut;
  })
  step-IsOrderly n table s t v (close o lt e) = rw e (record {
    size = v.size;
    none_lost = v.none_lost;
    replayed = v.replayed;
    sent = λ c k. lt;
    drained = v.drained;
    shut = λ c g. refl;
  })
  step-IsOrderly n table s t v (give_up o c le ex e) = rw e (record {
    size = v.size;
    none_lost = v.none_lost;
    replayed = v.replayed;
    sent = λ d k. cc;
    drained = v.drained;
    shut = λ d g. refl;
  })
  step-IsOrderly n table s t v (take before after j js w q e) =
      let same = some_gone-swap before after (busy j) ready refl in
      rw e (record {
        size = length-swap before after (busy j) ready ∙ (ap length (sym w) ∙ v.size);
        none_lost = v.none_lost;
        replayed = v.replayed;
        sent = v.sent;
        drained = λ c g. cc (v.drained c (ap some_gone w ∙ (sym same ∙ g)));
        shut = λ c g. v.shut c (ap some_gone w ∙ (sym same ∙ g));
      })
  step-IsOrderly n table s t v (finish before after j w e) =
      let same = some_gone-swap before after ready (busy j) refl in
      rw e (record {
        size = length-swap before after ready (busy j) ∙ (ap length (sym w) ∙ v.size);
        none_lost = v.none_lost;
        replayed = ap (work j) v.replayed ∙ sym (replay-append work s.log j table);
        sent = v.sent;
        drained = λ c g. v.drained c (ap some_gone w ∙ (sym same ∙ g));
        shut = λ c g. v.shut c (ap some_gone w ∙ (sym same ∙ g));
      })
  step-IsOrderly n table s t v (abandon before after j w k e) =
      let same = some_gone-swap before after ready (busy j) refl in
      rw e (record {
        size = length-swap before after ready (busy j) ∙ (ap length (sym w) ∙ v.size);
        none_lost = λ c. absurd (cc (c, k));
        replayed = v.replayed;
        sent = v.sent;
        drained = λ c g. v.drained c (ap some_gone w ∙ (sym same ∙ g));
        shut = λ c g. v.shut c (ap some_gone w ∙ (sym same ∙ g));
      })
  step-IsOrderly n table s t v (leave before after w q c e) = rw e (record {
    size = length-swap before after gone ready ∙ (ap length (sym w) ∙ v.size);
    none_lost = v.none_lost;
    replayed = v.replayed;
    sent = v.sent;
    drained = λ d g. q;
    shut = λ d g. c;
  })
  step-IsOrderly n table s t v (quit before after w c e) = rw e (record {
    size = length-swap before after gone ready ∙ (ap length (sym w) ∙ v.size);
    none_lost = v.none_lost;
    replayed = v.replayed;
    sent = v.sent;
    drained = λ d g. cc;
    shut = λ d g. cc;
  })
  step-IsOrderly n table s t v (cancel c e) = rw e (record {
    size = v.size;
    none_lost = λ d. cc;
    replayed = v.replayed;
    sent = λ d k. cc;
    drained = λ d g. cc;
    shut = λ d g. cc;
  })

  length-copies : (n : ℕ) → length (copies n ready) ≡ n
  length-copies zero = refl
  length-copies (suc n) = ap suc (length-copies n)

  none_gone : (n : ℕ) → some_gone (copies n ready) ≡ false
  none_gone zero = refl
  none_gone (suc n) = none_gone n

  pub reach-IsOrderly :
      (n : ℕ) (table : S) (s : Run S)
      → Reach latest exists work (started n table) s
      → IsOrderly n table s
  reach-IsOrderly n table s here = record {
    size = length-copies n;
    none_lost = λ c. refl;
    replayed = refl;
    sent = λ c k. cc;
    drained = λ c g. refl;
    shut = λ c g. cc (none_gone n);
  }
  reach-IsOrderly n table s (next {t} r st) =
      step-IsOrderly n table t s (reach-IsOrderly n table t r) st

  pub all_gone_some : (ws : List Worker) → 1 ≤ length ws → all_gone ws ≡ true → some_gone ws ≡ true
  all_gone_some [] h g = elim h [ ]
  all_gone_some (gone ∷ ws) h g = refl
  all_gone_some (ready ∷ ws) h g = cc
  all_gone_some (busy j ∷ ws) h g = cc

  held_gone : (i : ℕ) (ws : List Worker) → all_gone ws ≡ true → held i ws ≡ 0
  held_gone i [] g = refl
  held_gone i (gone ∷ ws) g = held_gone i ws g
  held_gone i (ready ∷ ws) g = cc
  held_gone i (busy j ∷ ws) g = cc

  waits_over : (i n : ℕ) → latest < n → waits latest exists i n ≡ 0
  waits_over i n h = ground arith

  -- An update with at least one worker that has ended without being cancelled has processed every
  -- id from 1 to `latest` that the database lacked, each once, and no other; the table is what
  -- these jobs made of it, in the order of the log.
  pub done_exactly :
      (n : ℕ) (table : S) (s : Run S)
      → 1 ≤ n
      → Reach latest exists work (started n table) s
      → IsDone s
      → s.cancelled ≡ false
      → ((i : ℕ) → count i s.log ≡ due latest exists i) × (s.table ≡ replay work s.log table)
  done_exactly n table s pos r d c =
      let v = reach-IsOrderly n table s r in
      let left = all_gone_some s.workers (omega (arith, v.size)) d.workers in
      (
        λ i.
            let kept : count i s.lost ≡ 0 = ap (count i) (v.none_lost c) in
            let none_queued : count i s.jobs ≡ 0 = ap (count i) (v.drained c left) in
            omega (
              arith,
              reach_total latest exists work i n table s r,
              held_gone i s.workers d.workers,
              kept,
              none_queued,
              waits_over i s.next (v.sent c d.closed),
            ),
        v.replayed,
      )
