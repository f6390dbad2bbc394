-- ===== src/Update/Run/Exactly.antt =====
-- Every missing id is processed once, and no other: whatever the order in which the goroutines run.
use microservice_comics.Base.{
  ℕ, zero, suc, ◌+◌, Bool, not, ◌&&◌, List, [], ◌∷◌, ◌++◌, ◌≡◌, inl, inr, refl, subst, ◌∙◌, arith,
  Bool-cases, if◌then◌else◌, nat_beq, nat_beq_iff, leb,
}
use microservice_comics.Update.Run.{
  Worker, ready, gone, busy, Run, Step, skip, send, close, give_up, take, finish, abandon, leave,
  quit, cancel, Reach, here, next, copies, started,
}

-- 1 if the numbers are the same, and 0 if not.
abbrev pub hit : ℕ → ℕ → ℕ
hit i j = if nat_beq i j then 1 else 0

-- How often an id stands in a list, and how many workers hold it.
abbrev pub count : ℕ → List ℕ → ℕ
count i [] = 0
count i (j ∷ js) = hit i j + count i js

abbrev pub held : ℕ → List Worker → ℕ
held i [] = 0
held i (busy j ∷ ws) = hit i j + held i ws
held i (_ ∷ ws) = held i ws

count-append : (i : ℕ) (xs ys : List ℕ) → count i (xs ++ ys) ≡ count i xs + count i ys
count-append i [] ys = omega arith
count-append i (x ∷ xs) ys = omega (arith, count-append i xs ys)

held-append : (i : ℕ) (xs ys : List Worker) → held i (xs ++ ys) ≡ held i xs + held i ys
held-append i [] ys = omega arith
held-append i (busy j ∷ xs) ys = omega (arith, held-append i xs ys)
held-append i (ready ∷ xs) ys = held-append i xs ys
held-append i (gone ∷ xs) ys = held-append i xs ys

module _ (latest : ℕ) (exists : ℕ → Bool) where
  -- 1 if the loop has yet to send the id when it stands at `n`.
  abbrev pub waits : ℕ → ℕ → ℕ
  waits i n = if leb n i && leb i latest && not (exists i) then 1 else 0

  -- 1 for an id up to `latest` that the database lacks.
  abbrev pub due : ℕ → ℕ
  due i = waits i 1

  abbrev sent_at : ℕ → ℕ → ℕ
  sent_at i n = if leb n latest && not (exists n) then hit i n else 0

  waits-suc : (i n : ℕ) → waits i n ≡ waits i (suc n) + sent_at i n
  waits-suc i n = elim (Bool-cases (nat_beq i n)) [
    | inl e ↦ same i n ((nat_beq_iff i n).0 e)
    | inr e ↦ ground arith
  ]
    where
      at_itself : (m : ℕ) → waits m m ≡ waits m (suc m) + sent_at m m
      at_itself m = ground arith

      same : (a b : ℕ) → a ≡ b → waits a b ≡ waits a (suc b) + sent_at a b
      same a b p = subst (λ c. waits a c ≡ waits a (suc c) + sent_at a c) p (at_itself a)

  module _ {S : Type 0} (work : ℕ → S → S) (i : ℕ) where
    -- Where the id is: done, lost, at a worker, in the channel, or to be sent.
    abbrev pub total : Run S → ℕ
    total s = count i s.log + count i s.lost + held i s.workers + count i s.jobs + waits i s.next

    step_total : (s t : Run S) → Step latest exists work s t → total t ≡ total s
    step_total s t (skip o le ex e) = rw e (ground (arith, waits-suc i s.next))
    step_total s t (send o le ex room e) =
        rw e (ground (arith, waits-suc i s.next, count-append i s.jobs (s.next ∷ [])))
    step_total s t (close o lt e) = rw e refl
    step_total s t (give_up o c le ex e) = rw e refl
    step_total s t (take before after j js w q e) = rw e (
        rw (w, q)
          (omega
            (arith, held-append i before (ready ∷ after), held-append i before (busy j ∷ after))))
    step_total s t (finish before after j w e) = rw e (
        rw w (
          omega (
            arith,
            held-append i before (ready ∷ after),
            held-append i before (busy j ∷ after),
            count-append i s.log (j ∷ []),
          )))
    step_total s t (abandon before after j w c e) = rw e (
        rw w (
          omega (
            arith,
            held-append i before (ready ∷ after),
            held-append i before (busy j ∷ after),
            count-append i s.lost (j ∷ []),
          )))
    step_total s t (leave before after w q c e) = rw e (
        rw w (
          omega (arith, held-append i before (ready ∷ after), held-append i before (gone ∷ after))))
    step_total s t (quit before after w c e) = rw e (
        rw w (
          omega (arith, held-append i before (ready ∷ after), held-append i before (gone ∷ after))))
    step_total s t (cancel c e) = rw e refl

    held-copies : (n : ℕ) → held i (copies n ready) ≡ 0
    held-copies zero = refl
    held-copies (suc n) = held-copies n

    -- At every moment each id that is due is in exactly one of those places, and no other id is
    -- in any.
    pub reach_total :
        (workers : ℕ) (table : S) (s : Run S)
        → Reach latest exists work (started workers table) s
        → total s ≡ due i
    reach_total workers table s here = omega (arith, held-copies workers)
    reach_total workers table s (next {t} r st) = step_total t s st ∙ reach_total workers table t r
