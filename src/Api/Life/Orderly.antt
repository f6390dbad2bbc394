-- ===== src/Api/Life/Orderly.antt =====
-- What the channel of the gateway holds, and which servers are shut down, at every moment.
use microservice_comics.Base.{
  ℕ, ◌+◌, ◌≤◌, ◌<◌, Bool, true, false, List, [], ◌∷◌, ◌++◌, length, length-append, ◌≡◌, ◌⊎◌, inl,
  inr, refl, ap, ◌∙◌, arith,
}
use microservice_comics.Api.Life.{
  Outcome, Serving, listening, sent, returned, MainPhase, selecting, stopping_public,
  stopping_internal, ended, Process, capacity, LifeStep, interrupts, public_returns,
  internal_returns, public_sends, internal_sends, is_done, receives, shuts_public, shuts_internal,
  launched, LifeReach, here, next,
}

-- One message for a goroutine that has sent its outcome, none for another.
abbrev pub given : Serving → ℕ
given sent = 1
given _ = 0

-- What main has done with the servers at each phase.
abbrev pub HasShut : MainPhase → Bool → Bool → Type 0
HasShut selecting a b = (a ≡ false) × (b ≡ false)
HasShut stopping_public a b = (a ≡ false) × (b ≡ false)
HasShut stopping_internal a b = (a ≡ true) × (b ≡ false)
HasShut ended a b = (a ≡ true) × (b ≡ true)

-- Before main takes one, every outcome that was sent is in the channel.
abbrev pub Balanced : MainPhase → ℕ → ℕ → Type 0
Balanced selecting n m = n ≡ m
Balanced _ n m = n ≤ m

pub record IsOrderly (s : Process) : Type 0 where
  pub room : Balanced s.main (length s.err_ch) (given s.public_server + given s.internal_server)
  pub shut : HasShut s.main s.shut_public s.shut_internal

appended : (os : List Outcome) (o : Outcome) → length (os ++ o ∷ []) ≡ length os + 1
appended os o = omega (arith, length-append {0} os (o ∷ []))

same_room :
    (p : MainPhase) (n m n' m' k : ℕ) → n' ≡ n + k → m' ≡ m + k → Balanced p n m → Balanced p n' m'
same_room selecting n m n' m' k a b h = omega arith
same_room stopping_public n m n' m' k a b h = omega arith
same_room stopping_internal n m n' m' k a b h = omega arith
same_room ended n m n' m' k a b h = omega arith

enough_room : (p : MainPhase) (n m : ℕ) → Balanced p n m → n ≤ m
enough_room selecting n m h = omega arith
enough_room stopping_public n m h = h
enough_room stopping_internal n m h = h
enough_room ended n m h = h

-- A goroutine that returns, or sends what it has returned.
public_counts :
    (s : Process) (os : List Outcome) (new : Serving) (k : ℕ)
    → IsOrderly s
    → length os ≡ length s.err_ch + k
    → given new ≡ given s.public_server + k
    → IsOrderly (record s { public_server = new; err_ch = os })
public_counts s os new k v longer counted = record {
  room = same_room s.main _ _ _ _ k longer (omega (arith, counted)) v.room;
  shut = v.shut;
}

internal_counts :
    (s : Process) (os : List Outcome) (new : Serving) (k : ℕ)
    → IsOrderly s
    → length os ≡ length s.err_ch + k
    → given new ≡ given s.internal_server + k
    → IsOrderly (record s { internal_server = new; err_ch = os })
internal_counts s os new k v longer counted = record {
  room = same_room s.main _ _ _ _ k longer (omega (arith, counted)) v.room;
  shut = v.shut;
}

none_added : (os : List Outcome) → length os ≡ length os + 0
none_added os = omega arith

step-IsOrderly : (s t : Process) → LifeStep s t → IsOrderly s → IsOrderly t
step-IsOrderly s t (interrupts on new e) v = rw e (record { room = v.room; shut = v.shut })
step-IsOrderly s t (public_returns o on at_work can e) v =
    let before : given s.public_server ≡ 0 = ap given at_work in
    rw e (public_counts s s.err_ch (returned o) 0 v (none_added s.err_ch) (omega (arith, before)))
step-IsOrderly s t (internal_returns o on at_work can e) v =
    let before : given s.internal_server ≡ 0 = ap given at_work in
    rw e (internal_counts s s.err_ch (returned o) 0 v (none_added s.err_ch) (omega (arith, before)))
step-IsOrderly s t (public_sends o on at_end free e) v =
    let before : given s.public_server ≡ 0 = ap given at_end in
    rw e
      (public_counts s (s.err_ch ++ o ∷ []) sent 1 v (appended s.err_ch o) (omega (arith, before)))
step-IsOrderly s t (internal_sends o on at_end free e) v =
    let before : given s.internal_server ≡ 0 = ap given at_end in
    rw e (
      internal_counts s (s.err_ch ++ o ∷ []) sent 1 v (appended s.err_ch o) (omega (arith, before)))
step-IsOrderly s t (is_done at_select on e) v =
    rw e (record { room = enough_room s.main _ _ v.room; shut = rw at_select at v.shut })
step-IsOrderly s t (receives o os at_select full e) v =
    let all = enough_room s.main _ _ v.room in
    let longer : length s.err_ch ≡ length os + 1 = ap length full ∙ omega arith in
    rw e (record { room = omega (arith, all, longer); shut = rw at_select at v.shut })
step-IsOrderly s t (shuts_public at_first e) v =
    rw e (record { room = enough_room s.main _ _ v.room; shut = (refl, (rw at_first at v.shut).1) })
step-IsOrderly s t (shuts_internal at_second e) v =
    rw e
      (record { room = enough_room s.main _ _ v.room; shut = ((rw at_second at v.shut).0, refl) })

pub reach-IsOrderly : (s : Process) → LifeReach launched s → IsOrderly s
reach-IsOrderly s here = record { room = omega arith; shut = (refl, refl) }
reach-IsOrderly s (next {t} r st) = step-IsOrderly t s st (reach-IsOrderly t r)

-- A goroutine that has an outcome finds room for it in the channel: it never blocks.
pub sends_freely :
    (s : Process) (o : Outcome)
    → LifeReach launched s
    → (s.public_server ≡ returned o) ⊎ (s.internal_server ≡ returned o)
    → length s.err_ch < capacity
sends_freely s o r at_end =
    let v = reach-IsOrderly s r in
    let all = enough_room s.main _ _ v.room in
    let most = given_le s.public_server in
    let most' = given_le s.internal_server in
    elim at_end [
      | inl e ↦ (let before : given s.public_server ≡ 0 = ap given e in omega arith)
      | inr e ↦ (let before : given s.internal_server ≡ 0 = ap given e in omega arith)
    ]
  where
    given_le : (p : Serving) → given p ≤ 1
    given_le listening = omega arith
    given_le sent = omega arith
    given_le (returned o) = omega arith
