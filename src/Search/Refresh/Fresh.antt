-- ===== src/Search/Refresh/Fresh.antt =====
-- Rebuilds that do not overlap leave an index of the table as it is.
use microservice_comics.Base.{
  Bool, true, false, List, Result, ok, err, ◌≡◌, ◌≢◌, ◌⊎◌, inl, inr, refl, sym, ap, ◌∙◌, arith,
  if◌then◌else◌,
}
use microservice_comics.Search.Model.{Comics, Error}
use microservice_comics.Search.Index.{InvertedIndex, build}
use microservice_comics.Search.Refresh.{
  Phase, waiting, reading, building, Refresh, after_all, fails, IsReply, delivered, RefreshStep,
  changes, publishes, subscribes, publish, receives, ticks, subscriber_reads, initiator_reads,
  subscriber_builds, initiator_builds, begun,
}

swapped : {A B : Type 0} → A ⊎ B → B ⊎ A
swapped (inl a) = inr a
swapped (inr b) = inl b

-- At most one of the goroutines is in `RebuildIndex`.
abbrev pub IsSerial : Refresh → Type 0
IsSerial s = (s.subscriber ≡ waiting) ⊎ (s.initiator ≡ waiting)

-- A run of the system in which no two calls of `RebuildIndex` overlap.
pub data SerialReach (s : Refresh) : Refresh → Type 0 where
  here : SerialReach s s
  next : {t u : Refresh} → SerialReach s t → RefreshStep t u → IsSerial u → SerialReach s u

-- What is under way has read the table as it is; if nothing is, and the last call did not fail,
-- the index is that of the table.
abbrev Holds : Phase → Phase → List Comics → Bool → InvertedIndex → Type 0
Holds waiting waiting table failed index = failed ≡ false → index ≡ build table
Holds (building cs) q table failed index = cs ≡ table
Holds waiting (building cs) table failed index = cs ≡ table
Holds _ _ table failed index = Unit

-- Nothing is to be done about the last change of the table but what is under way.
abbrev IsFresh : Refresh → Type 0
IsFresh s =
    s.announced ≡ true → s.channel ≡ 0 → Holds s.subscriber s.initiator s.table s.failed s.index

other_waits : (p q r : Phase) → (p ≡ waiting) ⊎ (q ≡ waiting) → p ≡ r → r ≢ waiting → q ≡ waiting
other_waits p q r (inl e) h busy = absurd (busy (sym h ∙ e))
other_waits p q r (inr e) h busy = e

reading_busy : reading ≢ waiting
reading_busy h = cc h

building_busy : (cs : List Comics) → building cs ≢ waiting
building_busy cs h = cc h

reply_Holds :
    (table : List Comics) (r : Result Error (List Comics)) (failed : Bool) (index : InvertedIndex)
    → IsReply table r
    → Holds (after_all r) waiting table (fails r failed) index
      × Holds waiting (after_all r) table (fails r failed) index
unfolding after_all fails
reply_Holds table (ok cs) failed index k = (k, k)
reply_Holds table (err e) failed index k =
    (λ no_fail. absurd (cc no_fail), λ no_fail. absurd (cc no_fail))

publish-IsFresh : (s : Refresh) → IsFresh s → IsFresh (publish s)
unfolding publish
publish-IsFresh s h = by_flag s.subscribed
  where
    by_flag :
        (on : Bool)
        → IsFresh (if on then record s { announced = true; channel = delivered s.channel } else s)
    by_flag true = λ k z. absurd (ground arith)
    by_flag false = h

step-IsFresh : (s t : Refresh) → RefreshStep s t → IsSerial s → IsSerial t → IsFresh s → IsFresh t
step-IsFresh s t (changes cs e) a b h = rw e (λ k. absurd (cc k))
step-IsFresh s t (subscribes e) a b h = rw e h
step-IsFresh s t (publishes e) a b h = rw e (publish-IsFresh s h)
step-IsFresh s t (receives w n e) a b h = rw e (λ k z. tt)
step-IsFresh s t (ticks w e) a b h =
    let idle : s.subscriber ≡ waiting = elim (rw e at b) [
      | inl x ↦ x
      | inr y ↦ absurd (reading_busy y)
    ] in
    rw e (rw idle (λ k z. tt))
step-IsFresh s t (subscriber_reads r w k e) a b h =
    let idle = other_waits s.subscriber s.initiator reading a w reading_busy in
    rw e (rw idle (λ j z. (reply_Holds s.table r s.failed s.index k).0))
step-IsFresh s t (initiator_reads r w k e) a b h =
    let idle = other_waits s.initiator s.subscriber reading (swapped a) w reading_busy in
    rw e (rw idle (λ j z. (reply_Holds s.table r s.failed s.index k).1))
step-IsFresh s t (subscriber_builds cs w e) a b h =
    let idle = other_waits s.subscriber s.initiator (building cs) a w (building_busy cs) in
    rw e (rw idle (λ j z no_fail. ap build ((rw w at h) j z)))
step-IsFresh s t (initiator_builds cs w e) a b h =
    let idle =
      other_waits s.initiator s.subscriber (building cs) (swapped a) w (building_busy cs) in
    rw e (rw idle (λ j z no_fail. ap build ((rw idle at (rw w at h)) j z)))

reach-IsFresh :
    (table : List Comics) (s : Refresh) → SerialReach (begun table) s → IsSerial s × IsFresh s
reach-IsFresh table s here = (inl refl, λ k z. tt)
reach-IsFresh table s (next {t} r st serial) =
    let (a, h) = reach-IsFresh table t r in (serial, step-IsFresh t s st a serial h)

-- As long as no two rebuilds overlap, from the start of the initiator on: whenever no rebuild is
-- under way, no message waits, the last change of the table, if there was any, was followed by an
-- event that was published to the subscription, and the last rebuild did not fail, the index is that
-- of the table as it is, even if messages were dropped because the channel was full.
pub fresh_index :
    (table : List Comics) (s : Refresh)
    → SerialReach (begun table) s
    → s.subscriber ≡ waiting
    → s.initiator ≡ waiting
    → s.channel ≡ 0
    → s.announced ≡ true
    → s.failed ≡ false
    → s.index ≡ build s.table
fresh_index table s r a b z k no_fail =
    let h = (reach-IsFresh table s r).1 in (rw b at (rw a at h)) k z no_fail
