-- ===== src/Search/Refresh.antt =====
-- When the index is rebuilt: adapters/broker/subscriber.go and adapters/initiator/indexer.go of
-- search-services/search, which main.go starts in the other order. Two goroutines call
-- `RebuildIndex`, which reads the table first and replaces the index later; the update service
-- changes the table in between, and publishes an event after it.
pub mod Fresh
pub mod Race
use microservice_comics.Base.{
  ℕ, zero, suc, ◌+◌, ◌-◌, ◌≤◌, Bool, true, false, List, Result, ok, err, ◌≡◌, ltb, if◌then◌else◌,
}
use microservice_comics.Search.Model.{Comics, Error}
use microservice_comics.Search.Index.{InvertedIndex, new_inverted_index, build}

-- A goroutine waits for its event or its tick, is about to call `All`, or is about to call `Build`.
pub data Phase : Type 0 where
  waiting reading : Phase
  building : List Comics → Phase

-- `subscribed` says that `ChanSubscribe` has returned; `channel` is the number of messages in `ch`.
-- `announced` says that an event was published to the subscription since the last change of the
-- table, if it has changed, and `failed` that the last call of `RebuildIndex` that ended
-- returned an error.
pub record Refresh : Type 0 where
  pub table : List Comics
  pub announced : Bool
  pub subscribed : Bool
  pub channel : ℕ
  pub subscriber : Phase
  pub initiator : Phase
  pub index : InvertedIndex
  pub failed : Bool

-- `make(chan *nats.Msg, 10)`
abbrev pub capacity : ℕ
capacity = 10

-- A message that finds the channel full is dropped.
abbrev pub delivered : ℕ → ℕ
delivered n = if ltb n capacity then n + 1 else n

-- An event that no subscription receives is lost.
unfoldable pub publish : Refresh → Refresh
publish s = if s.subscribed then record s { announced = true; channel = delivered s.channel } else s

-- Where the reply of `All` leaves a goroutine.
unfoldable pub after_all : Result Error (List Comics) → Phase
after_all (ok comics) = building comics
after_all (err e) = waiting

unfoldable pub fails : Result Error (List Comics) → Bool → Bool
fails (ok comics) failed = failed
fails (err e) failed = true

-- What `All` can reply.
abbrev IsReply : List Comics → Result Error (List Comics) → Type 0
IsReply table (ok comics) = comics ≡ table
IsReply table (err e) = Unit

pub data RefreshStep (s t : Refresh) : Type 0 where
  changes : (cs : List Comics) → t ≡ record s { table = cs; announced = false } → RefreshStep s t
  subscribes : t ≡ record s { subscribed = true } → RefreshStep s t
  publishes : t ≡ publish s → RefreshStep s t
  receives :
      s.subscriber ≡ waiting
      → 1 ≤ s.channel
      → t ≡ record s { subscriber = reading; channel = s.channel - 1 }
      → RefreshStep s t
  ticks : s.initiator ≡ waiting → t ≡ record s { initiator = reading } → RefreshStep s t
  subscriber_reads :
      (r : Result Error (List Comics))
      → s.subscriber ≡ reading
      → IsReply s.table r
      → t ≡ record s { subscriber = after_all r; failed = fails r s.failed }
      → RefreshStep s t
  initiator_reads :
      (r : Result Error (List Comics))
      → s.initiator ≡ reading
      → IsReply s.table r
      → t ≡ record s { initiator = after_all r; failed = fails r s.failed }
      → RefreshStep s t
  subscriber_builds :
      (cs : List Comics)
      → s.subscriber ≡ building cs
      → t ≡ record s { subscriber = waiting; index = build cs; failed = false }
      → RefreshStep s t
  initiator_builds :
      (cs : List Comics)
      → s.initiator ≡ building cs
      → t ≡ record s { initiator = waiting; index = build cs; failed = false }
      → RefreshStep s t

-- The initiator has started, and begins with a rebuild.
abbrev pub begun : List Comics → Refresh
begun table = record {
  table = table;
  announced = true;
  subscribed = false;
  channel = 0;
  subscriber = waiting;
  initiator = reading;
  index = new_inverted_index;
  failed = false;
}

pub data RefreshReach (s : Refresh) : Refresh → Type 0 where
  here : RefreshReach s s
  next : {t u : Refresh} → RefreshReach s t → RefreshStep t u → RefreshReach s u
