-- ===== src/Search/Refresh/Race.antt =====
-- Two rebuilds that overlap: the one that has read the older table may replace the index last.
use microservice_comics.Base.{true, false, List, ok, ◌≡◌, refl, arith}
use microservice_comics.Search.Model.{Comics}
use microservice_comics.Search.Index.{build}
use microservice_comics.Search.Refresh.{
  waiting, reading, building, Refresh, after_all, fails, RefreshStep, changes, publishes, receives,
  subscriber_reads, initiator_reads, subscribes, publish, subscriber_builds, initiator_builds,
  begun, RefreshReach, here, next,
}

-- Nothing is under way or to be done, and nothing failed.
pub record IsQuiet (s : Refresh) : Type 0 where
  pub subscriber : s.subscriber ≡ waiting
  pub initiator : s.initiator ≡ waiting
  pub channel : s.channel ≡ 0
  pub announced : s.announced ≡ true
  pub failed : s.failed ≡ false

module _ (old new : List Comics) where
  abbrev listening : Refresh
  listening = record (begun old) { subscribed = true }

  abbrev read_old : Refresh
  read_old = record listening { initiator = building old }

  abbrev changed : Refresh
  changed = record read_old { table = new; announced = false }

  abbrev published : Refresh
  published = record changed { announced = true; channel = 1 }

  abbrev received : Refresh
  received = record published { subscriber = reading; channel = 0 }

  abbrev read_new : Refresh
  read_new = record received { subscriber = building new }

  abbrev built_new : Refresh
  built_new = record read_new { subscriber = waiting; index = build new }

  abbrev built_old : Refresh
  built_old = record built_new { initiator = waiting; index = build old }

  subscribes_first : RefreshStep (begun old) listening
  subscribes_first = subscribes refl

  reads_old : RefreshStep listening read_old
  unfolding after_all fails
  reads_old = initiator_reads (ok old) refl refl refl

  changes_table : RefreshStep read_old changed
  changes_table = changes new refl

  publishes_change : RefreshStep changed published
  unfolding publish
  publishes_change = publishes refl

  receives_event : RefreshStep published received
  receives_event = receives refl (omega arith) refl

  reads_new : RefreshStep received read_new
  unfolding after_all fails
  reads_new = subscriber_reads (ok new) refl refl refl

  builds_new : RefreshStep read_new built_new
  builds_new = subscriber_builds new refl refl

  builds_old : RefreshStep built_new built_old
  builds_old = initiator_builds old refl refl

  -- For any two contents of the table, the system can come from the first to the second and to rest
  -- without a failure, with the index of the first.
  pub overlap_stale :
      (s : Refresh) × RefreshReach (begun old) s
      × IsQuiet s
      × (s.table ≡ new)
      × (s.index ≡ build old)
  overlap_stale = (
    built_old,
    next
        (next
          (next
            (next
              (next (next (next (next here subscribes_first) reads_old) changes_table)
                publishes_change)
              receives_event)
            reads_new)
          builds_new)
        builds_old,
    record { subscriber = refl; initiator = refl; channel = refl; announced = refl; failed = refl },
    refl,
    refl,
  )
