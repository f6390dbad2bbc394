-- ===== src/Update/Kept.antt =====
-- What any call of `Update` leaves in the table, also one that fails or is cancelled.
use microservice_comics.Base.{
  int_eq, ℕ, ◌≤◌, ℤ, pos, negsuc, ltb_ℤ, Bool, true, false, List, Option, none, some, Result, ok,
  ◌≡◌, ◌⊎◌, inl, inr, refl, sym, ap, ◌∙◌, arith, Bool-cases, has, ltb,
}
use microservice_comics.Update.Model.{Comics, Error, XkcdInfo, Xkcd, Words}
use microservice_comics.Update.Service.{Plan, plan, fetch, process}
use microservice_comics.Update.Storage.{Database, storage, row_of}
use microservice_comics.Update.Run.{Run, Reach, started}
use microservice_comics.Update.Run.Exactly.{count, reach_total}
use microservice_comics.Update.Run.Ends.{reach-IsOrderly}
use microservice_comics.Update.Contents.{
  job, job_outage, store_row, fetch_own, or_old, fetched, replay_row,
}
use microservice_comics.Update.Whole.{Returns, refused, failed, ran, count_of, is_known}
use microservice_comics.Update.Keys.{reach_keeps}
use microservice_comics.Update.Planned.{is_some, known_row, plan_parts}

not_some : (o : Option Comics) → is_some o ≡ false → o ≡ none
not_some none h = refl
not_some (some c) h = absurd (cc h)

or_old-none : (o : Option Comics) → or_old o none ≡ o
or_old-none none = refl
or_old-none (some c) = refl

module _ (xkcd : Xkcd) (words : Words)
    (numbered : (id : ℤ) (info : XkcdInfo) → xkcd.get id ≡ ok info → info.id ≡ id) where
  -- A table that answers and has some row, or none, at a negative id.
  abbrev Stays : ℕ → Option Comics → Database → Type 0
  Stays k o e = (e.outage ≡ none) × (row_of (negsuc k) e.rows ≡ o)

  job-Stays :
      (k : ℕ) (o : Option Comics) (i : ℕ) (e : Database)
      → Stays k o e
      → Stays k o (job xkcd words numbered i e)
  unfolding process
  job-Stays k o i e (up, here) = (
    job_outage xkcd words numbered i e up,
    store_row (fetch xkcd words (pos i)) (negsuc k) (pos i) e up
          (fetch_own xkcd words numbered (pos i))
        ∙ here,
  )

  -- No update touches a row with a negative id.
  pub negative_row :
      (concurrency : ℤ) (cancelled flag : Bool) (d : Database)
      (t : (Bool × Database) × Result Error (Unit {0})) (k : ℕ)
      → Returns xkcd words numbered concurrency cancelled flag d t
      → row_of (negsuc k) t.0.1.rows ≡ row_of (negsuc k) d.rows
  negative_row concurrency cancelled flag d t k (refused busy end) = rw end refl
  negative_row concurrency cancelled flag d t k (failed e free planned end) = rw end refl
  negative_row concurrency cancelled flag d t k (ran p r free planned reach done c end) =
      let (up, exists, capped, asked) = plan_parts xkcd concurrency d p planned in
      rw end
        (reach_keeps (Stays k (row_of (negsuc k) d.rows)) _ _ _
          (job-Stays k (row_of (negsuc k) d.rows)) _ r reach (up, refl)).1

  -- The id was missing, it is one of the numbers of the site, and its row is what a fetch leaves.
  abbrev pub IsFetched : ℤ → Database → Database → Type 0
  IsFetched id d e =
      (row_of id d.rows ≡ none)
      × (row_of id e.rows ≡ fetched xkcd words id)
      × (ltb_ℤ (pos 0) id ≡ true)
      × ((z : ℤ) × (xkcd.last_id ≡ ok z) × (ltb_ℤ z id ≡ false))

  abbrev pub IsKeptOrFetched : ℤ → Database → Database → Type 0
  IsKeptOrFetched id d e = (row_of id e.rows ≡ row_of id d.rows) ⊎ IsFetched id d e

  not_past : (i : ℕ) (z : ℤ) → 1 ≤ i → i ≤ count_of z → ltb_ℤ z (pos i) ≡ false
  not_past i (pos m) low high = ground arith
  not_past i (negsuc m) low high = absurd (omega arith)

  ran_keeps :
      (concurrency : ℤ) (workers : ℕ) (d : Database) (p : Plan) (r : Run Database) (i : ℕ)
      → plan storage xkcd concurrency d ≡ ok p
      → Reach (count_of p.latest) (is_known p) (job xkcd words numbered) (started workers d) r
      → IsKeptOrFetched (pos i) d r.table
  ran_keeps concurrency workers d p r i planned reach =
      let (up, exists, capped, asked) = plan_parts xkcd concurrency d p planned in
      let known : is_known p i ≡ is_some (row_of (pos i) d.rows) =
        ap (λ (l : List ℤ). has l (pos i)) exists ∙ known_row (pos i) d.rows in
      let latest = count_of p.latest in
      let orderly =
        reach-IsOrderly latest (is_known p) (job xkcd words numbered) workers d r reach in
      let row =
        ap (λ (e : Database). row_of (pos i) e.rows) orderly.replayed
        ∙ replay_row xkcd words numbered i r.log d up in
      let places = reach_total latest (is_known p) (job xkcd words numbered) i workers d r reach in
      elim (Bool-cases (ltb 0 (count i r.log))) [
        | inl e ↦
            let missing : is_known p i ≡ false = ground (arith, places, e) in
            let absent = not_some (row_of (pos i) d.rows) (sym known ∙ missing) in
            let low : 1 ≤ i = ground (arith, places, e) in
            let high : i ≤ latest = ground (arith, places, e) in
            inr (
              absent,
              row ∙ (rw e (rw absent (or_old-none (fetched xkcd words (pos i))))),
              ground arith,
              (p.latest, asked, not_past i p.latest low high),
            )
        | inr e ↦ inl (row ∙ rw e refl)
      ]

  -- Let the site give, for each number it answers, the comic of that number. However a call of
  -- `Update` ends, by success, an error or a cancellation that may cut jobs short, and whatever the
  -- flag was: each id has the row that it had, or it had none and is a number from 1 to the last one
  -- of the site, and then it has what a fetch of it leaves.
  pub update_keeps :
      (concurrency : ℤ) (cancelled flag : Bool) (d : Database)
      (t : (Bool × Database) × Result Error (Unit {0})) (id : ℤ)
      → Returns xkcd words numbered concurrency cancelled flag d t
      → IsKeptOrFetched id d t.0.1
  update_keeps concurrency cancelled flag d t (negsuc k) returns =
      inl (negative_row concurrency cancelled flag d t k returns)
  update_keeps concurrency cancelled flag d t (pos i) (refused busy end) = inl (rw end refl)
  update_keeps concurrency cancelled flag d t (pos i) (failed e free planned end) =
      inl (rw end refl)
  update_keeps concurrency cancelled flag d t (pos i) (ran p r free planned reach done c end) =
      rw end (ran_keeps concurrency (count_of p.workers) d p r i planned reach)
