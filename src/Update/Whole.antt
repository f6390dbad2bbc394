-- ===== src/Update/Whole.antt =====
-- search-services/update/core/service.go, `Update` as a whole: the flag, what it finds out first,
-- the workers, and what it returns.
use microservice_comics.Base.{
  int_eq, ℕ, ◌≤◌, ℤ, pos, negsuc, Bool, true, false, not, ◌&&◌, List, Option, none, some, Result,
  ok, err, ok_injective, err_ok, ◌≡◌, lt→ltb, refl, sym, ap, ◌∙◌, arith, has, leb, ltb,
  if◌then◌else◌,
}
use microservice_comics.Update.Model.{Comics, Error, XkcdInfo, already_exists, failure, Xkcd, Words}
use microservice_comics.Update.Service.{Plan, plan}
use microservice_comics.Update.Storage.{Database, storage, row_of}
use microservice_comics.Update.Run.{Run, Reach, started, IsDone}
use microservice_comics.Update.Run.Ends.{reach-IsOrderly}
use microservice_comics.Update.Planned.{is_some, known_row, capped, plan_parts, plan_made}
use microservice_comics.Update.Contents.{job, or_old, fetched, update_contents}

-- A loop up to a negative number, and a pool of a negative number of workers, are empty.
abbrev pub count_of : ℤ → ℕ
count_of (pos n) = n
count_of (negsuc n) = 0

abbrev pub is_known : Plan → ℕ → Bool
is_known p i = has p.exists (pos i)

-- `ctx.Err()` if the loop was left, and nil if it came to its end.
abbrev pub reply_of : {S : Type 0} → Plan → Run S → Result Error (Unit {0})
reply_of p r = if ltb (count_of p.latest) r.next then ok tt else err (failure "context canceled")

module _ (xkcd : Xkcd) (words : Words)
    (numbered : (id : ℤ) (info : XkcdInfo) → xkcd.get id ≡ ok info → info.id ≡ id) where
  -- What a call of `Update` can return, with the flag and the table that it leaves. `cancelled`
  -- tells whether its context was done by then.
  pub data Returns (concurrency : ℤ) (cancelled flag : Bool) (d : Database)
      (t : (Bool × Database) × Result Error (Unit {0})) : Type 0 where
    refused :
        flag ≡ true → t ≡ ((true, d), err already_exists) → Returns concurrency cancelled flag d t
    failed :
        (e : Error)
        → flag ≡ false
        → plan storage xkcd concurrency d ≡ err e
        → t ≡ ((false, d), err e)
        → Returns concurrency cancelled flag d t
    ran :
        (p : Plan) (r : Run Database)
        → flag ≡ false
        → plan storage xkcd concurrency d ≡ ok p
        → Reach
            (count_of p.latest)
            (is_known p)
            (job xkcd words numbered)
            (started (count_of p.workers) d)
            r
        → IsDone r
        → r.cancelled ≡ cancelled
        → t ≡ ((false, r.table), reply_of p r)
        → Returns concurrency cancelled flag d t

capped_pos : (n : ℕ) → 1 ≤ n → 1 ≤ count_of (capped (pos n))
capped_pos n h = ground arith

-- The old row if there is one, and else the new.
abbrev pub or_new : Option Comics → Option Comics → Option Comics
or_new none new = new
or_new (some c) new = some c

fill :
    (a b : Bool) (old new : Option Comics)
    → (if a && b && not (is_some old) then or_old new old else old)
      ≡ (if a && b then or_new old new else old)
fill true true none none = refl
fill true true none (some c) = refl
fill true true (some c) new = refl
fill true false old new = refl
fill false b old new = refl

module _ (xkcd : Xkcd) (words : Words)
    (numbered : (id : ℤ) (info : XkcdInfo) → xkcd.get id ≡ ok info → info.id ≡ id) where
  run_fills :
      (n : ℕ) (d : Database) (p : Plan) (r : Run Database)
      → 1 ≤ n
      → plan storage xkcd (pos n) d ≡ ok p
      → Reach
          (count_of p.latest)
          (is_known p)
          (job xkcd words numbered)
          (started (count_of p.workers) d)
          r
      → IsDone r
      → r.cancelled ≡ false
      → (i : ℕ)
      → row_of (pos i) r.table.rows ≡ (
          if leb 1 i && leb i (count_of p.latest)
          then or_new (row_of (pos i) d.rows) (fetched xkcd words (pos i))
          else row_of (pos i) d.rows)
  run_fills n d p r h planned reach done c i =
      let (up, exists, workers, asked) = plan_parts xkcd (pos n) d p planned in
      let some_worker : 1 ≤ count_of p.workers = rw workers (capped_pos n h) in
      let known : is_known p i ≡ is_some (row_of (pos i) d.rows) =
        ap (λ (l : List ℤ). has l (pos i)) exists ∙ known_row (pos i) d.rows in
      update_contents xkcd words numbered (count_of p.latest) (count_of p.workers) (is_known p) d r
        some_worker up reach done c i
      ∙ rw known (
          fill (leb 1 i) (leb i (count_of p.latest)) (row_of (pos i) d.rows)
            (fetched xkcd words (pos i)))

  ran_fills :
      (n latest : ℕ) (d : Database) (p : Plan) (r : Run Database)
      (t : (Bool × Database) × Result Error (Unit {0}))
      → 1 ≤ n
      → xkcd.last_id ≡ ok (pos latest)
      → plan storage xkcd (pos n) d ≡ ok p
      → Reach
          (count_of p.latest)
          (is_known p)
          (job xkcd words numbered)
          (started (count_of p.workers) d)
          r
      → IsDone r
      → r.cancelled ≡ false
      → t ≡ ((false, r.table), reply_of p r)
      → (t.1 ≡ ok tt)
        × ((i : ℕ)
            → row_of (pos i) t.0.1.rows ≡ (
                if leb 1 i && leb i latest
                then or_new (row_of (pos i) d.rows) (fetched xkcd words (pos i))
                else row_of (pos i) d.rows))
  ran_fills n latest d p r t h last planned reach done c end =
      let same : p.latest ≡ pos latest =
        sym (ok_injective (sym last ∙ (plan_parts xkcd (pos n) d p planned).3)) in
      let orderly =
        reach-IsOrderly (count_of p.latest) (is_known p) (job xkcd words numbered)
          (count_of p.workers) d r reach in
      let passed : ltb (count_of p.latest) r.next ≡ true =
        lt→ltb _ _ (orderly.sent c done.closed) in
      (
        rw end (rw passed refl),
        λ i. rw end (rw (← ap count_of same) (run_fills n d p r h planned reach done c i)),
      )

  -- Let the site give, for each number it answers, the comic of that number. A call of `Update`
  -- with at least one worker that finds the flag free, the last number and the database, and is not
  -- cancelled, succeeds and frees the flag. It leaves every row that was there, and for each number
  -- from 1 to the last one without a row it stores what one fetch of it gives, if the column can hold
  -- the number: however many workers there are and however they take turns.
  pub update_fills :
      (n latest : ℕ) (d : Database) (t : (Bool × Database) × Result Error (Unit {0}))
      → 1 ≤ n
      → xkcd.last_id ≡ ok (pos latest)
      → d.outage ≡ none
      → Returns xkcd words numbered (pos n) false false d t
      → (t.1 ≡ ok tt)
        × (t.0.0 ≡ false)
        × ((i : ℕ)
            → row_of (pos i) t.0.1.rows ≡ (
                if leb 1 i && leb i latest
                then or_new (row_of (pos i) d.rows) (fetched xkcd words (pos i))
                else row_of (pos i) d.rows))
  update_fills n latest d t h last up (refused busy end) = cc
  update_fills n latest d t h last up (failed e free planned end) =
      absurd (err_ok (sym planned ∙ (plan_made xkcd (pos n) (pos latest) d last up).1))
  update_fills n latest d t h last up (ran p r free planned reach done c end) =
      let (reply, rows) = ran_fills n latest d p r t h last planned reach done c end in
      (reply, rw end refl, rows)
