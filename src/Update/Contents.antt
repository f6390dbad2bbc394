-- ===== src/Update/Contents.antt =====
-- What an update leaves in the table: the contents do not depend on the order of the workers.
use microservice_comics.Base.{
  int_eq, fits_int4, ℕ, ◌+◌, ◌≤◌, ℤ, pos, Bool, true, false, List, [], ◌∷◌, ◌≡◌, inl, inr, refl,
  sym, ap, ◌∙◌, Option, none, some, Result, ok, err, arith, Bool-cases, if◌then◌else◌, ◌==◌, ==→≡,
  nat_beq, leb, ltb, ◌&&◌, not, nat_beq_iff,
}
use microservice_comics.Update.Model.{Comics, Error, XkcdInfo, Xkcd, Words}
use microservice_comics.Update.Service.{fetch, process, store, row_for, normalised}
use microservice_comics.Update.Storage.{Database, upsert, add, storage, row_of}
use microservice_comics.Update.Run.{Run, Reach, started, IsDone}
use microservice_comics.Update.Run.Exactly.{count, hit}
use microservice_comics.Update.Run.Ends.{replay, done_exactly}

pub row_of-upsert :
    (id : ℤ) (c : Comics) (rows : List Comics)
    → row_of id (upsert c rows) ≡ (if c.id == id then some c else row_of id rows)
unfolding row_of upsert
row_of-upsert id c [] = refl
row_of-upsert id c (r ∷ rs) = elim (Bool-cases (r.id == c.id)) [
  | inl e ↦ rw e (elim (Bool-cases (c.id == id)) [
    | inl f ↦ rw f refl
    | inr f ↦ rw f (rw (==→≡ r.id c.id e, f) refl)
  ])
  | inr e ↦ rw e (elim (Bool-cases (r.id == id)) [
    | inl f ↦ rw f (elim (Bool-cases (c.id == id)) [
      | inl g ↦ absurd (cc (==→≡ c.id id g, e, f))
      | inr g ↦ rw g refl
    ])
    | inr f ↦ rw f (row_of-upsert id c rs)
  ])
]

-- The new row of an id, if there is one, and else the old.
abbrev pub or_old : Option Comics → Option Comics → Option Comics
or_old none old = old
or_old (some c) old = some c

-- What `Add` does to a table that answers.
pub added_rows :
    (d : Database) (c : Comics)
    → d.outage ≡ none
    → ((add d c).0.rows ≡ (if fits_int4 c.id then upsert c d.rows else d.rows))
      × ((add d c).0.outage ≡ none)
unfolding add
added_rows d c up = elim (Bool-cases (fits_int4 c.id)) [
  | inl e ↦ (rw (e, up) refl, rw (e, up) refl)
  | inr e ↦ (rw e refl, rw e up)
]

store_outage :
    (o : Option Comics) (d : Database) → d.outage ≡ none → (store storage o d).outage ≡ none
unfolding storage
store_outage none d h = h
store_outage (some c) d h = (added_rows d c h).1

-- The row that the table takes: its id is an INT.
abbrev pub storable : Option Comics → Option Comics
storable none = none
storable (some c) = if fits_int4 c.id then some c else none

-- What a job leaves of a number.
abbrev pub fetched : Xkcd → Words → ℤ → Option Comics
fetched xkcd words id = storable (fetch xkcd words id)

pub store_row :
    (o : Option Comics) (id key : ℤ) (d : Database)
    → d.outage ≡ none
    → ((c : Comics) → o ≡ some c → c.id ≡ key)
    → row_of id (store storage o d).rows
      ≡ (if key == id then or_old (storable o) (row_of id d.rows) else row_of id d.rows)
unfolding storage
store_row none id key d h own = ground arith
store_row (some c) id key d h own =
    ap (row_of id) (added_rows d c h).0 ∙ (elim (Bool-cases (fits_int4 c.id)) [
      | inl e ↦ rw e (row_of-upsert id c d.rows ∙ rw (own c refl) refl)
      | inr e ↦ rw e (ground arith)
    ])

row_own :
    (words : Words) (id : ℤ) (c : Comics) (m : Result Error XkcdInfo)
    → ((info : XkcdInfo) → m ≡ ok info → info.id ≡ id)
    → row_for words id m ≡ some c
    → c.id ≡ id
row_own words id c (ok info) own h =
    let same : normalised words info ≡ c = cc in
    ap (λ (d : Comics). d.id) (sym same) ∙ own info refl
row_own words id c (err e) own h = ground arith

-- A second store of the same row changes nothing.
merge :
    (i j n : ℕ) (row row_j old : Option Comics)
    → ((nat_beq j i ≡ true) → row_j ≡ row)
    → (if ltb 0 n
        then or_old row (if nat_beq j i then or_old row_j old else old)
        else (if nat_beq j i then or_old row_j old else old))
      ≡ (if ltb 0 (hit i j + n) then or_old row old else old)
merge i j n row row_j old same = elim (Bool-cases (nat_beq j i)) [
  | inl e ↦ rw (same e) (ground arith)
  | inr e ↦ ground arith
]

-- A number that fits is stored as it was fetched.
pub storable_own :
    (o : Option Comics) (id : ℤ)
    → fits_int4 id ≡ true
    → ((c : Comics) → o ≡ some c → c.id ≡ id)
    → storable o ≡ o
storable_own none id fits own = refl
storable_own (some c) id fits own = rw (own c refl) (rw fits refl)

module _ (xkcd : Xkcd) (words : Words)
    (numbered : (id : ℤ) (info : XkcdInfo) → xkcd.get id ≡ ok info → info.id ≡ id) where
  -- A job of a worker, on the storage.
  abbrev pub job : ℕ → Database → Database
  job i = process storage xkcd words (pos i)

  pub fetch_own : (id : ℤ) (c : Comics) → fetch xkcd words id ≡ some c → c.id ≡ id
  unfolding fetch
  fetch_own id c h = row_own words id c (xkcd.get id) (numbered id) h

  pub job_outage : (i : ℕ) (d : Database) → d.outage ≡ none → (job i d).outage ≡ none
  unfolding process
  job_outage i d h = store_outage (fetch xkcd words (pos i)) d h

  job_row :
      (i j : ℕ) (d : Database)
      → d.outage ≡ none
      → row_of (pos i) (job j d).rows ≡ (
          if nat_beq j i
          then or_old (fetched xkcd words (pos j)) (row_of (pos i) d.rows)
          else row_of (pos i) d.rows)
  unfolding process
  job_row i j d h = store_row (fetch xkcd words (pos j)) (pos i) (pos j) d h (fetch_own (pos j))

  -- What stands at an id after some jobs.
  abbrev pub fetched_or : Bool → ℕ → Option Comics → Option Comics
  fetched_or done i old = if done then or_old (fetched xkcd words (pos i)) old else old

  pub replay_row :
      (i : ℕ) (js : List ℕ) (d : Database)
      → d.outage ≡ none
      → row_of (pos i) (replay job js d).rows
        ≡ fetched_or (ltb 0 (count i js)) i (row_of (pos i) d.rows)
  replay_row i [] d h = refl
  replay_row i (j ∷ js) d h =
      replay_row i js (job j d) (job_outage j d h)
      ∙ (ap (fetched_or (ltb 0 (count i js)) i) (job_row i j d h)
          ∙ merge i j (count i js) (fetched xkcd words (pos i)) (fetched xkcd words (pos j))
              (row_of (pos i) d.rows)
              (λ e. ap (λ (k : ℕ). fetched xkcd words (pos k)) ((nat_beq_iff j i).0 e)))

  -- Let the site give, for each number it answers, the comic of that number. After an update with
  -- at least one worker, on a database that answers, that has ended and was not cancelled, whatever
  -- the schedule of the goroutines: an id that was missing has what one fetch of it gives, if that
  -- gives a row and the column can hold the id, and any other id has its old row.
  pub update_contents :
      (latest workers : ℕ) (exists : ℕ → Bool) (d : Database) (s : Run Database)
      → 1 ≤ workers
      → d.outage ≡ none
      → Reach latest exists job (started workers d) s
      → IsDone s
      → s.cancelled ≡ false
      → (i : ℕ)
      → row_of (pos i) s.table.rows ≡ (
          if leb 1 i && leb i latest && not (exists i)
          then or_old (fetched xkcd words (pos i)) (row_of (pos i) d.rows)
          else row_of (pos i) d.rows)
  update_contents latest workers exists d s w h r done c i =
      let (counts, table) = done_exactly latest exists job workers d s w r done c in
      ap (λ (e : Database). row_of (pos i) e.rows) table
      ∙ (replay_row i s.log d h ∙ ground (arith, counts i))
