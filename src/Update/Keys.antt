-- ===== src/Update/Keys.antt =====
-- The primary key of the table of comics, through everything that the update service does with it.
use microservice_comics.Base.{
  int_eq, fits_int4, ℕ, ℤ, pos, Bool, false, List, [], ◌∷◌, Option, none, some, Result, ok, ◌≡◌,
  ◌≢◌, inl, inr, Bool-cases, Option-cases, All, ◌==◌, ==→≡, ==_refl,
}
use microservice_comics.Update.Model.{Comics, Error, XkcdInfo, Xkcd, Words}
use microservice_comics.Update.Service.{process, store, fetch}
use microservice_comics.Update.Storage.{Database, storage, upsert, add}
use microservice_comics.Update.Run.{
  Run, Step, skip, send, close, give_up, take, finish, abandon, leave, quit, cancel, Reach, here,
  next,
}
use microservice_comics.Update.Contents.{job}
use microservice_comics.Update.Whole.{Returns, refused, failed, ran}

-- No two rows have the same id.
abbrev pub HasKeys : List Comics → Type 0
HasKeys [] = Unit
HasKeys (c ∷ cs) = All (λ d. c.id ≢ d.id) cs × HasKeys cs

differ : (a b : ℤ) → (a == b) ≡ false → a ≢ b
differ a b h same = cc (h, ==_refl a, same)

All-upsert :
    (k : ℤ) (c : Comics) (rows : List Comics)
    → k ≢ c.id
    → All (λ d. k ≢ d.id) rows
    → All (λ d. k ≢ d.id) (upsert c rows)
unfolding upsert
All-upsert k c [] new h = (new, tt)
All-upsert k c (r ∷ rs) new h = elim (Bool-cases (r.id == c.id)) [
  | inl e ↦ rw e (new, h.1)
  | inr e ↦ rw e (h.0, All-upsert k c rs new h.1)
]

upsert-HasKeys : (c : Comics) (rows : List Comics) → HasKeys rows → HasKeys (upsert c rows)
unfolding upsert
upsert-HasKeys c [] h = (tt, tt)
upsert-HasKeys c (r ∷ rs) h = elim (Bool-cases (r.id == c.id)) [
  | inl e ↦ rw e (rw (==→≡ r.id c.id e) at h)
  | inr e ↦ rw e (All-upsert r.id c rs (differ r.id c.id e) h.0, upsert-HasKeys c rs h.1)
]

add-HasKeys : (d : Database) (c : Comics) → HasKeys d.rows → HasKeys (add d c).0.rows
unfolding add
add-HasKeys d c h = elim (Bool-cases (fits_int4 c.id)) [
  | inr over ↦ rw over h
  | inl fits ↦ rw fits (elim (Option-cases d.outage) [
    | inl e ↦ rw e (upsert-HasKeys c d.rows h)
    | inr (o, e) ↦ rw e h
  ])
]

store-HasKeys :
    (o : Option Comics) (d : Database) → HasKeys d.rows → HasKeys (store storage o d).rows
unfolding storage
store-HasKeys none d h = h
store-HasKeys (some c) d h = add-HasKeys d c h

module _ {S : Type 0} (P : S → Type 0) (latest : ℕ) (exists : ℕ → Bool) (work : ℕ → S → S)
    (keep : (i : ℕ) (d : S) → P d → P (work i d)) where
  step_keeps : (u t : Run S) → Step latest exists work u t → P u.table → P t.table
  step_keeps u t (finish before after j w e) k = rw e (keep j u.table k)
  step_keeps u t (abandon before after j w c e) k = rw e k
  step_keeps u t (skip a b c e) k = rw e k
  step_keeps u t (send a b c d e) k = rw e k
  step_keeps u t (close a b e) k = rw e k
  step_keeps u t (give_up a b c d e) k = rw e k
  step_keeps u t (take before after j js w q e) k = rw e k
  step_keeps u t (leave before after w q c e) k = rw e k
  step_keeps u t (quit before after w c e) k = rw e k
  step_keeps u t (cancel c e) k = rw e k

  -- What every job keeps is kept by every run.
  pub reach_keeps : (s t : Run S) → Reach latest exists work s t → P s.table → P t.table
  reach_keeps s t here h = h
  reach_keeps s v (next {t} r st) h = step_keeps t v st (reach_keeps s t r h)

module _ (xkcd : Xkcd) (words : Words)
    (numbered : (id : ℤ) (info : XkcdInfo) → xkcd.get id ≡ ok info → info.id ≡ id) where
  job-HasKeys : (i : ℕ) (d : Database) → HasKeys d.rows → HasKeys (job xkcd words numbered i d).rows
  unfolding process
  job-HasKeys i d h = store-HasKeys (fetch xkcd words (pos i)) d h

  -- Let the site give, for each number it answers, the comic of that number. No call of `Update`,
  -- however it ends, leaves two rows with the same id, if there were none.
  pub update-HasKeys :
      (concurrency : ℤ) (cancelled flag : Bool) (d : Database)
      (t : (Bool × Database) × Result Error (Unit {0}))
      → Returns xkcd words numbered concurrency cancelled flag d t
      → HasKeys d.rows
      → HasKeys t.0.1.rows
  update-HasKeys concurrency cancelled flag d t (refused busy end) h = rw end h
  update-HasKeys concurrency cancelled flag d t (failed e free planned end) h = rw end h
  update-HasKeys concurrency cancelled flag d t (ran p r free planned reach done c end) h =
      rw end (reach_keeps (λ (e : Database). HasKeys e.rows) _ _ _ job-HasKeys _ r reach h)
