-- ===== src/Update/Schedules.antt =====
-- Two calls of `Update` on the same table leave the same rows.
use microservice_comics.Base.{
  int_eq, ℕ, ◌≤◌, ℤ, pos, negsuc, Bool, false, List, [], ◌∷◌, none, some, Result, ok, ◌==◌, ==→≡,
  ==_refl, All_elem, Elem, Bool-cases, ◌≡◌, ◌≢◌, ◌↔◌, inl, inr, sym, ap, ◌∙◌,
}
use microservice_comics.Update.Model.{Comics, Error, XkcdInfo, Xkcd, Words}
use microservice_comics.Update.Storage.{Database, row_of}
use microservice_comics.Update.Keys.{HasKeys}
use microservice_comics.Update.Kept.{negative_row}
use microservice_comics.Update.Whole.{Returns, update_fills}

-- With distinct ids, a row is in the table if it is what stands at its id.
pub Elem-row_of :
    (c : Comics) (rows : List Comics) → HasKeys rows → Elem c rows ↔ (row_of c.id rows ≡ some c)
unfolding row_of
Elem-row_of c [] keys = (λ m. absurd m, λ h. absurd (cc h))
Elem-row_of c (r ∷ rs) keys =
    let (to, from) = Elem-row_of c rs keys.1 in
    elim (Bool-cases (r.id == c.id)) [
      | inl e ↦ rw e (
        λ m. elim m [
          | inl same ↦ ap some (sym same)
          | inr later ↦
              absurd (All_elem (λ (d : Comics). r.id ≢ d.id) rs keys.0 c later (==→≡ r.id c.id e))
        ],
        λ h. inl (let same : r ≡ c = cc h in sym same),
      )
      | inr e ↦ rw e (
        λ m. elim m [
          | inl same ↦ absurd (cc (ap (λ (d : Comics). d.id == c.id) same, ==_refl c.id, e))
          | inr later ↦ to later
        ],
        λ h. inr (from h),
      )
    ]

module _ (xkcd : Xkcd) (words : Words)
    (numbered : (id : ℤ) (info : XkcdInfo) → xkcd.get id ≡ ok info → info.id ≡ id) where
  module _ (n n' latest : ℕ) (d : Database) (t t' : (Bool × Database) × Result Error (Unit {0}))
      (some_worker : 1 ≤ n) (some_worker' : 1 ≤ n') (last : xkcd.last_id ≡ ok (pos latest))
      (up : d.outage ≡ none) (returns : Returns xkcd words numbered (pos n) false false d t)
      (returns' : Returns xkcd words numbered (pos n') false false d t') where
    -- The rows do not depend on the number of the workers, nor on their schedule.
    pub same_row : (id : ℤ) → row_of id t.0.1.rows ≡ row_of id t'.0.1.rows
    same_row (pos i) =
        (update_fills xkcd words numbered n latest d t some_worker last up returns).2 i
        ∙ sym ((update_fills xkcd words numbered n' latest d t' some_worker' last up returns').2 i)
    same_row (negsuc k) =
        negative_row xkcd words numbered (pos n) false false d t k returns
        ∙ sym (negative_row xkcd words numbered (pos n') false false d t' k returns')
