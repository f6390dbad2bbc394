-- ===== src/Update/Xkcd/Site.antt =====
-- A site that keeps its contract, and an update from it.
use Prim.Native.Char.{code}
use Prim.Native.String.{◌++◌}
use microservice_comics.Base.{
  string_eq, ◌==◌, ℕ, zero, suc, ◌≤◌, ℤ, pos, negsuc, String, Bool, false, not, ◌&&◌, none, Result,
  ok, err, err_ok, ok_injective, >>=-eq-ok, reject_if, nat_beq, leb, format_int, is_nonpositive,
  map_ok, ◌≡◌, refl, sym, ap, ◌∙◌, inl, inr, Bool-cases, if◌then◌else◌,
}
use microservice_comics.Update.Model.{Error, XkcdInfo, Words}
use microservice_comics.Update.Storage.{Database, row_of}
use microservice_comics.Update.Contents.{fetched}
use microservice_comics.Update.Whole.{Returns, or_new, update_fills}
use microservice_comics.Update.Xkcd.{
  trim_slash, with_scheme, trim_slashes, new_client, Res, HttpReply, to_info, info_or_status, get,
  last_id, xkcd,
}

abbrev pub ends_in_slash : String → Bool
ends_in_slash String.[] = false
ends_in_slash (String.◌∷◌ c String.[]) = nat_beq (code c) b'/'
ends_in_slash (String.◌∷◌ c (String.◌∷◌ d s)) = ends_in_slash (String.◌∷◌ d s)

trim_slashes-ends : (s : String) → ends_in_slash (trim_slashes s) ≡ false
unfolding trim_slashes
trim_slashes-ends String.[] = refl
trim_slashes-ends (String.◌∷◌ c s) = at_end (trim_slashes s) (trim_slashes-ends s)
  where
    at_end : (t : String) → ends_in_slash t ≡ false → ends_in_slash (trim_slash c t) ≡ false
    at_end String.[] h = elim (Bool-cases (nat_beq (code c) b'/')) [
      | inl e ↦ rw e refl
      | inr e ↦ rw e e
    ]
    at_end (String.◌∷◌ d t) h = h

-- The base URL of a client ends in no slash, so the one that a request adds is not doubled.
pub base_url : (url u : String) → new_client url ≡ ok u → ends_in_slash u ≡ false
unfolding new_client
base_url url u h = elim (Bool-cases (url == "")) [
  | inl e ↦ absurd (err_ok (rw e at h))
  | inr e ↦ ap ends_in_slash (sym (ok_injective (rw e at h))) ∙ trim_slashes-ends (with_scheme url)
]

-- Each comic of the site carries the number that it is asked for by.
abbrev pub IsNumbered : (String → Result Error HttpReply) → String → Type 0
IsNumbered site url =
    (id : ℤ) (r : HttpReply) (x : Res)
    → site (url ++ ("/" ++ (format_int id ++ "/info.0.json"))) ≡ ok r
    → r.body ≡ ok x
    → x.num ≡ id

module _ (site : String → Result Error HttpReply) (url : String) (law : IsNumbered site url) where
  numbered_body :
      (b : Result Error Res) (info : XkcdInfo)
      → map_ok to_info b ≡ ok info
      → (x : Res) × (b ≡ ok x) × (info ≡ to_info x)
  numbered_body (ok x) info h = (x, refl, sym (ok_injective h))
  numbered_body (err e) info h = absurd (err_ok h)

  info_num :
      (r : HttpReply) (info : XkcdInfo)
      → info_or_status r ≡ ok info
      → (x : Res) × (r.body ≡ ok x) × (info ≡ to_info x)
  info_num r info h = elim (Bool-cases (nat_beq r.status_code 200)) [
    | inl e ↦ numbered_body r.body info (rw e at h)
    | inr e ↦ elim (Bool-cases (nat_beq r.status_code 404)) [
      | inl f ↦ absurd (err_ok (rw f at (rw e at h)))
      | inr f ↦ absurd (err_ok (rw f at (rw e at h)))
    ]
  ]

  pub numbered : (id : ℤ) (info : XkcdInfo) → (xkcd site url).get id ≡ ok info → info.id ≡ id
  unfolding xkcd get
  numbered id info h =
      let (r, asked, rest) = >>=-eq-ok (site _) _ h in
      let (x, decoded, same) = info_num r info rest in
      ap (λ (i : XkcdInfo). i.id) same ∙ law id r x asked decoded

  last_id_positive : (z : ℤ) → (xkcd site url).last_id ≡ ok z → (n : ℕ) × (z ≡ pos (suc n))
  unfolding xkcd last_id
  last_id_positive z h =
      let (r, asked, rest) = >>=-eq-ok (site _) _ h in
      let (u, fine, more) = >>=-eq-ok (reject_if (not (nat_beq r.status_code 200)) _) _ rest in
      let (x, decoded, last) = >>=-eq-ok r.body _ more in
      let (v, positive, same) = >>=-eq-ok (reject_if (is_nonpositive x.num) _) _ last in
      let (n, e) = suc_of x.num _ v positive in (n, sym (ok_injective same) ∙ e)
    where
      suc_of :
          (z : ℤ) (e : Error) (u : Unit {0})
          → reject_if (is_nonpositive z) e ≡ ok u
          → (n : ℕ) × (z ≡ pos (suc n))
      suc_of (pos zero) e u h = absurd (err_ok h)
      suc_of (pos (suc n)) e u h = (n, refl)
      suc_of (negsuc n) e u h = absurd (err_ok h)

  -- Let the site answer each number with a comic of that number. A call of `Update` over the HTTP
  -- client with at least one worker, a free flag, a known last number and a database that answers,
  -- that is not cancelled, succeeds. The last number is positive, and afterwards each number up to
  -- it has its old row if it had one, and else what one fetch over HTTP gives, if the column can hold
  -- the number; no other row changes.
  pub update_site :
      (words : Words) (n : ℕ) (latest : ℤ) (d : Database)
      (t : (Bool × Database) × Result Error (Unit {0}))
      → 1 ≤ n
      → (xkcd site url).last_id ≡ ok latest
      → d.outage ≡ none
      → Returns (xkcd site url) words numbered (pos n) false false d t
      → (t.1 ≡ ok tt)
        × ((m : ℕ) × (latest ≡ pos (suc m))
            × ((i : ℕ)
                → row_of (pos i) t.0.1.rows ≡ (
                    if leb 1 i && leb i (suc m)
                    then or_new (row_of (pos i) d.rows) (fetched (xkcd site url) words (pos i))
                    else row_of (pos i) d.rows)))
  update_site words n latest d t h last up returns =
      let (m, positive) = last_id_positive latest last in
      let (reply, free, rows) =
        update_fills (xkcd site url) words numbered n (suc m) d t h (last ∙ ap ok positive) up
          returns in
      (reply, (m, positive, rows))
