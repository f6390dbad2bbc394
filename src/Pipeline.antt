-- ===== src/Pipeline.antt =====
-- From the comics site to a response: what search-services/update writes to the table of comics is
-- what search-services/search reads.
pub mod OwnTitle
pub mod Served
pub mod Schedules
use microservice_comics.Base.{
  string_eq, int_eq, fits_int4, ltb, ℕ, suc, ◌+◌, ◌<◌, ◌≤◌, ◌%◌, ◌^◌, ℤ, pos, String, Bool, true,
  false, ◌&&◌, List, [], ◌∷◌, map, filter, Option, none, some, Result, ok, err, map_ok, ◌≡◌, ◌≢◌,
  ◌↔◌, refl, sym, ap, ◌∙◌, inl, inr, arith, Bool-cases, Elem, All, length, ◌==◌, ==→≡, ==_refl,
  nat_beq, leb, atoi, to_u32, if◌then◌else◌,
}
use microservice_comics.Update.Model
use microservice_comics.Update.Model.{XkcdInfo, Xkcd}
use microservice_comics.Update.Storage
use microservice_comics.Update.Storage.{row_of, upsert, add}
use microservice_comics.Update.Service.{fetch}
use microservice_comics.Update.Whole.{Returns, or_new, update_fills}
use microservice_comics.Update.Keys.{HasKeys, update-HasKeys}
use microservice_comics.Update.Contents.{
  row_of-upsert, added_rows, fetched, fetch_own, storable_own,
}
use microservice_comics.Search.Model.{
  Comics, Error, Words, HasDistinctIds, comic_not_found, failure,
}
use microservice_comics.Search.Storage.{
  ComicsRow, Database, to_comics, is_candidate, get_by_id, first_row,
}
use microservice_comics.Search.Index.{build, InvertedIndex}
use microservice_comics.Search.Index.Candidates.{HasAnyToken}
use microservice_comics.Search.Service.{tokens_for, or_default, find, indexed_search}
use microservice_comics.Search.Service.Exact.{searches_exactly}
use microservice_comics.Search.Service.Pages.{answering}
use microservice_comics.Api.Http.{Request, Response, Body, json, refuse}
use microservice_comics.Api.Handlers.Search.{comic_by_id_handler}
use microservice_comics.Gateway.Search.{gateway, comic_or_404, comic_by_id_response}

-- The row of the table, as each service reads it.
abbrev pub to_row : Model.Comics → ComicsRow
to_row c = record { id = c.id; img_url = c.url; title = c.title; alt = c.alt; words = c.words }

abbrev pub read : Model.Comics → Comics
read c = to_comics (to_row c)

abbrev pub table_of : Storage.Database → Database
table_of d = record { rows = map to_row d.rows; outage = d.outage }

abbrev found_or : Option Model.Comics → Result Error Comics
found_or none = err comic_not_found
found_or (some c) = ok (read c)

-- The SELECT of one service finds the row that the other means by an id.
first_row_of :
    (id : ℤ) (rows : List Model.Comics)
    → first_row (filter (λ r. r.id == id) (map to_row rows)) ≡ found_or (row_of id rows)
unfolding row_of
first_row_of id [] = refl
first_row_of id (r ∷ rs) = elim (Bool-cases (r.id == id)) [
  | inl e ↦ rw e refl
  | inr e ↦ rw e (first_row_of id rs)
]

get_by_id-row_of :
    (d : Storage.Database) (id : ℤ)
    → d.outage ≡ none
    → get_by_id (table_of d) id
      ≡ (if fits_int4 id then found_or (row_of id d.rows) else err (failure "get comic by id"))
unfolding get_by_id
get_by_id-row_of d id up = rw up (elim (Bool-cases (fits_int4 id)) [
  | inl fits ↦ rw fits (first_row_of id d.rows)
  | inr over ↦ rw over refl
])

-- While the database answers: after `Add` of the update service, the search service reads the comic
-- that was stored at its id, if the column can hold the id, and at any other id what it read before.
pub add-get_by_id :
    (d : Storage.Database) (c : Model.Comics) (id : ℤ)
    → d.outage ≡ none
    → get_by_id (table_of (add d c).0) id
      ≡ (if fits_int4 id && c.id == id then ok (read c) else get_by_id (table_of d) id)
add-get_by_id d c id up =
    let (rows, still) = added_rows d c up in
    let before = get_by_id-row_of d id up in
    get_by_id-row_of (add d c).0 id still ∙ (elim (Bool-cases (fits_int4 id)) [
      | inr over ↦ rw over (sym (before ∙ rw over refl))
      | inl fits ↦ rw fits (
          ap (λ l. found_or (row_of id l)) rows
          ∙ (stored_at fits
              ∙ ap (λ r. if c.id == id then ok (read c) else r) (sym (before ∙ rw fits refl))))
    ])
  where
    stored_at :
        fits_int4 id ≡ true
        → found_or (row_of id (if fits_int4 c.id then upsert c d.rows else d.rows))
          ≡ (if c.id == id then ok (read c) else found_or (row_of id d.rows))
    stored_at fits = elim (Bool-cases (c.id == id)) [
      | inl e ↦
          let own : fits_int4 c.id ≡ true = ap fits_int4 (==→≡ c.id id e) ∙ fits in
          rw own (ap found_or (row_of-upsert id c d.rows) ∙ rw e refl)
      | inr e ↦ rw e (elim (Bool-cases (fits_int4 c.id)) [
        | inl own ↦ rw own (ap found_or (row_of-upsert id c d.rows) ∙ rw e refl)
        | inr over ↦ rw over refl
      ])
    ]

-- The response that shows a comic.
abbrev pub comic_response : Option Model.Comics → Response
comic_response none = refuse "comic not found" 404
comic_response (some c) = json (Body.comic (record { id = pos (to_u32 c.id); url = c.url })) 200

comic_or_404-row_of :
    (id : ℤ) (rows : List Model.Comics)
    → comic_or_404 (filter (λ r. r.id == id) (map to_row rows)) ≡ comic_response (row_of id rows)
unfolding row_of
comic_or_404-row_of id [] = refl
comic_or_404-row_of id (r ∷ rs) = elim (Bool-cases (r.id == id)) [
  | inl e ↦ rw e refl
  | inr e ↦ rw e (comic_or_404-row_of id rs)
]

row_of-Elem :
    (id : ℤ) (c : Model.Comics) (rows : List Model.Comics)
    → row_of id rows ≡ some c
    → Elem (read c) (map to_comics (map to_row rows))
unfolding row_of
row_of-Elem id c [] h = absurd (cc h)
row_of-Elem id c (r ∷ rs) h = elim (Bool-cases (r.id == id)) [
  | inl e ↦ inl (ap read (let same : r ≡ c = cc (rw e at h) in sym same))
  | inr e ↦ inr (row_of-Elem id c rs (rw e at h))
]

keys_apart :
    (k : ℤ) (rows : List Model.Comics)
    → All (λ (d : Model.Comics). k ≢ d.id) rows
    → All (λ (d : Comics). k ≢ d.id) (map to_comics (map to_row rows))
keys_apart k [] h = tt
keys_apart k (r ∷ rs) h = (h.0, keys_apart k rs h.1)

pub HasKeys-HasDistinctIds :
    (rows : List Model.Comics) → HasKeys rows → HasDistinctIds (map to_comics (map to_row rows))
HasKeys-HasDistinctIds [] h = tt
HasKeys-HasDistinctIds (r ∷ rs) h = (keys_apart r.id rs h.0, HasKeys-HasDistinctIds rs h.1)

module _ (xkcd : Xkcd) (stem : Model.Words)
    (numbered : (id : ℤ) (info : XkcdInfo) → xkcd.get id ≡ ok info → info.id ≡ id) (n latest : ℕ)
    (d : Storage.Database) (t : (Bool × Storage.Database) × Result Model.Error (Unit {0}))
    (some_worker : 1 ≤ n) (last : xkcd.last_id ≡ ok (pos latest)) (up : d.outage ≡ none)
    (returns : Returns xkcd stem numbered (pos n) false false d t) (k : ℕ)
    (listed : suc k ≤ latest) where
  abbrev pub stored : Option Model.Comics
  stored = or_new (row_of (pos (suc k)) d.rows) (fetched xkcd stem (pos (suc k)))

  stored_row : row_of (pos (suc k)) t.0.1.rows ≡ stored
  stored_row =
      let (reply, free, rows) =
        update_fills xkcd stem numbered n latest d t some_worker last up returns in
      let inside : (leb 1 (suc k) && leb (suc k) latest) ≡ true = ground arith in
      rows (suc k) ∙ rw inside refl

  -- Let the site give, for each number it answers, the comic of that number. After a call of
  -- `Update` with at least one worker that finds the flag free, the last number and the database,
  -- and is not cancelled, a request to the gateway for a number from 1 to the last one, below 2^31,
  -- is answered by the comic that was in the table, and else by what one fetch of it stores, or by
  -- 404 if that stores nothing.
  pub update_response :
      (intn : ℤ → ℤ) (words : Words) (index : InvertedIndex) (req : Request)
      → atoi req.path_id ≡ some (pos (suc k))
      → suc k < 2 ^ 31
      → comic_by_id_handler (gateway intn (answering (map to_row t.0.1.rows)) words index) req
        ≡ comic_response (or_new (row_of (pos (suc k)) d.rows) (fetch xkcd stem (pos (suc k))))
  update_response intn words index req given small =
      let low : suc k % 2 ^ 32 ≡ suc k = omega arith in
      let nonzero : nat_beq (suc k) 0 ≡ false = ground arith in
      let fits : ltb (suc k) (2 ^ 31) ≡ true = ground arith in
      let whole : fetched xkcd stem (pos (suc k)) ≡ fetch xkcd stem (pos (suc k)) =
        storable_own (fetch xkcd stem (pos (suc k))) (pos (suc k)) fits
          (fetch_own xkcd stem numbered (pos (suc k))) in
      comic_by_id_response intn (map to_row t.0.1.rows) words index req k given
      ∙ (rw low (
            rw nonzero (
              rw fits
                (comic_or_404-row_of (pos (suc k)) t.0.1.rows ∙ ap comic_response stored_row)))
          ∙ ap (λ o. comic_response (or_new (row_of (pos (suc k)) d.rows) o)) whole)

  -- In the same situation, let the ids of the table be distinct before. A phrase that shares a
  -- non-empty token with what the fetch of a missing number has stored finds it, in the database and
  -- in an index of the table, if no more comics than the limit share a token with the phrase.
  pub update_search :
      (c : Model.Comics) (words : Words) (phrase : String) (limit : ℕ) (tokens : List String)
      → HasKeys d.rows
      → stored ≡ some c
      → tokens_for words phrase limit ≡ ok tokens
      → HasAnyToken (read c) tokens
      → length (filter (is_candidate tokens) (map to_row t.0.1.rows)) ≤ or_default limit
      → (cs : List Comics) × (find (answering (map to_row t.0.1.rows)) words phrase limit ≡ ok cs)
        × (map_ok
              (λ (r : List Comics × ℕ). r.0)
              (indexed_search (build (map to_comics (map to_row t.0.1.rows))) words phrase limit)
            ≡ ok cs)
        × Elem (read c) cs
  update_search c words phrase limit tokens keys here given token few =
      let after = update-HasKeys xkcd stem numbered (pos n) false false d t returns keys in
      let (cs, found, indexed, same) =
        searches_exactly (map to_row t.0.1.rows) (HasKeys-HasDistinctIds t.0.1.rows after) words
          phrase limit tokens given few in
      let listed = row_of-Elem (pos (suc k)) c t.0.1.rows (stored_row ∙ here) in
      (cs, found, indexed, (same (read c)).1 (listed, token))
