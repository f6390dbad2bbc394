-- ===== src/Search/Service/Pages.antt =====
-- `GetAllComics` and `RandomComic` over the storage.
use microservice_comics.Base.{
  ℕ, zero, suc, ◌+◌, ◌-◌, ◌*◌, ◌%◌, ◌^◌, ◌<◌, ◌≤◌, ℤ, pos, false, List, [], ◌∷◌, map, none, Result,
  ok, ◌≡◌, inl, inr, refl, sym, ap, ◌∙◌, arith, Bool-cases, length, take, drop, nat_beq, ltb,
  sort_by, length-sort_by, length-map,
}
use microservice_comics.Search.Model.{Comics, Error, Db}
use microservice_comics.Search.Service.{
  get_all_comics, random_comic, page_offset, or_default, or_first,
}
use microservice_comics.Search.Storage.{ComicsRow, to_comics, id_before, open_db, get_all, count}

-- The table of a database that answers.
abbrev pub answering : List ComicsRow → Db
answering rows = open_db (record { rows = rows; outage = none })

-- The comics by rising id.
abbrev pub by_id : List ComicsRow → List Comics
by_id rows = map to_comics (sort_by id_before rows)

map-take {ℓ} : {A B : Type ℓ} (f : A → B) (n : ℕ) (l : List A) → map f (take n l) ≡ take n (map f l)
map-take f zero l = refl
map-take f (suc n) [] = refl
map-take f (suc n) (x ∷ l) = ap (◌∷◌ (f x)) (map-take f n l)

map-drop {ℓ} : {A B : Type ℓ} (f : A → B) (n : ℕ) (l : List A) → map f (drop n l) ≡ drop n (map f l)
map-drop f zero l = refl
map-drop f (suc n) [] = refl
map-drop f (suc n) (x ∷ l) = map-drop f n l

drop_of_length-le {ℓ} : {A : Type ℓ} (n : ℕ) (l : List A) → length l ≤ n → drop n l ≡ []
drop_of_length-le zero [] h = refl
drop_of_length-le zero (x ∷ l) h = absurd (omega arith)
drop_of_length-le (suc n) [] h = refl
drop_of_length-le (suc n) (x ∷ l) h = drop_of_length-le n l (omega arith)

take-nil {ℓ} : (A : Type ℓ) (n : ℕ) → take {A = A} n [] ≡ []
take-nil A zero = refl
take-nil A (suc n) = refl

abbrev reply : List Comics → ℕ → Result Error (List Comics × ℕ)
reply cs total = ok (cs, total)

slice_inside :
    (rows : List ComicsRow) (limit offset : ℕ)
    → map to_comics (take limit (drop offset (sort_by id_before rows)))
      ≡ take limit (drop offset (by_id rows))
slice_inside rows limit offset =
    map-take to_comics limit (drop offset (sort_by id_before rows))
    ∙ ap (take limit) (map-drop to_comics offset (sort_by id_before rows))

slice_past :
    (rows : List ComicsRow) (limit offset : ℕ)
    → length rows ≤ offset
    → take limit (drop offset (by_id rows)) ≡ []
slice_past rows limit offset h =
    ap (take limit) (
      drop_of_length-le offset (by_id rows) (
        omega
          (arith, length-map to_comics (sort_by id_before rows), length-sort_by id_before rows)))
    ∙ take-nil Comics limit

-- On a database that answers, and with a limit of at most 100, a page is a slice of the comics by
-- rising id, also past the end, where it is empty; with it comes the number of all comics, in 32
-- bits.
pub get_all_comics_page :
    (rows : List ComicsRow) (page limit : ℕ)
    → or_default limit ≤ 100
    → get_all_comics (answering rows) page limit
      ≡ ok (
        take (or_default limit) (drop (page_offset page limit) (by_id rows)),
        length rows % 2 ^ 32,
      )
unfolding get_all_comics open_db get_all count
get_all_comics_page rows page limit h =
    let fits : ltb 100 (or_default limit) ≡ false = ground arith in
    let offset = page_offset page limit in
    rw fits (elim (Bool-cases (ltb offset (length rows))) [
      | inl e ↦ rw e (
          ap (λ (cs : List Comics). reply cs (length rows % 2 ^ 32))
            (slice_inside rows (or_default limit) offset))
      | inr e ↦ rw e (
          ap (λ (cs : List Comics). reply cs (length rows % 2 ^ 32))
            (sym (slice_past rows (or_default limit) offset (ground arith))))
    ])

pub page_offset_lem :
    (page limit : ℕ) → 1 ≤ page → page_offset page limit ≡ (page - 1) * or_default limit % 2 ^ 32
page_offset_lem (suc page) limit h =
    ap (λ (p : ℕ). (p - 1) * or_default limit % 2 ^ 32) (or_first_lem page)
  where
    or_first_lem : (p : ℕ) → or_first (suc p) ≡ suc p
    or_first_lem p = ground arith
page_offset_lem zero limit h = absurd (omega arith)

-- The offset is computed in 32 bits. With a limit from 1 to 100 and a table that answers: where
-- the limit times the pages before passes 2^32, the page shows the comics from the offset on that is
-- left modulo 2^32, with the number of all comics in 32 bits, however far past the end the page is.
pub get_all_comics_wraps :
    (rows : List ComicsRow) (page limit offset k : ℕ)
    → 1 ≤ page
    → page < 2 ^ 32
    → 1 ≤ limit
    → limit ≤ 100
    → offset < 2 ^ 32
    → (page - 1) * limit ≡ offset + k * 2 ^ 32
    → get_all_comics (answering rows) page limit
      ≡ ok (take limit (drop offset (by_id rows)), length rows % 2 ^ 32)
get_all_comics_wraps rows page limit offset k p page_fits l small low e =
    let given : or_default limit ≡ limit = ground arith in
    let allowed : or_default limit ≤ 100 = omega (arith, given) in
    let wrapped : (offset + k * 2 ^ 32) % 2 ^ 32 ≡ offset = omega arith in
    let start : page_offset page limit ≡ offset =
      page_offset_lem page limit p
      ∙ (ap (λ (n : ℕ). (page - 1) * n % 2 ^ 32) given
          ∙ (ap (λ (n : ℕ). n % 2 ^ 32) e ∙ wrapped)) in
    get_all_comics_page rows page limit allowed
    ∙ (ap
          (λ (n : ℕ).
            reply (take n (drop (page_offset page limit) (by_id rows))) (length rows % 2 ^ 32))
          given
        ∙ ap (λ (n : ℕ). reply (take limit (drop n (by_id rows))) (length rows % 2 ^ 32)) start)

one_of {ℓ} :
    {A : Type ℓ} (n : ℕ) (l : List A) → n < length l → (a : A) × (take 1 (drop n l) ≡ a ∷ [])
one_of n [] h = elim h [ ]
one_of zero (x ∷ l) h = (x, refl)
one_of (suc n) (x ∷ l) h = one_of n l (omega arith)

-- On a table with comics, and a generator that keeps within its bound, the random comic is the
-- one that the generator picks by its place in the order of the ids.
pub random_comic_listed :
    (rows : List ComicsRow) (intn : ℤ → ℤ) (n : ℕ)
    → intn (pos (length rows)) ≡ pos n
    → n < length rows
    → (c : Comics) × (random_comic intn (answering rows) ≡ ok c)
      × (take 1 (drop n (by_id rows)) ≡ c ∷ [])
unfolding random_comic open_db get_all count
random_comic_listed rows intn n e h =
    let sorted_length : length (by_id rows) ≡ length rows =
      length-map to_comics (sort_by id_before rows) ∙ length-sort_by id_before rows in
    let (c, here) = one_of n (by_id rows) (omega (arith, sorted_length)) in
    let filled : nat_beq (length rows) 0 ≡ false = ground arith in
    (c, rw filled (rw e (rw (slice_inside rows 1 n ∙ here) refl)), here)
