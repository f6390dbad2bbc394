-- ===== src/Gateway/Pages.antt =====
-- The pages of comics at the public server of search-services/api, read one after the other.
pub mod Page
use microservice_comics.Base.{
  string_eq, ℕ, zero, suc, ◌+◌, ◌-◌, ◌*◌, ◌%◌, ◌^◌, ◌<◌, ◌≤◌, ℤ, pos, String, List, [], ◌∷◌, ◌++◌,
  map, none, some, ok, ◌==◌, ==→≡, nat_beq, length, take, drop, parse_u32, to_u32, false,
  Bool-cases, inl, inr, ◌≡◌, refl, sym, ap, ap₂, ◌∙◌, arith, length-map, length-sort_by, sort_by,
  take_of_length-le,
}
use microservice_comics.Auth.Model.{Jwt}
use microservice_comics.Search.Model.{Comics, Words}
use microservice_comics.Search.Index.{InvertedIndex}
use microservice_comics.Search.Storage.{ComicsRow, to_comics, id_before}
use microservice_comics.Search.Service.{or_default, page_offset}
use microservice_comics.Search.Service.Pages.{
  answering, by_id, get_all_comics_page, page_offset_lem,
}
use microservice_comics.Search.Server.{to_search_reply}
use microservice_comics.Api.Clients.Search.{to_result}
use microservice_comics.Api.Http.{Response, ComicResponse, Body, json, refuse}
use microservice_comics.Api.Handlers.{optional_u32, nonzero_or}
use microservice_comics.Api.Handlers.Search.{comics_list_handler, result_response}
use microservice_comics.Api.Mux.{found, best_match, routed, path_value}
use microservice_comics.Api.Routes.{comics, public_routes}
use microservice_comics.Api.Server.{
  Settings, Services, Backend, Incoming, Moment, to_request, handle, serve_public, dispatched,
}
use microservice_comics.Gateway.Search.{gateway}
use microservice_comics.Gateway.Pages.Page.{
  get_page, item, with_search, shown, page_response, page_served,
}

take-append-drop :
    {A : Type 0} (m n : ℕ) (xs : List A) → take m xs ++ take n (drop m xs) ≡ take (m + n) xs
take-append-drop zero n xs = let same : n ≡ 0 + n = omega arith in ap (λ (k : ℕ). take k xs) same
take-append-drop {A} (suc m) n [] =
    take_of_length-le {A = A} n [] (omega arith)
    ∙ sym (take_of_length-le {A = A} (suc m + n) [] (omega arith))
take-append-drop (suc m) n (x ∷ xs) =
    let same : suc (m + n) ≡ suc m + n = omega arith in
    ap (◌∷◌ x) (take-append-drop m n xs) ∙ ap (λ (k : ℕ). take k (x ∷ xs)) same

-- The i-th query asks for the i-th page.
abbrev pub Asks : (ℕ → String → String) → ℕ → ℕ → Type 0
Asks queries limit last =
    (i : ℕ)
    → 1 ≤ i
    → i ≤ last
    → (parse_u32 (queries i "page") ≡ some i) × (parse_u32 (queries i "limit") ≡ some limit)

module _ {U A F : Type 0} (jwt : Jwt) (cfg : Settings) (c : Services U A F) (intn : ℤ → ℤ)
    (rows : List ComicsRow) (words : Words) (index : InvertedIndex) (m : Moment)
    (b : Backend U A F) where
  -- What the pages from the first one to a last one show, put together.
  abbrev pub visited : (ℕ → String → String) → ℕ → List ComicResponse
  visited queries zero = []
  visited queries (suc last) =
      visited queries last
      ++ shown
          (serve_public jwt cfg (with_search c intn rows words index) m
            (get_page (queries (suc last))) b).1

  visited_lem :
      (queries : ℕ → String → String) (limit last : ℕ)
      → Asks queries limit last
      → 1 ≤ limit
      → limit ≤ 100
      → last * limit < 2 ^ 32 + limit
      → length rows < 2 ^ 32
      → visited queries last ≡ take (last * limit) (map item (by_id rows))
  visited_lem queries limit zero asks l small near few =
      let none_asked : 0 ≡ 0 * limit = omega arith in
      ap (λ (n : ℕ). take n (map item (by_id rows))) none_asked
  visited_lem queries limit (suc last) asks l small near few =
      let first : 1 ≤ suc last = omega arith in
      let same : suc last ≤ suc last = omega arith in
      let start : suc last * limit ≡ last * limit + limit = grind arith in
      let before : last * limit < 2 ^ 32 + limit = omega (arith, start, near) in
      let less : suc last - 1 ≡ last = omega arith in
      let back = ap (λ (n : ℕ). n * limit) less in
      let offset : (suc last - 1) * limit < 2 ^ 32 = omega (arith, back, start, near) in
      let (asked, limited) = asks (suc last) first same in
      let page =
        page_served jwt cfg c intn rows words index m b (queries (suc last)) (suc last) limit asked
          limited first l small offset few in
      ap₂ (λ (xs ys : List ComicResponse). xs ++ ys)
        (visited_lem queries limit last (λ i low high. asks i low (omega arith)) l small before few)
        (ap (λ (t : Backend U A F × Response). shown t.1) page
          ∙ ap (λ (n : ℕ). take limit (drop n (map item (by_id rows)))) back)
      ∙ (take-append-drop (last * limit) limit (map item (by_id rows))
          ∙ ap (λ (n : ℕ). take n (map item (by_id rows))) (sym start))

  -- While the database answers and holds fewer than 2^32 comics: a reader who asks the public
  -- server for the pages of /api/comics from the first one on, with one limit from 1 to 100, until
  -- as many comics were asked for as there are, and whose last page begins before 2^32, sees the
  -- list of the table's comics, sorted by their ids. Each page is answered by 200, with its slice
  -- of that list and the number of all comics, and changes nothing.
  pub pages_cover :
      (queries : ℕ → String → String) (limit last : ℕ)
      → Asks queries limit last
      → 1 ≤ limit
      → limit ≤ 100
      → last * limit < 2 ^ 32 + limit
      → length rows < 2 ^ 32
      → length rows ≤ last * limit
      → (visited queries last ≡ map item (by_id rows))
        × ((i : ℕ)
            → 1 ≤ i
            → i ≤ last
            → serve_public jwt cfg (with_search c intn rows words index) m (get_page (queries i)) b
              ≡ (b, page_response rows i limit))
  pages_cover queries limit last asks l small near few enough = (
    visited_lem queries limit last asks l small near few
        ∙ take_of_length-le (last * limit) (map item (by_id rows)) (
            omega (
              arith,
              length-map item (by_id rows),
              length-map to_comics (sort_by id_before rows),
              length-sort_by id_before rows,
              enough,
            )),
    λ i low high.
        let (asked, limited) = asks i low high in
        let offset : (i - 1) * limit < 2 ^ 32 = grind arith in
        page_served jwt cfg c intn rows words index m b (queries i) i limit asked limited low l
          small offset few,
  )
