-- ===== src/Gateway/Pages/Page.antt =====
-- One page of comics at the public server of search-services/api: the route, the handler, the
-- client, the server, the service and the table of search-services/search.
use microservice_comics.Base.{
  string_eq, ℕ, zero, suc, ◌-◌, ◌*◌, ◌%◌, ◌^◌, ◌<◌, ◌≤◌, ℤ, pos, String, List, [], ◌∷◌, map, none,
  some, ok, ◌==◌, ==→≡, nat_beq, length, take, drop, parse_u32, to_u32, false, Bool-cases, inl, inr,
  ◌≡◌, refl, ap, ◌∙◌, arith,
}
use microservice_comics.Auth.Model.{Jwt}
use microservice_comics.Search.Model.{Comics, Words}
use microservice_comics.Search.Index.{InvertedIndex}
use microservice_comics.Search.Storage.{ComicsRow}
use microservice_comics.Search.Service.{or_default, page_offset}
use microservice_comics.Search.Service.Pages.{
  answering, by_id, get_all_comics_page, page_offset_lem,
}
use microservice_comics.Search.Server.{to_search_reply}
use microservice_comics.Api.Clients.Search.{to_result}
use microservice_comics.Api.Http.{Response, ComicResponse, Body, json, refuse}
use microservice_comics.Api.Handlers.{optional_u32, nonzero_or}
use microservice_comics.Api.Handlers.Search.{comics_list_handler, result_response}
use microservice_comics.Api.Mux.{found, best_match, routed, path_value}
use microservice_comics.Api.Routes.{comics, public_routes}
use microservice_comics.Api.Server.{
  Settings, Services, Backend, Incoming, Moment, to_request, handle, serve_public, dispatched,
}
use microservice_comics.Gateway.Search.{gateway}

-- A GET of /api/comics with query parameters.
abbrev pub get_page : (String → String) → Incoming
get_page query = record {
  method = "GET";
  path = "api" ∷ "comics" ∷ [];
  authorization = "";
  query = query;
  login = none;
  credentials = none;
  telegram = none;
}

comics_routed : routed public_routes "GET" ("api" ∷ "comics" ∷ []) ≡ found comics ""
unfolding public_routes best_match path_value
comics_routed = refl

no_number : parse_u32 "" ≡ none
unfolding parse_u32
no_number = refl

-- A number that is given and not zero passes the checks of the handler.
number_given :
    (given : String) (n default : ℕ) (bad bad' : Response)
    → parse_u32 given ≡ some n
    → 1 ≤ n
    → nonzero_or bad' (optional_u32 given default bad) ≡ ok n
unfolding optional_u32
number_given given n default bad bad' parsed positive = elim (Bool-cases (given == "")) [
  | inl e ↦ absurd (cc (no_number, rw (==→≡ given "" e) at parsed))
  | inr e ↦ let nonzero : nat_beq n 0 ≡ false = ground arith in rw e (rw parsed (rw nonzero refl))
]

-- The comic in a response.
abbrev pub item : Comics → ComicResponse
item c = record { id = pos (to_u32 c.id); url = c.url }

module _ {A B C D : Type 0} where
  map_thrice :
      (f : A → B) (g : B → C) (h : C → D) (xs : List A)
      → map h (map g (map f xs)) ≡ map (λ x. h (g (f x))) xs
  map_thrice f g h [] = refl
  map_thrice f g h (x ∷ xs) = ap (◌∷◌ (h (g (f x)))) (map_thrice f g h xs)

map-slice :
    {A B : Type 0} (f : A → B) (n m : ℕ) (xs : List A)
    → map f (take n (drop m xs)) ≡ take n (drop m (map f xs))
map-slice f zero zero xs = refl
map-slice f (suc n) zero [] = refl
map-slice f (suc n) zero (x ∷ xs) = ap (◌∷◌ (f x)) (map-slice f n zero xs)
map-slice f n (suc m) (x ∷ xs) = map-slice f n m xs
map-slice f zero (suc m) [] = refl
map-slice f (suc n) (suc m) [] = refl

-- The comics in a response.
abbrev pub shown : Response → List ComicResponse
shown r = elim r.body [ Body.search cs total ↦ cs | _ ↦ [] ]

-- The clients, with the search service at the other end of its one.
abbrev pub with_search :
    {U A F : Type 0}
    → Services U A F
    → (ℤ → ℤ)
    → List ComicsRow
    → Words
    → InvertedIndex
    → Services U A F
with_search c intn rows words index = record c {
  search = gateway intn (answering rows) words index;
}

module _ (rows : List ComicsRow) where
  -- What the page shows, and the number of all comics.
  abbrev pub page_response : ℕ → ℕ → Response
  page_response page limit =
      json
        (Body.search (take limit (drop ((page - 1) * limit) (map item (by_id rows))))
          (pos (length rows)))
        200

  -- A slice of the comics on its way from the service to the response.
  abbrev sliced : (limit offset total : ℕ) → Response
  sliced limit offset total =
      result_response (to_result (to_search_reply (take limit (drop offset (by_id rows)), total)))

  listing_response :
      (page limit : ℕ)
      → 1 ≤ page
      → 1 ≤ limit
      → limit ≤ 100
      → (page - 1) * limit < 2 ^ 32
      → length rows < 2 ^ 32
      → sliced (or_default limit) (page_offset page limit) (length rows % 2 ^ 32)
        ≡ page_response page limit
  listing_response page limit p l small near few =
      let full : or_default limit ≡ limit = ground arith in
      let start : page_offset page limit ≡ (page - 1) * limit =
        page_offset_lem page limit p ∙ rw full (omega arith) in
      let count : length rows % 2 ^ 32 ≡ length rows = omega arith in
      let offset = (page - 1) * limit in
      ap (λ (n : ℕ). sliced n (page_offset page limit) (length rows % 2 ^ 32)) full
      ∙ (ap (λ (n : ℕ). sliced limit n (length rows % 2 ^ 32)) start
          ∙ (ap (λ (n : ℕ). sliced limit offset n) count
              ∙ ap (λ (cs : List ComicResponse). json (Body.search cs (pos (length rows))) 200)
                  (map_thrice _ _ _ (take limit (drop offset (by_id rows)))
                    ∙ map-slice item limit offset (by_id rows))))

module _ (intn : ℤ → ℤ) (rows : List ComicsRow) (words : Words) (index : InvertedIndex) where
  page_handled :
      (query : String → String) (page limit : ℕ)
      → parse_u32 (query "page") ≡ some page
      → parse_u32 (query "limit") ≡ some limit
      → 1 ≤ page
      → 1 ≤ limit
      → limit ≤ 100
      → (page - 1) * limit < 2 ^ 32
      → length rows < 2 ^ 32
      → comics_list_handler
          (gateway intn (answering rows) words index)
          (to_request (get_page query) "")
        ≡ page_response rows page limit
  unfolding comics_list_handler gateway
  page_handled query page limit asked limited p l small near few =
      let allowed : or_default limit ≤ 100 = ground arith in
      rw
        (number_given (query "page") page 1 (refuse "bad page" 400) (refuse "bad page" 400) asked p)
        (rw
          (number_given (query "limit") limit 10 (refuse "bad limit" 400) (refuse "bad limit" 400)
            limited l)
          (rw (get_all_comics_page rows page limit allowed)
            (listing_response rows page limit p l small near few)))

module _ {U A F : Type 0} (jwt : Jwt) (cfg : Settings) (c : Services U A F) (intn : ℤ → ℤ)
    (rows : List ComicsRow) (words : Words) (index : InvertedIndex) (m : Moment)
    (b : Backend U A F) where
  -- One page, from the request to the response.
  pub page_served :
      (query : String → String) (page limit : ℕ)
      → parse_u32 (query "page") ≡ some page
      → parse_u32 (query "limit") ≡ some limit
      → 1 ≤ page
      → 1 ≤ limit
      → limit ≤ 100
      → (page - 1) * limit < 2 ^ 32
      → length rows < 2 ^ 32
      → serve_public jwt cfg (with_search c intn rows words index) m (get_page query) b
        ≡ (b, page_response rows page limit)
  unfolding serve_public handle
  page_served query page limit asked limited p l small near few =
      ap (λ r. dispatched jwt cfg (with_search c intn rows words index) m (get_page query) r b)
        comics_routed
      ∙ ap (λ r. (b, r))
          (page_handled intn rows words index query page limit asked limited p l small near few)
