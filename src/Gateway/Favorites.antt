-- ===== src/Gateway/Favorites.antt =====
-- From an HTTP request to add a favorite to the tables of both services and back: the handler of
-- search-services/api over the clients, the servers and the storages of search and favorites.
use microservice_comics.Base.{
  ltb, nat_eq, int_eq, ℕ, suc, ◌%◌, ◌^◌, ◌<◌, ◌≤◌, ℤ, pos, true, false, ◌||◌, List, ◌∷◌, filter,
  none, some, Result, ok, ◌>>=◌, map_err, ◌≡◌, refl, ap, ◌∙◌, inl, inr, arith, Bool-cases,
  if◌then◌else◌, ◌==◌, nat_beq, to_i32, atoi,
}
use microservice_comics.Search.Model.{Words}
use microservice_comics.Search.Index.{InvertedIndex}
use microservice_comics.Search.Storage.{ComicsRow, to_comics, open_db, get_by_id}
use microservice_comics.Search.Service.{get_comic_by_id}
use microservice_comics.Search.Service.Pages.{answering}
use microservice_comics.Search.Server.{by_id_code, to_reply}
use microservice_comics.Favorites.Model.{Error}
use microservice_comics.Favorites.Storage.{Database, storage}
use microservice_comics.Favorites.Service.{serve, add, add_code}
use microservice_comics.Favorites.Rows.{Pairs, bad_pair, contains, is_pair, add_refines}
use microservice_comics.Api.Model.{Favorites, SearchComic}
use microservice_comics.Api.Clients.Search.{get_comic_error, to_comic}
use microservice_comics.Api.Clients.Favorites.{favorites, add_error}
use microservice_comics.Api.Http.{Request, Response, refuse, bare}
use microservice_comics.Api.Handlers.{respond}
use microservice_comics.Api.Handlers.Favorites.{favorites_add_handler, known_user, add_failure}
use microservice_comics.Gateway.Search.{gateway, positive_id_lem}

-- The port of the gateway's core, with the favorites service at its other end.
unfoldable pub favorites_gateway : Favorites Database
unfolding favorites serve
favorites_gateway = favorites (serve storage)

pub known : (user : ℕ) → 1 ≤ user → known_user (some user) ≡ ok user
unfolding known_user
known user h = ground arith

pub low_bits : (n : ℕ) → suc n < 2 ^ 31 → to_i32 (pos (suc n)) ≡ pos (suc n)
low_bits n h = let same : suc n % 2 ^ 32 ≡ suc n = omega arith in rw same (ground arith)

-- What the handler makes of the reply of the service.
abbrev pub answer_of : Result Error (Unit {0}) → Response
answer_of r =
    respond (do done ← map_err add_failure (map_err add_error (map_err add_code r)); ok (bare 204))

equal_parts : (user : ℕ) (k : ℤ) (u : ℕ) (c : ℤ) → is_pair user k u c ≡ true → (user ≡ u) × (k ≡ c)
equal_parts user k u c h = ground arith

-- Adding a pair that is there changes no pair.
old_pair :
    (f : Pairs) (user : ℕ) (k : ℤ) (u : ℕ) (c : ℤ)
    → f user k ≡ true
    → f u c ≡ (f u c || is_pair user k u c)
old_pair f user k u c h = elim (Bool-cases (is_pair user k u c)) [
  | inl e ↦
      let (a, b) = equal_parts user k u c e in
      let here : f u c ≡ true = rw (← a, ← b) h in ground (arith, here, e)
  | inr e ↦ ground (arith, e)
]

added :
    (d : Database) (user n : ℕ)
    → 1 ≤ user
    → d.outage ≡ none
    → (answer_of (add storage d user (pos (suc n))).1
        ≡ (if contains d user (pos (suc n)) then refuse "already exists" 409 else bare 204))
      × ((u : ℕ) (c : ℤ)
          → contains (add storage d user (pos (suc n))).0 u c
            ≡ (contains d u c || is_pair user (pos (suc n)) u c))
unfolding add_failure add_error add_code
added d user n h up =
    let (reply, pairs) = add_refines d user (pos (suc n)) up in
    let fine : bad_pair user (pos (suc n)) ≡ false = ground arith in
    elim (Bool-cases (contains d user (pos (suc n)))) [
      | inl old ↦ (
        rw reply (rw fine (rw old refl)),
        λ u c. pairs u c ∙ rw fine (rw old (old_pair (contains d) user (pos (suc n)) u c old)),
      )
      | inr new ↦ (rw reply (rw fine (rw new refl)), λ u c. pairs u c ∙ rw fine (rw new refl))
    ]

module _ (intn : ℤ → ℤ) (rows : List ComicsRow) (words : Words) (index : InvertedIndex) where
  found_comic :
      (n : ℕ) (r : ComicsRow) (rs : List ComicsRow)
      → suc n < 2 ^ 31
      → filter (λ r. r.id == pos (suc n)) rows ≡ r ∷ rs
      → (c : SearchComic) × ((gateway intn (answering rows) words index).get_comic (pos (suc n))
          ≡ ok c)
  unfolding gateway get_comic_by_id open_db get_by_id get_comic_error by_id_code
  found_comic n r rs h found =
      let same : suc n % 2 ^ 32 ≡ suc n = omega arith in
      let nonzero : nat_beq (suc n) 0 ≡ false = ground arith in
      let fits : ltb (suc n) (2 ^ 31) ≡ true = ground arith in
      (to_comic (to_reply (to_comics r)), rw same (rw fits (rw found (rw nonzero refl))))

  module _ (user n : ℕ) (req : Request) (d : Database) (known_user : 1 ≤ user)
      (small : suc n < 2 ^ 31) (given : atoi req.path_id ≡ some (pos (suc n)))
      (up : d.outage ≡ none) where
    pub favorites_add_handled :
        (r : ComicsRow) (rs : List ComicsRow)
        → filter (λ r. r.id == pos (suc n)) rows ≡ r ∷ rs
        → favorites_add_handler favorites_gateway
            (gateway intn (answering rows) words index)
            (some user)
            req
            d
          ≡ ((add storage d user (pos (suc n))).0, answer_of (add storage d user (pos (suc n))).1)
    unfolding favorites_add_handler favorites_gateway
    favorites_add_handled r rs found =
        let (c, answer) = found_comic n r rs small found in
        rw (known user known_user)
          (rw (positive_id_lem req.path_id n given) (rw answer (rw (low_bits n small) refl)))

    -- A known user asks for a comic with a number below 2^31 that the search service has, while
    -- both databases answer: the pair is stored with the number that was asked for, no other pair
    -- changes, and the response says whether it was there before.
    pub favorites_add_response :
        (r : ComicsRow) (rs : List ComicsRow)
        → filter (λ r. r.id == pos (suc n)) rows ≡ r ∷ rs
        → let t =
            favorites_add_handler favorites_gateway
              (gateway intn (answering rows) words index)
              (some user)
              req
              d in
          (t.1 ≡ (if contains d user (pos (suc n)) then refuse "already exists" 409 else bare 204))
          × ((u : ℕ) (c : ℤ)
              → contains t.0 u c ≡ (contains d u c || is_pair user (pos (suc n)) u c))
    favorites_add_response r rs found =
        let handled = favorites_add_handled r rs found in
        let (reply, pairs) = added d user n known_user up in
        (ap (λ t. t.1) handled ∙ reply, λ u c. ap (λ t. contains t.0 u c) handled ∙ pairs u c)
