-- ===== src/Gateway/Search.antt =====
-- From an HTTP request for comics to the search service and back: the handlers of
-- search-services/api over the clients, the server and the service of search-services/search.
use microservice_comics.Base.{
  string_eq, int_eq, ℕ, suc, ◌%◌, ◌^◌, ℤ, pos, String, false, List, [], ◌∷◌, filter, some, ok, err,
  map_ok, map_err, ◌>>=◌, ◌≡◌, refl, inl, inr, arith, Bool-cases, if◌then◌else◌, ◌==◌, ==→≡,
  nat_beq, ltb, to_u32, atoi, atoi-nonempty,
}
use microservice_comics.Search.Model.{
  Error, empty_phrase, to_large_limit, unavailable, bad_arguments, none_phrase, comic_not_found,
  status, failure, Db, Words,
}
use microservice_comics.Search.Index.{InvertedIndex}
use microservice_comics.Search.Service
use microservice_comics.Search.Service.{get_comic_by_id}
use microservice_comics.Search.Storage.{ComicsRow, open_db, get_by_id, first_row}
use microservice_comics.Search.Service.Pages.{answering}
use microservice_comics.Search.Server.{service, serve, to_reply, search_code, by_id_code}
use microservice_comics.Api.Model.{Searcher}
use microservice_comics.Api.Clients.Search.{searcher, search_error, get_comic_error, to_comic}
use microservice_comics.Api.Http.{Request, Response, Body, json, refuse}
use microservice_comics.Api.Handlers.{respond, optional_u32}
use microservice_comics.Api.Handlers.Search.{
  search_handler, indexed_search_handler, comic_by_id_handler, positive_id, search_failure,
  get_comic_failure, to_response,
}

-- The port of the gateway's core, with the search service at its other end.
unfoldable pub gateway : (intn : ℤ → ℤ) → Db → Words → InvertedIndex → Searcher
unfolding searcher serve service
gateway intn db words index = searcher (serve (service intn db words index))

-- The answer to an error of the search service, as a client of the gateway sees it.
abbrev pub answer_to : Error → Response
answer_to empty_phrase = refuse "bad request" 400
answer_to bad_arguments = refuse "bad request" 400
answer_to to_large_limit = refuse "bad request" 400
answer_to unavailable = refuse "dependency unavailable" 503
answer_to none_phrase = refuse "internal error" 500
answer_to comic_not_found = refuse "internal error" 500
answer_to (status c) = refuse "internal error" 500
answer_to (failure what) = refuse "internal error" 500

search_path : (e : Error) → search_failure (search_error (search_code e)) ≡ answer_to e
unfolding search_failure search_error search_code
search_path empty_phrase = refl
search_path bad_arguments = refl
search_path to_large_limit = refl
search_path unavailable = refl
search_path none_phrase = refl
search_path comic_not_found = refl
search_path (status c) = refl
search_path (failure what) = refl

module _ (intn : ℤ → ℤ) (db : Db) (words : Words) (index : InvertedIndex) (req : Request)
    (limit : ℕ) (e : Error)
    (given : optional_u32 (req.query "limit") 0 (refuse "bad limit" 400) ≡ ok limit) where
  -- An error of `Find` crosses server, client and handler, and comes out as `answer_to` says.
  pub search_handler_error :
      Service.find db words (req.query "phrase") limit ≡ err e
      → search_handler (gateway intn db words index) req ≡ answer_to e
  unfolding search_handler gateway
  search_handler_error h = rw given (rw h (search_path e))

  -- So does an error of `IndexedSearch`.
  pub indexed_search_handler_error :
      Service.indexed_search index words (req.query "phrase") limit ≡ err e
      → indexed_search_handler (gateway intn db words index) req ≡ answer_to e
  unfolding indexed_search_handler gateway
  indexed_search_handler_error h = rw given (rw h (search_path e))

-- The comic with an id, as a response.
abbrev pub comic_or_404 : List ComicsRow → Response
comic_or_404 [] = refuse "comic not found" 404
comic_or_404 (r ∷ rs) = json (Body.comic (record { id = pos (to_u32 r.id); url = r.img_url })) 200

pub positive_id_lem :
    (s : String) (n : ℕ) → atoi s ≡ some (pos (suc n)) → positive_id s ≡ ok (pos (suc n))
unfolding positive_id
positive_id_lem s n h = rw (h, positive_id) (ground arith)

-- While the database answers: a request for the comic with a positive id looks for the row whose id
-- is the low 32 bits of it. If these are from 1 to 2^31 - 1, it is answered by that row, or by 404
-- if there is none; if they are all zero, or make a number that the column cannot hold, by 500.
pub comic_by_id_response :
    (intn : ℤ → ℤ) (rows : List ComicsRow) (words : Words) (index : InvertedIndex) (req : Request)
    (n : ℕ)
    → atoi req.path_id ≡ some (pos (suc n))
    → comic_by_id_handler (gateway intn (answering rows) words index) req ≡ (
        if nat_beq (suc n % 2 ^ 32) 0
        then refuse "internal error" 500
        else if ltb (suc n % 2 ^ 32) (2 ^ 31)
        then comic_or_404 (filter (λ r. r.id == pos (suc n % 2 ^ 32)) rows)
        else refuse "internal error" 500)
unfolding comic_by_id_handler gateway get_comic_by_id open_db get_by_id get_comic_failure
    get_comic_error by_id_code
comic_by_id_response intn rows words index req n h =
    let present : (req.path_id == "") ≡ false = elim (Bool-cases (req.path_id == "")) [
      | inl e ↦ absurd (atoi-nonempty req.path_id _ h (==→≡ req.path_id "" e))
      | inr e ↦ e
    ] in
    rw present (
      rw (positive_id_lem req.path_id n h) (elim (Bool-cases (nat_beq (suc n % 2 ^ 32) 0)) [
        | inl e ↦ rw e refl
        | inr e ↦ rw e (elim (Bool-cases (ltb (suc n % 2 ^ 32) (2 ^ 31))) [
          | inl fits ↦ rw fits (found (filter (λ r. r.id == pos (suc n % 2 ^ 32)) rows))
          | inr over ↦ rw over refl
        ])
      ]))
  where
    found :
        (l : List ComicsRow)
        → respond (do
          comic ← map_err get_comic_failure (
              map_ok to_comic
                (map_err get_comic_error (map_ok to_reply (map_err by_id_code (first_row l)))))
          ok (json (Body.comic (to_response comic)) 200))
          ≡ comic_or_404 l
    found [] = refl
    found (r ∷ rs) = refl
