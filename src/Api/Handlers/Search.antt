-- ===== src/Api/Handlers/Search.antt =====
-- The handlers of the search and of the comics in search-services/api/adapters/rest/api.go.
use microservice_comics.Base.{
  ℤ, String, map, none, some, Result, ok, err, ◌>>=◌, ◌>>◌, map_err, reject_if, string_eq, ◌==◌,
  atoi, is_nonpositive, if◌then◌else◌,
}
use microservice_comics.Api.Model.{
  Error, bad_arguments, unavailable, SearchComic, SearchResult, Searcher,
}
use microservice_comics.Api.Http.{Request, Response, ComicResponse, Body, json, refuse}
use microservice_comics.Api.Handlers.{respond, optional_u32, nonzero_or}

-- The answer to a failed `Find`, `IndexedSearch` or `ListComics`.
unfoldable pub search_failure : Error → Response
search_failure bad_arguments = refuse "bad request" 400
search_failure unavailable = refuse "dependency unavailable" 503
search_failure _ = refuse "internal error" 500

-- The answer to a failed `GetComic`.
unfoldable pub get_comic_failure : Error → Response
get_comic_failure bad_arguments = refuse "comic not found" 404
get_comic_failure unavailable = refuse "dependency unavailable" 503
get_comic_failure _ = refuse "internal error" 500

-- The answer to a failed `RandomComic`.
unfoldable pub random_failure : Error → Response
random_failure unavailable = refuse "dependency unavailable" 503
random_failure _ = refuse "internal error" 500

abbrev pub to_response : SearchComic → ComicResponse
to_response c = record { id = c.id; url = c.url }

abbrev pub result_response : SearchResult → Response
result_response r = json (Body.search (map to_response r.comics) r.total) 200

unfoldable pub search_handler : Searcher → Request → Response
unfolding optional_u32 search_failure
search_handler search req = respond (do
  limit ← optional_u32 (req.query "limit") 0 (refuse "bad limit" 400)
  result ← map_err search_failure (search.find (req.query "phrase") limit)
  ok (result_response result))

unfoldable pub indexed_search_handler : Searcher → Request → Response
unfolding optional_u32 search_failure
indexed_search_handler search req = respond (do
  limit ← optional_u32 (req.query "limit") 0 (refuse "bad limit" 400)
  result ← map_err search_failure (search.indexed_search (req.query "phrase") limit)
  ok (result_response result))

-- `strconv.Atoi` and the check `id <= 0`.
unfoldable pub positive_id : String → Result Response ℤ
unfolding atoi
positive_id given = elim (atoi given) [
  | none ↦ err (refuse "invalid id" 400)
  | some id ↦ if is_nonpositive id then err (refuse "invalid id" 400) else ok id
]

unfoldable pub comic_by_id_handler : Searcher → Request → Response
unfolding positive_id get_comic_failure
comic_by_id_handler search req = respond (do
  reject_if (req.path_id == "") (refuse "id is required" 400)
  id ← positive_id req.path_id
  comic ← map_err get_comic_failure (search.get_comic id)
  ok (json (Body.comic (to_response comic)) 200))

unfoldable pub comics_list_handler : Searcher → Request → Response
unfolding optional_u32 search_failure
comics_list_handler search req = respond (do
  page ←
      nonzero_or (refuse "bad page" 400) (optional_u32 (req.query "page") 1 (refuse "bad page" 400))
  limit ←
      nonzero_or (refuse "bad limit" 400)
        (optional_u32 (req.query "limit") 10 (refuse "bad limit" 400))
  result ← map_err search_failure (search.list_comics page limit)
  ok (result_response result))

unfoldable pub random_comic_handler : Searcher → Response
unfolding random_failure
random_comic_handler search = respond (do
  comic ← map_err random_failure search.random_comic
  ok (json (Body.comic (to_response comic)) 200))
