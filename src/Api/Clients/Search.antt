-- ===== src/Api/Clients/Search.antt =====
-- search-services/api/adapters/search/search.go: the client of the search service as the port of
-- the gateway's core.
use microservice_comics.Base.{
  ℕ, ℤ, pos, String, map, Result, map_err, map_ok, to_u32, if◌then◌else◌,
}
use microservice_comics.Base.Grpc.{Code, is_outage}
use microservice_comics.Api.Model.{
  Error, bad_arguments, unavailable, status, SearchComic, SearchResult, Searcher,
}
use microservice_comics.Search.Server.{ComicReply, SearchReply, SearchClient}

-- The `switch` of `Ping` and `RandomComic`.
unfoldable pub call_error : Code → Error
call_error c = if is_outage c then unavailable else status c

-- The `switch` of `Find`, `IndexedSearch` and `ListComics`.
unfoldable pub search_error : Code → Error
search_error Code.invalid_argument = bad_arguments
search_error c = if is_outage c then unavailable else status c

-- The `switch` of `GetComic`.
unfoldable pub get_comic_error : Code → Error
get_comic_error Code.not_found = bad_arguments
get_comic_error c = if is_outage c then unavailable else status c

abbrev pub to_comic : ComicReply → SearchComic
to_comic r = record { id = pos r.id; url = r.url }

abbrev pub to_result : SearchReply → SearchResult
to_result r = record { comics = map to_comic r.comics; total = pos r.total }

module _ (c : SearchClient) where
  unfoldable pub ping : Result Error (Unit {0})
  unfolding call_error
  ping = map_err call_error c.ping

  unfoldable pub find : String → ℕ → Result Error SearchResult
  unfolding search_error
  find phrase limit = map_ok to_result (map_err search_error (c.find phrase limit))

  unfoldable pub indexed_search : String → ℕ → Result Error SearchResult
  unfolding search_error
  indexed_search phrase limit =
      map_ok to_result (map_err search_error (c.indexed_search phrase limit))

  -- The id is sent as `uint32(id)`.
  unfoldable pub get_comic : ℤ → Result Error SearchComic
  unfolding get_comic_error
  get_comic id = map_ok to_comic (map_err get_comic_error (c.get_id_comic (to_u32 id)))

  unfoldable pub random_comic : Result Error SearchComic
  unfolding call_error
  random_comic = map_ok to_comic (map_err call_error c.get_random_comic)

  unfoldable pub list_comics : ℕ → ℕ → Result Error SearchResult
  unfolding search_error
  list_comics page limit = map_ok to_result (map_err search_error (c.get_all_comics page limit))

-- `*Client` as `core.Searcher`.
unfoldable pub searcher : SearchClient → Searcher
unfolding ping find indexed_search get_comic random_comic list_comics
searcher c = record {
  find = find c;
  indexed_search = indexed_search c;
  ping = ping c;
  get_comic = get_comic c;
  random_comic = random_comic c;
  list_comics = list_comics c;
}
