-- ===== src/Search/Server.antt =====
-- search-services/search/adapters/grpc/server.go: the service over gRPC. A message is a record;
-- the ids of the replies are uint32.
use microservice_comics.Base.{ℕ, ℤ, pos, String, List, map, Result, map_err, map_ok, to_u32}
use microservice_comics.Base.Grpc.{Code, unavailable, invalid_argument, not_found, internal}
use microservice_comics.Search.Model.{
  Comics, Error, empty_phrase, to_large_limit, bad_arguments, comic_not_found, Db, Words,
}
use microservice_comics.Search.Index.{InvertedIndex}
use microservice_comics.Search.Rank.{u32_length}
use microservice_comics.Search.Service.{
  find, indexed_search, get_comic_by_id, get_all_comics, random_comic,
}

-- `core.Search`.
pub record Search : Type 0 where
  pub find : String → ℕ → Result Error (List Comics)
  pub indexed_search : String → ℕ → Result Error (List Comics × ℕ)
  pub ping : Result Error (Unit {0})
  pub get_comic_by_id : ℤ → Result Error Comics
  pub random_comic : Result Error Comics
  pub get_all_comics : ℕ → ℕ → Result Error (List Comics × ℕ)

-- `*Service` as `core.Search`, at one state of the database and of the index.
unfoldable pub service : (intn : ℤ → ℤ) → Db → Words → InvertedIndex → Search
unfolding find indexed_search get_comic_by_id get_all_comics random_comic
service intn db words index = record {
  find = find db words;
  indexed_search = indexed_search index words;
  ping = db.ping;
  get_comic_by_id = get_comic_by_id db;
  random_comic = random_comic intn db;
  get_all_comics = get_all_comics db;
}

pub record ComicReply : Type 0 where
  pub id : ℕ
  pub url : String

pub record SearchReply : Type 0 where
  pub comics : List ComicReply
  pub total : ℕ

abbrev pub to_reply : Comics → ComicReply
to_reply c = record { id = to_u32 c.id; url = c.url }

abbrev pub to_search_reply : List Comics × ℕ → SearchReply
to_search_reply (cs, total) = record { comics = map to_reply cs; total = total }

-- The `switch` of `Find`, `IndexedSearch` and `GetAllComics`.
unfoldable pub search_code : Error → Code
search_code empty_phrase = invalid_argument
search_code bad_arguments = invalid_argument
search_code to_large_limit = invalid_argument
search_code Error.unavailable = unavailable
search_code _ = internal

-- The `switch` of `GetIDComic`.
unfoldable pub by_id_code : Error → Code
by_id_code bad_arguments = invalid_argument
by_id_code comic_not_found = not_found
by_id_code _ = internal

-- The `switch` of `GetRandomComic`.
unfoldable pub random_code : Error → Code
random_code Error.unavailable = unavailable
random_code _ = internal

module _ (s : Search) where
  pub ping_rpc : Result Code (Unit {0})
  ping_rpc = map_err (λ e. unavailable) s.ping

  -- `Total` is the number of comics that are returned.
  pub find_rpc : String → ℕ → Result Code SearchReply
  unfolding search_code
  find_rpc phrase limit =
      map_ok (λ cs. to_search_reply (cs, u32_length cs)) (map_err search_code (s.find phrase limit))

  -- `Total` is the number of comics that match.
  pub indexed_search_rpc : String → ℕ → Result Code SearchReply
  unfolding search_code
  indexed_search_rpc phrase limit =
      map_ok to_search_reply (map_err search_code (s.indexed_search phrase limit))

  pub get_id_comic_rpc : ℕ → Result Code ComicReply
  unfolding by_id_code
  get_id_comic_rpc id = map_ok to_reply (map_err by_id_code (s.get_comic_by_id (pos id)))

  pub get_all_comics_rpc : ℕ → ℕ → Result Code SearchReply
  unfolding search_code
  get_all_comics_rpc page per_page =
      map_ok to_search_reply (map_err search_code (s.get_all_comics page per_page))

  pub get_random_comic_rpc : Result Code ComicReply
  unfolding random_code
  get_random_comic_rpc = map_ok to_reply (map_err random_code s.random_comic)

-- `searchpb.SearchClient`: the calls as a client makes them.
pub record SearchClient : Type 0 where
  pub ping : Result Code (Unit {0})
  pub find : String → ℕ → Result Code SearchReply
  pub indexed_search : String → ℕ → Result Code SearchReply
  pub get_id_comic : ℕ → Result Code ComicReply
  pub get_all_comics : ℕ → ℕ → Result Code SearchReply
  pub get_random_comic : Result Code ComicReply

-- A network that delivers every call and every reply.
unfoldable pub serve : Search → SearchClient
unfolding ping_rpc find_rpc indexed_search_rpc get_id_comic_rpc get_all_comics_rpc
    get_random_comic_rpc
serve s = record {
  ping = ping_rpc s;
  find = find_rpc s;
  indexed_search = indexed_search_rpc s;
  get_id_comic = get_id_comic_rpc s;
  get_all_comics = get_all_comics_rpc s;
  get_random_comic = get_random_comic_rpc s;
}
