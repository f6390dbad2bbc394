-- ===== src/Pipeline/Served.antt =====
-- A comic that an update has stored, through the public server of search-services/api.
use microservice_comics.Base.{
  string_eq, ℕ, suc, ◌<◌, ◌≤◌, ◌^◌, ℤ, pos, String, Bool, false, [], ◌∷◌, map, none, some, Result,
  ok, ◌==◌, ==→≡, atoi, atoi-nonempty, ◌≡◌, refl, ap, ◌∙◌, inl, inr, Bool-cases,
}
use microservice_comics.Update.Model
use microservice_comics.Update.Model.{XkcdInfo, Xkcd}
use microservice_comics.Update.Storage
use microservice_comics.Update.Storage.{row_of}
use microservice_comics.Update.Service.{fetch}
use microservice_comics.Update.Whole.{Returns, or_new}
use microservice_comics.Search.Model.{Words}
use microservice_comics.Search.Index.{InvertedIndex}
use microservice_comics.Search.Service.Pages.{answering}
use microservice_comics.Auth.Model.{Jwt}
use microservice_comics.Api.Http.{Response}
use microservice_comics.Api.Handlers.Search.{comic_by_id_handler}
use microservice_comics.Api.Mux.{found, routed}
use microservice_comics.Api.Routes.{comic_by_id, public_routes}
use microservice_comics.Api.Server.{
  Settings, Services, Backend, Incoming, Moment, to_request, handle, dispatched, serve_public,
}
use microservice_comics.Gateway.Search.{gateway}
use microservice_comics.Gateway.Paths.{comics_routed}
use microservice_comics.Pipeline.{to_row, comic_response, update_response}

-- A GET of /api/comics/ and a segment.
abbrev pub get_request : (segment : String) → Incoming
get_request segment = record {
  method = "GET";
  path = "api" ∷ "comics" ∷ segment ∷ [];
  authorization = "";
  query = λ key. "";
  login = none;
  credentials = none;
  telegram = none;
}

random_not_number : atoi "random" ≡ none
unfolding atoi
random_not_number = refl

number_not_random :
    (segment : String) (z : ℤ) → atoi segment ≡ some z → ("random" == segment) ≡ false
number_not_random segment z h = elim (Bool-cases ("random" == segment)) [
  | inl e ↦ absurd (cc (h, ap atoi (==→≡ "random" segment e), random_not_number))
  | inr e ↦ e
]

number_routed :
    (segment : String) (z : ℤ)
    → atoi segment ≡ some z
    → routed public_routes "GET" ("api" ∷ "comics" ∷ segment ∷ []) ≡ found comic_by_id segment
number_routed segment z h =
    comics_routed segment (atoi-nonempty segment z h) ∙ rw (number_not_random segment z h) refl

module _ {U A F : Type 0} (jwt : Jwt) (cfg : Settings) (c : Services U A F) (m : Moment)
    (b : Backend U A F) (segment : String) (z : ℤ) (given : atoi segment ≡ some z) where
  -- The public server answers with the handler, and changes nothing.
  get_served :
      serve_public jwt cfg c m (get_request segment) b
      ≡ (b, comic_by_id_handler c.search (to_request (get_request segment) segment))
  unfolding serve_public handle
  get_served =
      ap (λ r. dispatched jwt cfg c m (get_request segment) r b) (number_routed segment z given)

-- The clients, with the search service at the other end, on a table of the update service.
abbrev pub on_table :
    {U A F : Type 0}
    → Services U A F
    → (ℤ → ℤ)
    → Storage.Database
    → Words
    → InvertedIndex
    → Services U A F
on_table c intn d words index = record c {
  search = gateway intn (answering (map to_row d.rows)) words index;
}

-- Let the site give, for each number it answers, the comic of that number. After a call of `Update`
-- with at least one worker that finds the flag free, the last number and the database, and is not
-- cancelled: a GET of /api/comics/ and a number from 1 to the last one, below 2^31, to the public
-- server changes nothing there. It is answered by the comic that was in the table, and else by what
-- one fetch of it stores, or by 404 if that stores nothing.
pub update_served :
    {U A F : Type 0} (jwt : Jwt) (cfg : Settings) (c : Services U A F) (m : Moment)
    (b : Backend U A F) (segment : String) (xkcd : Xkcd) (stem : Model.Words)
    (numbered : (id : ℤ) (info : XkcdInfo) → xkcd.get id ≡ ok info → info.id ≡ id) (n latest : ℕ)
    (d : Storage.Database) (t : (Bool × Storage.Database) × Result Model.Error (Unit {0})) (k : ℕ)
    (intn : ℤ → ℤ) (words : Words) (index : InvertedIndex)
    → 1 ≤ n
    → xkcd.last_id ≡ ok (pos latest)
    → d.outage ≡ none
    → Returns xkcd stem numbered (pos n) false false d t
    → suc k ≤ latest
    → atoi segment ≡ some (pos (suc k))
    → suc k < 2 ^ 31
    → serve_public jwt cfg (on_table c intn t.0.1 words index) m (get_request segment) b
      ≡ (b, comic_response (or_new (row_of (pos (suc k)) d.rows) (fetch xkcd stem (pos (suc k)))))
update_served jwt cfg c m b segment xkcd stem numbered n latest d t k intn words index some_worker
      last up returns listed given small =
    get_served jwt cfg (on_table c intn t.0.1 words index) m b segment (pos (suc k)) given
    ∙ ap (λ (r : Response). (b, r))
        (update_response xkcd stem numbered n latest d t some_worker last up returns k listed intn
          words index (to_request (get_request segment) segment) given small)
