-- ===== src/Tests/Server.antt =====
-- The theorems on the public server of the gateway, in front of services that count their calls.
use microservice_comics.Base.{
  string_eq, ℕ, zero, suc, ◌≤◌, ◌<◌, ◌+◌, ◌*◌, ◌^◌, arith, nat_beq, parse_u32, length, map, sort_by,
  pos, String, true, false, List, [], ◌∷◌, none, some, Result, ok, err, ◌≡◌, ◌≢◌, refl, ap, inr,
  ◌==◌, if◌then◌else◌,
}
use microservice_comics.Auth.Storage.{Database, storage}
use microservice_comics.Auth.Service
use microservice_comics.Auth.Service.{claims_for}
use microservice_comics.Auth.Server.{serve, register_rpc}
use microservice_comics.Api.Clients.Auth.{auth, register}
use microservice_comics.Api.Model.{
  Error, SearchComic, SearchResult, Searcher, Updater, Favorites, unknown,
}
use microservice_comics.Api.Http.{Request, Response}
use microservice_comics.Api.Handlers.Auth.{
  CredentialsRequest, credentials, register_handler, user_login_handler, token_response,
}
use microservice_comics.Api.Middleware.{read_token, user_of}
use microservice_comics.Api.Server.{
  Settings, Services, Backend, Incoming, Moment, to_request, serve_public,
}
use microservice_comics.Gateway.Access.{
  from_superuser, update_guarded, favorites_guarded, accounts_guarded,
}
use microservice_comics.Gateway.Session.{accounts, given_token, IsTokenOf, register_session}
use microservice_comics.Gateway.Pages.{visited, pages_cover}
use microservice_comics.Gateway.Pages.Page.{get_page, item, with_search, page_response}
use microservice_comics.Search.Model.{Words}
use microservice_comics.Search.Index.{build}
use microservice_comics.Search.Storage.{ComicsRow}
use microservice_comics.Search.Service.Pages.{by_id}
use microservice_comics.Tests.Auth.{
  bcrypt, bcrypt-IsBcrypt, new_database, new_database-IsSound, config,
}
use microservice_comics.Tests.Gateway.{jwt, jwt-IsJwt, request}

abbrev pub settings : Settings
settings = record {
  admin_user = "admin";
  admin_password = "password";
  token_ttl = 60;
  auth_jwt_secret = "s";
  search_concurrency = pos 10;
  search_rate = pos 100;
}

abbrev barrel : SearchComic
barrel = record { id = pos 1; url = "u" }

abbrev no_result : Result Error SearchResult
no_result = ok (record { comics = []; total = pos 0 })

abbrev pub searcher : Searcher
searcher = record {
  find = λ phrase limit. no_result;
  indexed_search = λ phrase limit. no_result;
  ping = ok tt;
  get_comic = λ id. ok barrel;
  random_comic = ok barrel;
  list_comics = λ page limit. no_result;
}

abbrev counting_updater : Updater ℕ
counting_updater = record {
  update = λ n. (suc n, ok tt);
  stats = λ n. err Error.unavailable;
  get_status = λ n. ok unknown;
  drop = λ n. (suc n, ok tt);
  ping = λ n. ok tt;
}

abbrev counting_favorites : Favorites ℕ
counting_favorites = record {
  add = λ n user comic. (suc n, ok tt);
  delete = λ n user comic. (suc n, ok tt);
  list = λ n user. ok [];
  ping = λ n. ok tt;
}

abbrev pub services : Services ℕ Database ℕ
services = record {
  words_ping = ok tt;
  search = searcher;
  updater = counting_updater;
  auth = accounts bcrypt jwt config 10;
  favorites = counting_favorites;
}

abbrev pub backend : Backend ℕ Database ℕ
backend = record { update = 0; auth = new_database; favorites = 0 }

abbrev pub moment : Moment
moment = record { now = 10; searching = 0; waits = true }

abbrev no_query : String → String
no_query key = ""

-- A request to drop the comics, without a token.
abbrev drops : Incoming
drops = record {
  method = "DELETE";
  path = "api" ∷ "db" ∷ [];
  authorization = "";
  query = no_query;
  login = none;
  credentials = none;
  telegram = none;
}

no_superuser : from_superuser jwt 10 drops ≡ false
unfolding from_superuser read_token
no_superuser = refl

update_guarded_example : (serve_public jwt settings services moment drops backend).0.update ≡ 0
update_guarded_example = update_guarded jwt settings services moment drops backend no_superuser

abbrev adds : Incoming
adds = record drops { method = "POST"; path = "api" ∷ "mycomics" ∷ "1" ∷ [] }

no_user : user_of jwt "s" 10 (read_token (to_request adds "")) ≡ none
unfolding user_of read_token
no_user = refl

favorites_guarded_example : (serve_public jwt settings services moment adds backend).0.favorites ≡ 0
favorites_guarded_example = favorites_guarded jwt settings services moment adds backend no_user

abbrev bot_path : List String
bot_path = "api" ∷ "auth" ∷ "bot" ∷ "telegram" ∷ "login" ∷ []

abbrev bot_logs_in : Incoming
bot_logs_in = record drops { method = "POST"; path = bot_path }

third : List String → String
third (a ∷ b ∷ c ∷ rest) = c
third _ = ""

other_path : bot_path ≢ "api" ∷ "auth" ∷ "register" ∷ []
unfolding third
other_path h = cc (ap third h)

accounts_guarded_example :
    (serve_public jwt settings services moment bot_logs_in backend).0.auth ≡ new_database
accounts_guarded_example =
    accounts_guarded jwt settings services moment bot_logs_in backend (inr other_path)

abbrev posted : Request
posted = record request { method = "POST" }

abbrev ada : CredentialsRequest
ada = record { email = "a@b.cc"; password = "p" }

abbrev registration : Database × Response
registration = register_handler (accounts bcrypt jwt config 10) posted (some ada) new_database

abbrev token : String
token = jwt.sign "s" (claims_for config 10 1)

gives_token : given_token registration.1 ≡ some token
unfolding register_handler credentials auth register serve register_rpc Service.register storage
gives_token = refl

register_session_example :
    (uid : ℕ) × (t' : String) × (user_login_handler
        (accounts bcrypt jwt config 30)
        posted
        (some ada)
        registration.0
      ≡ token_response t')
    × IsTokenOf bcrypt jwt config 10 uid token
    × IsTokenOf bcrypt jwt config 30 uid t'
register_session_example =
    register_session bcrypt jwt config posted refl "a@b.cc" "p" 10 30 new_database registration.0
      registration.1 token bcrypt-IsBcrypt jwt-IsJwt new_database-IsSound refl gives_token

abbrev rows : List ComicsRow
rows =
    record { id = pos 7; img_url = "v"; title = []; alt = []; words = [] }
    ∷ record { id = pos 3; img_url = "u"; title = []; alt = []; words = [] }
    ∷ []

abbrev words : Words
words = record { norm = λ phrase. ok (phrase ∷ []) }

-- One comic to a page.
abbrev queries : ℕ → String → String
queries i key = if key == "limit" then "1" else if nat_beq i 1 then "1" else "2"

asks_in_turn :
    (i : ℕ)
    → 1 ≤ i
    → i ≤ 2
    → (parse_u32 (queries i "page") ≡ some i) × (parse_u32 (queries i "limit") ≡ some 1)
unfolding parse_u32
asks_in_turn zero low high = absurd (omega arith)
asks_in_turn (suc zero) low high = (refl, refl)
asks_in_turn (suc (suc zero)) low high = (refl, refl)
asks_in_turn (suc (suc (suc i))) low high = absurd (omega arith)

one_le_one : 1 ≤ 1
one_le_one = omega arith

one_le_hundred : 1 ≤ 100
one_le_hundred = omega arith

last_near : 2 * 1 < 2 ^ 32 + 1
last_near = omega arith

rows_few : length rows < 2 ^ 32
rows_few = omega arith

rows_asked : length rows ≤ 2 * 1
rows_asked = omega arith

pages_cover_example :
    (visited jwt settings services (λ n. n) rows words (build []) moment backend queries 2
      ≡ map item (by_id rows))
    × ((i : ℕ)
        → 1 ≤ i
        → i ≤ 2
        → serve_public jwt settings
            (with_search services (λ n. n) rows words (build []))
            moment
            (get_page (queries i))
            backend
          ≡ (backend, page_response rows i 1))
pages_cover_example =
    pages_cover jwt settings services (λ n. n) rows words (build []) moment backend queries 1 2
      asks_in_turn one_le_one one_le_hundred last_near rows_few rows_asked

in_order :
    map item (by_id rows) ≡ record { id = pos 3; url = "u" } ∷ record { id = pos 7; url = "v" } ∷ []
unfolding sort_by
in_order = refl
