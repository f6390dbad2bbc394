-- ===== src/Tests/Favorites.antt =====
-- The theorems on the favorites, at a table of one row.
use microservice_comics.Auth.Model.{Claims, Jwt}
use microservice_comics.Api.Model as Api
use microservice_comics.Api.Middleware.{read_token, user_of}
use microservice_comics.Api.Server.{
  Settings, Services, Backend, Moment, Incoming, to_request, serve_public,
}
use microservice_comics.Gateway.Served.{add_request, joined}
use microservice_comics.Gateway.Served.Requests.{list_request, delete_request, Lists}
use microservice_comics.Gateway.Served.Cycle.{favorite_cycle}
use microservice_comics.Base.{
  nat_eq, int_eq, ℕ, zero, ◌≤◌, ◌<◌, ◌^◌, ℤ, pos, true, List, [], ◌∷◌, none, some, ok, err, ◌≡◌,
  ◌↔◌, ◌⊎◌, ◌≢◌, refl, arith, atoi, if◌then◌else◌, string_eq, ◌==◌, ◌&&◌, ltb, Result,
}
use microservice_comics.Favorites.Model.{already_exists}
use microservice_comics.Favorites.Storage.{Database, storage}
use microservice_comics.Favorites.Service.{add, delete}
use microservice_comics.Favorites.Rows.{contains, set_add, set_delete, add_refines, delete_refines}
use microservice_comics.Favorites.History.{
  HasUniquePairs, Event, adds, deletes, connection, history, history-HasUniquePairs,
}
use microservice_comics.Search.Model.{Words}
use microservice_comics.Search.Index.{build}
use microservice_comics.Search.Storage.{ComicsRow}
use microservice_comics.Search.Service.Pages.{answering}
use microservice_comics.Api.Http.{Response, FavoriteItemResponse, Body, json, refuse, bare}
use microservice_comics.Gateway.Search.{gateway}
use microservice_comics.Gateway.Favorites.{favorites_gateway}

abbrev one_row : Database
one_row = record {
  rows = record { user_id = 7; comic_id = pos 1; created_at = pos 100 } ∷ [];
  now = pos 200;
  outage = none;
}

add_refines_example :
    ((add storage one_row 7 (pos 2)).1 ≡ (set_add (contains one_row) 7 (pos 2)).1)
    × ((u : ℕ) (c : ℤ)
        → contains (add storage one_row 7 (pos 2)).0 u c
          ≡ (set_add (contains one_row) 7 (pos 2)).0 u c)
add_refines_example = add_refines one_row 7 (pos 2) refl

delete_refines_example :
    ((delete storage one_row 7 (pos 1)).1 ≡ (set_delete (contains one_row) 7 (pos 1)).1)
    × ((u : ℕ) (c : ℤ)
        → contains (delete storage one_row 7 (pos 1)).0 u c
          ≡ (set_delete (contains one_row) 7 (pos 1)).0 u c)
delete_refines_example = delete_refines one_row 7 (pos 1) refl

one_le_seven : 1 ≤ 7
one_le_seven = omega arith

-- A second `Add` of the same pair is refused.
add_twice : (add storage one_row 7 (pos 1)).1 ≡ err already_exists
unfolding add storage
add_twice = refl

abbrev no_rows : Database
no_rows = record { rows = []; now = pos 200; outage = none }

no_rows_unique : HasUniquePairs no_rows.rows
no_rows_unique u c = omega arith

abbrev events : List Event
events =
    adds 7 (pos 1)
    ∷ connection (some "down")
    ∷ adds 7 (pos 1)
    ∷ connection none
    ∷ adds 7 (pos 1)
    ∷ deletes 7 (pos 2)
    ∷ []

history-HasUniquePairs_example : HasUniquePairs (history events no_rows).rows
history-HasUniquePairs_example = history-HasUniquePairs events no_rows no_rows_unique

abbrev barrel : ComicsRow
barrel = record { id = pos 1; img_url = "u"; title = "barrel" ∷ []; alt = []; words = [] }

abbrev comics : List ComicsRow
comics = barrel ∷ []

abbrev words : Words
words = record { norm = λ phrase. ok (phrase ∷ []) }

abbrev claims : Claims
claims = record { user_id = some 7; subject = "7"; issued_at = 1; expires_at = 9 }

-- A library that accepts one token.
abbrev jwt : Jwt
jwt = record {
  sign = λ secret c. "t";
  parse = λ secret now token. if token == "t" && ltb now 9 then some claims else none;
}

abbrev settings : Settings
settings = record {
  admin_user = "admin";
  admin_password = "password";
  token_ttl = 60;
  auth_jwt_secret = "s";
  search_concurrency = pos 10;
  search_rate = pos 100;
}

abbrev down : {A : Type 0} → Result Api.Error A
down = err Api.unavailable

abbrev services : Services (Unit {0}) (Unit {0}) Database
services = record {
  words_ping = down;
  search = gateway (λ n. n) (answering comics) words (build []);
  updater = record {
    update = λ u. (u, down);
    stats = λ u. down;
    get_status = λ u. down;
    drop = λ u. (u, down);
    ping = λ u. down;
  };
  auth = record {
    register = λ u email password. (u, down);
    login = λ u email password. down;
    bot_login_telegram = λ u tg. (u, down);
    ping = λ u. down;
  };
  favorites = favorites_gateway;
}

abbrev backend : Backend (Unit {0}) (Unit {0}) Database
backend = record { update = tt; auth = tt; favorites = no_rows }

abbrev moment : Moment
moment = record { now = 2; searching = 0; waits = true }

asks_for_one : atoi "1" ≡ some (pos 1)
unfolding atoi
asks_for_one = refl

one_is_small : 1 < 2 ^ 31
one_is_small = omega arith

listing_user : user_of jwt "s" 2 (read_token (to_request (list_request "Token t") "")) ≡ some 7
unfolding user_of read_token
listing_user = refl

abbrev serves :
    Incoming
    → Backend (Unit {0}) (Unit {0}) Database
    → Backend (Unit {0}) (Unit {0}) Database × Response
serves i b =
    serve_public jwt settings (joined jwt settings services (λ n. n) comics words (build [])) moment
      i b

abbrev with_barrel : Backend (Unit {0}) (Unit {0}) Database
with_barrel = (serves (add_request "Token t" "1") backend).0

abbrev without_barrel : Backend (Unit {0}) (Unit {0}) Database
without_barrel = (serves (delete_request "Token t" "1") with_barrel).0

favorite_cycle_example :
    ((serves (add_request "Token t" "1") backend).1
      ≡ (if contains no_rows 7 (pos 1) then refuse "already exists" 409 else bare 204))
    × ((items : List FavoriteItemResponse) × (serves (list_request "Token t") with_barrel
          ≡ (with_barrel, json (Body.favorites items) 200))
        × ((k : ℤ) → Lists items k ↔ ((contains no_rows 7 k ≡ true) ⊎ (k ≡ pos 1))))
    × ((serves (delete_request "Token t" "1") with_barrel).1 ≡ bare 204)
    × ((items : List FavoriteItemResponse) × (serves (list_request "Token t") without_barrel
          ≡ (without_barrel, json (Body.favorites items) 200))
        × ((k : ℤ) → Lists items k ↔ ((contains no_rows 7 k ≡ true) × (k ≢ pos 1))))
favorite_cycle_example =
    favorite_cycle jwt settings services (λ n. n) comics words (build []) "Token t" 7 one_le_seven
      "1" zero asks_for_one one_is_small moment moment moment moment backend barrel [] listing_user
      listing_user listing_user listing_user refl refl
