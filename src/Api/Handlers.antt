-- ===== src/Api/Handlers.antt =====
-- search-services/api/adapters/rest/api.go: the handlers. An early `return` is the error of a
-- `Result` whose error is a response.
pub mod Search
pub mod Update
pub mod Favorites
pub mod Auth
pub mod Ping
use microservice_comics.Base.{
  ℕ, String, Bool, Option, none, some, Result, ok, err, string_eq, ◌==◌, nat_beq, parse_u32,
  if◌then◌else◌,
}
use microservice_comics.Api.Http.{Response}

-- The response, whether the handler ran to its end or returned early.
abbrev pub respond : Result Response Response → Response
respond (ok r) = r
respond (err r) = r

abbrev pub parsed_or : Option ℕ → Response → Result Response ℕ
parsed_or none bad = err bad
parsed_or (some n) bad = ok n

-- An optional uint32 of the query string.
unfoldable pub optional_u32 : String → ℕ → Response → Result Response ℕ
unfolding parse_u32
optional_u32 given default bad = if given == "" then ok default else parsed_or (parse_u32 given) bad

abbrev pub nonzero_or : Response → Result Response ℕ → Result Response ℕ
nonzero_or bad (ok n) = if nat_beq n 0 then err bad else ok n
nonzero_or bad (err r) = err r
