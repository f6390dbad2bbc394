-- ===== src/Api/Clients/Auth.antt =====
-- search-services/api/adapters/auth/auth.go: the client of the auth service.
use microservice_comics.Base.{String, some, Result, map_err, if◌then◌else◌}
use microservice_comics.Base.Grpc.{Code, is_outage}
use microservice_comics.Api.Model.{
  Error, bad_arguments, already_exists, unavailable, invalid_credentials, invalid_email, status,
  TelegramProfile, Auth,
}
use microservice_comics.Api.Clients.Search.{call_error}
use microservice_comics.Auth.Model
use microservice_comics.Auth.Server.{AuthClient}

unfoldable pub register_error : Code → Error
register_error Code.invalid_argument = invalid_email
register_error Code.already_exists = already_exists
register_error c = if is_outage c then unavailable else status c

unfoldable pub login_error : Code → Error
login_error Code.invalid_argument = invalid_email
login_error Code.unauthenticated = invalid_credentials
login_error c = if is_outage c then unavailable else status c

unfoldable pub bot_login_error : Code → Error
bot_login_error Code.invalid_argument = bad_arguments
bot_login_error c = if is_outage c then unavailable else status c

abbrev pub to_user : TelegramProfile → Model.TelegramProfile
to_user tg = record {
  tg_id = tg.tg_id;
  username = tg.username;
  first_name = tg.first_name;
  last_name = tg.last_name;
}

module _ {S : Type 0} (c : AuthClient S) where
  unfoldable pub ping : S → Result Error (Unit {0})
  unfolding call_error
  ping s = map_err call_error (c.ping s)

  unfoldable pub register : S → String → String → S × Result Error String
  unfolding register_error
  register s email password =
      let (s', r) = c.register s email password in (s', map_err register_error r)

  unfoldable pub login : S → String → String → Result Error String
  unfolding login_error
  login s email password = map_err login_error (c.login s email password)

  unfoldable pub bot_login_telegram : S → TelegramProfile → S × Result Error String
  unfolding bot_login_error
  bot_login_telegram s tg =
      let (s', r) = c.bot_login_telegram s (some (to_user tg)) in (s', map_err bot_login_error r)

-- `*Client` as `core.Auth`.
unfoldable pub auth : {S : Type 0} → AuthClient S → Auth S
unfolding ping register login bot_login_telegram
auth c = record {
  register = register c;
  login = login c;
  bot_login_telegram = bot_login_telegram c;
  ping = ping c;
}
