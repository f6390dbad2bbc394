-- ===== src/Auth/Server.antt =====
-- search-services/auth/adapters/grpc/server.go.
use microservice_comics.Base.{
  string_eq, ℕ, String, ◌||◌, Option, none, some, Result, err, ◌>>◌, reject_if, map_err, ◌==◌,
  is_nonpositive, if◌then◌else◌,
}
use microservice_comics.Base.Grpc.{Code, unavailable, unauthenticated, invalid_argument, internal}
use microservice_comics.Auth.Model.{
  TelegramProfile, Error, user_already_exists, invalid_credentials, invalid_email, Db, Bcrypt, Jwt,
}
use microservice_comics.Auth.Service.{Config, register, login, bot_login_telegram}

unfoldable pub register_code : Error → Code
register_code user_already_exists = Code.already_exists
register_code invalid_email = invalid_argument
register_code _ = internal

unfoldable pub login_code : Error → Code
login_code invalid_credentials = unauthenticated
login_code invalid_email = invalid_argument
login_code _ = internal

module _ (bcrypt : Bcrypt) (jwt : Jwt) (config : Config) {S : Type 0} (db : Db S) (now : ℕ) where
  unfoldable pub register_rpc : S → String → String → S × Result Code String
  unfolding register register_code
  register_rpc s email password =
      if email == "" || password == ""
      then (s, err invalid_argument)
      else let (s', r) = register bcrypt jwt config db now s email password in
        (s', map_err register_code r)

  unfoldable pub login_rpc : S → String → String → Result Code String
  unfolding login login_code
  login_rpc s email password = do
    reject_if (email == "" || password == "") invalid_argument
    map_err login_code (login bcrypt jwt config db now s email password)

  -- `none` is a request without a user.
  unfoldable pub bot_login_telegram_rpc : S → Option TelegramProfile → S × Result Code String
  unfolding bot_login_telegram
  bot_login_telegram_rpc s none = (s, err invalid_argument)
  bot_login_telegram_rpc s (some tg) =
      if is_nonpositive tg.tg_id
      then (s, err invalid_argument)
      else let (s', r) = bot_login_telegram bcrypt jwt config db now s tg in
        (s', map_err (λ e. internal) r)

  unfoldable pub ping_rpc : S → Result Code (Unit {0})
  ping_rpc s = map_err (λ e. unavailable) (db.ping s)

-- `authpb.AuthClient`.
pub record AuthClient (S : Type 0) : Type 0 where
  pub register : S → String → String → S × Result Code String
  pub login : S → String → String → Result Code String
  pub bot_login_telegram : S → Option TelegramProfile → S × Result Code String
  pub ping : S → Result Code (Unit {0})

-- A network that delivers every call and every reply, at a time.
unfoldable pub serve : Bcrypt → Jwt → Config → {S : Type 0} → Db S → ℕ → AuthClient S
unfolding register_rpc login_rpc bot_login_telegram_rpc ping_rpc
serve bcrypt jwt config db now = record {
  register = register_rpc bcrypt jwt config db now;
  login = login_rpc bcrypt jwt config db now;
  bot_login_telegram = bot_login_telegram_rpc bcrypt jwt config db now;
  ping = ping_rpc bcrypt jwt config db now;
}
