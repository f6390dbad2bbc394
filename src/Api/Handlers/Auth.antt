-- ===== src/Api/Handlers/Auth.antt =====
-- The handlers of registration and login in search-services/api/adapters/rest/api.go. A body is
-- what its decoder made of it; `none` is one that it refused.
use microservice_comics.Base.{
  string_eq, int_eq, pos, String, not, ◌||◌, Option, none, some, Result, ok, err, ◌>>=◌, ◌>>◌,
  reject_if, map_err, ◌==◌,
}
use microservice_comics.Api.Model.{
  Error, bad_arguments, already_exists, unavailable, invalid_credentials, invalid_email,
  TelegramProfile, Auth,
}
use microservice_comics.Api.Http.{Request, Response, Body, json, refuse}
use microservice_comics.Api.Handlers.{respond}

-- `registerRequest` and `loginRequest`.
pub record CredentialsRequest : Type 0 where
  pub email : String
  pub password : String

unfoldable pub register_failure : Error → Response
register_failure invalid_email = refuse "invalid email format" 400
register_failure already_exists = refuse "user already exists" 409
register_failure unavailable = refuse "dependency unavailable" 503
register_failure _ = refuse "internal error" 500

unfoldable pub login_failure : Error → Response
login_failure invalid_email = refuse "invalid email format" 400
login_failure invalid_credentials = refuse "invalid credentials" 401
login_failure unavailable = refuse "dependency unavailable" 503
login_failure _ = refuse "internal error" 500

unfoldable pub bot_login_failure : Error → Response
bot_login_failure bad_arguments = refuse "bad request" 400
bot_login_failure unavailable = refuse "dependency unavailable" 503
bot_login_failure _ = refuse "internal error" 500

abbrev decoded_or : {A : Type 0} → Option A → Result Response A
decoded_or none = err (refuse "bad request" 400)
decoded_or (some a) = ok a

-- The checks that both handlers make: method, body, and that nothing is missing.
unfoldable pub credentials :
    Request → Option CredentialsRequest → Result Response CredentialsRequest
credentials req body = do
  reject_if (not (req.method == "POST")) (json (Body.text "method not allowed\n") 405)
  c ← decoded_or body
  reject_if (c.email == "" || c.password == "") (refuse "email and password must not be empty" 400)
  ok c

abbrev pub token_response : String → Response
token_response t = json (Body.token t) 200

-- The call, once its arguments are known, and the token that it returns.
abbrev granted :
    {S A : Type 0}
    → (S → A → S × Result Error String)
    → (Error → Response)
    → S
    → Result Response A
    → S × Response
granted call failed s (err r) = (s, r)
granted call failed s (ok a) =
    let (s', r) = call s a in (s', respond (do t ← map_err failed r; ok (token_response t)))

-- `botTelegramLoginRequest` with an id that is not missing.
abbrev bot_user : Option TelegramProfile → Result Response TelegramProfile
bot_user body = do
  tg ← decoded_or body
  reject_if (tg.tg_id == pos 0) (refuse "tg_id is required" 400)
  ok tg

module _ {S : Type 0} (auth : Auth S) where
  unfoldable pub register_handler : Request → Option CredentialsRequest → S → S × Response
  unfolding credentials register_failure
  register_handler req body s =
      granted (λ s c. auth.register s c.email c.password) register_failure s (credentials req body)

  unfoldable pub user_login_handler : Request → Option CredentialsRequest → S → Response
  unfolding credentials login_failure
  user_login_handler req body s = respond (do
    c ← credentials req body
    t ← map_err login_failure (auth.login s c.email c.password)
    ok (token_response t))

  unfoldable pub bot_telegram_login_handler : Option TelegramProfile → S → S × Response
  unfolding bot_login_failure
  bot_telegram_login_handler body s =
      granted auth.bot_login_telegram bot_login_failure s (bot_user body)
