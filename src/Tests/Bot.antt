-- ===== src/Tests/Bot.antt =====
-- The theorem on two logins of the bot, for a user who changes the name in between.
use microservice_comics.Base.{ℕ, pos, String, none, some, ◌≡◌, refl}
use microservice_comics.Auth.Service
use microservice_comics.Auth.Service.{claims_for}
use microservice_comics.Auth.Storage.{Database, storage}
use microservice_comics.Auth.Server.{serve, bot_login_telegram_rpc}
use microservice_comics.Auth.Bot.{with_profile}
use microservice_comics.Api.Clients.Auth.{auth, bot_login_telegram, to_user}
use microservice_comics.Api.Http.{Response}
use microservice_comics.Api.Model.{TelegramProfile}
use microservice_comics.Api.Handlers.Auth.{bot_telegram_login_handler, token_response}
use microservice_comics.Api.Server.{Backend, Incoming, Moment, serve_internal}
use microservice_comics.Gateway.Session.{given_token, IsTokenOf}
use microservice_comics.Gateway.Bot.{bot_path, with_auth, bot_session}
use microservice_comics.Tests.Auth.{bcrypt, config, new_database-IsSound}
use microservice_comics.Tests.Gateway.{jwt, jwt-IsJwt}
use microservice_comics.Tests.Server.{settings, services, backend, moment}

abbrev ada : TelegramProfile
ada = record { tg_id = pos 9; username = "ada"; first_name = "A"; last_name = "B" }

abbrev lovelace : TelegramProfile
lovelace = record ada { last_name = "L" }

abbrev logs_in : TelegramProfile → Incoming
logs_in tg = record {
  method = "POST";
  path = bot_path;
  authorization = "";
  query = λ key. "";
  login = none;
  credentials = none;
  telegram = some tg;
}

abbrev later : Moment
later = record moment { now = 30 }

abbrev serves : Moment → TelegramProfile → Backend ℕ Database ℕ → Backend ℕ Database ℕ × Response
serves m tg b =
    serve_internal jwt settings (with_auth bcrypt jwt config settings services m.now) m (logs_in tg)
      b

abbrev first : Backend ℕ Database ℕ
first = (serves moment ada backend).0

abbrev token : String
token = jwt.sign "s" (claims_for config 10 1)

gives_token : given_token (serves moment ada backend).1 ≡ some token
unfolding serve_internal bot_telegram_login_handler auth bot_login_telegram serve
    bot_login_telegram_rpc Service.bot_login_telegram storage
gives_token = refl

bot_session_example :
    (uid : ℕ) × (t' : String) × (serves later lovelace first
      ≡ (record first { auth = with_profile (to_user lovelace) first.auth }, token_response t'))
    × IsTokenOf bcrypt jwt config 10 uid token
    × IsTokenOf bcrypt jwt config 30 uid t'
bot_session_example =
    bot_session bcrypt jwt config settings services moment later (logs_in ada) (logs_in lovelace)
      backend ada lovelace token jwt-IsJwt new_database-IsSound refl refl refl gives_token refl refl
      refl refl
