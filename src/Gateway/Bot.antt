-- ===== src/Gateway/Bot.antt =====
-- A Telegram user at the internal server of search-services/api: the route, the handler, the
-- client, and the server, the service and the storage of search-services/auth.
use microservice_comics.Base.{
  string_eq, int_eq, ℕ, ℤ, pos, String, true, false, List, [], ◌∷◌, Option, none, some, Result, ok,
  err, ◌>>=◌, map_err, ◌==◌, is_nonpositive, ◌≡◌, refl, sym, ap, ap₂, subst, ◌∙◌, inl, inr,
  Bool-cases, arith, to_u32,
}
use microservice_comics.Base.Grpc.{internal}
use microservice_comics.Auth.Model
use microservice_comics.Auth.Model.{Bcrypt, Jwt, IsJwt}
use microservice_comics.Auth.Storage.{Database, storage}
use microservice_comics.Auth.Service
use microservice_comics.Auth.Service.{Config, claims_for, generate_token}
use microservice_comics.Auth.Server.{serve, bot_login_telegram_rpc}
use microservice_comics.Auth.Accounts.{IsSound}
use microservice_comics.Auth.Bot.{with_profile, bot_login_again}
use microservice_comics.Api.Model.{TelegramProfile}
use microservice_comics.Api.Clients.Auth.{auth, bot_login_telegram, bot_login_error, to_user}
use microservice_comics.Api.Http.{Response}
use microservice_comics.Api.Handlers.{respond}
use microservice_comics.Api.Handlers.Auth.{
  bot_telegram_login_handler, bot_login_failure, token_response,
}
use microservice_comics.Api.Mux.{found, best_match, routed, path_value}
use microservice_comics.Api.Routes.{bot_telegram_login, internal_routes}
use microservice_comics.Api.Server.{
  Settings, Services, Backend, Incoming, Moment, handle, serve_internal, dispatched,
}
use microservice_comics.Gateway.Tokens.{generate_token_later}
use microservice_comics.Gateway.Session.{given_token, accounts, IsTokenOf, token_of}

abbrev pub bot_path : List String
bot_path = "api" ∷ "auth" ∷ "bot" ∷ "telegram" ∷ "login" ∷ []

bot_routed :
    (method : String) (path : List String)
    → method ≡ "POST"
    → path ≡ bot_path
    → routed internal_routes method path ≡ found bot_telegram_login ""
unfolding internal_routes best_match path_value
bot_routed method path post here = rw post (rw here refl)

nonzero : (z : ℤ) → is_nonpositive z ≡ false → (z == pos 0) ≡ false
nonzero z h = ground arith

-- What the handler makes of the reply of the service.
abbrev bot_reply : Result Model.Error String → Response
bot_reply r = respond (do
  t ← map_err bot_login_failure (map_err bot_login_error (map_err (λ e. internal) r))
  ok (token_response t))

bot_reply-given_token :
    (r : Result Model.Error String) (t : String) → given_token (bot_reply r) ≡ some t → r ≡ ok t
unfolding bot_login_failure bot_login_error
bot_reply-given_token (ok u) t h = ap ok (cc h)
bot_reply-given_token (err e) t h = absurd (cc h)

module _ (bcrypt : Bcrypt) (jwt : Jwt) (config : Config) (now : ℕ) (tg : TelegramProfile)
    (d : Database) where
  abbrev handled : Database × Response
  handled = bot_telegram_login_handler (accounts bcrypt jwt config now) (some tg) d

  bot_handled :
      is_nonpositive tg.tg_id ≡ false
      → handled ≡ (
          let (d', r) = Service.bot_login_telegram bcrypt jwt config storage now d (to_user tg) in
          (d', bot_reply r))
  unfolding bot_telegram_login_handler auth bot_login_telegram serve bot_login_telegram_rpc
  bot_handled fine = rw (nonzero tg.tg_id fine) (rw fine refl)

  bot_refused : is_nonpositive tg.tg_id ≡ true → given_token handled.1 ≡ none
  unfolding bot_telegram_login_handler auth bot_login_telegram serve bot_login_telegram_rpc
      bot_login_failure bot_login_error
  bot_refused bad = elim (Bool-cases (tg.tg_id == pos 0)) [
    | inl e ↦ rw e refl
    | inr e ↦ rw e (rw bad refl)
  ]

  -- A token in the response is the one of the service, and the user's id is positive.
  bot_granted :
      (t : String)
      → given_token handled.1 ≡ some t
      → (is_nonpositive tg.tg_id ≡ false)
        × (Service.bot_login_telegram bcrypt jwt config storage now d (to_user tg)
            ≡ (handled.0, ok t))
  bot_granted t given = elim (Bool-cases (is_nonpositive tg.tg_id)) [
    | inl bad ↦ absurd (cc (given, bot_refused bad))
    | inr fine ↦
        let same = bot_handled fine in
        let own =
          bot_reply-given_token _ t
            (ap (λ (p : Database × Response). given_token p.1) (sym same) ∙ given) in
        (
          fine,
          ap₂ (λ (e : Database) (r : Result Model.Error String). (e, r))
              (ap (λ (p : Database × Response). p.0) (sym same)) own,
        )
  ]

module _ {U F : Type 0} (bcrypt : Bcrypt) (jwt : Jwt) (config : Config) (cfg : Settings)
    (c : Services U Database F) where
  -- The clients at a time, with the auth service at the other end of its one.
  abbrev pub with_auth : ℕ → Services U Database F
  with_auth now = record c { auth = accounts bcrypt jwt config now }

  abbrev internal_server :
      Moment → Incoming → Backend U Database F → Backend U Database F × Response
  internal_server m i b = serve_internal jwt cfg (with_auth m.now) m i b

  bot_served :
      (m : Moment) (i : Incoming) (b : Backend U Database F) (tg : TelegramProfile)
      → i.method ≡ "POST"
      → i.path ≡ bot_path
      → i.telegram ≡ some tg
      → internal_server m i b
        ≡ (let (d, r) = handled bcrypt jwt config m.now tg b.auth in (record b { auth = d }, r))
  unfolding serve_internal handle
  bot_served m i b tg post here body =
      ap (λ r. dispatched jwt cfg (with_auth m.now) m i r b) (bot_routed i.method i.path post here)
      ∙ ap
          (λ (o : Option TelegramProfile).
            let (d, r) = bot_telegram_login_handler (accounts bcrypt jwt config m.now) o b.auth in
            (record b { auth = d }, r))
          body

  again_served :
      (m : Moment) (j : Incoming) (b : Backend U Database F) (tg : TelegramProfile)
      → is_nonpositive tg.tg_id ≡ false
      → (d : Database) (r : Result Model.Error String) → j.method ≡ "POST"
      → j.path ≡ bot_path
      → j.telegram ≡ some tg
      → Service.bot_login_telegram bcrypt jwt config storage m.now b.auth (to_user tg) ≡ (d, r)
      → internal_server m j b ≡ (record b { auth = d }, bot_reply r)
  again_served m j b tg fine d r post here body made =
      bot_served m j b tg post here body
      ∙ ap (λ (p : Database × Response). (record b { auth = p.0 }, p.1))
          (bot_handled bcrypt jwt config m.now tg b.auth fine
            ∙ ap (λ (p : Database × Result Model.Error String). (p.0, bot_reply p.1)) made)

  -- Let the JWT library keep its contract, and let the tables be sound. After a login of the bot at
  -- the internal server that was answered by a token, a login for the same Telegram id, whatever
  -- else its profile says, is answered by a token at any time. There is one user whom both tokens
  -- name, each until it expires. The second login changes nothing but the profile that is stored for
  -- the Telegram id, which becomes its own; so it creates no user.
  pub bot_session :
      (m later : Moment) (i j : Incoming) (b : Backend U Database F) (tg next : TelegramProfile)
      (t : String)
      → IsJwt jwt
      → IsSound b.auth
      → i.method ≡ "POST"
      → i.path ≡ bot_path
      → i.telegram ≡ some tg
      → given_token (internal_server m i b).1 ≡ some t
      → j.method ≡ "POST"
      → j.path ≡ bot_path
      → j.telegram ≡ some next
      → next.tg_id ≡ tg.tg_id
      → let b' = (internal_server m i b).0 in
        (uid : ℕ) × (t' : String) × (internal_server later j b'
          ≡ (record b' { auth = with_profile (to_user next) b'.auth }, token_response t'))
        × IsTokenOf bcrypt jwt config m.now uid t
        × IsTokenOf bcrypt jwt config later.now uid t'
  bot_session m later i j b tg next t law sound post here body given post' here' body' same =
      let b' = (internal_server m i b).0 in
      let served = bot_served m i b tg post here body in
      let (fine, first) =
        bot_granted bcrypt jwt config m.now tg b.auth t
          (ap (λ (p : Backend U Database F × Response). given_token p.1) (sym served) ∙ given) in
      let (id, own, again) =
        bot_login_again bcrypt jwt config m.now later.now b.auth _ (to_user tg) (to_user next) t
          sound same first in
      let signed = generate_token_later jwt config m.now later.now id t own in
      let fine' : is_nonpositive next.tg_id ≡ false = rw same fine in
      (
        to_u32 id,
        jwt.sign config.jwt_secret (claims_for config later.now (to_u32 id)),
        again_served later j _ next fine' _ _ post' here' body' (
              subst
                (λ (d : Database).
                  Service.bot_login_telegram bcrypt jwt config storage later.now d (to_user next)
                  ≡ (with_profile (to_user next) d, generate_token jwt config later.now id))
                (sym (ap (λ (p : Backend U Database F × Response). p.0.auth) served)) again)
            ∙ ap (λ r. (record b' { auth = with_profile (to_user next) b'.auth }, bot_reply r))
                signed,
        token_of bcrypt jwt config law m.now id t own,
        token_of bcrypt jwt config law later.now id _ signed,
      )
