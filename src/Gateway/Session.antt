-- ===== src/Gateway/Session.antt =====
-- A user of the public server of search-services/api, from the registration on: the handlers, the
-- client, the server, the service and the storage of search-services/auth together.
use microservice_comics.Base.{
  string_eq, ℕ, ◌+◌, ◌<◌, ℤ, String, Bool, true, false, ◌||◌, Option, none, some, Result, ok, err,
  ◌>>=◌, ◌>>◌, map_err, map_err_ok, reject_if, ◌≡◌, refl, sym, ap, ap₂, ◌∙◌, inl, inr, Bool-cases,
  ◌==◌, if◌then◌else◌, to_u32,
}
use microservice_comics.Base.Grpc.{Code}
use microservice_comics.Auth.Model
use microservice_comics.Auth.Model.{Bcrypt, IsBcrypt, Jwt, IsJwt}
use microservice_comics.Auth.Storage.{Database, storage}
use microservice_comics.Auth.Service
use microservice_comics.Auth.Service.{Config, claims_for, generate_token}
use microservice_comics.Auth.Server.{register_rpc, register_code, login_rpc, login_code, serve}
use microservice_comics.Auth.Accounts.{IsSound}
use microservice_comics.Auth.Login.{register_login}
use microservice_comics.Api.Model.{Error, Auth}
use microservice_comics.Api.Clients.Auth.{auth, register, login, register_error, login_error}
use microservice_comics.Api.Http.{Request, Response, Body, token}
use microservice_comics.Api.Handlers.{respond}
use microservice_comics.Api.Handlers.Auth.{
  CredentialsRequest, register_handler, user_login_handler, register_failure, login_failure,
  credentials, token_response,
}
use microservice_comics.Api.Middleware.{user_of}
use microservice_comics.Gateway.Tokens.{generate_token_later, user_of-generate_token}

-- The token in a response.
abbrev pub token_in : Body → Option String
token_in (token t) = some t
token_in _ = none

abbrev pub given_token : Response → Option String
given_token r = token_in r.body

register_failure-given_token : (e : Error) → given_token (register_failure e) ≡ none
unfolding register_failure
register_failure-given_token Error.bad_arguments = refl
register_failure-given_token Error.already_exists = refl
register_failure-given_token Error.unavailable = refl
register_failure-given_token Error.invalid_credentials = refl
register_failure-given_token Error.invalid_email = refl
register_failure-given_token Error.not_found = refl
register_failure-given_token (Error.status c) = refl

-- A token in the response is the one of the reply.
token_of_reply :
    (r : Result Error String) (t : String)
    → given_token (respond (do t ← map_err register_failure r; ok (token_response t))) ≡ some t
    → r ≡ ok t
token_of_reply (ok u) t h = ap ok (cc h)
token_of_reply (err e) t h = absurd (cc (h, register_failure-given_token e))

else_branch : {A : Type 0} (b : Bool) (x y : A) → b ≡ false → (if b then x else y) ≡ y
else_branch true x y h = absurd (cc h)
else_branch false x y h = refl

accepted : {E A : Type 0} (b : Bool) (e : E) (r : Result E A) → b ≡ false → (reject_if b e >> r) ≡ r
accepted true e r h = absurd (cc h)
accepted false e r h = refl

module _ (bcrypt : Bcrypt) (jwt : Jwt) (config : Config) where
  -- The port of the gateway's core, with the auth service at its other end.
  abbrev pub accounts : ℕ → Auth Database
  accounts now = auth (serve bcrypt jwt config storage now)

  abbrev pub both : String → String → CredentialsRequest
  both email password = record { email = email; password = password }

  -- A token that was given at a time and that names the user until it expires.
  abbrev pub IsTokenOf : ℕ → ℕ → String → Type 0
  IsTokenOf now uid t =
      (later : ℕ)
      → later < now + config.token_ttl
      → user_of jwt config.jwt_secret later (some t) ≡ some uid

  pub token_of :
      IsJwt jwt
      → (now : ℕ) (id : ℤ) (t : String) → generate_token jwt config now id ≡ ok t
      → IsTokenOf now (to_u32 id) t
  token_of law now id t own later fresh =
      user_of-generate_token jwt law config now later id t own fresh

  module _ (req : Request) (post : req.method ≡ "POST") (email password : String) where
    abbrev lacks : Bool
    lacks = email == "" || password == ""

    -- What the handler makes of the reply of the server, and of the service.
    abbrev register_reply : Result Code String → Response
    register_reply r =
        respond (do t ← map_err register_failure (map_err register_error r); ok (token_response t))

    abbrev register_answer : Result Model.Error String → Response
    register_answer r = register_reply (map_err register_code r)

    abbrev login_reply : Result Code String → Response
    login_reply r =
        respond (do t ← map_err login_failure (map_err login_error r); ok (token_response t))

    register_sent :
        (now : ℕ) (d : Database)
        → lacks ≡ false
        → register_rpc bcrypt jwt config storage now d email password ≡ (
            let (d', r) = Service.register bcrypt jwt config storage now d email password in
            (d', map_err register_code r))
    unfolding register_rpc
    register_sent now d e = else_branch lacks _ _ e

    credentials_given :
        lacks ≡ false → credentials req (some (both email password)) ≡ ok (both email password)
    unfolding credentials
    credentials_given e = rw post (rw e refl)

    register_called :
        (now : ℕ) (d : Database)
        → lacks ≡ false
        → register_handler (accounts now) req (some (both email password)) d ≡ (
            let (d', r) = register_rpc bcrypt jwt config storage now d email password in
            (d', register_reply r))
    unfolding register_handler auth register serve
    register_called now d e = rw (credentials_given e) refl

    register_handled :
        (now : ℕ) (d : Database)
        → lacks ≡ false
        → register_handler (accounts now) req (some (both email password)) d ≡ (
            let (d', r) = Service.register bcrypt jwt config storage now d email password in
            (d', register_answer r))
    register_handled now d e =
        register_called now d e ∙ ap (λ p. (p.0, register_reply p.1)) (register_sent now d e)

    register_refused :
        (now : ℕ) (d : Database)
        → lacks ≡ true
        → given_token (register_handler (accounts now) req (some (both email password)) d).1 ≡ none
    unfolding register_handler credentials
    register_refused now d e = rw post (rw e refl)

    login_sent :
        (now : ℕ) (d : Database)
        → lacks ≡ false
        → login_rpc bcrypt jwt config storage now d email password
          ≡ map_err login_code (Service.login bcrypt jwt config storage now d email password)
    unfolding login_rpc
    login_sent now d e = accepted lacks _ _ e

    login_called :
        (now : ℕ) (d : Database)
        → lacks ≡ false
        → user_login_handler (accounts now) req (some (both email password)) d
          ≡ login_reply (login_rpc bcrypt jwt config storage now d email password)
    unfolding user_login_handler auth login serve
    login_called now d e = rw (credentials_given e) refl

    login_handled :
        (now : ℕ) (d : Database)
        → lacks ≡ false
        → user_login_handler (accounts now) req (some (both email password)) d
          ≡ login_reply
              (map_err login_code (Service.login bcrypt jwt config storage now d email password))
    login_handled now d e = login_called now d e ∙ ap login_reply (login_sent now d e)

    -- A registration that gives a token is one of the service.
    registered :
        (now : ℕ) (d d' : Database) (r : Response) (t : String)
        → register_handler (accounts now) req (some (both email password)) d ≡ (d', r)
        → given_token r ≡ some t
        → (lacks ≡ false)
          × (Service.register bcrypt jwt config storage now d email password ≡ (d', ok t))
    registered now d d' r t h given = elim (Bool-cases lacks) [
      | inl e ↦ absurd (cc (given, ap (λ p. given_token p.1) h, register_refused now d e))
      | inr e ↦
          let same = sym (register_handled now d e) ∙ h in
          let reply = token_of_reply _ t (ap (λ p. given_token p.1) same ∙ given) in
          (
            e,
            ap₂ (λ a b. (a, b)) (ap (λ p. p.0) same)
                (map_err_ok register_code _ (map_err_ok register_error _ reply)),
          )
    ]

    -- Let a password match its own hash, let the JWT library keep its contract, and let the tables
    -- be sound. After a POST with an email and a password that the registration answered by a token,
    -- a POST with the same ones to the login, on the tables that it left, is answered by a token at
    -- any time, and there is one user whom both tokens name, each until it expires.
    pub register_session :
        (now later : ℕ) (d d' : Database) (r : Response) (t : String)
        → IsBcrypt bcrypt
        → IsJwt jwt
        → IsSound d
        → register_handler (accounts now) req (some (both email password)) d ≡ (d', r)
        → given_token r ≡ some t
        → (uid : ℕ) × (t' : String) × (user_login_handler
              (accounts later)
              req
              (some (both email password))
              d'
            ≡ token_response t')
          × IsTokenOf now uid t
          × IsTokenOf later uid t'
    register_session now later d d' r t law jwt_law sound h given =
        let (fine, done) = registered now d d' r t h given in
        let (id, own, again) =
          register_login bcrypt jwt config now later d d' email password t law sound done in
        let next = generate_token_later jwt config now later id t own in
        (
          to_u32 id,
          jwt.sign config.jwt_secret (claims_for config later (to_u32 id)),
          login_handled later d' fine ∙ ap (λ r. login_reply (map_err login_code r)) (again ∙ next),
          token_of jwt_law now id t own,
          token_of jwt_law later id _ next,
        )
