-- ===== src/Api/Middleware.antt =====
-- search-services/api/adapters/rest/middleware: auth.go, jwt.go and user_auth.go. A handler is a
-- function of the request and of the state behind it; `require_user` gives it the user.
pub mod Limits
pub mod Slots
use microservice_comics.Base.{
  string_eq, ℕ, ◌+◌, String, Bool, false, not, ◌||◌, Option, none, some, nat_beq, ◌==◌, trim_space,
  strip_prefix, if◌then◌else◌, Result, ok, err, ◌>>=◌, ◌>>◌, reject_if,
}
use microservice_comics.Auth.Model.{Claims, Jwt}
use microservice_comics.Api.Http.{Request, Response, Body, json}
use microservice_comics.Api.Handlers.{respond}

abbrev pub unauthorized : Response
unauthorized = json (Body.text "unauthorized") 401

abbrev nonempty : String → Option String
nonempty s = if s == "" then none else some s

abbrev trimmed : Option String → Option String
trimmed none = none
trimmed (some s) = nonempty (trim_space s)

-- `readToken`, and the start of `RequireSuperuser`. An empty header has no prefix.
unfoldable pub read_token : Request → Option String
unfolding trim_space strip_prefix
read_token req = trimmed (strip_prefix "Token " (trim_space req.authorization))

abbrev pub superuser_subject : String
superuser_subject = "superuser"

-- The secret of jwt.go.
abbrev pub superuser_secret : String
superuser_secret = "123"

abbrev user_id_of : Claims → ℕ
user_id_of c = elim c.user_id [ none ↦ 0 | some uid ↦ uid ]

abbrev pub nonzero_user : Option Claims → Option ℕ
nonzero_user none = none
nonzero_user (some c) = if nat_beq (user_id_of c) 0 then none else some (user_id_of c)

abbrev pub is_superuser : Option Claims → Bool
is_superuser none = false
is_superuser (some c) = c.subject == superuser_subject

abbrev pub superuser_claims : ℕ → ℕ → Claims
superuser_claims ttl now = record {
  user_id = none;
  subject = superuser_subject;
  issued_at = now;
  expires_at = now + ttl;
}

module _ (jwt : Jwt) where
  unfoldable pub generate_superuser_token : (ttl now : ℕ) → String
  generate_superuser_token ttl now = jwt.sign superuser_secret (superuser_claims ttl now)

  unfoldable pub is_superuser_token : (now : ℕ) → String → Bool
  is_superuser_token now token = is_superuser (jwt.parse superuser_secret now token)

  -- The user of a request, if its token names one.
  unfoldable pub user_of : (secret : String) (now : ℕ) → Option String → Option ℕ
  user_of secret now none = none
  user_of secret now (some token) = nonzero_user (jwt.parse secret now token)

  module _ {S : Type 0} where
    abbrev pub for_user :
        (Option ℕ → Request → S → S × Response) → Option ℕ → Request → S → S × Response
    for_user handler none req s = (s, unauthorized)
    for_user handler (some uid) req s = handler (some uid) req s

    unfoldable pub require_user :
        (secret : String) (now : ℕ)
        → (Option ℕ → Request → S → S × Response)
        → Request
        → S
        → S × Response
    unfolding read_token user_of
    require_user secret now handler req s =
        for_user handler (user_of secret now (read_token req)) req s

    abbrev pub for_superuser :
        (Request → S → S × Response) → (now : ℕ) → Option String → Request → S → S × Response
    for_superuser handler now none req s = (s, unauthorized)
    for_superuser handler now (some token) req s =
        if is_superuser_token now token then handler req s else (s, unauthorized)

    unfoldable pub require_superuser :
        (now : ℕ) → (Request → S → S × Response) → Request → S → S × Response
    unfolding read_token is_superuser_token
    require_superuser now handler req s = for_superuser handler now (read_token req) req s

-- `LoginRequest`; `none` is a body that does not decode.
pub record LoginRequest : Type 0 where
  pub name : String
  pub password : String

abbrev decoded : Option LoginRequest → Result Response LoginRequest
decoded none = err (json (Body.text "bad request\n") 400)
decoded (some r) = ok r

unfoldable pub login_handler :
    Jwt
    → (admin_user admin_password : String) (ttl now : ℕ) → Request
    → Option LoginRequest
    → Response
unfolding generate_superuser_token
login_handler jwt admin_user admin_password ttl now req body = respond (do
  reject_if (not (req.method == "POST")) (json (Body.text "method not allowed\n") 405)
  login ← decoded body
  reject_if (not (login.name == admin_user) || not (login.password == admin_password)) unauthorized
  ok (json (Body.text (generate_superuser_token jwt ttl now)) 200))
