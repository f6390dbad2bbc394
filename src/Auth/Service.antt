-- ===== src/Auth/Service.antt =====
-- search-services/auth/core/service.go.
use microservice_comics.Base.{
  string_eq, ℕ, suc, ◌+◌, ◌-◌, ◌^◌, ℤ, pos, String, not, ◌||◌, some, Result, ok, err, ◌>>=◌, ◌>>◌,
  reject_if, map_err, ◌==◌, ltb_ℤ, is_nonpositive, to_u32, format_u32, if◌then◌else◌,
}
use microservice_comics.Auth.Model.{
  User, TelegramProfile, Error, user_already_exists, invalid_credentials, failure, Db, Bcrypt,
  Claims, Jwt,
}
use microservice_comics.Auth.Email.{is_email, validate_email}

-- The fields of the service that do not change.
pub record Config : Type 0 where
  pub jwt_secret : String
  pub token_ttl : ℕ

unfoldable pub new_service : String → ℤ → Result Error Config
new_service secret ttl = do reject_if (secret == "") (failure "empty jwt secret"); positive_ttl ttl
  where
    positive_ttl : ℤ → Result Error Config
    positive_ttl (pos (suc n)) = ok (record { jwt_secret = secret; token_ttl = suc n })
    positive_ttl _ = err (failure "token ttl must be positive")

abbrev pub claims_for : Config → ℕ → ℕ → Claims
claims_for config now uid = record {
  user_id = some uid;
  subject = format_u32 uid;
  issued_at = now;
  expires_at = now + config.token_ttl;
}

-- `math.MaxUint32`
abbrev max_u32 : ℤ
max_u32 = pos (2 ^ 32 - 1)

module _ (jwt : Jwt) (config : Config) (now : ℕ) where
  unfoldable pub generate_token : ℤ → Result Error String
  unfolding format_u32
  generate_token user_id = do
    reject_if (is_nonpositive user_id) (failure "bad user id")
    reject_if (ltb_ℤ max_u32 user_id) (failure "user id too large for uint32 claim")
    ok (jwt.sign config.jwt_secret (claims_for config now (to_u32 user_id)))

-- Only a sentinel keeps its meaning, any other error is wrapped.
abbrev pub register_error : Error → Error
register_error user_already_exists = user_already_exists
register_error _ = failure "failed to create user"

module _ (bcrypt : Bcrypt) (jwt : Jwt) (config : Config) {S : Type 0} (db : Db S) (now : ℕ) where
  -- The end of `Register` and `BotLoginTelegram`: a token for the user of the reply.
  abbrev pub token_for : (Error → Error) → S × Result Error User → S × Result Error String
  token_for wrapped (s, r) = (s, (do u ← map_err wrapped r; generate_token jwt config now u.id))

  -- The database is asked only once the arguments are checked and the password is hashed.
  abbrev pub created : S → String → Result Error String → S × Result Error String
  created s email (err e) = (s, err e)
  created s email (ok hash) =
      token_for register_error
        (db.create_comicshub_user s (record { email = email; password_hash = hash }))

  unfoldable pub register : S → String → String → S × Result Error String
  unfolding is_email generate_token
  register s email password = created s email (do
    reject_if (email == "" || password == "") (failure "email and password must not be empty")
    validate_email email
    map_err (λ e. failure "failed to hash password") (bcrypt.generate password))

  unfoldable pub login : S → String → String → Result Error String
  unfolding is_email generate_token
  login s email password = do
    reject_if (email == "" || password == "") invalid_credentials
    validate_email email
    (u, hash) ← map_err (λ e. invalid_credentials) (db.get_comicshub_by_email s email)
    reject_if (not (bcrypt.compare hash password)) invalid_credentials
    generate_token jwt config now u.id

  unfoldable pub bot_login_telegram : S → TelegramProfile → S × Result Error String
  unfolding generate_token
  bot_login_telegram s tg =
      if is_nonpositive tg.tg_id
      then (s, err (failure "tg_id is required"))
      else token_for (λ e. e) (db.upsert_telegram_user s tg)
