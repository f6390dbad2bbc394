-- ===== src/Auth/Model.antt =====
-- search-services/auth/core: models.go, errors.go and ports.go, and the two libraries that the
-- service calls. Times are whole seconds.
use microservice_comics.Base.{ℕ, ◌<◌, ℤ, String, Bool, true, Option, some, Result, ok, ◌≡◌}

pub record User : Type 0 where
  pub id : ℤ
  pub created_at : ℕ

pub record TelegramProfile : Type 0 where
  pub tg_id : ℤ
  pub username : String
  pub first_name : String
  pub last_name : String

pub record ComicsHubProfile : Type 0 where
  pub email : String
  pub password_hash : String

pub data Error : Type 0 where
  user_already_exists invalid_credentials invalid_email not_found : Error
  failure : String → Error

-- The port; `S` is the state of the database.
pub record Db (S : Type 0) : Type 0 where
  pub create_comicshub_user : S → ComicsHubProfile → S × Result Error User
  pub get_comicshub_by_email : S → String → Result Error (User × String)
  pub upsert_telegram_user : S → TelegramProfile → S × Result Error User
  pub ping : S → Result Error (Unit {0})

-- golang.org/x/crypto/bcrypt; `compare hash password` tells whether there is no error.
pub record Bcrypt : Type 0 where
  pub generate : String → Result Error String
  pub compare : String → String → Bool

-- A password matches its own hash.
abbrev pub IsBcrypt : Bcrypt → Type 0
IsBcrypt b =
    (password hash : String) → b.generate password ≡ ok hash → b.compare hash password ≡ true

-- What a token says. A superuser's token has no `user_id`.
pub record Claims : Type 0 where
  pub user_id : Option ℕ
  pub subject : String
  pub issued_at : ℕ
  pub expires_at : ℕ

-- github.com/golang-jwt/jwt/v5 with HS256: `sign secret claims`, and `parse secret now token`,
-- which checks signature and expiry.
pub record Jwt : Type 0 where
  pub sign : String → Claims → String
  pub parse : String → ℕ → String → Option Claims

-- A token is accepted under its secret until it expires; what a token is read as, under any
-- secret, is what was signed.
pub record IsJwt (jwt : Jwt) : Type 0 where
  pub accepts :
      (secret : String) (now : ℕ) (c : Claims)
      → now < c.expires_at
      → jwt.parse secret now (jwt.sign secret c) ≡ some c
  pub reads :
      (secret other : String) (now : ℕ) (c c' : Claims)
      → jwt.parse secret now (jwt.sign other c) ≡ some c'
      → c' ≡ c
