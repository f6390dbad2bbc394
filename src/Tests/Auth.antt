-- ===== src/Tests/Auth.antt =====
-- The theorems on the auth service, with a token that is the subject and a hash that is the password
-- itself.
use microservice_comics.Base.{
  string_eq, pos, true, List, [], ◌∷◌, none, some, ok, ◌≡◌, refl, arith, ◌==◌, ok_injective,
  ==_refl,
}
use microservice_comics.Auth.Model.{User, Jwt, Bcrypt, IsBcrypt, TelegramProfile}
use microservice_comics.Auth.Email.{is_email}
use microservice_comics.Auth.Storage.{Database, storage, get_comicshub_by_email}
use microservice_comics.Auth.Service.{Config, register, login}
use microservice_comics.Auth.Accounts.{
  IsSound, Event, registers, bot_logs_in, connection, history, history-IsSound,
}
use microservice_comics.Auth.Login.{login_refused_alike}

abbrev pub bcrypt : Bcrypt
bcrypt = record { generate = λ password. ok password; compare = λ hash password. hash == password }

abbrev pub config : Config
config = record { jwt_secret = "s"; token_ttl = 60 }

abbrev jwt : Jwt
jwt = record { sign = λ secret c. c.subject; parse = λ secret now token. none }

abbrev pub new_database : Database
new_database = record {
  users = [];
  accounts = [];
  telegram = [];
  next_id = 0;
  now = 5;
  outage = none;
}

pub new_database-IsSound : IsSound new_database
new_database-IsSound = record { given = tt; keys = tt; emails = λ email. omega arith }

abbrev bot_user : TelegramProfile
bot_user = record { tg_id = pos 9; username = "u"; first_name = "f"; last_name = "l" }

abbrev events : List Event
events =
    registers "a@b.cc" "p"
    ∷ connection (some "down")
    ∷ registers "a@b.cc" "q"
    ∷ connection none
    ∷ registers "a@b.cc" "q"
    ∷ bot_logs_in bot_user
    ∷ []

history-IsSound_example : IsSound (history bcrypt jwt config events new_database)
history-IsSound_example = history-IsSound bcrypt jwt config events new_database new_database-IsSound

pub bcrypt-IsBcrypt : IsBcrypt bcrypt
bcrypt-IsBcrypt password hash h = rw (← ok_injective h) (==_refl password)

abbrev registered : Database
registered = record new_database {
  users = record { id = pos 1; created_at = 5 } ∷ [];
  accounts = record { user_id = pos 1; email = "a@b.cc"; password_hash = "p" } ∷ [];
  next_id = 1;
}

registers_one :
    register bcrypt jwt config storage 10 new_database "a@b.cc" "p" ≡ (registered, ok "1")
unfolding register storage
registers_one = refl

abbrev first_user : User
first_user = record { id = pos 1; created_at = 5 }

email_is_email : is_email "a@b.cc" ≡ true
unfolding is_email
email_is_email = refl

other_is_email : is_email "x@b.cc" ≡ true
unfolding is_email
other_is_email = refl

finds_one : get_comicshub_by_email registered "a@b.cc" ≡ ok (first_user, "p")
unfolding get_comicshub_by_email
finds_one = refl

login_refused_alike_example :
    login bcrypt jwt config storage 20 registered "a@b.cc" "q"
    ≡ login bcrypt jwt config storage 20 registered "x@b.cc" "p"
login_refused_alike_example =
    login_refused_alike bcrypt jwt config 20 registered "a@b.cc" "x@b.cc" "p" "q" "p" first_user
      email_is_email other_is_email finds_one refl refl
