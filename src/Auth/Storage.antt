-- ===== src/Auth/Storage.antt =====
-- search-services/auth/adapters/db/storage.go: the transactions on users and their accounts. A
-- transaction runs alone. What it inserted is rolled back on an error; the numbers that the
-- sequence of the users' ids gave out are not given out again.
use microservice_comics.Base.{
  string_eq, int_eq, ℕ, ◌+◌, ℤ, pos, String, Bool, List, [], ◌∷◌, ◌++◌, map, Option, none, some,
  Result, ok, err, ◌==◌, any, filter, if◌then◌else◌,
}
use microservice_comics.Auth.Model.{
  User, TelegramProfile, ComicsHubProfile, Error, user_already_exists, not_found, failure, Db,
}

-- A row of `user_comicshub`, and one of `user_telegram` without its times.
pub record Account : Type 0 where
  pub user_id : ℤ
  pub email : String
  pub password_hash : String

pub record TelegramAccount : Type 0 where
  pub user_id : ℤ
  pub profile : TelegramProfile

-- `next_id` is the last number of the sequence; `now` is the server's clock, `outage` the driver's
-- error, while there is one.
pub record Database : Type 0 where
  pub users : List User
  pub accounts : List Account
  pub telegram : List TelegramAccount
  pub next_id : ℕ
  pub now : ℕ
  pub outage : Option String

abbrev pub has_email : String → Account → Bool
has_email email a = a.email == email

-- `INSERT INTO users DEFAULT VALUES RETURNING id, created_at`
abbrev pub new_user : Database → User
new_user d = record { id = pos (d.next_id + 1); created_at = d.now }

-- `email` is unique.
unfoldable pub create_comicshub_user : Database → ComicsHubProfile → Database × Result Error User
create_comicshub_user d profile = elim d.outage [
  | some e ↦ (d, err (failure "begin tx"))
  | none ↦
      if any (has_email profile.email) d.accounts
      then (record d { next_id = d.next_id + 1 }, err user_already_exists)
      else (
        record d {
          users = d.users ++ new_user d ∷ [];
          accounts =
              d.accounts
              ++ record {
                user_id = (new_user d).id;
                email = profile.email;
                password_hash = profile.password_hash;
              }
                ∷ [];
          next_id = d.next_id + 1;
        },
        ok (new_user d),
      )
]

-- The user with an id.
unfoldable pub load_user : ℤ → List User → Result Error User
load_user id [] = err (failure "load users")
load_user id (u ∷ us) = if u.id == id then ok u else load_user id us

abbrev with_hash : String → Result Error User → Result Error (User × String)
with_hash hash (ok u) = ok (u, hash)
with_hash hash (err e) = err not_found

-- The join of `user_comicshub` and `users`.
unfoldable pub joined : String → List User → List Account → Result Error (User × String)
unfolding load_user
joined email users [] = err not_found
joined email users (a ∷ rest) =
    if has_email email a
    then with_hash a.password_hash (load_user a.user_id users)
    else joined email users rest

unfoldable pub get_comicshub_by_email : Database → String → Result Error (User × String)
unfolding joined
get_comicshub_by_email d email = elim d.outage [
  | some e ↦ err (failure "select user_comicshub user by email")
  | none ↦ joined email d.users d.accounts
]

abbrev pub has_tg_id : ℤ → TelegramAccount → Bool
has_tg_id id a = a.profile.tg_id == id

-- `UPDATE user_telegram SET ... WHERE tg_id = ...`
abbrev pub update_profile : TelegramProfile → TelegramAccount → TelegramAccount
update_profile tg a = if has_tg_id tg.tg_id a then record a { profile = tg } else a

-- An error of `loadUser` rolls the update back.
abbrev pub committed : Database → Database → Result Error User → Database × Result Error User
committed before after (ok u) = (after, ok u)
committed before after (err e) = (before, err e)

-- The transaction once it knows the row with the telegram id, if there is one.
abbrev pub upserted :
    Database → TelegramProfile → List TelegramAccount → Database × Result Error User
upserted d tg (a ∷ rest) =
    committed d (record d { telegram = map (update_profile tg) d.telegram })
      (load_user a.user_id d.users)
upserted d tg [] = (
  record d {
    users = d.users ++ new_user d ∷ [];
    telegram = d.telegram ++ record { user_id = (new_user d).id; profile = tg } ∷ [];
    next_id = d.next_id + 1;
  },
  ok (new_user d),
)

unfoldable pub upsert_telegram_user : Database → TelegramProfile → Database × Result Error User
unfolding load_user
upsert_telegram_user d tg = elim d.outage [
  | some e ↦ (d, err (failure "begin tx"))
  | none ↦ upserted d tg (filter (has_tg_id tg.tg_id) d.telegram)
]

unfoldable pub ping : Database → Result Error (Unit {0})
ping d = elim d.outage [ none ↦ ok tt | some e ↦ err (failure e) ]

-- `*DB` as the port of the core.
unfoldable pub storage : Db Database
unfolding create_comicshub_user get_comicshub_by_email upsert_telegram_user ping
storage = record {
  create_comicshub_user = create_comicshub_user;
  get_comicshub_by_email = get_comicshub_by_email;
  upsert_telegram_user = upsert_telegram_user;
  ping = ping;
}
