-- ===== src/Auth/Accounts.antt =====
-- The tables of the auth service through any sequence of calls.
use microservice_comics.Base.{
  ◌≢◌, ltb_ℤ_irrefl, string_eq, int_eq, ℕ, ◌+◌, ◌≤◌, ℤ, pos, negsuc, String, true, false, ◌||◌,
  List, [], ◌∷◌, ◌++◌, map, Option, none, Result, ok, err, ◌>>◌, map_err, reject_if, ◌≡◌, refl, inl,
  inr, arith, Bool-cases, Option-cases, ◌==◌, ==→≡, All, All-append, any, filter, length, ltb_ℤ,
  is_nonpositive, if◌then◌else◌,
}
use microservice_comics.Auth.Model.{
  User, TelegramProfile, ComicsHubProfile, Error, failure, Bcrypt, Jwt,
}
use microservice_comics.Auth.Email.{validate_email}
use microservice_comics.Auth.Storage.{
  Account, TelegramAccount, Database, has_email, new_user, create_comicshub_user, load_user,
  upsert_telegram_user, storage, upserted, committed, update_profile, has_tg_id,
}
use microservice_comics.Auth.Service.{Config, register, bot_login_telegram, created}

-- The id is one of the numbers from 1 to `n`.
abbrev pub IsGiven : ℕ → User → Type 0
IsGiven n u = (ltb_ℤ (pos 0) u.id ≡ true) × (ltb_ℤ u.id (pos (n + 1)) ≡ true)

-- No two users have the same id.
abbrev pub HasUserKeys : List User → Type 0
HasUserKeys [] = Unit
HasUserKeys (u ∷ us) = All (λ v. u.id ≢ v.id) us × HasUserKeys us

-- The users' ids differ and are among the numbers that the sequence has given, and no email stands
-- at two accounts.
pub record IsSound (d : Database) : Type 0 where
  pub given : All (IsGiven d.next_id) d.users
  pub keys : HasUserKeys d.users
  pub emails : (email : String) → length (filter (has_email email) d.accounts) ≤ 1

IsGiven-later : (n : ℕ) (us : List User) → All (IsGiven n) us → All (IsGiven (n + 1)) us
IsGiven-later n [] h = tt
IsGiven-later n (u ∷ us) h = ((h.0.0, later u.id h.0.1), IsGiven-later n us h.1)
  where
    later : (z : ℤ) → ltb_ℤ z (pos (n + 1)) ≡ true → ltb_ℤ z (pos (n + 1 + 1)) ≡ true
    later (pos k) e = ground arith
    later (negsuc k) e = refl

filter_none :
    (email : String) (rest : List Account)
    → any (has_email email) rest ≡ false
    → length (filter (has_email email) rest) ≡ 0
filter_none email [] h = refl
filter_none email (a ∷ rest) h = elim (Bool-cases (has_email email a)) [
  | inl e ↦ absurd (cc (rw e at h))
  | inr e ↦ rw e (filter_none email rest (rw e at h))
]

length-filter_append :
    (email : String) (rest : List Account) (a : Account)
    → length (filter (has_email email) (rest ++ a ∷ []))
      ≡ length (filter (has_email email) rest) + (if has_email email a then 1 else 0)
length-filter_append email [] a = ground arith
length-filter_append email (b ∷ rest) a = ground (arith, length-filter_append email rest a)

new_account_emails :
    (rest : List Account) (a : Account)
    → any (has_email a.email) rest ≡ false
    → ((email : String) → length (filter (has_email email) rest) ≤ 1)
    → (email : String) → length (filter (has_email email) (rest ++ a ∷ [])) ≤ 1
new_account_emails rest a new one email =
    rw (length-filter_append email rest a) (elim (Bool-cases (has_email email a)) [
      | inl e ↦
          let none_yet : length (filter (has_email email) rest) ≡ 0 =
            filter_none email rest (rw (← ==→≡ a.email email e) new) in
          rw e (omega (arith, none_yet))
      | inr e ↦ rw e (omega (arith, one email))
    ])

new_user-IsGiven :
    (d : Database)
    → All (IsGiven d.next_id) d.users
    → All (IsGiven (d.next_id + 1)) (d.users ++ new_user d ∷ [])
new_user-IsGiven d h =
    All-append _ d.users (new_user d ∷ []) (IsGiven-later d.next_id d.users h)
      ((first d.next_id, last d.next_id), tt)
  where
    first : (n : ℕ) → ltb_ℤ (pos 0) (pos (n + 1)) ≡ true
    first n = ground arith

    last : (n : ℕ) → ltb_ℤ (pos (n + 1)) (pos (n + 1 + 1)) ≡ true
    last n = ground arith

-- The next number of the sequence is nobody's id.
new_user-HasUserKeys :
    (n now : ℕ) (us : List User)
    → All (IsGiven n) us
    → HasUserKeys us
    → HasUserKeys (us ++ record { id = pos (n + 1); created_at = now } ∷ [])
new_user-HasUserKeys n now [] given keys = (tt, tt)
new_user-HasUserKeys n now (u ∷ us) given keys = (
  All-append _ us (record { id = pos (n + 1); created_at = now } ∷ []) keys.0
      (differs u.id given.0.1, tt),
  new_user-HasUserKeys n now us given.1 keys.1,
)
  where
    differs : (z : ℤ) → ltb_ℤ z (pos (n + 1)) ≡ true → z ≢ pos (n + 1)
    differs z less same = cc (rw same at less, ltb_ℤ_irrefl (pos (n + 1)))

create-IsSound :
    (d : Database) (profile : ComicsHubProfile)
    → IsSound d
    → IsSound (create_comicshub_user d profile).0
unfolding create_comicshub_user
create-IsSound d profile sound = elim (Option-cases d.outage) [
  | inr (o, down) ↦
      rw down (record { given = sound.given; keys = sound.keys; emails = sound.emails })
  | inl up ↦ rw up (elim (Bool-cases (any (has_email profile.email) d.accounts)) [
    | inl old ↦ rw old (record {
      given = IsGiven-later d.next_id d.users sound.given;
      keys = sound.keys;
      emails = sound.emails;
    })
    | inr new ↦ rw new (record {
      given = new_user-IsGiven d sound.given;
      keys = new_user-HasUserKeys d.next_id d.now d.users sound.given sound.keys;
      emails = new_account_emails d.accounts _ new sound.emails;
    })
  ])
]

upserted-IsSound :
    (d : Database) (tg : TelegramProfile) (found : List TelegramAccount)
    → IsSound d
    → IsSound (upserted d tg found).0
upserted-IsSound d tg [] sound = record {
  given = new_user-IsGiven d sound.given;
  keys = new_user-HasUserKeys d.next_id d.now d.users sound.given sound.keys;
  emails = sound.emails;
}
upserted-IsSound d tg (a ∷ rest) sound = loaded (load_user a.user_id d.users)
  where
    loaded :
        (r : Result Error User)
        → IsSound (committed d (record d { telegram = map (update_profile tg) d.telegram }) r).0
    loaded (ok u) = record { given = sound.given; keys = sound.keys; emails = sound.emails }
    loaded (err e) = sound

upsert-IsSound :
    (d : Database) (tg : TelegramProfile) → IsSound d → IsSound (upsert_telegram_user d tg).0
unfolding upsert_telegram_user
upsert-IsSound d tg sound = elim (Option-cases d.outage) [
  | inr (o, down) ↦
      rw down (record { given = sound.given; keys = sound.keys; emails = sound.emails })
  | inl up ↦
      let plain : IsSound (record d { outage = none }) = record {
        given = sound.given;
        keys = sound.keys;
        emails = sound.emails;
      } in
      rw up (
        upserted-IsSound (record d { outage = none }) tg (filter (has_tg_id tg.tg_id) d.telegram)
          plain)
]

-- A call of the service, or a change of what surrounds it.
pub data Event : Type 0 where
  registers : (email password : String) → Event
  bot_logs_in : TelegramProfile → Event
  clock : ℕ → Event
  connection : Option String → Event

abbrev pub happen : Bcrypt → Jwt → Config → Event → Database → Database
happen bcrypt jwt config (registers email password) d =
    (register bcrypt jwt config storage d.now d email password).0
happen bcrypt jwt config (bot_logs_in tg) d =
    (bot_login_telegram bcrypt jwt config storage d.now d tg).0
happen bcrypt jwt config (clock t) d = record d { now = t }
happen bcrypt jwt config (connection o) d = record d { outage = o }

abbrev pub history : Bcrypt → Jwt → Config → List Event → Database → Database
history bcrypt jwt config [] d = d
history bcrypt jwt config (e ∷ es) d = history bcrypt jwt config es (happen bcrypt jwt config e d)

module _ (bcrypt : Bcrypt) (jwt : Jwt) (config : Config) where
  register-IsSound :
      (d : Database) (now : ℕ) (email password : String)
      → IsSound d
      → IsSound (register bcrypt jwt config storage now d email password).0
  unfolding register storage
  register-IsSound d now email password sound = go (do
    reject_if (email == "" || password == "") (failure "email and password must not be empty")
    validate_email email
    map_err (λ e. failure "failed to hash password") (bcrypt.generate password))
    where
      go : (m : Result Error String) → IsSound (created bcrypt jwt config storage now d email m).0
      go (err e) = sound
      go (ok hash) = create-IsSound d (record { email = email; password_hash = hash }) sound

  bot_login-IsSound :
      (d : Database) (now : ℕ) (tg : TelegramProfile)
      → IsSound d
      → IsSound (bot_login_telegram bcrypt jwt config storage now d tg).0
  unfolding bot_login_telegram storage
  bot_login-IsSound d now tg sound = elim (Bool-cases (is_nonpositive tg.tg_id)) [
    | inl bad ↦ rw bad sound
    | inr fine ↦ rw fine (upsert-IsSound d tg sound)
  ]

  -- From sound tables: whatever registrations and logins come, and however the database fails in
  -- between, no two users get the same id, each id is positive and at most the last number of the
  -- sequence, and no email gets two accounts.
  pub history-IsSound :
      (es : List Event) (d : Database) → IsSound d → IsSound (history bcrypt jwt config es d)
  history-IsSound [] d sound = sound
  history-IsSound (registers email password ∷ es) d sound =
      history-IsSound es _ (register-IsSound d d.now email password sound)
  history-IsSound (bot_logs_in tg ∷ es) d sound =
      history-IsSound es _ (bot_login-IsSound d d.now tg sound)
  history-IsSound (clock t ∷ es) d sound =
      history-IsSound es _
        (record { given = sound.given; keys = sound.keys; emails = sound.emails })
  history-IsSound (connection o ∷ es) d sound =
      history-IsSound es _
        (record { given = sound.given; keys = sound.keys; emails = sound.emails })
