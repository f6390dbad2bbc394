-- ===== src/Auth/Login.antt =====
-- The login that follows a registration, of search-services/auth/core/service.go.
use microservice_comics.Base.{
  string_eq, int_eq, ℕ, ◌+◌, ℤ, pos, negsuc, String, true, false, ◌||◌, List, [], ◌∷◌, ◌++◌, Result,
  ok, err, err_ok, map_err, ◌≡◌, refl, sym, ap, ◌∙◌, inl, inr, arith, Bool-cases, Option-cases,
  ◌==◌, ==_refl, All, any, ltb_ℤ,
}
use microservice_comics.Auth.Model.{
  User, Error, failure, invalid_credentials, not_found, Bcrypt, IsBcrypt, Jwt,
}
use microservice_comics.Auth.Email.{is_email}
use microservice_comics.Auth.Storage.{
  Account, Database, has_email, new_user, create_comicshub_user, get_comicshub_by_email, joined,
  load_user, storage,
}
use microservice_comics.Auth.Service.{
  Config, generate_token, register, login, token_for, register_error, created,
}
use microservice_comics.Auth.Accounts.{IsGiven, IsSound}

-- A new id finds the new user.
pub load_new :
    (us : List User) (n now : ℕ)
    → All (IsGiven n) us
    → load_user (pos (n + 1)) (us ++ record { id = pos (n + 1); created_at = now } ∷ [])
      ≡ ok (record { id = pos (n + 1); created_at = now })
unfolding load_user
load_new [] n now h = rw (==_refl (pos (n + 1))) refl
load_new (u ∷ us) n now h = rw (other u.id h.0.1) (load_new us n now h.1)
  where
    other : (z : ℤ) → ltb_ℤ z (pos (n + 1)) ≡ true → (z == pos (n + 1)) ≡ false
    other (pos k) e = ground arith
    other (negsuc k) e = refl

-- The join finds the account that was added last, if no other has its email.
joined_new :
    (email : String) (users : List User) (rest : List Account) (a : Account) (u : User)
    → any (has_email email) rest ≡ false
    → has_email email a ≡ true
    → load_user a.user_id users ≡ ok u
    → joined email users (rest ++ a ∷ []) ≡ ok (u, a.password_hash)
unfolding joined
joined_new email users [] a u h own here = rw own (rw here refl)
joined_new email users (b ∷ rest) a u h own here = elim (Bool-cases (has_email email b)) [
  | inl e ↦ absurd (cc (rw e at h))
  | inr e ↦ rw e (joined_new email users rest a u (rw e at h) own here)
]

-- A registration that succeeded: what was checked and hashed, and what the database did.
pub register_parts :
    (bcrypt : Bcrypt) (jwt : Jwt) (config : Config) (now : ℕ) (d d' : Database)
    (email password token : String)
    → register bcrypt jwt config storage now d email password ≡ (d', ok token)
    → (hash : String) × ((email == "" || password == "") ≡ false)
      × (is_email email ≡ true)
      × (bcrypt.generate password ≡ ok hash)
      × (token_for bcrypt jwt config storage now register_error
            (create_comicshub_user d (record { email = email; password_hash = hash }))
          ≡ (d', ok token))
unfolding register storage
register_parts bcrypt jwt config now d d' email password token h =
    elim (Bool-cases (email == "" || password == "")) [
      | inl bad ↦ absurd (err_ok (ap (λ t. t.1) (rw bad at h)))
      | inr fine ↦
          let checked = rw fine at h in
          elim (Bool-cases (is_email email)) [
            | inr bad ↦ absurd (err_ok (ap (λ t. t.1) (rw bad at checked)))
            | inl good ↦
                let (hash, hashed, made) =
                  from_hash (bcrypt.generate password) (rw good at checked) in
                (hash, fine, good, hashed, made)
          ]
    ]
  where
    from_hash :
        (r : Result Error String)
        → created bcrypt jwt config storage now d email
            (map_err (λ e. failure "failed to hash password") r)
          ≡ (d', ok token)
        → (hash : String) × (r ≡ ok hash)
          × (token_for bcrypt jwt config storage now register_error
                (create_comicshub_user d (record { email = email; password_hash = hash }))
              ≡ (d', ok token))
    from_hash (ok hash) h = (hash, refl, h)
    from_hash (err e) h = absurd (err_ok (ap (λ t. t.1) h))

-- The user that a registration that succeeded has created can be found by the email.
created_user :
    (bcrypt : Bcrypt) (jwt : Jwt) (config : Config) (now : ℕ) (d d' : Database)
    (email hash token : String)
    → IsSound d
    → token_for bcrypt jwt config storage now register_error
        (create_comicshub_user d (record { email = email; password_hash = hash }))
      ≡ (d', ok token)
    → (generate_token jwt config now (new_user d).id ≡ ok token)
      × (get_comicshub_by_email d' email ≡ ok (new_user d, hash))
unfolding create_comicshub_user get_comicshub_by_email
created_user bcrypt jwt config now d d' email hash token sound h = elim (Option-cases d.outage) [
  | inr (o, down) ↦ absurd (err_ok (ap (λ t. t.1) (rw down at h)))
  | inl up ↦ elim (Bool-cases (any (has_email email) d.accounts)) [
    | inl old ↦ absurd (err_ok (ap (λ t. t.1) (rw old at (rw up at h))))
    | inr new ↦
        let done = rw new at (rw up at h) in
        (
          ap (λ t. t.1) done,
          rw (← ap (λ t. t.0) done) (
              joined_new email (d.users ++ new_user d ∷ []) d.accounts
                (record { user_id = (new_user d).id; email = email; password_hash = hash })
                (new_user d) new (==_refl email) (load_new d.users d.next_id d.now sound.given)),
        )
  ]
]

-- Let a password match its own hash, and let the tables be sound. After a registration that
-- succeeded, a login with the same email and password does, at any time, what giving a token to
-- that same user does whose token the registration gave.
pub register_login :
    (bcrypt : Bcrypt) (jwt : Jwt) (config : Config) (now later : ℕ) (d d' : Database)
    (email password token : String)
    → IsBcrypt bcrypt
    → IsSound d
    → register bcrypt jwt config storage now d email password ≡ (d', ok token)
    → (id : ℤ) × (generate_token jwt config now id ≡ ok token)
      × (login bcrypt jwt config storage later d' email password
          ≡ generate_token jwt config later id)
unfolding login storage
register_login bcrypt jwt config now later d d' email password token law sound h =
    let (hash, given, good, hashed, made) =
      register_parts bcrypt jwt config now d d' email password token h in
    let (own, found) = created_user bcrypt jwt config now d d' email hash token sound made in
    ((new_user d).id, own, rw given (rw good (rw found (rw (law password hash hashed) refl))))

joined_none :
    (email : String) (users : List User) (rest : List Account)
    → any (has_email email) rest ≡ false
    → joined email users rest ≡ err not_found
unfolding joined
joined_none email users [] h = refl
joined_none email users (b ∷ rest) h = elim (Bool-cases (has_email email b)) [
  | inl e ↦ absurd (cc (rw e at h))
  | inr e ↦ rw e (joined_none email users rest (rw e at h))
]

absent_email :
    (email : String) (d : Database)
    → any (has_email email) d.accounts ≡ false
    → (e : Error) × (get_comicshub_by_email d email ≡ err e)
unfolding get_comicshub_by_email
absent_email email d h = elim (Option-cases d.outage) [
  | inr (o, down) ↦ (failure "select user_comicshub user by email", rw down refl)
  | inl up ↦ (not_found, rw up (joined_none email d.users d.accounts h))
]

module _ (bcrypt : Bcrypt) (jwt : Jwt) (config : Config) (now : ℕ) (d : Database)
    (email password : String) where
  wrong_password :
      (hash : String) (u : User)
      → is_email email ≡ true
      → get_comicshub_by_email d email ≡ ok (u, hash)
      → bcrypt.compare hash password ≡ false
      → login bcrypt jwt config storage now d email password ≡ err invalid_credentials
  unfolding login storage
  wrong_password hash u good found bad = elim (Bool-cases (email == "" || password == "")) [
    | inl e ↦ rw e refl
    | inr e ↦ rw e (rw good (rw found (rw bad refl)))
  ]

  unknown_email :
      {e : Error}
      → is_email email ≡ true
      → get_comicshub_by_email d email ≡ err e
      → login bcrypt jwt config storage now d email password ≡ err invalid_credentials
  unfolding login storage
  unknown_email good absent = elim (Bool-cases (email == "" || password == "")) [
    | inl e ↦ rw e refl
    | inr e ↦ rw e (rw good (rw absent refl))
  ]

-- With two well-formed emails: a wrong password for an account that is there is refused like an
-- email that has no account.
pub login_refused_alike :
    (bcrypt : Bcrypt) (jwt : Jwt) (config : Config) (now : ℕ) (d : Database)
    (email other password wrong hash : String) (u : User)
    → is_email email ≡ true
    → is_email other ≡ true
    → get_comicshub_by_email d email ≡ ok (u, hash)
    → bcrypt.compare hash wrong ≡ false
    → any (has_email other) d.accounts ≡ false
    → login bcrypt jwt config storage now d email wrong
      ≡ login bcrypt jwt config storage now d other password
login_refused_alike bcrypt jwt config now d email other password wrong hash u good fine found bad
      absent =
    wrong_password bcrypt jwt config now d email wrong hash u good found bad
    ∙ sym
        (unknown_email bcrypt jwt config now d other password fine (absent_email other d absent).1)
