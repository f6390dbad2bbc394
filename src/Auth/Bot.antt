-- ===== src/Auth/Bot.antt =====
-- `BotLoginTelegram` of search-services/auth/core/service.go, called twice for one Telegram user.
use microservice_comics.Base.{
  int_eq, ℕ, ℤ, String, Option, false, List, [], ◌∷◌, ◌++◌, map, none, some, Result, ok, err,
  err_ok, ok_injective, ◌==◌, ==_refl, filter, is_nonpositive, ◌≡◌, refl, sym, ap, ◌∙◌, inl, inr,
  Bool-cases, Option-cases,
}
use microservice_comics.Auth.Model.{User, TelegramProfile, Error, failure, Bcrypt, Jwt}
use microservice_comics.Auth.Storage.{
  TelegramAccount, Database, new_user, has_tg_id, update_profile, load_user, upsert_telegram_user,
  upserted, committed, storage,
}
use microservice_comics.Auth.Service.{Config, generate_token, token_for, bot_login_telegram}
use microservice_comics.Auth.Accounts.{IsSound}
use microservice_comics.Auth.Login.{load_new}

-- The rows of a Telegram id after its profile was updated: the same users in the same order.
abbrev SameUser : List TelegramAccount → TelegramAccount → Type 0
SameUser found a =
    (b : TelegramAccount) × (rest : List TelegramAccount) × (found ≡ b ∷ rest)
    × (b.user_id ≡ a.user_id)

update_profile-SameUser :
    (tg : TelegramProfile) (rows : List TelegramAccount) (a : TelegramAccount)
    (rest : List TelegramAccount)
    → filter (has_tg_id tg.tg_id) rows ≡ a ∷ rest
    → SameUser (filter (has_tg_id tg.tg_id) (map (update_profile tg) rows)) a
update_profile-SameUser tg [] a rest h = absurd (cc h)
update_profile-SameUser tg (x ∷ rows) a rest h = elim (Bool-cases (x.profile.tg_id == tg.tg_id)) [
  | inl e ↦
      let same : x ≡ a = cc (rw e at h) in
      rw e (
        rw (==_refl tg.tg_id) (
          record x { profile = tg },
          filter (has_tg_id tg.tg_id) (map (update_profile tg) rows),
          refl,
          ap (λ (a : TelegramAccount). a.user_id) same,
        ))
  | inr e ↦ rw e (rw e (update_profile-SameUser tg rows a rest (rw e at h)))
]

new_row-SameUser :
    (tg : TelegramProfile) (rows : List TelegramAccount) (id : ℤ)
    → filter (has_tg_id tg.tg_id) rows ≡ []
    → filter (has_tg_id tg.tg_id) (rows ++ record { user_id = id; profile = tg } ∷ [])
      ≡ record { user_id = id; profile = tg } ∷ []
new_row-SameUser tg [] id h = rw (==_refl tg.tg_id) refl
new_row-SameUser tg (x ∷ rows) id h = elim (Bool-cases (x.profile.tg_id == tg.tg_id)) [
  | inl e ↦ absurd (cc (rw e at h))
  | inr e ↦ rw e (new_row-SameUser tg rows id (rw e at h))
]

-- The database answers, and has the user behind a Telegram id.
abbrev pub Knows : Database → ℤ → User → Type 0
Knows d id u =
    (d.outage ≡ none)
    × ((a : TelegramAccount) × (rest : List TelegramAccount) × (filter (has_tg_id id) d.telegram
          ≡ a ∷ rest)
        × (load_user a.user_id d.users ≡ ok u))

abbrev pub with_profile : TelegramProfile → Database → Database
with_profile tg d = record d { telegram = map (update_profile tg) d.telegram }

committed_parts :
    (before after d' : Database) (r : Result Error User) (u : User)
    → committed before after r ≡ (d', ok u)
    → (r ≡ ok u) × (after ≡ d')
committed_parts before after d' (ok v) u h = (ap (λ t. t.1) h, ap (λ t. t.0) h)
committed_parts before after d' (err e) u h = absurd (err_ok (ap (λ t. t.1) h))

upserted-Knows :
    (d d' : Database) (tg : TelegramProfile) (u : User) (found : List TelegramAccount)
    → d.outage ≡ none
    → filter (has_tg_id tg.tg_id) d.telegram ≡ found
    → IsSound d
    → upserted d tg found ≡ (d', ok u)
    → Knows d' tg.tg_id u
upserted-Knows d d' tg u [] up here sound h =
    let after = ap (λ t. t.0) h in
    let own : new_user d ≡ u = ok_injective (ap (λ t. t.1) h) in
    rw (← after) (
      up,
      (
        record { user_id = (new_user d).id; profile = tg },
        [],
        new_row-SameUser tg d.telegram (new_user d).id here,
        load_new d.users d.next_id d.now sound.given ∙ ap ok own,
      ),
    )
upserted-Knows d d' tg u (a ∷ rest) up here sound h =
    let (loaded, after) =
      committed_parts d (with_profile tg d) d' (load_user a.user_id d.users) u h in
    let (b, more, found, same) = update_profile-SameUser tg d.telegram a rest here in
    rw (← after) (up, (b, more, found, ap (λ (id : ℤ). load_user id d.users) same ∙ loaded))

upsert_up :
    (d : Database) (tg : TelegramProfile)
    → d.outage ≡ none
    → upsert_telegram_user d tg ≡ upserted d tg (filter (has_tg_id tg.tg_id) d.telegram)
unfolding upsert_telegram_user
upsert_up d tg up = by_outage d.outage up
  where
    by_outage :
        (o : Option String)
        → o ≡ none
        → (elim o [
          | some e ↦ (d, err (failure "begin tx"))
          | none ↦ upserted d tg (filter (has_tg_id tg.tg_id) d.telegram)
        ])
          ≡ upserted d tg (filter (has_tg_id tg.tg_id) d.telegram)
    by_outage none e = refl
    by_outage (some w) e = absurd (cc e)

upsert_down :
    (d d' : Database) (tg : TelegramProfile) (u : User) (o : String)
    → d.outage ≡ some o
    → upsert_telegram_user d tg ≡ (d', ok u)
    → ⊥
unfolding upsert_telegram_user
upsert_down d d' tg u o down h = err_ok (ap (λ t. t.1) (rw (upsert_telegram_user, down) at h))

upsert-Knows :
    (d d' : Database) (tg : TelegramProfile) (u : User)
    → IsSound d
    → upsert_telegram_user d tg ≡ (d', ok u)
    → Knows d' tg.tg_id u
upsert-Knows d d' tg u sound h = elim (Option-cases d.outage) [
  | inr (o, down) ↦ absurd (upsert_down d d' tg u o down h)
  | inl up ↦
      upserted-Knows d d' tg u (filter (has_tg_id tg.tg_id) d.telegram) up refl sound
        (sym (upsert_up d tg up) ∙ h)
]

upsert_known :
    (d : Database) (tg : TelegramProfile) (u : User)
    → Knows d tg.tg_id u
    → upsert_telegram_user d tg ≡ (with_profile tg d, ok u)
upsert_known d tg u (up, (a, rest, found, loaded)) =
    upsert_up d tg up ∙ (ap (upserted d tg) found ∙ ap (committed d (with_profile tg d)) loaded)

module _ (bcrypt : Bcrypt) (jwt : Jwt) (config : Config) where
  token_parts :
      (now : ℕ) (d' : Database) (token : String) (p : Database × Result Error User)
      → token_for bcrypt jwt config storage now (λ e. e) p ≡ (d', ok token)
      → (u : User) × (p ≡ (d', ok u)) × (generate_token jwt config now u.id ≡ ok token)
  token_parts now d' token (s, ok u) h =
      (u, ap (λ (e : Database). (e, ok u)) (ap (λ t. t.0) h), ap (λ t. t.1) h)
  token_parts now d' token (s, err e) h = absurd (err_ok (ap (λ t. t.1) h))

  -- Let the tables be sound. After a login of the bot for a Telegram user that succeeded, a login
  -- for the same Telegram id, on the tables that it left, does at any time what giving a token to
  -- that same user does whose token the first login gave; it adds no user, and the profile that is
  -- stored is the one that came last.
  pub bot_login_again :
      (now later : ℕ) (d d' : Database) (tg next : TelegramProfile) (token : String)
      → IsSound d
      → next.tg_id ≡ tg.tg_id
      → bot_login_telegram bcrypt jwt config storage now d tg ≡ (d', ok token)
      → (id : ℤ) × (generate_token jwt config now id ≡ ok token)
        × (bot_login_telegram bcrypt jwt config storage later d' next
            ≡ (with_profile next d', generate_token jwt config later id))
  unfolding bot_login_telegram storage
  bot_login_again now later d d' tg next token sound same h =
      elim (Bool-cases (is_nonpositive tg.tg_id)) [
        | inl bad ↦ absurd (err_ok (ap (λ t. t.1) (rw bad at h)))
        | inr fine ↦
            let (u, made, own) =
              token_parts now d' token (upsert_telegram_user d tg) (rw fine at h) in
            let known = upsert-Knows d d' tg u sound made in
            let again = upsert_known d' next u (rw same known) in
            let fine' : is_nonpositive next.tg_id ≡ false = rw same fine in
            (u.id, own, rw fine' (rw again refl))
      ]
