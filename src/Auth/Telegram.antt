-- ===== src/Auth/Telegram.antt =====
-- `UpsertTelegramUser` of search-services/auth/adapters/db/storage.go, statement by statement, with
-- another transaction that commits between its first SELECT and its INSERT.
use microservice_comics.Base.{
  int_eq, ◌+◌, ℤ, String, Bool, true, false, List, [], ◌∷◌, ◌++◌, map, Option, none, some, Result,
  ok, err, any, filter, if◌then◌else◌, ◌≡◌, refl, sym, ap, ◌∙◌, inl, inr, Bool-cases,
}
use microservice_comics.Auth.Model.{User, TelegramProfile, Error, failure}
use microservice_comics.Auth.Storage.{
  TelegramAccount, Database, new_user, load_user, has_tg_id, update_profile, upsert_telegram_user,
  upserted, committed,
}

-- The errors of the server that the function tells apart: 23505, and 25P02 of a transaction in
-- which a statement has failed.
pub data SqlError : Type 0 where
  unique_violation in_failed_transaction : SqlError

pub record Tx : Type 0 where
  pub rows : Database
  pub aborted : Bool

abbrev after : {A : Type 0} → Database × Result SqlError A → Tx × Result SqlError A
after (d, ok a) = (record { rows = d; aborted = false }, ok a)
after (d, err e) = (record { rows = d; aborted = true }, err e)

-- PostgreSQL runs no statement of a transaction in which one has failed.
abbrev statement :
    {A : Type 0} → (Database → Database × Result SqlError A) → Tx → Tx × Result SqlError A
statement run tx = if tx.aborted then (tx, err in_failed_transaction) else after (run tx.rows)

-- `if err != nil` after a statement: what to do next, or the error to return.
abbrev followed :
    {A B : Type 0}
    → (A → Tx → Tx × Result Error B)
    → (SqlError → Tx → Tx × Result Error B)
    → Tx × Result SqlError A
    → Tx × Result Error B
followed next failed (tx, ok a) = next a tx
followed next failed (tx, err e) = failed e tx

abbrev returns : {B : Type 0} → Error → SqlError → Tx → Tx × Result Error B
returns what e tx = (tx, err what)

abbrev user_ids : List TelegramAccount → Option ℤ
user_ids [] = none
user_ids (a ∷ rest) = some a.user_id

-- `sel`
abbrev select_user_id : TelegramProfile → Database → Option ℤ
select_user_id tg d = user_ids (filter (has_tg_id tg.tg_id) d.telegram)

abbrev insert_user : Database → Database × Result SqlError User
insert_user d =
    (record d { users = d.users ++ new_user d ∷ []; next_id = d.next_id + 1 }, ok (new_user d))

abbrev insert_telegram : TelegramProfile → ℤ → Database → Database × Result SqlError (Unit {0})
insert_telegram tg id d =
    if any (has_tg_id tg.tg_id) d.telegram
    then (d, err unique_violation)
    else (record d { telegram = d.telegram ++ record { user_id = id; profile = tg } ∷ [] }, ok tt)

-- `updateProfile` and `loadUser`. A scan of no row is an error of the client alone.
abbrev update_and_load : TelegramProfile → ℤ → Tx → Tx × Result Error User
update_and_load tg id tx =
    followed (λ done tx. (tx, load_user id tx.rows.users))
      (returns (failure "update user_telegram"))
      (statement (λ d. (record d { telegram = map (update_profile tg) d.telegram }, ok tt)) tx)

abbrev load_or_fail : TelegramProfile → Option ℤ → Tx → Tx × Result Error User
load_or_fail tg none tx = (tx, err (failure "reload user_telegram after conflict"))
load_or_fail tg (some id) tx = update_and_load tg id tx

-- What follows a failed INSERT.
abbrev after_conflict : TelegramProfile → SqlError → Tx → Tx × Result Error User
after_conflict tg unique_violation tx =
    followed (load_or_fail tg) (returns (failure "reload user_telegram after conflict"))
      (statement (λ d. (d, ok (select_user_id tg d))) tx)
after_conflict tg in_failed_transaction tx = (tx, err (failure "insert user_telegram"))

-- The function after its SELECT, which saw `seen`.
abbrev after_select : TelegramProfile → Option ℤ → Tx → Tx × Result Error User
after_select tg (some id) tx = update_and_load tg id tx
after_select tg none tx =
    followed
      (λ (u : User) tx.
        followed (λ done tx. (tx, ok u)) (after_conflict tg)
          (statement (insert_telegram tg u.id) tx))
      (returns (failure "insert users")) (statement insert_user tx)

-- `Commit`, or `Rollback`, which does not give numbers of a sequence back.
abbrev finished : Database → Tx × Result Error User → Database × Result Error User
finished d (tx, ok u) = (tx.rows, ok u)
finished d (tx, err e) = (record d { next_id = tx.rows.next_id }, err e)

-- `seen` is what the SELECT reads, `d` the database from then on.
unfoldable pub upsert_between : (seen d : Database) → TelegramProfile → Database × Result Error User
unfolding load_user
upsert_between seen d tg =
    finished d (after_select tg (select_user_id tg seen) (record { rows = d; aborted = false }))

none_filtered : {A : Type 0} (p : A → Bool) (xs : List A) → filter p xs ≡ [] → any p xs ≡ false
none_filtered p [] h = refl
none_filtered p (x ∷ xs) h = elim (Bool-cases (p x)) [
  | inl e ↦ absurd (cc (rw e at h))
  | inr e ↦ rw e (none_filtered p xs (rw e at h))
]

none_found : {A : Type 0} (p : A → Bool) (xs : List A) → any p xs ≡ false → filter p xs ≡ []
none_found p [] h = refl
none_found p (x ∷ xs) h = elim (Bool-cases (p x)) [
  | inl e ↦ absurd (cc (rw e at h))
  | inr e ↦ rw e (none_found p xs (rw e at h))
]

-- The INSERT of the account, by whether the Telegram id is there.
insert_refused :
    (tg : TelegramProfile) (id : ℤ) (d : Database)
    → any (has_tg_id tg.tg_id) d.telegram ≡ true
    → after (insert_telegram tg id d) ≡ (record { rows = d; aborted = true }, err unique_violation)
insert_refused tg id d h = rw h refl

insert_done :
    (tg : TelegramProfile) (id : ℤ) (d : Database)
    → any (has_tg_id tg.tg_id) d.telegram ≡ false
    → after (insert_telegram tg id d) ≡ (
      record {
        rows = record d { telegram = d.telegram ++ record { user_id = id; profile = tg } ∷ [] };
        aborted = false;
      },
      ok tt,
    )
insert_done tg id d h = rw h refl

-- The end of the function after the INSERT.
abbrev ended :
    Database → TelegramProfile → Tx × Result SqlError (Unit {0}) → Database × Result Error User
ended d tg t = finished d (followed (λ done tx. (tx, ok (new_user d))) (after_conflict tg) t)

abbrev with_user : Database → Database
with_user d = (insert_user d).0

-- If no other transaction commits in between, and the database answers, the statements do what the
-- transaction as one step does.
pub upsert_alone :
    (d : Database) (tg : TelegramProfile)
    → d.outage ≡ none
    → upsert_between d d tg ≡ upsert_telegram_user d tg
unfolding upsert_between upsert_telegram_user
upsert_alone d tg up =
    by_rows (filter (has_tg_id tg.tg_id) d.telegram) refl ∙ sym (by_outage d.outage up)
  where
    by_outage :
        (o : Option String)
        → o ≡ none
        → (elim o [
          | some e ↦ (d, err (failure "begin tx"))
          | none ↦ upserted d tg (filter (has_tg_id tg.tg_id) d.telegram)
        ])
          ≡ upserted d tg (filter (has_tg_id tg.tg_id) d.telegram)
    by_outage none h = refl
    by_outage (some e) h = absurd (cc h)

    loaded :
        (r : Result Error User)
        → finished d (
          record {
            rows = record d { telegram = map (update_profile tg) d.telegram };
            aborted = false;
          },
          r,
        )
          ≡ committed d (record d { telegram = map (update_profile tg) d.telegram }) r
    loaded (ok u) = refl
    loaded (err e) = refl

    by_rows :
        (found : List TelegramAccount)
        → filter (has_tg_id tg.tg_id) d.telegram ≡ found
        → finished d (after_select tg (user_ids found) (record { rows = d; aborted = false }))
          ≡ upserted d tg found
    by_rows (a ∷ rest) h = loaded (load_user a.user_id d.users)
    by_rows [] h = ap (ended d tg) (
        insert_done tg (new_user d).id (with_user d)
          (none_filtered (has_tg_id tg.tg_id) d.telegram h))

-- If another transaction commits the same Telegram id between the SELECT and the INSERT, the login
-- fails: the reload that is to follow the conflict is refused, and of the transaction only the
-- number that it took from the sequence of the ids stays.
pub conflict_refused :
    (seen d : Database) (tg : TelegramProfile)
    → any (has_tg_id tg.tg_id) seen.telegram ≡ false
    → any (has_tg_id tg.tg_id) d.telegram ≡ true
    → upsert_between seen d tg
      ≡ (record d { next_id = d.next_id + 1 }, err (failure "reload user_telegram after conflict"))
unfolding upsert_between
conflict_refused seen d tg absent present =
    rw (none_found (has_tg_id tg.tg_id) seen.telegram absent)
      (ap (ended d tg) (insert_refused tg (new_user d).id (with_user d) present))
