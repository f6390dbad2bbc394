-- ===== src/Auth/Main.antt =====
-- search-services/auth/main.go: what `run` does until it serves. What a call to the outside replies
-- is a parameter.
use microservice_comics.Base.{
  string_eq, zero, suc, ◌≤◌, ℤ, pos, negsuc, String, Result, ok, err_ok, ok_injective, >>=-eq-ok,
  ◌>>=◌, ◌>>◌, map_err, map_err_ok, reject_if, ◌==◌, ◌≡◌, ap, arith,
}
use microservice_comics.Auth.Model.{Error, failure}
use microservice_comics.Auth.Service
use microservice_comics.Auth.Service.{generate_token, new_service}

pub record Config : Type 0 where
  pub address : String
  pub db_address : String
  pub jwt_secret : String
  pub token_ttl : ℤ

-- `db.New`, `Migrate` and `net.Listen`.
pub record Outside : Type 0 where
  pub connect_db : String → Result Error (Unit {0})
  pub migrate : Result Error (Unit {0})
  pub listen : String → Result Error (Unit {0})

abbrev because : {A : Type 0} → String → Result Error A → Result Error A
because what r = map_err (λ e. failure what) r

unfoldable pub run : Config → Outside → Result Error Service.Config
unfolding new_service
run cfg out = do
  because "failed to connect to db" (out.connect_db cfg.db_address)
  because "failed to migrate db" out.migrate
  service ← because "failed to create auth service" (new_service cfg.jwt_secret cfg.token_ttl)
  because "failed to listen" (out.listen cfg.address)
  ok service

some_ttl :
    (secret : String) (ttl : ℤ) (c : Service.Config)
    → new_service secret ttl ≡ ok c
    → 1 ≤ c.token_ttl
unfolding new_service
some_ttl secret (pos zero) c h =
    let (u, full, rest) = >>=-eq-ok (reject_if (secret == "") (failure "empty jwt secret")) _ h in
    absurd (err_ok rest)
some_ttl secret (pos (suc n)) c h =
    let (u, full, rest) = >>=-eq-ok (reject_if (secret == "") (failure "empty jwt secret")) _ h in
    let same = ap (λ (c : Service.Config). c.token_ttl) (ok_injective rest) in omega (arith, same)
some_ttl secret (negsuc n) c h =
    let (u, full, rest) = >>=-eq-ok (reject_if (secret == "") (failure "empty jwt secret")) _ h in
    absurd (err_ok rest)

-- The tokens of a server that has started do not expire before they are given out.
pub run-token_ttl :
    (cfg : Config) (out : Outside) (s : Service.Config) → run cfg out ≡ ok s → 1 ≤ s.token_ttl
unfolding run
run-token_ttl cfg out s h =
    let (a, db, h1) =
      >>=-eq-ok (because "failed to connect to db" (out.connect_db cfg.db_address)) _ h in
    let (b, migrated, h2) = >>=-eq-ok (because "failed to migrate db" out.migrate) _ h1 in
    let (c, made, h3) =
      >>=-eq-ok (because "failed to create auth service" (new_service cfg.jwt_secret cfg.token_ttl))
        _ h2 in
    let (d, listening, h4) = >>=-eq-ok (because "failed to listen" (out.listen cfg.address)) _ h3 in
    let t =
      some_ttl cfg.jwt_secret cfg.token_ttl c
        (map_err_ok _ (new_service cfg.jwt_secret cfg.token_ttl) made) in
    rw (← ok_injective h4) t
