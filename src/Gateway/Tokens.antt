-- ===== src/Gateway/Tokens.antt =====
-- Who gets past the middleware of search-services/api with which token: the two kinds of tokens do
-- not stand in for each other.
use microservice_comics.Base.{
  string_eq, ℕ, ◌+◌, ◌-◌, ◌<◌, ◌^◌, ◌≤◌, ℤ, pos, negsuc, String, Bool, true, false, Option, none,
  some, ok, >>=-eq-ok, ok_injective, err_ok, reject_if, ◌≡◌, ◌≢◌, refl, sym, ap, inl, inr, arith,
  Bool-cases, ◌==◌, ==→≡, nat_beq, ltb_ℤ, is_nonpositive, to_u32, format_u32, starts_with_digit,
  format_u32_lem,
}
use microservice_comics.Auth.Model.{Claims, Jwt, IsJwt}
use microservice_comics.Auth.Service.{Config, claims_for, generate_token}
use microservice_comics.Api.Http.{Request, Response}
use microservice_comics.Api.Middleware.{
  unauthorized, read_token, nonzero_user, is_superuser, superuser_secret, generate_superuser_token,
  is_superuser_token, user_of, require_user, require_superuser,
}

reject_if-ok : {E : Type 0} (b : Bool) (e : E) (u : Unit {0}) → reject_if b e ≡ ok u → b ≡ false
reject_if-ok true e u h = absurd (err_ok h)
reject_if-ok false e u h = refl

-- A token that was given out names the user.
pub generated :
    (jwt : Jwt) (config : Config) (now : ℕ) (id : ℤ) (token : String)
    → generate_token jwt config now id ≡ ok token
    → (id ≡ pos (to_u32 id))
      × (1 ≤ to_u32 id)
      × (token ≡ jwt.sign config.jwt_secret (claims_for config now (to_u32 id)))
unfolding generate_token
generated jwt config now id token h =
    let (u, positive, h1) = >>=-eq-ok (reject_if (is_nonpositive id) _) _ h in
    let (v, bounded, h2) = >>=-eq-ok (reject_if _ _) _ h1 in
    let p = reject_if-ok _ _ u positive in
    let b = reject_if-ok _ _ v bounded in (fits id p b, nonzero id p b, sym (ok_injective h2))
  where
    fits :
        (z : ℤ) → is_nonpositive z ≡ false → ltb_ℤ (pos (2 ^ 32 - 1)) z ≡ false → z ≡ pos (to_u32 z)
    fits (pos n) p b = ap pos (ground arith)
    fits (negsuc n) p b = cc

    nonzero : (z : ℤ) → is_nonpositive z ≡ false → ltb_ℤ (pos (2 ^ 32 - 1)) z ≡ false → 1 ≤ to_u32 z
    nonzero (pos n) p b = ground arith
    nonzero (negsuc n) p b = cc

-- Time does not matter to whether a user gets a token.
pub generate_token_later :
    (jwt : Jwt) (config : Config) (now later : ℕ) (id : ℤ) (token : String)
    → generate_token jwt config now id ≡ ok token
    → generate_token jwt config later id
      ≡ ok (jwt.sign config.jwt_secret (claims_for config later (to_u32 id)))
unfolding generate_token
generate_token_later jwt config now later id token h =
    let (u, positive, h1) = >>=-eq-ok (reject_if (is_nonpositive id) _) _ h in
    let (v, bounded, h2) = >>=-eq-ok (reject_if _ _) _ h1 in
    let p : is_nonpositive id ≡ false = reject_if-ok _ _ u positive in
    let b : ltb_ℤ (pos (2 ^ 32 - 1)) id ≡ false = reject_if-ok _ _ v bounded in rw p (rw b refl)

not_superuser : (n : ℕ) → format_u32 n ≢ "superuser"
not_superuser n h = cc (ap starts_with_digit (sym h), format_u32_lem n)

decimal_subject : (n : ℕ) → (format_u32 n == "superuser") ≡ false
decimal_subject n = elim (Bool-cases (format_u32 n == "superuser")) [
  | inl e ↦ absurd (not_superuser n (==→≡ (format_u32 n) "superuser" e))
  | inr e ↦ e
]

-- What can be read as nothing but `claims`.
abbrev ReadsAs : Option Claims → Claims → Type 0
ReadsAs o claims = (c : Claims) → o ≡ some c → c ≡ claims

other_subject :
    (o : Option Claims) (claims : Claims)
    → ReadsAs o claims
    → (claims.subject == "superuser") ≡ false
    → is_superuser o ≡ false
other_subject none claims read h = refl
other_subject (some c) claims read h = rw (read c refl) h

no_user :
    (o : Option Claims) (claims : Claims)
    → ReadsAs o claims
    → claims.user_id ≡ none
    → nonzero_user o ≡ none
no_user none claims read h = refl
no_user (some c) claims read h = rw (read c refl) (rw h refl)

module _ (jwt : Jwt) (law : IsJwt jwt) where
  -- If the JWT library keeps its contract: a user's token never opens what is for the superuser,
  -- whatever the secrets are.
  pub user_token_refused :
      {S : Type 0} (config : Config) (now later : ℕ) (id : ℤ) (token : String)
      (handler : Request → S → S × Response) (req : Request) (s : S)
      → generate_token jwt config now id ≡ ok token
      → read_token req ≡ some token
      → require_superuser jwt later handler req s ≡ (s, unauthorized)
  unfolding require_superuser is_superuser_token
  user_token_refused config now later id token handler req s given sent =
      let (fits, known, signed) = generated jwt config now id token given in
      let claims = claims_for config now (to_u32 id) in
      let refused : is_superuser (jwt.parse superuser_secret later token) ≡ false = rw signed (
        other_subject _ claims
          (λ c h. law.reads superuser_secret config.jwt_secret later claims c h)
          (decimal_subject (to_u32 id))) in
      rw sent (rw refused refl)

  -- If the JWT library keeps its contract: the superuser's token is refused where a user is
  -- required, whatever the secret is.
  pub superuser_token_refused :
      {S : Type 0} (secret : String) (ttl now later : ℕ)
      (handler : Option ℕ → Request → S → S × Response) (req : Request) (s : S)
      → read_token req ≡ some (generate_superuser_token jwt ttl now)
      → require_user jwt secret later handler req s ≡ (s, unauthorized)
  unfolding require_user user_of generate_superuser_token
  superuser_token_refused secret ttl now later handler req s sent =
      let refused =
        no_user (jwt.parse secret later (generate_superuser_token jwt ttl now)) _
          (λ c h. law.reads secret superuser_secret later _ c h) refl in
      rw sent (rw refused refl)

  -- The user of a token that was given out, until it expires.
  pub user_of-generate_token :
      (config : Config) (now later : ℕ) (id : ℤ) (token : String)
      → generate_token jwt config now id ≡ ok token
      → later < now + config.token_ttl
      → user_of jwt config.jwt_secret later (some token) ≡ some (to_u32 id)
  unfolding user_of
  user_of-generate_token config now later id token given fresh =
      let (fits, known, signed) = generated jwt config now id token given in
      let claims = claims_for config now (to_u32 id) in
      let read : jwt.parse config.jwt_secret later token ≡ some claims =
        rw signed (law.accepts config.jwt_secret later claims fresh) in
      let some_id : nat_beq (to_u32 id) 0 ≡ false = ground arith in rw read (rw some_id refl)

  -- If the JWT library keeps its contract: until it expires, a user's token in the header gets the
  -- request to the handler, with the user's id.
  pub user_token_accepted :
      {S : Type 0} (config : Config) (now later : ℕ) (id : ℤ) (token : String)
      (handler : Option ℕ → Request → S → S × Response) (req : Request) (s : S)
      → generate_token jwt config now id ≡ ok token
      → read_token req ≡ some token
      → later < now + config.token_ttl
      → (uid : ℕ) × (id ≡ pos uid)
        × (require_user jwt config.jwt_secret later handler req s ≡ handler (some uid) req s)
  unfolding require_user
  user_token_accepted config now later id token handler req s given sent fresh =
      let (fits, known, signed) = generated jwt config now id token given in
      (
        to_u32 id,
        fits,
        rw sent (rw (user_of-generate_token config now later id token given fresh) refl),
      )
