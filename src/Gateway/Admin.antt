-- ===== src/Gateway/Admin.antt =====
-- The superuser of search-services/api, from the login on: the routes, the middleware and the
-- handlers of the public server in front of search-services/update.
use microservice_comics.Base.{
  string_eq, ℕ, ◌+◌, ◌<◌, String, Bool, true, false, not, ◌||◌, List, [], ◌∷◌, Option, none, some,
  Result, ok, ◌>>◌, reject_if, ◌==◌, ==→≡, ◌≡◌, refl, sym, ap, ◌∙◌, arith,
}
use microservice_comics.Auth.Model.{Jwt, IsJwt}
use microservice_comics.Update.Model.{Error, Xkcd}
use microservice_comics.Update.Storage.{Database}
use microservice_comics.Update.Publisher.{Publisher}
use microservice_comics.Update.Server.{ServerState, serve}
use microservice_comics.Api.Clients.Update.{updater}
use microservice_comics.Api.Http.{Request, Response, Body, json}
use microservice_comics.Api.Handlers.{respond}
use microservice_comics.Api.Middleware.{
  LoginRequest, login_handler, unauthorized, read_token, superuser_secret, superuser_claims,
  generate_superuser_token, is_superuser_token, require_superuser,
}
use microservice_comics.Api.Mux.{found, best_match, routed, path_value}
use microservice_comics.Api.Routes.{Endpoint, login, public_routes}
use microservice_comics.Api.Server.{
  Settings, Services, Backend, Incoming, Moment, to_request, handle, serve_public, dispatched,
  on_update,
}
use microservice_comics.Gateway.Update.{core, drop_outcome, drop_response}

login_routed :
    (method : String) (path : List String)
    → method ≡ "POST"
    → path ≡ "api" ∷ "login" ∷ []
    → routed public_routes method path ≡ found login ""
unfolding public_routes best_match path_value
login_routed method path post here = rw post (rw here refl)

drop_routed :
    (method : String) (path : List String)
    → method ≡ "DELETE"
    → path ≡ "api" ∷ "db" ∷ []
    → routed public_routes method path ≡ found Endpoint.drop ""
unfolding public_routes best_match path_value
drop_routed method path deletes here = rw deletes (rw here refl)

-- The answer with a token.
abbrev pub granted : String → Response
granted token = json (Body.text token) 200

abbrev pub admin : Settings → LoginRequest
admin cfg = record { name = cfg.admin_user; password = cfg.admin_password }

both_hold : (a b : Bool) → (not a || not b) ≡ false → (a ≡ true) × (b ≡ true)
both_hold a b h = ground arith

text_of : Response → String
text_of r = elim r.body [ Body.text t ↦ t | _ ↦ "" ]

granted_injective : (s t : String) → granted s ≡ granted t → s ≡ t
unfolding text_of
granted_injective s t h = ap text_of h

module _ (jwt : Jwt) (cfg : Settings) (now : ℕ) (req : Request) where
  abbrev signed : String
  signed = generate_superuser_token jwt cfg.token_ttl now

  abbrev logs_in : Option LoginRequest → Response
  logs_in body = login_handler jwt cfg.admin_user cfg.admin_password cfg.token_ttl now req body

  allowed :
      (r : LoginRequest) (token : String) (bad : Bool)
      → (not (r.name == cfg.admin_user) || not (r.password == cfg.admin_password)) ≡ bad
      → respond (do reject_if bad unauthorized; ok (granted signed)) ≡ granted token
      → (some r ≡ some (admin cfg)) × (token ≡ signed)
  allowed r token true same h = absurd (omega (arith, ap (λ (r : Response). r.code) h))
  allowed r token false same h =
      let (name, password) = both_hold _ _ same in
      (
        λ i. some (record {
          name = ==→≡ r.name cfg.admin_user name i;
          password = ==→≡ r.password cfg.admin_password password i;
        }),
        sym (granted_injective signed token h),
      )

  -- Only the name and the password of the configuration are answered by a token, the signed one.
  login_granted :
      (body : Option LoginRequest) (token : String)
      → req.method ≡ "POST"
      → logs_in body ≡ granted token
      → (body ≡ some (admin cfg)) × (token ≡ signed)
  unfolding login_handler
  login_granted none token post h =
      absurd (omega (arith, ap (λ (r : Response). r.code) (rw post at h)))
  login_granted (some r) token post h = allowed r token _ refl (rw post at h)

superuser_passes :
    {S : Type 0} (jwt : Jwt) (law : IsJwt jwt) (ttl now later : ℕ) (h : Request → S → S × Response)
    (req : Request) (s : S)
    → read_token req ≡ some (generate_superuser_token jwt ttl now)
    → later < now + ttl
    → require_superuser jwt later h req s ≡ h req s
unfolding require_superuser is_superuser_token generate_superuser_token
superuser_passes jwt law ttl now later h req s sent fresh =
    rw sent (rw (law.accepts superuser_secret later (superuser_claims ttl now) fresh) refl)

-- The clients, with the update service at the other end of its one.
abbrev pub with_update :
    {A F : Type 0}
    → Services (ServerState (Bool × Database)) A F
    → Xkcd
    → (Bool × Database → (Bool × Database) × Result Error (Unit {0}))
    → Option Publisher
    → Services (ServerState (Bool × Database)) A F
with_update c xkcd update notifier = record c {
  updater = updater (serve (core xkcd update) notifier);
}

module _ {A F : Type 0} (jwt : Jwt) (law : IsJwt jwt) (cfg : Settings)
    (c : Services (ServerState (Bool × Database)) A F) (xkcd : Xkcd)
    (update : Bool × Database → (Bool × Database) × Result Error (Unit {0}))
    (notifier : Option Publisher) (m later : Moment)
    (b b' : Backend (ServerState (Bool × Database)) A F) where
  abbrev clients : Services (ServerState (Bool × Database)) A F
  clients = with_update c xkcd update notifier

  login_served :
      (i : Incoming)
      → i.method ≡ "POST"
      → i.path ≡ "api" ∷ "login" ∷ []
      → serve_public jwt cfg clients m i b ≡ (b, logs_in jwt cfg m.now (to_request i "") i.login)
  unfolding serve_public handle
  login_served i post here =
      ap (λ r. dispatched jwt cfg clients m i r b) (login_routed i.method i.path post here)

  drop_served :
      (j : Incoming)
      → j.method ≡ "DELETE"
      → j.path ≡ "api" ∷ "db" ∷ []
      → read_token (to_request j "") ≡ some (generate_superuser_token jwt cfg.token_ttl m.now)
      → later.now < m.now + cfg.token_ttl
      → serve_public jwt cfg clients later j b'
        ≡ on_update (λ s. drop_outcome notifier s.service.0 s.service.1.outage s) b'
  unfolding serve_public handle
  drop_served j deletes here sent fresh =
      ap (λ r. dispatched jwt cfg clients later j r b') (drop_routed j.method j.path deletes here)
      ∙ ap (λ (p : ServerState (Bool × Database) × Response). (record b' { update = p.0 }, p.1))
          (superuser_passes jwt law cfg.token_ttl m.now later.now _ (to_request j "") b'.update sent
              fresh
            ∙ drop_response xkcd update notifier b'.update)

  -- If the JWT library keeps its contract: a POST to /api/login that is answered by a token has
  -- sent the name and the password of the configuration, and changed nothing. With this token, until
  -- it expires, a DELETE of /api/db is answered by 500 and changes nothing while an update runs or
  -- the database does not answer; otherwise it leaves the table of comics empty, tries to publish
  -- one event if there is a publisher, and is answered by 200.
  pub admin_session :
      (i j : Incoming) (token : String)
      → i.method ≡ "POST"
      → i.path ≡ "api" ∷ "login" ∷ []
      → (serve_public jwt cfg clients m i b).1 ≡ granted token
      → j.method ≡ "DELETE"
      → j.path ≡ "api" ∷ "db" ∷ []
      → read_token (to_request j "") ≡ some token
      → later.now < m.now + cfg.token_ttl
      → (i.login ≡ some (admin cfg))
        × ((serve_public jwt cfg clients m i b).0 ≡ b)
        × (serve_public jwt cfg clients later j b'
            ≡ on_update (λ s. drop_outcome notifier s.service.0 s.service.1.outage s) b')
  admin_session i j token post login_path answered deletes drop_path sent fresh =
      let served = login_served i post login_path in
      let (known, signed) =
        login_granted jwt cfg m.now (to_request i "") i.login token post
          (sym (ap (λ p. p.1) served) ∙ answered) in
      (known, ap (λ p. p.0) served, drop_served j deletes drop_path (sent ∙ ap some signed) fresh)
