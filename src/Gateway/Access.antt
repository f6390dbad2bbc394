-- ===== src/Gateway/Access.antt =====
-- Who can change what through the public server of search-services/api: the middleware and the
-- routes of main.go together.
use microservice_comics.Base.{
  string_eq, ℕ, String, Bool, true, false, [], ◌∷◌, Option, none, some, ◌≡◌, ◌≢◌, ◌⊎◌, refl, ap,
  inl, inr, Option-cases, All,
}
use microservice_comics.Auth.Model.{Jwt}
use microservice_comics.Api.Http.{Request, Response}
use microservice_comics.Api.Middleware.{
  unauthorized, read_token, is_superuser_token, user_of, require_user, require_superuser,
}
use microservice_comics.Api.Mux.{literal, Route, Routed, no_path, wrong_method, found, routed}
use microservice_comics.Api.Mux.Laws.{routed_found, path_value_literals, post_only}
use microservice_comics.Api.Routes.{
  Endpoint, bot_telegram_login, favorites_list, favorites_add, favorites_delete, public_routes,
}
use microservice_comics.Api.Server.{
  Settings, Services, Backend, Incoming, Moment, to_request, handle, dispatched, serve_public,
}

-- Whether the request carries a valid token of the superuser.
unfoldable pub from_superuser : Jwt → ℕ → Incoming → Bool
from_superuser jwt now i = elim (read_token (to_request i "")) [
  | none ↦ false
  | some token ↦ is_superuser_token jwt now token
]

same_token :
    (i : Incoming) (id : String) → read_token (to_request i id) ≡ read_token (to_request i "")
unfolding read_token
same_token i id = refl

abbrev changes_accounts : Endpoint → Bool
changes_accounts Endpoint.register = true
changes_accounts bot_telegram_login = true
changes_accounts _ = false

-- A route of the public server that leads to a change of the accounts is the one of registrations.
abbrev IsGuarded : Route Endpoint → Type 0
IsGuarded r =
    (changes_accounts r.endpoint ≡ false)
    ⊎ ((r.method ≡ "POST") × (r.pattern ≡ literal "api" ∷ literal "auth" ∷ literal "register" ∷ []))

public_routes-IsGuarded : All IsGuarded public_routes
unfolding public_routes
public_routes-IsGuarded = (
  inl refl,
  (
    inl refl,
    (
      inl refl,
      (
        inl refl,
        (
          inl refl,
          (
            inl refl,
            (
              inl refl,
              (
                inl refl,
                (
                  inl refl,
                  (
                    inl refl,
                    (
                      inl refl,
                      (inr (refl, refl), (inl refl, (inl refl, (inl refl, (inl refl, tt))))),
                    ),
                  ),
                ),
              ),
            ),
          ),
        ),
      ),
    ),
  ),
)

not_changing :
    (i : Incoming) (e : Endpoint) (id : String)
    → (i.method ≢ "POST") ⊎ (i.path ≢ "api" ∷ "auth" ∷ "register" ∷ [])
    → routed public_routes i.method i.path ≡ found e id
    → changes_accounts e ≡ false
not_changing i e id other h =
    let (r, guard, same, value, method) =
      routed_found IsGuarded i.method i.path public_routes e id public_routes-IsGuarded h in
    elim guard [
      | inl fine ↦ rw (← same) fine
      | inr (post, pattern) ↦ absurd (elim other [
        | inl k ↦ k (post_only i.method (rw post at method))
        | inr k ↦ k (path_value_literals _ i.path id (rw pattern at value))
      ])
    ]

module _ {S : Type 0} (jwt : Jwt) (now : ℕ) (i : Incoming) (id : String) where
  superuser_refused :
      (h : Request → S → S × Response) (s : S)
      → from_superuser jwt now i ≡ false
      → require_superuser jwt now h (to_request i id) s ≡ (s, unauthorized)
  unfolding from_superuser require_superuser
  superuser_refused h s refused =
      rw (same_token i id) (elim (Option-cases (read_token (to_request i ""))) [
        | inl e ↦ rw e refl
        | inr (t, e) ↦ rw e (rw (rw (from_superuser, e) at refused) refl)
      ])

  user_refused :
      (secret : String) (h : Option ℕ → Request → S → S × Response) (s : S)
      → user_of jwt secret now (read_token (to_request i "")) ≡ none
      → require_user jwt secret now h (to_request i id) s ≡ (s, unauthorized)
  unfolding require_user
  user_refused secret h s refused = rw (same_token i id) (rw refused refl)

module _ {U A F : Type 0} (jwt : Jwt) (cfg : Settings) (c : Services U A F) (m : Moment)
    (i : Incoming) (b : Backend U A F) where
  handle_update :
      (e : Endpoint) (id : String)
      → from_superuser jwt m.now i ≡ false
      → (handle jwt cfg c m i e (to_request i id) b).0.update ≡ b.update
  unfolding handle
  handle_update Endpoint.update id refused =
      ap (λ t. t.0) (superuser_refused jwt m.now i id _ b.update refused)
  handle_update Endpoint.drop id refused =
      ap (λ t. t.0) (superuser_refused jwt m.now i id _ b.update refused)
  handle_update _ id refused = refl

  handle_favorites :
      (e : Endpoint) (id : String)
      → user_of jwt cfg.auth_jwt_secret m.now (read_token (to_request i "")) ≡ none
      → (handle jwt cfg c m i e (to_request i id) b).0.favorites ≡ b.favorites
  unfolding handle
  handle_favorites favorites_list id refused =
      ap (λ t. t.0) (user_refused jwt m.now i id cfg.auth_jwt_secret _ b.favorites refused)
  handle_favorites favorites_add id refused =
      ap (λ t. t.0) (user_refused jwt m.now i id cfg.auth_jwt_secret _ b.favorites refused)
  handle_favorites favorites_delete id refused =
      ap (λ t. t.0) (user_refused jwt m.now i id cfg.auth_jwt_secret _ b.favorites refused)
  handle_favorites _ id refused = refl

  handle_auth :
      (e : Endpoint) (id : String)
      → changes_accounts e ≡ false
      → (handle jwt cfg c m i e (to_request i id) b).0.auth ≡ b.auth
  unfolding handle
  handle_auth Endpoint.register id h = absurd (cc h)
  handle_auth bot_telegram_login id h = absurd (cc h)
  handle_auth _ id h = refl

  -- Without a valid token of the superuser, no request to the public server changes the state of
  -- the update service, whatever its method and path are.
  pub update_guarded :
      from_superuser jwt m.now i ≡ false → (serve_public jwt cfg c m i b).0.update ≡ b.update
  unfolding serve_public
  update_guarded refused = by_cases (routed public_routes i.method i.path)
    where
      by_cases : (r : Routed Endpoint) → (dispatched jwt cfg c m i r b).0.update ≡ b.update
      by_cases no_path = refl
      by_cases wrong_method = refl
      by_cases (found e id) = handle_update e id refused

  -- Without a token that names a user, no request to the public server changes the favorites,
  -- whatever its method and path are.
  pub favorites_guarded :
      user_of jwt cfg.auth_jwt_secret m.now (read_token (to_request i "")) ≡ none
      → (serve_public jwt cfg c m i b).0.favorites ≡ b.favorites
  unfolding serve_public
  favorites_guarded refused = by_cases (routed public_routes i.method i.path)
    where
      by_cases : (r : Routed Endpoint) → (dispatched jwt cfg c m i r b).0.favorites ≡ b.favorites
      by_cases no_path = refl
      by_cases wrong_method = refl
      by_cases (found e id) = handle_favorites e id refused

  -- No request to the public server changes the accounts, unless it is a POST to
  -- /api/auth/register.
  pub accounts_guarded :
      (i.method ≢ "POST") ⊎ (i.path ≢ "api" ∷ "auth" ∷ "register" ∷ [])
      → (serve_public jwt cfg c m i b).0.auth ≡ b.auth
  unfolding serve_public
  accounts_guarded other =
      by_cases (routed public_routes i.method i.path) (λ e id h. not_changing i e id other h)
    where
      by_cases :
          (r : Routed Endpoint)
          → ((e : Endpoint) (id : String) → r ≡ found e id → changes_accounts e ≡ false)
          → (dispatched jwt cfg c m i r b).0.auth ≡ b.auth
      by_cases no_path k = refl
      by_cases wrong_method k = refl
      by_cases (found e id) k = handle_auth e id (k e id refl)
