-- ===== src/Gateway/Served/Cycle.antt =====
-- Adding, listing and deleting a favorite through the public server of search-services/api.
use microservice_comics.Base.{
  string_eq, int_eq, nat_eq, ℕ, suc, ◌<◌, ◌≤◌, ◌^◌, ℤ, pos, String, Bool, true, false, not, ◌&&◌,
  ◌||◌, List, ◌∷◌, filter, Option, none, some, ◌==◌, atoi, atoi-nonempty, if◌then◌else◌, ◌≡◌, ◌≢◌,
  ◌↔◌, ◌⊎◌, refl, sym, ap, ◌∙◌, inl, inr, arith,
}
use microservice_comics.Auth.Model.{Jwt}
use microservice_comics.Search.Model.{Words}
use microservice_comics.Search.Index.{InvertedIndex}
use microservice_comics.Search.Storage.{ComicsRow}
use microservice_comics.Favorites.Storage.{Database, storage}
use microservice_comics.Favorites.Service.{delete, delete_code, list}
use microservice_comics.Favorites.Rows.{contains, is_pair, bad_pair, delete_refines, list_refines}
use microservice_comics.Api.Clients.Favorites.{delete_error}
use microservice_comics.Api.Http.{Response, FavoriteItemResponse, Body, json, refuse, bare}
use microservice_comics.Api.Handlers.Favorites.{delete_failure}
use microservice_comics.Api.Middleware.{read_token, user_of}
use microservice_comics.Api.Server.{
  Settings, Services, Backend, Incoming, Moment, to_request, handle, serve_public, dispatched,
}
use microservice_comics.Gateway.Favorites.{known}
use microservice_comics.Gateway.Served.{
  add_request, require_user-some, joined, add_left, add_served,
}
use microservice_comics.Gateway.Served.Requests.{
  list_request, delete_request, list_routed, delete_routed, Lists, shown_all, Lists-shown_all,
  list_answer, listed, delete_answer, deleted, token_of_request, token_of_delete, add-outage,
  delete-outage,
}

-- The pairs of the user after one was added, and after it was taken away again.
after_add :
    {P : Type 0} (old same : Bool) → (same ≡ true) ↔ P → ((old || same) ≡ true) ↔ ((old ≡ true) ⊎ P)
after_add true same h = (λ k. inl refl, λ k. refl)
after_add false same h = (λ k. inr (h.0 k), λ k. elim k [ inl e ↦ absurd (cc e) | inr p ↦ h.1 p ])

after_delete :
    {P : Type 0} (old same : Bool)
    → (same ≡ true) ↔ P
    → (((old || same) && not same) ≡ true) ↔ ((old ≡ true) × ¬ P)
after_delete true true h = (λ k. absurd (cc k), λ k. absurd (k.1 (h.0 refl)))
after_delete true false h = (λ k. (refl, λ p. absurd (cc (h.1 p))), λ k. refl)
after_delete false true h = (λ k. absurd (cc k), λ k. absurd (cc k.0))
after_delete false false h = (λ k. absurd (cc k), λ k. absurd (cc k.0))

chained : {P Q : Type 0} {a b : Bool} → P ↔ (a ≡ true) → a ≡ b → (b ≡ true) ↔ Q → P ↔ Q
chained h e k = (λ p. k.0 (sym e ∙ h.0 p), λ q. h.1 (e ∙ k.1 q))

module _ {U A : Type 0} (jwt : Jwt) (cfg : Settings) (c : Services U A Database) (intn : ℤ → ℤ)
    (rows : List ComicsRow) (words : Words) (index : InvertedIndex) (authorization : String)
    (uid : ℕ) (some_user : 1 ≤ uid) where
  abbrev server : Moment → Incoming → Backend U A Database → Backend U A Database × Response
  server m i b = serve_public jwt cfg (joined jwt cfg c intn rows words index) m i b

  abbrev header : Option String
  header = read_token (to_request (list_request authorization) "")

  list_served :
      (m : Moment) (b : Backend U A Database)
      → user_of jwt cfg.auth_jwt_secret m.now header ≡ some uid
      → server m (list_request authorization) b ≡ (b, list_answer (list storage b.favorites uid))
  unfolding serve_public handle
  list_served m b known =
      ap
        (λ r.
          dispatched jwt cfg (joined jwt cfg c intn rows words index) m (list_request authorization)
            r b)
        list_routed
      ∙ ap (λ (p : Database × Response). (record b { favorites = p.0 }, p.1))
          (require_user-some jwt cfg.auth_jwt_secret m.now _
              (to_request (list_request authorization) "") b.favorites uid known
            ∙ ap (λ r. (b.favorites, r)) (listed b.favorites uid some_user))

  -- What a list shows, while the database answers.
  list_shows :
      (m : Moment) (b : Backend U A Database)
      → user_of jwt cfg.auth_jwt_secret m.now header ≡ some uid
      → b.favorites.outage ≡ none
      → (items : List FavoriteItemResponse) × (server m (list_request authorization) b
          ≡ (b, json (Body.favorites items) 200))
        × ((k : ℤ) → Lists items k ↔ (contains b.favorites uid k ≡ true))
  list_shows m b known up =
      let (fs, reply, same) = list_refines b.favorites uid up some_user in
      (
        shown_all fs,
        list_served m b known ∙ ap (λ r. (b, list_answer r)) reply,
        λ k.
            let (to, from) = Lists-shown_all fs k in
            let (to', from') = same k in (λ h. to' (to h), λ h. from (from' h)),
      )

  module _ (segment : String) (n : ℕ) (given : atoi segment ≡ some (pos (suc n)))
      (small : suc n < 2 ^ 31) where
    delete_served :
        (m : Moment) (b : Backend U A Database)
        → user_of jwt cfg.auth_jwt_secret m.now header ≡ some uid
        → server m (delete_request authorization segment) b ≡ (
          record b { favorites = (delete storage b.favorites uid (pos (suc n))).0 },
          delete_answer (delete storage b.favorites uid (pos (suc n))).1,
        )
    unfolding serve_public handle
    delete_served m b known =
        let req = to_request (delete_request authorization segment) segment in
        ap
          (λ r.
            dispatched jwt cfg (joined jwt cfg c intn rows words index) m
              (delete_request authorization segment) r b)
          (delete_routed segment (atoi-nonempty segment (pos (suc n)) given))
        ∙ ap (λ (p : Database × Response). (record b { favorites = p.0 }, p.1))
            (require_user-some jwt cfg.auth_jwt_secret m.now _ req b.favorites uid (
                ap (user_of jwt cfg.auth_jwt_secret m.now) (token_of_delete authorization segment)
                ∙ known)
              ∙ deleted b.favorites uid n req some_user small given)

    is_pair_iff : (k : ℤ) → (is_pair uid (pos (suc n)) uid k ≡ true) ↔ (k ≡ pos (suc n))
    is_pair_iff k = ground arith

    -- The pair is there: it is taken away.
    delete_present :
        (d : Database)
        → d.outage ≡ none
        → contains d uid (pos (suc n)) ≡ true
        → (delete_answer (delete storage d uid (pos (suc n))).1 ≡ bare 204)
          × ((k : ℤ)
              → contains (delete storage d uid (pos (suc n))).0 uid k
                ≡ (contains d uid k && not (is_pair uid (pos (suc n)) uid k)))
    unfolding delete_failure delete_error delete_code
    delete_present d up there =
        let (reply, pairs) = delete_refines d uid (pos (suc n)) up in
        let fine : bad_pair uid (pos (suc n)) ≡ false = ground arith in
        (rw reply (rw fine (rw there refl)), λ k. pairs uid k ∙ rw fine (rw there refl))

    module _ (adding listing deleting relisting : Moment) (b : Backend U A Database) (r : ComicsRow)
        (rs : List ComicsRow)
        (known_add : user_of jwt cfg.auth_jwt_secret adding.now header ≡ some uid)
        (known_list : user_of jwt cfg.auth_jwt_secret listing.now header ≡ some uid)
        (known_delete : user_of jwt cfg.auth_jwt_secret deleting.now header ≡ some uid)
        (known_relist : user_of jwt cfg.auth_jwt_secret relisting.now header ≡ some uid)
        (up : b.favorites.outage ≡ none)
        (here : filter (λ r. r.id == pos (suc n)) rows ≡ r ∷ rs) where
      abbrev pub added : Backend U A Database
      added = (server adding (add_request authorization segment) b).0

      abbrev pub removed : Backend U A Database
      removed = (server deleting (delete_request authorization segment) added).0

      known_token :
          user_of jwt cfg.auth_jwt_secret adding.now
            (read_token (to_request (add_request authorization segment) segment))
          ≡ some uid
      known_token =
          ap (user_of jwt cfg.auth_jwt_secret adding.now) (token_of_request authorization segment)
          ∙ known_add

      added_pairs :
          (k : ℤ)
          → contains added.favorites uid k
            ≡ (contains b.favorites uid k || is_pair uid (pos (suc n)) uid k)
      added_pairs k =
          (add_served jwt cfg c intn rows words index adding b authorization segment uid n
              known_token given r rs some_user small up here).1
            uid k

      added_up : added.favorites.outage ≡ none
      added_up =
          ap (λ (d : Database). d.outage)
            (add_left jwt cfg c intn rows words index adding b authorization segment uid n
              known_token given r rs some_user small up here)
          ∙ add-outage b.favorites uid (pos (suc n)) up

      added_there : contains added.favorites uid (pos (suc n)) ≡ true
      added_there =
          added_pairs (pos (suc n))
          ∙ (after_add (contains b.favorites uid (pos (suc n))) _ (is_pair_iff (pos (suc n)))).1
              (inr refl)

      removed_lem :
          removed
          ≡ record added { favorites = (delete storage added.favorites uid (pos (suc n))).0 }
      removed_lem = ap (λ t. t.0) (delete_served deleting added known_delete)

      removed_up : removed.favorites.outage ≡ none
      removed_up =
          ap (λ (t : Backend U A Database). t.favorites.outage) removed_lem
          ∙ delete-outage added.favorites uid (pos (suc n)) added_up

      removed_pairs :
          (k : ℤ)
          → contains removed.favorites uid k ≡ (
              (contains b.favorites uid k || is_pair uid (pos (suc n)) uid k)
              && not (is_pair uid (pos (suc n)) uid k))
      removed_pairs k =
          ap (λ (t : Backend U A Database). contains t.favorites uid k) removed_lem
          ∙ ((delete_present added.favorites added_up added_there).1 k
              ∙ ap (λ old. old && not (is_pair uid (pos (suc n)) uid k)) (added_pairs k))

      -- One user adds a comic that the search service has, with a number below 2^31, lists the
      -- favorites, deletes the comic and lists again, with a header whose token names the user each
      -- time, while the databases answer. The first request is answered by 409 if the user had the
      -- comic, and else by 204. The first list has what the user had and the comic. The comic is
      -- deleted with 204, and the second list has what the user had but the comic. A list changes
      -- nothing.
      pub favorite_cycle :
          ((server adding (add_request authorization segment) b).1 ≡ (
            if contains b.favorites uid (pos (suc n))
            then refuse "already exists" 409
            else bare 204))
          × ((items : List FavoriteItemResponse) × (server listing
                  (list_request authorization)
                  added
                ≡ (added, json (Body.favorites items) 200))
              × ((k : ℤ)
                  → Lists items k ↔ ((contains b.favorites uid k ≡ true) ⊎ (k ≡ pos (suc n)))))
          × ((server deleting (delete_request authorization segment) added).1 ≡ bare 204)
          × ((items : List FavoriteItemResponse) × (server relisting
                  (list_request authorization)
                  removed
                ≡ (removed, json (Body.favorites items) 200))
              × ((k : ℤ)
                  → Lists items k ↔ ((contains b.favorites uid k ≡ true) × (k ≢ pos (suc n)))))
      favorite_cycle =
          let (items, reply, same) = list_shows listing added known_list added_up in
          let (left, answer, kept) = list_shows relisting removed known_relist removed_up in
          (
            (add_served jwt cfg c intn rows words index adding b authorization segment uid n
                known_token given r rs some_user small up here).0,
            (
              items,
              reply,
              λ k.
                  chained (same k) (added_pairs k)
                    (after_add (contains b.favorites uid k) _ (is_pair_iff k)),
            ),
            ap (λ t. t.1) (delete_served deleting added known_delete)
                ∙ (delete_present added.favorites added_up added_there).0,
            (
              left,
              answer,
              λ k.
                  chained (kept k) (removed_pairs k)
                    (after_delete (contains b.favorites uid k) _ (is_pair_iff k)),
            ),
          )
