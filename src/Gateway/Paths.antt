-- ===== src/Gateway/Paths.antt =====
-- The paths of comics at the public server of search-services/api: main.go registers two patterns
-- that match /api/comics/random.
use microservice_comics.Base.{
  string_eq, String, false, [], ◌∷◌, ◌==◌, ==→≡, if◌then◌else◌, ◌≡◌, ◌≢◌, refl, inl, inr,
  Bool-cases,
}
use microservice_comics.Api.Mux.{found, best_match, routed, path_value}
use microservice_comics.Api.Routes.{comic_by_id, random_comic, public_routes}

pub not_empty : (s : String) → s ≢ "" → (s == "") ≡ false
not_empty s full = elim (Bool-cases (s == "")) [ inl e ↦ absurd (full (==→≡ s "" e)) | inr e ↦ e ]

-- A GET of /api/comics/ and one more segment is the request for a random comic if the segment is
-- `random`, and else, if it is not empty, the request for the comic with the segment as its id.
pub comics_routed :
    (segment : String)
    → segment ≢ ""
    → routed public_routes "GET" ("api" ∷ "comics" ∷ segment ∷ [])
      ≡ (if "random" == segment then found random_comic "" else found comic_by_id segment)
unfolding public_routes best_match path_value
comics_routed segment full = elim (Bool-cases ("random" == segment)) [
  | inl e ↦ rw (not_empty segment full) (rw e refl)
  | inr e ↦ rw (not_empty segment full) (rw e refl)
]
