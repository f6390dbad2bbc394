-- ===== src/Favorites/Model.antt =====
-- search-services/favorites/core: models.go, errors.go and ports.go.
use microservice_comics.Base.{ℕ, ℤ, String, List, Result}

-- `created_at` is a time in seconds.
pub record Favorite : Type 0 where
  pub comic_id : ℤ
  pub created_at : ℤ

pub data Error : Type 0 where
  already_exists not_found invalid_args : Error
  failure : String → Error

-- The port; `S` is the state of the database.
pub record Db (S : Type 0) : Type 0 where
  pub add : S → ℕ → ℤ → S × Result Error (Unit {0})
  pub delete : S → ℕ → ℤ → S × Result Error (Unit {0})
  pub list : S → ℕ → Result Error (List Favorite)
  pub ping : S → Result Error (Unit {0})
