-- ===== src/Api/Model.antt =====
-- search-services/api/core: models.go, errors.go and the port of the search in ports.go.
use microservice_comics.Base.{ℕ, ℤ, String, List, Result}
use microservice_comics.Base.Grpc.{Code}

-- The sentinels of errors.go, and the gRPC error that a client passes on.
pub data Error : Type 0 where
  bad_arguments already_exists unavailable invalid_credentials invalid_email not_found : Error
  status : Code → Error

pub record SearchComic : Type 0 where
  pub id : ℤ
  pub url : String

pub record SearchResult : Type 0 where
  pub comics : List SearchComic
  pub total : ℤ

pub record Searcher : Type 0 where
  pub find : String → ℕ → Result Error SearchResult
  pub indexed_search : String → ℕ → Result Error SearchResult
  pub ping : Result Error (Unit {0})
  pub get_comic : ℤ → Result Error SearchComic
  pub random_comic : Result Error SearchComic
  pub list_comics : ℕ → ℕ → Result Error SearchResult

pub data UpdateStatus : Type 0 where
  unknown idle running : UpdateStatus

pub record UpdateStats : Type 0 where
  pub words_total : ℤ
  pub words_unique : ℤ
  pub comics_fetched : ℤ
  pub comics_total : ℤ

pub record TelegramProfile : Type 0 where
  pub tg_id : ℤ
  pub username : String
  pub first_name : String
  pub last_name : String

pub record FavoriteItem : Type 0 where
  pub comic_id : ℤ
  pub created_at_unix : ℤ

-- The other ports. A call may change the state `S` of the service behind it.
pub record Updater (S : Type 0) : Type 0 where
  pub update : S → S × Result Error (Unit {0})
  pub stats : S → Result Error UpdateStats
  pub get_status : S → Result Error UpdateStatus
  pub drop : S → S × Result Error (Unit {0})
  pub ping : S → Result Error (Unit {0})

pub record Auth (S : Type 0) : Type 0 where
  pub register : S → String → String → S × Result Error String
  pub login : S → String → String → Result Error String
  pub bot_login_telegram : S → TelegramProfile → S × Result Error String
  pub ping : S → Result Error (Unit {0})

pub record Favorites (S : Type 0) : Type 0 where
  pub add : S → ℕ → ℤ → S × Result Error (Unit {0})
  pub delete : S → ℕ → ℤ → S × Result Error (Unit {0})
  pub list : S → ℕ → Result Error (List FavoriteItem)
  pub ping : S → Result Error (Unit {0})
