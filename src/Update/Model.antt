-- ===== src/Update/Model.antt =====
-- search-services/update/core: models.go, errors.go and ports.go.
use microservice_comics.Base.{ℤ, String, List, Result}
use microservice_comics.Base.Grpc.{Code}

pub data ServiceStatus : Type 0 where
  running idle : ServiceStatus

pub record DbStats : Type 0 where
  pub words_total : ℤ
  pub words_unique : ℤ
  pub comics_fetched : ℤ

pub record ServiceStats : Type 0 where
  pub db_stats : DbStats
  pub comics_total : ℤ

pub record Comics : Type 0 where
  pub id : ℤ
  pub url : String
  pub title : List String
  pub alt : List String
  pub words : List String

pub record XkcdInfo : Type 0 where
  pub id : ℤ
  pub url : String
  pub title : String
  pub alt : String
  pub description : String

-- The sentinels of errors.go, a gRPC status that a client passes on, and any other error.
pub data Error : Type 0 where
  bad_arguments already_exists not_found unavailable : Error
  status : Code → Error
  failure : String → Error

-- The ports. `S` is the state of the database.
pub record Db (S : Type 0) : Type 0 where
  pub add : S → Comics → S × Result Error (Unit {0})
  pub stats : S → Result Error DbStats
  pub drop : S → S × Result Error (Unit {0})
  pub ids : S → Result Error (List ℤ)

pub record Xkcd : Type 0 where
  pub get : ℤ → Result Error XkcdInfo
  pub last_id : Result Error ℤ

pub record Words : Type 0 where
  pub norm : String → Result Error (List String)
