-- ===== src/Search/Model.antt =====
-- search-services/search/core: models.go, errors.go and ports.go.
use microservice_comics.Base.{ℤ, String, List, [], ◌∷◌, ◌++◌, ◌≢◌, All, Result}
use microservice_comics.Base.Grpc.{Code}

pub record Comics : Type 0 where
  pub id : ℤ
  pub url : String
  pub title : List String
  pub alt : List String
  pub words : List String

-- The sentinels of errors.go, a gRPC status that a client passes on, and any other error, which
-- no caller tells apart.
pub data Error : Type 0 where
  empty_phrase to_large_limit unavailable bad_arguments none_phrase comic_not_found : Error
  status : Code → Error
  failure : String → Error

-- The ports, at one state of the database. A page is `get_all offset limit`.
pub record Db : Type 0 where
  pub find : List String → Result Error (List Comics)
  pub all : Result Error (List Comics)
  pub ping : Result Error (Unit {0})
  pub get_by_id : ℤ → Result Error Comics
  pub get_all : ℤ → ℤ → Result Error (List Comics)
  pub count : Result Error ℤ

pub record Words : Type 0 where
  pub norm : String → Result Error (List String)

-- All tokens of a comic.
abbrev pub tokens_of : Comics → List String
tokens_of c = c.title ++ (c.alt ++ c.words)

-- `id` is a primary key.
abbrev pub HasDistinctIds : List Comics → Type 0
HasDistinctIds [] = Unit
HasDistinctIds (c ∷ cs) = All (λ d. c.id ≢ d.id) cs × HasDistinctIds cs
