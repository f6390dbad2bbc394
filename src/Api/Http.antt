-- ===== src/Api/Http.antt =====
-- What a handler reads of a request and writes as a response: payloads.go and pkg/res/res.go of
-- search-services/api. Decoding of a JSON body is Go's, and enters with the request.
use microservice_comics.Base.{ℕ, ℤ, String, List}

pub record Request : Type 0 where
  pub method : String
  pub authorization : String
  pub query : String → String
  pub path_id : String

pub record ComicResponse : Type 0 where
  pub id : ℤ
  pub url : String

pub record UpdateStatsResponse : Type 0 where
  pub words_total : ℤ
  pub words_unique : ℤ
  pub comics_fetched : ℤ
  pub comics_total : ℤ

pub record FavoriteItemResponse : Type 0 where
  pub comic_id : ℤ
  pub created_at_unix : ℤ

pub data Body : Type 0 where
  nothing : Body
  text error_text status_text token : String → Body
  replies : List (String × String) → Body
  stats : UpdateStatsResponse → Body
  comic : ComicResponse → Body
  search : List ComicResponse → ℤ → Body
  favorites : List FavoriteItemResponse → Body

pub record Response : Type 0 where
  pub code : ℕ
  pub body : Body

-- `res.Json(w, data, statusCode)`.
abbrev pub json : Body → ℕ → Response
json body code = record { code = code; body = body }

-- `res.Json(w, errorResponse{Error: message}, statusCode)`.
abbrev pub refuse : String → ℕ → Response
refuse message code = json (error_text message) code

-- `w.WriteHeader(code)` alone.
abbrev pub bare : ℕ → Response
bare code = json nothing code
