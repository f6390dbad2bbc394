-- ===== src/Update/Xkcd.antt =====
-- search-services/update/adapters/xkcd/xkcd.go: the client of xkcd.com. What `http.Client` does
-- with a URL is a parameter; a body is what the decoder of JSON makes of it.
pub mod Site
use Prim.Native.Char.{Char, code}
use Prim.Native.String.{◌++◌}
use microservice_comics.Base.{
  string_eq, ℕ, ℤ, String, Bool, true, false, not, ◌&&◌, Option, none, some, Result, ok, err, ◌>>=◌,
  ◌>>◌, reject_if, map_ok, ◌==◌, nat_beq, trim_space, strip_prefix, format_int, is_nonpositive,
  if◌then◌else◌,
}
use microservice_comics.Update.Model
use microservice_comics.Update.Model.{Error, failure, not_found, XkcdInfo}

abbrev is_there : Option String → Bool
is_there none = false
is_there (some s) = true

-- `strings.HasPrefix`
abbrev has_prefix : String → String → Bool
has_prefix prefix s = is_there (strip_prefix prefix s)

abbrev pub trim_slash : Char → String → String
trim_slash c String.[] = if nat_beq (code c) b'/' then "" else String.◌∷◌ c ""
trim_slash c (String.◌∷◌ d s) = String.◌∷◌ c (String.◌∷◌ d s)

-- `strings.TrimRight(s, "/")`
unfoldable pub trim_slashes : String → String
trim_slashes String.[] = ""
trim_slashes (String.◌∷◌ c s) = trim_slash c (trim_slashes s)

abbrev pub with_scheme : String → String
with_scheme url =
    if not (has_prefix "http://" url) && not (has_prefix "https://" url)
    then "https://" ++ url
    else url

-- The base URL of a client.
unfoldable pub new_client : String → Result Error String
unfolding strip_prefix trim_slashes
new_client url = do
  reject_if (url == "") (failure "empty base url specified")
  ok (trim_slashes (with_scheme url))

-- `res`
pub record Res : Type 0 where
  pub num : ℤ
  pub img : String
  pub title : String
  pub alt : String
  pub transcript : String

pub record HttpReply : Type 0 where
  pub status_code : ℕ
  pub body : Result Error Res

abbrev pub to_info : Res → XkcdInfo
to_info x = record {
  id = x.num;
  url = x.img;
  title = x.title;
  alt = x.alt;
  description = trim_space x.transcript;
}

abbrev pub info_or_status : HttpReply → Result Error XkcdInfo
info_or_status r =
    if nat_beq r.status_code 200
    then map_ok to_info r.body
    else if nat_beq r.status_code 404
    then err not_found
    else err (failure "xkcd: http")

module _ (fetch : String → Result Error HttpReply) (url : String) where
  unfoldable pub get : ℤ → Result Error XkcdInfo
  unfolding trim_space format_int
  get id = do r ← fetch (url ++ ("/" ++ (format_int id ++ "/info.0.json"))); info_or_status r

  unfoldable pub last_id : Result Error ℤ
  last_id = do
    r ← fetch (url ++ "/info.0.json")
    reject_if (not (nat_beq r.status_code 200)) (failure "xkcd latest: http")
    x ← r.body
    reject_if (is_nonpositive x.num) (failure "xkcd latest: invalid num")
    ok x.num

  -- `Client` as `core.XKCD`.
  unfoldable pub xkcd : Model.Xkcd
  unfolding get last_id
  xkcd = record { get = get; last_id = last_id }
