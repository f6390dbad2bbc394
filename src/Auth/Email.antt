-- ===== src/Auth/Email.antt =====
-- `emailRe` of search-services/auth/core/service.go, as a matcher:
-- `^[A-Za-z0-9._%+\-]+@[A-Za-z0-9.\-]+\.[A-Za-z]{2,}$`.
use Prim.Native.Char.{code}
use microservice_comics.Base.{
  ◌≡◌, refl, ℕ, String, Bool, true, false, ◌&&◌, ◌||◌, Result, ok, err, leb, nat_beq, if◌then◌else◌,
}
use microservice_comics.Auth.Model.{Error, invalid_email}

abbrev is_letter : ℕ → Bool
is_letter c = (leb b'A' c && leb c b'Z') || (leb b'a' c && leb c b'z')

abbrev is_host_char : ℕ → Bool
is_host_char c = is_letter c || (leb b'0' c && leb c b'9') || nat_beq c b'.' || nat_beq c b'-'

abbrev is_local_char : ℕ → Bool
is_local_char c = is_host_char c || nat_beq c b'_' || nat_beq c b'%' || nat_beq c b'+'

-- `[A-Za-z]*$`
letters : String → Bool
letters String.[] = true
letters (String.◌∷◌ c s) = is_letter (code c) && letters s

-- `\.[A-Za-z]{2,}$`
dot_letters : String → Bool
unfolding letters
dot_letters (String.◌∷◌ d (String.◌∷◌ a (String.◌∷◌ b s))) =
    nat_beq (code d) b'.' && is_letter (code a) && is_letter (code b) && letters s
dot_letters _ = false

-- `[A-Za-z0-9.\-]+\.[A-Za-z]{2,}$`
host : String → Bool
unfolding dot_letters
host String.[] = false
host (String.◌∷◌ c s) = is_host_char (code c) && (dot_letters s || host s)

-- `@` and the host.
at_host : String → Bool
unfolding host
at_host String.[] = false
at_host (String.◌∷◌ c s) = nat_beq (code c) b'@' && host s

unfoldable pub is_email : String → Bool
unfolding at_host
is_email String.[] = false
is_email (String.◌∷◌ c s) = is_local_char (code c) && (at_host s || is_email s)

abbrev pub validate_email : String → Result Error (Unit {0})
validate_email email = if is_email email then ok tt else err invalid_email

plain : is_email "comics.fan@example.org" ≡ true
unfolding is_email
plain = refl

no_host : is_email "comics.fan@example" ≡ false
unfolding is_email
no_host = refl
