-- ===== src/Words/Server.antt =====
-- search-services/words over gRPC, as its clients call it with strings.
use Prim.Native.Char.{Char, char, code, nul, IsScalar, IsLt}
use Prim.Native.Nat.{Ordering, compare}
use microservice_comics.Base.{ℕ, String, List, [], ◌∷◌, map, Result, ok, map_ok}
use microservice_comics.Base.Grpc.{Code}
use microservice_comics.Words.Service.{Text, Snowball, norm_rpc}

-- The code points of a string, and the string of some code points.
abbrev pub codes : String → Text
codes String.[] = []
codes (String.◌∷◌ c s) = code c ∷ codes s

abbrev BothLt : Ordering → Ordering → Type 0
BothLt Ordering.lt q = IsLt q
BothLt Ordering.eq q = ⊥
BothLt Ordering.gt q = ⊥

abbrev Fits : Ordering → Ordering → Ordering → Type 0
Fits Ordering.lt p q = Unit
Fits Ordering.eq p q = BothLt p q
Fits Ordering.gt p q = BothLt p q

abbrev high_char : (n : ℕ) (p q : Ordering) → (BothLt p q → IsScalar n) → Char
high_char n Ordering.lt Ordering.lt scalar = char n (scalar tt)
high_char n _ _ scalar = nul

abbrev char_or_nul : (n : ℕ) (o p q : Ordering) → (Fits o p q → IsScalar n) → Char
char_or_nul n Ordering.lt p q scalar = char n (scalar tt)
char_or_nul n Ordering.eq p q scalar = high_char n p q scalar
char_or_nul n Ordering.gt p q scalar = high_char n p q scalar

-- The character with a code point; no other number comes from a string.
abbrev to_char : ℕ → Char
to_char n = char_or_nul n (compare n 55296) (compare 57343 n) (compare n 1114112) (λ p. p)

abbrev pub to_string : Text → String
to_string [] = ""
to_string (c ∷ s) = String.◌∷◌ (to_char c) (to_string s)

-- `wordspb.WordsClient`.
pub record WordsClient : Type 0 where
  pub norm : String → Result Code (List String)
  pub ping : Result Code (Unit {0})

-- A network that delivers every call and every reply.
unfoldable pub serve : Snowball → WordsClient
unfolding norm_rpc
serve snowball = record {
  norm = λ phrase. map_ok (map to_string) (norm_rpc snowball (codes phrase));
  ping = ok tt;
}
