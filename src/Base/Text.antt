-- ===== src/Base/Text.antt =====
-- The functions of Go's `strings` and `strconv` that the program calls.
use Prim.Native.Char.{Char, code}
use Prim.Native.Nat.{ℕ, zero, suc, ◌+◌, ◌-◌, ◌*◌, ◌/◌, ◌%◌, ◌^◌}
use Prim.Native.String.{String}
use mathlib.Core.Bool.{Bool, true, false, ◌&&◌, ◌||◌}
use mathlib.Core.Option.{Option, none, some}
use mathlib.Core.Path.{◌≡◌, refl}
use mathlib.Core.Logic.{◌≢◌, inl, inr}
use native.Mathlib.Omega.{arith}
use microservice_comics.Base.Int.{ℤ, pos, negsuc}
use microservice_comics.Base.Tests.{if◌then◌else◌, leb, ltb, nat_beq, Bool-cases}

-- `unicode.IsSpace`
abbrev is_space : ℕ → Bool
is_space c =
    (leb 9 c && leb c 13)
    || nat_beq c 32
    || nat_beq c 0x85
    || nat_beq c 0xA0
    || nat_beq c 0x1680
    || (leb 0x2000 c && leb c 0x200A)
    || nat_beq c 0x2028
    || nat_beq c 0x2029
    || nat_beq c 0x202F
    || nat_beq c 0x205F
    || nat_beq c 0x3000

trim_left : String → String
trim_left String.[] = ""
trim_left (String.◌∷◌ c s) =
    let rest = trim_left s in if is_space (code c) then rest else String.◌∷◌ c s

abbrev trim_end : Char → String → String
trim_end c String.[] = if is_space (code c) then "" else String.◌∷◌ c ""
trim_end c (String.◌∷◌ d s) = String.◌∷◌ c (String.◌∷◌ d s)

trim_right : String → String
trim_right String.[] = ""
trim_right (String.◌∷◌ c s) = trim_end c (trim_right s)

-- `strings.TrimSpace`
unfoldable pub trim_space : String → String
unfolding trim_left trim_right
trim_space s = trim_right (trim_left s)

-- `strings.HasPrefix` and `strings.TrimPrefix` in one: what follows the prefix, if it is there.
unfoldable pub strip_prefix : String → String → Option String
strip_prefix String.[] s = some s
strip_prefix (String.◌∷◌ p ps) String.[] = none
strip_prefix (String.◌∷◌ p ps) (String.◌∷◌ c s) =
    if nat_beq (code p) (code c) then strip_prefix ps s else none

-- The value of a run of decimal digits after `acc`, if nothing else stands there.
parse_digits : ℕ → String → Option ℕ
parse_digits acc String.[] = some acc
parse_digits acc (String.◌∷◌ c s) =
    if leb b'0' (code c) && leb (code c) b'9'
    then parse_digits (acc * 10 + (code c - b'0')) s
    else none

abbrev bounded : ℕ → Option ℕ → Option ℕ
bounded limit none = none
bounded limit (some n) = if ltb n limit then some n else none

-- At least one digit, and a value below the limit.
parse_below : ℕ → String → Option ℕ
parse_below limit String.[] = none
parse_below limit (String.◌∷◌ c s) = bounded limit (parse_digits 0 (String.◌∷◌ c s))

-- `strconv.ParseUint(s, 10, 32)`; `none` is its error.
unfoldable pub parse_u32 : String → Option ℕ
unfolding parse_below parse_digits
parse_u32 s = parse_below (2 ^ 32) s

abbrev as_pos : Option ℕ → Option ℤ
as_pos none = none
as_pos (some n) = some (pos n)

abbrev as_neg : Option ℕ → Option ℤ
as_neg none = none
as_neg (some n) = if nat_beq n 0 then some (pos 0) else some (negsuc (n - 1))

-- `strconv.Atoi` of a 64-bit `int`; `none` is its error.
unfoldable pub atoi : String → Option ℤ
unfolding parse_below parse_digits
atoi String.[] = none
atoi (String.◌∷◌ c s) =
    if nat_beq (code c) b'-'
    then as_neg (parse_below (2 ^ 63 + 1) s)
    else if nat_beq (code c) b'+'
    then as_pos (parse_below (2 ^ 63) s)
    else as_pos (parse_below (2 ^ 63) (String.◌∷◌ c s))

-- What parses is not empty.
pub atoi-nonempty : (s : String) (z : ℤ) → atoi s ≡ some z → s ≢ ""
unfolding atoi
atoi-nonempty String.[] z h = cc
atoi-nonempty (String.◌∷◌ c s) z h = λ e. cc

abbrev digit : ℕ → Char
digit zero = "0"
digit (suc zero) = "1"
digit (suc (suc zero)) = "2"
digit (suc (suc (suc zero))) = "3"
digit (suc (suc (suc (suc zero)))) = "4"
digit (suc (suc (suc (suc (suc zero))))) = "5"
digit (suc (suc (suc (suc (suc (suc zero)))))) = "6"
digit (suc (suc (suc (suc (suc (suc (suc zero))))))) = "7"
digit (suc (suc (suc (suc (suc (suc (suc (suc zero)))))))) = "8"
digit (suc (suc (suc (suc (suc (suc (suc (suc (suc n))))))))) = "9"

-- The digits of a number before `after`; `fuel` bounds their number.
format_before : (fuel : ℕ) → ℕ → String → String
format_before zero n after = String.◌∷◌ (digit (n % 10)) after
format_before (suc fuel) n after =
    let rest = format_before fuel (n / 10) (String.◌∷◌ (digit (n % 10)) after) in
    if ltb n 10 then String.◌∷◌ (digit n) after else rest

-- `strconv.FormatUint(n, 10)` of a uint32, which has at most ten digits.
unfoldable pub format_u32 : ℕ → String
unfolding format_before
format_u32 n = format_before 9 n ""

-- `%d` of a 64-bit `int`, whose value has at most twenty digits.
unfoldable pub format_int : ℤ → String
unfolding format_before
format_int (pos n) = format_before 19 n ""
format_int (negsuc n) = String.◌∷◌ "-" (format_before 19 (suc n) "")

abbrev pub starts_with_digit : String → Bool
starts_with_digit String.[] = false
starts_with_digit (String.◌∷◌ c s) = leb b'0' (code c) && leb (code c) b'9'

digit_lem : (n : ℕ) (s : String) → starts_with_digit (String.◌∷◌ (digit n) s) ≡ true
digit_lem zero s = refl
digit_lem (suc zero) s = refl
digit_lem (suc (suc zero)) s = refl
digit_lem (suc (suc (suc zero))) s = refl
digit_lem (suc (suc (suc (suc zero)))) s = refl
digit_lem (suc (suc (suc (suc (suc zero))))) s = refl
digit_lem (suc (suc (suc (suc (suc (suc zero)))))) s = refl
digit_lem (suc (suc (suc (suc (suc (suc (suc zero))))))) s = refl
digit_lem (suc (suc (suc (suc (suc (suc (suc (suc zero)))))))) s = refl
digit_lem (suc (suc (suc (suc (suc (suc (suc (suc (suc n))))))))) s = refl

format_before_lem : (fuel n : ℕ) (s : String) → starts_with_digit (format_before fuel n s) ≡ true
unfolding format_before
format_before_lem zero n s = digit_lem (n % 10) s
format_before_lem (suc fuel) n s = elim (Bool-cases (ltb n 10)) [
  | inl e ↦ rw e (digit_lem n s)
  | inr e ↦ rw e (format_before_lem fuel (n / 10) (String.◌∷◌ (digit (n % 10)) s))
]

-- A number in decimal starts with a digit.
pub format_u32_lem : (n : ℕ) → starts_with_digit (format_u32 n) ≡ true
unfolding format_u32
format_u32_lem n = format_before_lem 9 n ""

format_example : format_u32 4294967295 ≡ "4294967295"
unfolding format_u32
format_example = refl

-- What an integer in decimal begins with is no letter.
pub format_int-head :
    (z : ℤ)
    → (c : Char) × (s : String) × (format_int z ≡ String.◌∷◌ c s) × (leb b'a' (code c) ≡ false)
unfolding format_int
format_int-head (pos n) = of_digit (format_before 19 n "") (format_before_lem 19 n "")
  where
    of_digit :
        (t : String)
        → starts_with_digit t ≡ true
        → (c : Char) × (s : String) × (t ≡ String.◌∷◌ c s) × (leb b'a' (code c) ≡ false)
    of_digit String.[] h = absurd (cc h)
    of_digit (String.◌∷◌ c s) h = (c, s, refl, ground arith)
format_int-head (negsuc n) = ("-", format_before 19 (suc n) "", refl, refl)
