-- ===== src/Base/Int.antt =====
-- Signed integers over the native numbers, under the library's names, and Go's conversions.
use Prim.Native.Nat.{ℕ, ◌-◌, ◌%◌, ◌^◌, ◌<◌}
use mathlib.Core.Bool.{Bool, true, false}
use mathlib.Core.Logic.{◌↔◌}
use mathlib.Core.Path.{◌≡◌}
use native.Mathlib.Omega.{arith}
use microservice_comics.Base.Tests.{ltb, nat_beq, if◌then◌else◌}

-- `negsuc n` is -(n + 1).
pub data ℤ : Type 0 where
  pos : ℕ → ℤ
  negsuc : ℕ → ℤ

abbrev pub ltb_ℤ : ℤ → ℤ → Bool
ltb_ℤ (pos a) (pos b) = ltb a b
ltb_ℤ (pos a) (negsuc b) = false
ltb_ℤ (negsuc a) (pos b) = true
ltb_ℤ (negsuc a) (negsuc b) = ltb b a

abbrev pub beq_ℤ : ℤ → ℤ → Bool
beq_ℤ (pos a) (pos b) = nat_beq a b
beq_ℤ (pos a) (negsuc b) = false
beq_ℤ (negsuc a) (pos b) = false
beq_ℤ (negsuc a) (negsuc b) = nat_beq a b

-- What a column or an argument of PostgreSQL's type INT can hold.
abbrev pub fits_int4 : ℤ → Bool
fits_int4 (pos a) = ltb a (2 ^ 31)
fits_int4 (negsuc a) = ltb a (2 ^ 31)

-- `x <= 0`
abbrev pub is_nonpositive : ℤ → Bool
is_nonpositive (pos a) = nat_beq a 0
is_nonpositive (negsuc a) = true

-- `uint32(x)` of a signed integer: two's complement, modulo 2^32.
abbrev pub to_u32 : ℤ → ℕ
to_u32 (pos a) = a % 2 ^ 32
to_u32 (negsuc a) = 2 ^ 32 - 1 - a % 2 ^ 32

-- `int32(x)` of the 32-bit pattern `x`.
abbrev pub of_u32 : ℕ → ℤ
of_u32 x = if ltb x (2 ^ 31) then pos x else negsuc (2 ^ 32 - 1 - x)

-- `int32(x)` of a signed integer.
abbrev pub to_i32 : ℤ → ℤ
to_i32 x = of_u32 (to_u32 x)

pub beq_ℤ_iff : (a b : ℤ) → (beq_ℤ a b ≡ true) ↔ (a ≡ b)
beq_ℤ_iff (pos a) (pos b) = ground arith
beq_ℤ_iff (pos a) (negsuc b) = ground arith
beq_ℤ_iff (negsuc a) (pos b) = ground arith
beq_ℤ_iff (negsuc a) (negsuc b) = ground arith

pub ltb_ℤ_trans : (a b c : ℤ) → ltb_ℤ a b ≡ true → ltb_ℤ b c ≡ true → ltb_ℤ a c ≡ true
ltb_ℤ_trans a b c h k = ground arith

pub ltb_ℤ_irrefl : (a : ℤ) → ltb_ℤ a a ≡ false
ltb_ℤ_irrefl a = ground arith

pub ltb_ℤ_antisymm : (a b : ℤ) → ltb_ℤ a b ≡ false → ltb_ℤ b a ≡ false → a ≡ b
ltb_ℤ_antisymm a b h k = ground arith

pub to_u32_lt : (x : ℤ) → to_u32 x < 2 ^ 32
to_u32_lt (pos a) = omega arith
to_u32_lt (negsuc a) = omega arith
