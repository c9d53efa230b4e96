-- ===== src/Base/Int.antt =====
-- Go's signed integers: ℤ over the native numbers, and the two's complement conversions of
-- encoding/binary and of Go's conversions, for a type of `2 * half` values.
use Prim.Native.Nat.{ℕ, zero, suc, ◌+◌, ◌-◌, ◌%◌, ◌<◌}
use mathlib.Core.Path.{◌≡◌, refl}
use mathlib.Core.Bool.{Bool, true, false}
use native.Mathlib.Omega.{arith}
use native.Mathlib.Nat.{mod-eq_of_lt}
use kafka_gcp_proxy.Base.Tests.{ltb, leb, ◌==◌, if◌then◌else◌, ==_refl}

-- `negsuc n` is -(n + 1).
pub data ℤ : Type 0 where
  pos : ℕ → ℤ
  negsuc : ℕ → ℤ

-- -1, the length of a null value on the wire
abbrev pub minus_one : ℤ
minus_one = negsuc 0

abbrev pub half8 : ℕ
half8 = 128

abbrev pub half16 : ℕ
half16 = 32768

abbrev pub half32 : ℕ
half32 = 2147483648

abbrev pub half64 : ℕ
half64 = 9223372036854775808

-- intN(x) of an unsigned x below 2 * half
abbrev pub signed : ℕ → ℕ → ℤ
signed half n = if ltb n half then pos n else negsuc (half + half - 1 - n)

-- uintN(x) of a signed x
abbrev pub unsigned : ℕ → ℤ → ℕ
unsigned half (pos n) = n % (half + half)
unsigned half (negsuc n) = half + half - 1 - n % (half + half)

-- x is a value of the signed type
abbrev pub InRange : ℕ → ℤ → Type 0
InRange half (pos n) = n < half
InRange half (negsuc n) = n < half

abbrev pub beq_ℤ : ℤ → ℤ → Bool
beq_ℤ (pos a) (pos b) = a == b
beq_ℤ (pos a) (negsuc b) = false
beq_ℤ (negsuc a) (pos b) = false
beq_ℤ (negsuc a) (negsuc b) = a == b

abbrev pub ltb_ℤ : ℤ → ℤ → Bool
ltb_ℤ (pos a) (pos b) = ltb a b
ltb_ℤ (pos a) (negsuc b) = false
ltb_ℤ (negsuc a) (pos b) = true
ltb_ℤ (negsuc a) (negsuc b) = ltb b a

abbrev pub leb_ℤ : ℤ → ℤ → Bool
leb_ℤ (pos a) (pos b) = leb a b
leb_ℤ (pos a) (negsuc b) = false
leb_ℤ (negsuc a) (pos b) = true
leb_ℤ (negsuc a) (negsuc b) = leb b a

pub beq_ℤ→eq : (a b : ℤ) → beq_ℤ a b ≡ true → a ≡ b
beq_ℤ→eq a b h = ground arith

pub beq_ℤ_refl : (a : ℤ) → beq_ℤ a a ≡ true
beq_ℤ_refl (pos n) = ==_refl n refl
beq_ℤ_refl (negsuc n) = ==_refl n refl

pub leb_ℤ_refl : (a : ℤ) → leb_ℤ a a ≡ true
leb_ℤ_refl a = ground arith

-- int64 subtraction of one, which wraps at the least int64.
abbrev pub pred64 : ℤ → ℤ
pred64 (pos zero) = negsuc 0
pred64 (pos (suc n)) = pos n
pred64 (negsuc n) = if n == half64 - 1 then pos (half64 - 1) else negsuc (suc n)

-- z + 1 on an int far from its bounds
abbrev pub succ_ℤ : ℤ → ℤ
succ_ℤ (pos n) = pos (n + 1)
succ_ℤ (negsuc zero) = pos 0
succ_ℤ (negsuc (suc n)) = negsuc n

pub signed-InRange : (half n : ℕ) → n < half + half → InRange half (signed half n)
signed-InRange half n h = ground arith

pub signed-unsigned : (half : ℕ) (z : ℤ) → InRange half z → signed half (unsigned half z) ≡ z
signed-unsigned half (pos n) h =
    let wraps : n % (half + half) ≡ n = mod-eq_of_lt (omega arith) in ground (arith, wraps)
signed-unsigned half (negsuc n) h =
    let wraps : n % (half + half) ≡ n = mod-eq_of_lt (omega arith) in ground (arith, wraps)

pub unsigned-lt : (half : ℕ) (z : ℤ) → InRange half z → unsigned half z < half + half
unsigned-lt half (pos n) h =
    let wraps : n % (half + half) ≡ n = mod-eq_of_lt (omega arith) in omega arith
unsigned-lt half (negsuc n) h = omega arith
