-- ===== src/Base/Int.antt =====
-- Signed integers over the native numbers, and the machine's `int` and `long long`: results are
-- wrapped to 32 and 64 bits in two's complement.
use Prim.Native.Nat.{bit_and, bit_or, bit_xor}
use sakura_slemu.Base.Tests.{ltb, leb, if◌then◌else◌}
use Prim.Native.Nat.{ℕ, suc, ◌+◌, ◌-◌, ◌*◌, ◌/◌, ◌%◌, ◌^◌, ◌≤◌, ◌<◌}
use mathlib.Core.Path.{◌≡◌, refl}
use mathlib.Core.Bool.{Bool, true, ◌&&◌}
use native.Mathlib.Omega.{arith}

-- `negsuc n` is -(n + 1).
pub data ℤ : Type 0 where
  pos : ℕ → ℤ
  negsuc : ℕ → ℤ

abbrev pub pos_part : ℤ → ℕ
pos_part (pos n) = n
pos_part (negsuc n) = 0

abbrev pub neg_part : ℤ → ℕ
neg_part (pos n) = 0
neg_part (negsuc n) = suc n

-- a - b, as an integer.
abbrev pub sub_ℕ : ℕ → ℕ → ℤ
sub_ℕ a b = if leb b a then pos (a - b) else negsuc (b - a - 1)

infixl 65 ◌+ℤ◌ ◌-ℤ◌
infixl 70 ◌*ℤ◌
infix 50 ◌≤ℤ◌
unfoldable pub ◌+ℤ◌ : ℤ → ℤ → ℤ
a +ℤ b = sub_ℕ (pos_part a + pos_part b) (neg_part a + neg_part b)

unfoldable pub ◌-ℤ◌ : ℤ → ℤ → ℤ
a -ℤ b = sub_ℕ (pos_part a + neg_part b) (neg_part a + pos_part b)

unfoldable pub ◌*ℤ◌ : ℤ → ℤ → ℤ
a *ℤ b =
    sub_ℕ (pos_part a * pos_part b + neg_part a * neg_part b)
      (pos_part a * neg_part b + neg_part a * pos_part b)

abbrev pub ◌≤ℤ◌ : ℤ → ℤ → Type 0
a ≤ℤ b = pos_part a + neg_part b ≤ pos_part b + neg_part a

abbrev pub ltb_ℤ : ℤ → ℤ → Bool
ltb_ℤ a b = ltb (pos_part a + neg_part b) (pos_part b + neg_part a)

abbrev pub leb_ℤ : ℤ → ℤ → Bool
leb_ℤ a b = leb (pos_part a + neg_part b) (pos_part b + neg_part a)

abbrev pub eq_ℤ : ℤ → ℤ → Bool
eq_ℤ a b = leb_ℤ a b && leb_ℤ b a

pub eq_ℤ→eq : (a b : ℤ) → eq_ℤ a b ≡ true → a ≡ b
eq_ℤ→eq a b h = ground arith

pub eq_ℤ_refl : (a : ℤ) → eq_ℤ a a ≡ true
eq_ℤ_refl a = ground arith

-- One lemma for each operation lets `omega` work with the operations shut, at any depth.
pub +ℤ_parts :
    (a b : ℤ)
    → pos_part (a +ℤ b) + neg_part a + neg_part b ≡ neg_part (a +ℤ b) + pos_part a + pos_part b
unfolding ◌+ℤ◌
+ℤ_parts a b = ground arith

pub -ℤ_parts :
    (a b : ℤ)
    → pos_part (a -ℤ b) + neg_part a + pos_part b ≡ neg_part (a -ℤ b) + pos_part a + neg_part b
unfolding ◌-ℤ◌
-ℤ_parts a b = ground arith

pub eq_of_parts : (a b : ℤ) → pos_part a + neg_part b ≡ pos_part b + neg_part a → a ≡ b
eq_of_parts a b h = ground arith

pub ruleset int_laws = (arith, +ℤ_parts, -ℤ_parts, eq_of_parts)

-- The bit pattern of an integer at 2 ^ 64, and the integer that a pattern stands for.
abbrev pub word : ℕ → ℤ → ℕ
word m (pos n) = n % m
word m (negsuc n) = m - 1 - n % m

abbrev pub signed : ℕ → ℕ → ℤ
signed m w = if ltb (w + w) m then pos w else negsuc (m - w - 1)

abbrev pub two32 : ℕ
two32 = 2 ^ 32

abbrev pub two64 : ℕ
two64 = 2 ^ 64

-- The conversion to `long long`, and `(int)`.
unfoldable pub to_i64 : ℤ → ℤ
to_i64 a = signed two64 (word two64 a)

unfoldable pub to_i32 : ℤ → ℤ
to_i32 a = signed two32 (word two32 a)

abbrev pub IsI64 : ℤ → Type 0
IsI64 a = (pos_part a < 2 ^ 63) × (neg_part a ≤ 2 ^ 63)

abbrev pub IsI32 : ℤ → Type 0
IsI32 a = (pos_part a < 2 ^ 31) × (neg_part a ≤ 2 ^ 31)

pub to_i64_fits : (a : ℤ) → IsI64 a → to_i64 a ≡ a
unfolding to_i64
to_i64_fits (pos n) h = ground arith
to_i64_fits (negsuc n) h = ground arith

pub to_i64-IsI64 : (a : ℤ) → IsI64 (to_i64 a)
unfolding to_i64
to_i64-IsI64 (pos n) = ground arith
to_i64-IsI64 (negsuc n) = ground arith

pub to_i32_fits : (a : ℤ) → IsI32 a → to_i32 a ≡ a
unfolding to_i32
to_i32_fits (pos n) h = ground arith
to_i32_fits (negsuc n) h = ground arith

pub to_i32-IsI32 : (a : ℤ) → IsI32 (to_i32 a)
unfolding to_i32
to_i32-IsI32 (pos n) = ground arith
to_i32-IsI32 (negsuc n) = ground arith

-- Arithmetic of `long long`.
abbrev pub add64 : ℤ → ℤ → ℤ
add64 a b = to_i64 (a +ℤ b)

abbrev pub sub64 : ℤ → ℤ → ℤ
sub64 a b = to_i64 (a -ℤ b)

abbrev pub mul64 : ℤ → ℤ → ℤ
mul64 a b = to_i64 (a *ℤ b)

-- Division and remainder truncate towards zero; the callers test the divisor.
abbrev pub quotient : ℤ → ℤ → ℤ
quotient (pos a) (pos b) = pos (a / b)
quotient (pos a) (negsuc b) = sub_ℕ 0 (a / suc b)
quotient (negsuc a) (pos b) = sub_ℕ 0 (suc a / b)
quotient (negsuc a) (negsuc b) = pos (suc a / suc b)

abbrev pub remainder : ℤ → ℤ → ℤ
remainder (pos a) (pos b) = pos (a % b)
remainder (pos a) (negsuc b) = pos (a % suc b)
remainder (negsuc a) (pos b) = sub_ℕ 0 (suc a % b)
remainder (negsuc a) (negsuc b) = sub_ℕ 0 (suc a % suc b)

-- `&`, `|`, `^` and `~` on the bit patterns; `<<` on the unsigned pattern; `>>` arithmetic.
abbrev pub and64 : ℤ → ℤ → ℤ
and64 a b = signed two64 (bit_and (word two64 a) (word two64 b))

abbrev pub or64 : ℤ → ℤ → ℤ
or64 a b = signed two64 (bit_or (word two64 a) (word two64 b))

abbrev pub xor64 : ℤ → ℤ → ℤ
xor64 a b = signed two64 (bit_xor (word two64 a) (word two64 b))

abbrev pub not64 : ℤ → ℤ
not64 (pos n) = negsuc n
not64 (negsuc n) = pos n

abbrev pub shl64 : ℤ → ℕ → ℤ
shl64 a k = signed two64 (word two64 a * 2 ^ k % two64)

abbrev pub shr64 : ℤ → ℕ → ℤ
shr64 (pos n) k = pos (n / 2 ^ k)
shr64 (negsuc n) k = negsuc (n / 2 ^ k)

int_runs :
    (to_i64 (pos (2 ^ 63)) ≡ negsuc (2 ^ 63 - 1))
    × (and64 (negsuc 0) (pos 255) ≡ pos 255)
    × (quotient (negsuc 6) (pos 2) ≡ negsuc 2)
    × (remainder (negsuc 6) (pos 2) ≡ negsuc 0)
unfolding to_i64
int_runs = (refl, refl, refl, refl)
