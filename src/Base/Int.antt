-- ===== src/Base/Int.antt =====
-- Signed integers over the native numbers; int64 as the integers of its range, with the wrap-around
-- of two's complement written out.
use Prim.Native.Nat.{ℕ, zero, suc, ◌+◌, ◌-◌, ◌%◌, ◌^◌, ◌≤◌, ◌<◌}
use mathlib.Core.Path.{◌≡◌}
use mathlib.Core.Bool.{Bool, true, false}
use native.Mathlib.Omega.{arith}
use chandlery.Base.Tests.{ltb, leb, if◌then◌else◌}

-- `negsuc n` is -(n + 1).
pub data ℤ : Type 0 where
  pos : ℕ → ℤ
  negsuc : ℕ → ℤ

abbrev pub pos_part : ℤ → ℕ
pos_part (pos n) = n
pos_part (negsuc n) = 0

abbrev pub neg_part : ℤ → ℕ
neg_part (pos n) = 0
neg_part (negsuc n) = suc n

-- a - b, as an integer.
abbrev pub sub_ℕ : ℕ → ℕ → ℤ
sub_ℕ a b = if leb b a then pos (a - b) else negsuc (b - a - 1)

infixl 65 ◌+ℤ◌ ◌-ℤ◌
infix 50 ◌≤ℤ◌
unfoldable pub ◌+ℤ◌ : ℤ → ℤ → ℤ
a +ℤ b = sub_ℕ (pos_part a + pos_part b) (neg_part a + neg_part b)

unfoldable pub ◌-ℤ◌ : ℤ → ℤ → ℤ
a -ℤ b = sub_ℕ (pos_part a + neg_part b) (neg_part a + pos_part b)

abbrev pub ◌≤ℤ◌ : ℤ → ℤ → Type 0
a ≤ℤ b = pos_part a + neg_part b ≤ pos_part b + neg_part a

-- the sign bit
abbrev pub is_neg : ℤ → Bool
is_neg (pos n) = false
is_neg (negsuc n) = true

-- x <= 0
abbrev pub is_nonpos : ℤ → Bool
is_nonpos (pos zero) = true
is_nonpos (pos (suc n)) = false
is_nonpos (negsuc n) = true

-- `pos n` with n < 2^63 and `negsuc n` with n < 2^63, that is -(2^63) ≤ x < 2^63.
abbrev pub magnitude : ℤ → ℕ
magnitude (pos n) = n
magnitude (negsuc n) = n

abbrev pub IsInt64 : ℤ → Type 0
IsInt64 a = magnitude a < 2 ^ 63

abbrev pub in_int64 : ℤ → Bool
in_int64 a = ltb (magnitude a) (2 ^ 63)

-- What an int64 holds after an operation whose exact result is `a`: the representative of `a`
-- modulo 2^64 in the range.
abbrev wrap_word : ℕ → ℤ
wrap_word r = if ltb r (2 ^ 63) then pos r else negsuc (2 ^ 64 - 1 - r)

unfoldable pub wrap : ℤ → ℤ
wrap (pos n) = wrap_word (n % 2 ^ 64)
wrap (negsuc n) = wrap_word (2 ^ 64 - 1 - n % 2 ^ 64)

pub wrap_of_int64 : (a : ℤ) → IsInt64 a → wrap a ≡ a
unfolding wrap
wrap_of_int64 (pos n) h = ground arith
wrap_of_int64 (negsuc n) h = ground arith

pub wrap-IsInt64 : (a : ℤ) → IsInt64 (wrap a)
unfolding wrap
wrap-IsInt64 (pos n) = ground arith
wrap-IsInt64 (negsuc n) = ground arith
