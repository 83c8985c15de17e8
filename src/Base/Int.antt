-- ===== src/Base/Int.antt =====
-- Signed integers over the native numbers, and 64-bit two's complement patterns.
use Prim.Native.Nat.{ℕ, suc, ◌+◌, ◌-◌, ◌*◌, ◌/◌, ◌%◌, ◌^◌, ◌<◌}
use mathlib.Core.Path.{◌≡◌}
use mathlib.Core.Bool.{Bool, true}
use native.Mathlib.Omega.{arith}
use mylamina.Base.Tests.{ltb, leb, ◌==◌, if◌then◌else◌}

-- `negsuc n` is -(n + 1).
pub data ℤ : Type 0 where
  pos : ℕ → ℤ
  negsuc : ℕ → ℤ

abbrev pub pos_part : ℤ → ℕ
pos_part (pos n) = n
pos_part (negsuc n) = 0

abbrev pub neg_part : ℤ → ℕ
neg_part (pos n) = 0
neg_part (negsuc n) = suc n

-- a - b, as an integer.
abbrev pub sub_ℕ : ℕ → ℕ → ℤ
sub_ℕ a b = if leb b a then pos (a - b) else negsuc (b - a - 1)

infixl 65 ◌+ℤ◌ ◌-ℤ◌
infixl 70 ◌*ℤ◌
unfoldable pub ◌+ℤ◌ : ℤ → ℤ → ℤ
a +ℤ b = sub_ℕ (pos_part a + pos_part b) (neg_part a + neg_part b)

unfoldable pub ◌-ℤ◌ : ℤ → ℤ → ℤ
a -ℤ b = sub_ℕ (pos_part a + neg_part b) (neg_part a + pos_part b)

unfoldable pub ◌*ℤ◌ : ℤ → ℤ → ℤ
a *ℤ b =
    sub_ℕ (pos_part a * pos_part b + neg_part a * neg_part b)
      (pos_part a * neg_part b + neg_part a * pos_part b)

-- The quotient rounded to zero, and the remainder with the sign of the dividend, of C++.
unfoldable pub quot : ℤ → ℤ → ℤ
quot a b =
    let q = (pos_part a + neg_part a) / (pos_part b + neg_part b) in
    if (neg_part a == 0)
    then (if (neg_part b == 0) then pos q else sub_ℕ 0 q)
    else (if (neg_part b == 0) then sub_ℕ 0 q else pos q)

unfoldable pub rem : ℤ → ℤ → ℤ
rem a b =
    let r = (pos_part a + neg_part a) % (pos_part b + neg_part b) in
    if (neg_part a == 0) then pos r else sub_ℕ 0 r

abbrev pub ltb_ℤ : ℤ → ℤ → Bool
ltb_ℤ a b = ltb (pos_part a + neg_part b) (pos_part b + neg_part a)

abbrev pub leb_ℤ : ℤ → ℤ → Bool
leb_ℤ a b = leb (pos_part a + neg_part b) (pos_part b + neg_part a)

abbrev pub eqb_ℤ : ℤ → ℤ → Bool
eqb_ℤ a b = pos_part a + neg_part b == pos_part b + neg_part a

-- The values of `int64_t`.
abbrev pub fits64 : ℤ → Bool
fits64 (pos n) = ltb n (2 ^ 63)
fits64 (negsuc n) = ltb n (2 ^ 63)

-- The integer that a 64-bit pattern stands for, and the pattern of an integer.
unfoldable pub signed64 : ℕ → ℤ
signed64 w = if ltb w (2 ^ 63) then pos w else negsuc (2 ^ 64 - w - 1)

unfoldable pub pattern64 : ℤ → ℕ
pattern64 (pos n) = n % 2 ^ 64
pattern64 (negsuc n) = 2 ^ 64 - 1 - n % 2 ^ 64

pub signed64-pattern64 : (a : ℤ) → fits64 a ≡ true → signed64 (pattern64 a) ≡ a
unfolding signed64 pattern64
signed64-pattern64 (pos n) h = ground arith
signed64-pattern64 (negsuc n) h = ground arith

pub pattern64-lt : (a : ℤ) → pattern64 a < 2 ^ 64
unfolding pattern64
pattern64-lt (pos n) = omega arith
pattern64-lt (negsuc n) = omega arith
