-- ===== src/Prelude/Int.antt =====
-- Signed integers over the native numbers, and Go's `int` and `int64`, which wrap at 64 bits.
use Prim.Native.Nat.{ℕ, suc, ◌*◌, ◌+◌, ◌-◌, ◌%◌, ◌^◌, ◌≤◌, ◌<◌}
use mathlib.Core.Path.{◌≡◌, refl, sym, ap, ◌∙◌}
use mathlib.Core.Bool.{Bool}
use native.Mathlib.Omega.{arith}
use toska_mesh.Prelude.Tests.{ltb, leb, if◌then◌else◌}

-- `negsuc n` is -(n + 1).
pub data ℤ : Type 0 where
  pos : ℕ → ℤ
  negsuc : ℕ → ℤ

abbrev pub pos_part : ℤ → ℕ
pos_part (pos n) = n
pos_part (negsuc n) = 0

abbrev pub neg_part : ℤ → ℕ
neg_part (pos n) = 0
neg_part (negsuc n) = suc n

abbrev pub sub_ℕ : ℕ → ℕ → ℤ
sub_ℕ a b = if leb b a then pos (a - b) else negsuc (b - a - 1)

infixl 65 ◌+ℤ◌
infix 50 ◌≤ℤ◌ ◌<ℤ◌
unfoldable pub ◌+ℤ◌ : ℤ → ℤ → ℤ
a +ℤ b = sub_ℕ (pos_part a + pos_part b) (neg_part a + neg_part b)

abbrev pub ◌≤ℤ◌ : ℤ → ℤ → Type 0
a ≤ℤ b = pos_part a + neg_part b ≤ pos_part b + neg_part a

abbrev pub ◌<ℤ◌ : ℤ → ℤ → Type 0
a <ℤ b = pos_part a + neg_part b < pos_part b + neg_part a

abbrev pub ltb_ℤ : ℤ → ℤ → Bool
ltb_ℤ a b = ltb (pos_part a + neg_part b) (pos_part b + neg_part a)

abbrev pub leb_ℤ : ℤ → ℤ → Bool
leb_ℤ a b = leb (pos_part a + neg_part b) (pos_part b + neg_part a)

-- Two's complement: the signed 64-bit number with the same low 64 bits (`negsuc n` is `^n`).
unfoldable pub wrap64 : ℤ → ℤ
wrap64 (pos n) = let m = n % 2 ^ 64 in if ltb m (2 ^ 63) then pos m else negsuc (2 ^ 64 - 1 - m)
wrap64 (negsuc n) = let m = n % 2 ^ 64 in if ltb m (2 ^ 63) then negsuc m else pos (2 ^ 64 - 1 - m)

abbrev pub max_int64 : ℕ
max_int64 = 2 ^ 63 - 1

-- `math.MinInt64` is -(2 ^ 63).
abbrev pub min_int64 : ℤ
min_int64 = negsuc max_int64

-- Go's `a + b` on `int64` and on the 64-bit `int`.
unfoldable pub add64 : ℤ → ℤ → ℤ
unfolding wrap64 ◌+ℤ◌
add64 a b = wrap64 (a +ℤ b)

-- `time.Duration(v) * time.Second`, in nanoseconds
unfoldable pub seconds : ℤ → ℤ
unfolding wrap64
seconds (pos n) = wrap64 (pos (n * 10 ^ 9))
seconds (negsuc n) = wrap64 (negsuc (suc n * 10 ^ 9 - 1))

-- `t.Add(d)` on an instant, where one before the zero time is taken for the zero time
abbrev pub instant_after : ℕ → ℤ → ℕ
instant_after t d = t + pos_part d - neg_part d

-- `n++` below the largest value.
pub add64-one : (n : ℕ) → n < max_int64 → add64 (pos n) (pos 1) ≡ pos (n + 1)
unfolding add64
add64-one n h = ground arith

-- A sum is always in range.
abbrev pub IsInt64 : ℤ → Type 0
IsInt64 a = (min_int64 ≤ℤ a) × (a ≤ℤ pos max_int64)

pub add64-IsInt64 : (a b : ℤ) → IsInt64 (add64 a b)
unfolding add64
add64-IsInt64 a b = ground arith

add64_wraps : add64 (pos max_int64) (pos 1) ≡ min_int64
unfolding add64
add64_wraps = refl

pub add64_comm : (a b : ℤ) → add64 a b ≡ add64 b a
unfolding add64
add64_comm a b = ground arith

-- The low 64 bits of a number, and the int64 that has them.
bits : ℤ → ℕ
bits (pos n) = n % 2 ^ 64
bits (negsuc n) = 2 ^ 64 - 1 - n % 2 ^ 64

from_bits : ℕ → ℤ
from_bits m = if ltb m (2 ^ 63) then pos m else negsuc (2 ^ 64 - 1 - m)

add64-from_bits : (a b : ℤ) → add64 a b ≡ from_bits ((bits a + bits b) % 2 ^ 64)
unfolding add64 bits from_bits
add64-from_bits (pos m) (pos n) = ground arith
add64-from_bits (pos m) (negsuc n) = ground arith
add64-from_bits (negsuc m) (pos n) = ground arith
add64-from_bits (negsuc m) (negsuc n) = ground arith

bits-from_bits : (m : ℕ) → m < 2 ^ 64 → bits (from_bits m) ≡ m
unfolding bits from_bits
bits-from_bits m h = ground arith

bits-add64 : (a b : ℤ) → bits (add64 a b) ≡ (bits a + bits b) % 2 ^ 64
bits-add64 a b =
    ap bits (add64-from_bits a b) ∙ bits-from_bits ((bits a + bits b) % 2 ^ 64) (omega arith)

pub add64_assoc : (a b c : ℤ) → add64 (add64 a b) c ≡ add64 a (add64 b c)
add64_assoc a b c =
    add64-from_bits (add64 a b) c
    ∙ ap from_bits (omega (arith, bits-add64 a b, bits-add64 b c))
    ∙ sym (add64-from_bits a (add64 b c))

-- Go's conversion `int32(a)`
unfoldable pub wrap32 : ℤ → ℤ
wrap32 (pos n) = let m = n % 2 ^ 32 in if ltb m (2 ^ 31) then pos m else negsuc (2 ^ 32 - 1 - m)
wrap32 (negsuc n) = let m = n % 2 ^ 32 in if ltb m (2 ^ 31) then negsuc m else pos (2 ^ 32 - 1 - m)

-- A number in range is kept.
pub wrap32-pos : (n : ℕ) → n < 2 ^ 31 → wrap32 (pos n) ≡ pos n
unfolding wrap32
wrap32-pos n h = ground arith
