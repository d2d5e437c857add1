-- ===== src/Prelude/Int.antt =====
-- Signed integers over the native numbers, for Go's int, int32 and int64 values and for durations.
use Prim.Native.Nat.{ℕ, zero, suc, ◌/◌, ◌*◌, ◌+◌, ◌-◌, ◌%◌, ◌≤◌, ◌<◌}
use mathlib.Core.Path.{◌≡◌, refl}
use mathlib.Core.Bool.{Bool}
use native.Mathlib.Omega.{arith}
use flink_chaos_operator.Prelude.Tests.{ltb, leb, ◌==◌, if◌then◌else◌}

-- `negsuc n` is -(n + 1).
pub data ℤ : Type 0 where
  pos : ℕ → ℤ
  negsuc : ℕ → ℤ

abbrev pub pos_part : ℤ → ℕ
pos_part (pos n) = n
pos_part (negsuc n) = 0

abbrev pub neg_part : ℤ → ℕ
neg_part (pos n) = 0
neg_part (negsuc n) = suc n

-- a - b, as an integer.
abbrev pub sub_ℕ : ℕ → ℕ → ℤ
sub_ℕ a b = if leb b a then pos (a - b) else negsuc (b - a - 1)

infixl 65 ◌+ℤ◌ ◌-ℤ◌
infix 50 ◌≤ℤ◌ ◌<ℤ◌
unfoldable pub ◌+ℤ◌ : ℤ → ℤ → ℤ
a +ℤ b = sub_ℕ (pos_part a + pos_part b) (neg_part a + neg_part b)

unfoldable pub ◌-ℤ◌ : ℤ → ℤ → ℤ
a -ℤ b = sub_ℕ (pos_part a + neg_part b) (neg_part a + pos_part b)

abbrev pub ◌≤ℤ◌ : ℤ → ℤ → Type 0
a ≤ℤ b = pos_part a + neg_part b ≤ pos_part b + neg_part a

abbrev pub ◌<ℤ◌ : ℤ → ℤ → Type 0
a <ℤ b = pos_part a + neg_part b < pos_part b + neg_part a

abbrev pub ltb_ℤ : ℤ → ℤ → Bool
ltb_ℤ a b = ltb (pos_part a + neg_part b) (pos_part b + neg_part a)

abbrev pub leb_ℤ : ℤ → ℤ → Bool
leb_ℤ a b = leb (pos_part a + neg_part b) (pos_part b + neg_part a)

abbrev pub eq_ℤ : ℤ → ℤ → Bool
eq_ℤ a b = (pos_part a + neg_part b) == (pos_part b + neg_part a)

-- One lemma for each operation lets `omega` work with the operations shut.
pub +ℤ_parts :
    (a b : ℤ)
    → pos_part (a +ℤ b) + neg_part a + neg_part b ≡ neg_part (a +ℤ b) + pos_part a + pos_part b
unfolding ◌+ℤ◌
+ℤ_parts a b = ground arith

pub -ℤ_parts :
    (a b : ℤ)
    → pos_part (a -ℤ b) + neg_part a + pos_part b ≡ neg_part (a -ℤ b) + pos_part a + neg_part b
unfolding ◌-ℤ◌
-ℤ_parts a b = ground arith

-- Go's conversion to int32: the residue of the value, read as two's complement.
abbrev pub of_bits32 : ℕ → ℤ
of_bits32 r = if ltb r 2147483648 then pos r else negsuc (4294967295 - r)

unfoldable pub to_int32 : ℤ → ℤ
to_int32 (pos n) = of_bits32 (n % 4294967296)
to_int32 (negsuc n) = of_bits32 (4294967295 - n % 4294967296)

-- The conversion keeps every value that an int32 holds.
pub to_int32_of_range : (a : ℤ) → a <ℤ pos 2147483648 → negsuc 2147483647 ≤ℤ a → to_int32 a ≡ a
unfolding to_int32
to_int32_of_range (pos n) h k = ground arith
to_int32_of_range (negsuc n) h k = ground arith

abbrev pub magnitude : ℤ → ℕ
magnitude (pos n) = n
magnitude (negsuc n) = suc n

abbrev pub negate : ℕ → ℤ
negate zero = pos 0
negate (suc n) = negsuc n

-- Go's integer division by a positive number, which cuts towards zero.
abbrev pub quotient : ℤ → ℕ → ℤ
quotient (pos n) k = pos (n / k)
quotient (negsuc n) k = negate (suc n / k)

-- A product in Go's int64: the residue of the value, read as two's complement.
abbrev of_bits64 : ℕ → ℤ
of_bits64 r = if ltb r 9223372036854775808 then pos r else negsuc (18446744073709551615 - r)

unfoldable pub times_int64 : ℤ → ℕ → ℤ
times_int64 (pos n) k = of_bits64 (n * k % 18446744073709551616)
times_int64 (negsuc n) k =
    of_bits64 ((18446744073709551616 - suc n * k % 18446744073709551616) % 18446744073709551616)

-- A sum in Go's int64.
unfoldable pub plus_int64 : ℤ → ℤ → ℤ
plus_int64 (pos n) (pos m) = of_bits64 ((n + m) % 18446744073709551616)
plus_int64 (pos n) (negsuc m) = pos n +ℤ negsuc m
plus_int64 (negsuc n) (pos m) = negsuc n +ℤ pos m
plus_int64 (negsuc n) (negsuc m) =
    of_bits64
      ((18446744073709551616 - (suc n + suc m) % 18446744073709551616) % 18446744073709551616)

times_int64_test : times_int64 (negsuc 2) 1000 ≡ negsuc 2999
unfolding times_int64
times_int64_test = refl
