-- ===== src/Prelude/Decimal.antt =====
-- Reading the decimal numbers that `decimal` of Text prints.
use Prim.Native.Nat.{ℕ, zero, suc, ◌+◌, ◌-◌, ◌*◌, ◌/◌, ◌%◌, ◌≤◌, ◌<◌}
use Prim.Native.Char.{Char, code}
use Prim.Native.String.{String}
use mathlib.Core.Path.{◌≡◌, ap, ◌∙◌}
use mathlib.Core.Logic.{inl, inr}
use mathlib.Core.Bool.{Bool, true, ◌&&◌}
use text.Mathlib.TextLemmas.{append_assoc, cons-append, nil-append}
use native.Mathlib.Omega.{arith}
use flink_chaos_operator.Prelude.Tests.{leb, ltb, if◌then◌else◌, Bool-cases}
use flink_chaos_operator.Prelude.Int.{pos}
use flink_chaos_operator.Prelude.Text.{◌&◌, digit, decimal_from, decimal}

abbrev is_decimal_digit : ℕ → Bool
is_decimal_digit c = leb b'0' c && leb c b'9'

-- The number that the digits in front spell behind `n`, and the text after them.
unfoldable pub read_number : ℕ → String → ℕ × String
read_number n String.[] = (n, "")
read_number n (String.◌∷◌ c s) =
    let more = read_number (n * 10 + (code c - b'0')) s in
    if is_decimal_digit (code c) then more else (n, String.◌∷◌ c s)

-- A text of one character in front.
one_char :
    (c : Char) (n : ℕ) (s : String)
    → read_number n (String.◌∷◌ c "" & s) ≡ read_number n (String.◌∷◌ c s)
one_char c n s = rw (cons-append c "" s, nil-append s)

read_number-digit :
    (d n : ℕ) (s : String) → d < 10 → read_number n (digit d & s) ≡ read_number (n * 10 + d) s
unfolding read_number
read_number-digit zero n s h = one_char "0" n s
read_number-digit (suc zero) n s h = one_char "1" n s
read_number-digit (suc (suc zero)) n s h = one_char "2" n s
read_number-digit (suc (suc (suc zero))) n s h = one_char "3" n s
read_number-digit (suc (suc (suc (suc zero)))) n s h = one_char "4" n s
read_number-digit (suc (suc (suc (suc (suc zero))))) n s h = one_char "5" n s
read_number-digit (suc (suc (suc (suc (suc (suc zero)))))) n s h = one_char "6" n s
read_number-digit (suc (suc (suc (suc (suc (suc (suc zero))))))) n s h = one_char "7" n s
read_number-digit (suc (suc (suc (suc (suc (suc (suc (suc zero)))))))) n s h = one_char "8" n s
read_number-digit (suc (suc (suc (suc (suc (suc (suc (suc (suc zero))))))))) n s h =
    one_char "9" n s
read_number-digit (suc (suc (suc (suc (suc (suc (suc (suc (suc (suc d)))))))))) n s h =
    absurd (omega arith)

one_digit :
    (fuel n : ℕ) (s : String)
    → ltb n 10 ≡ true
    → read_number 0 (decimal_from (suc fuel) n & s) ≡ read_number n s
unfolding decimal_from
one_digit fuel n s few =
    rw few (read_number-digit n 0 s (ground arith) ∙ ap (λ m. read_number m s) (omega arith))

-- The digits of a number read as the number; as much fuel as the number is enough.
pub read_number-decimal_from :
    (fuel n : ℕ) (s : String)
    → n ≤ fuel
    → read_number 0 (decimal_from (suc fuel) n & s) ≡ read_number n s
unfolding decimal_from
read_number-decimal_from zero n s h = one_digit 0 n s (ground arith)
read_number-decimal_from (suc fuel) n s h = elim (Bool-cases (ltb n 10)) [
  | inl few ↦ one_digit (suc fuel) n s few
  | inr many ↦ rw many (
      ap (read_number 0) (append_assoc (decimal_from (suc fuel) (n / 10)) (digit (n % 10)) s)
      ∙ read_number-decimal_from fuel (n / 10) (digit (n % 10) & s) (ground arith)
      ∙ read_number-digit (n % 10) (n / 10) s (omega arith)
      ∙ ap (λ m. read_number m s) (omega arith))
]

-- What `decimal` prints is read back, up to the text that follows.
pub read_number-decimal :
    (n : ℕ) (s : String) → read_number 0 (decimal (pos n) & s) ≡ read_number n s
unfolding decimal
read_number-decimal n s = read_number-decimal_from n n s (omega arith)
