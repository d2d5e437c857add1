-- ===== src/Scenarios/Durations.antt =====
-- What the durations of internal/netchaos/tc/builder.go mean to tc(8), and those of
-- internal/scenario/resourceexhaustion/stress/builder.go to stress-ng.
use flink_chaos_operator.Prelude.{
  ℕ, ◌-◌, ◌*◌, ◌/◌, ◌%◌, ◌≤◌, pos, String, ◌≡◌, ◌↔◌, ap, ◌∙◌, Option, none, some, if◌then◌else◌,
  ◌==◌, str_eq, arith, Bool-cases, inl, inr, ◌&◌, decimal, read_number, read_number-decimal,
}
use flink_chaos_operator.Scenarios.Tc.{format_duration, round_half_even, duration_arg}

-- A number and a unit, as tc(8) reads a time, in nanoseconds.
abbrev pub in_unit : ℕ × String → Option ℕ
in_unit (n, unit) =
    if str_eq unit "s"
    then some (n * 1000000000)
    else if str_eq unit "ms"
    then some (n * 1000000)
    else if str_eq unit "us"
    then some (n * 1000)
    else none

abbrev pub read_time : String → Option ℕ
read_time s = in_unit (read_number 0 s)

read_seconds : (n : ℕ) → read_time (decimal (pos n) & "s") ≡ some (n * 1000000000)
unfolding read_number
read_seconds n = ap in_unit (read_number-decimal n "s")

read_millis : (n : ℕ) → read_time (decimal (pos n) & "ms") ≡ some (n * 1000000)
unfolding read_number
read_millis n = ap in_unit (read_number-decimal n "ms")

read_micros : (n : ℕ) → read_time (decimal (pos n) & "us") ≡ some (n * 1000)
unfolding read_number
read_micros n = ap in_unit (read_number-decimal n "us")

-- The text of a duration, read by tc(8), is the duration cut down to whole microseconds: it is the
-- duration itself where that is a whole number of microseconds, and less by under 1000 nanoseconds
-- where it is not.
pub read_time-format_duration : (n : ℕ) → read_time (format_duration (pos n)) ≡ some (n - n % 1000)
unfolding format_duration
read_time-format_duration n = elim (Bool-cases (n % 1000000000 == 0)) [
  | inl s ↦ rw s (read_seconds (n / 1000000000) ∙ ap some (ground arith))
  | inr s ↦ rw s (elim (Bool-cases (n % 1000000 == 0)) [
    | inl ms ↦ rw ms (read_millis (n / 1000000) ∙ ap some (ground arith))
    | inr ms ↦ rw ms (read_micros (n / 1000) ∙ ap some (omega arith))
  ])
]

-- The timeout that stress-ng is given is the duration to the nearest second, and it is 0, which
-- stress-ng takes for no timeout, exactly where the duration is at most half a second.
pub read_time-duration_arg :
    (n : ℕ)
    → (read_time (duration_arg (some (pos n))) ≡ some (round_half_even n * 1000000000))
      × ((round_half_even n ≡ 0) ↔ (n ≤ 500000000))
unfolding duration_arg
read_time-duration_arg n =
    (read_seconds (round_half_even n), ((λ h. ground arith), (λ h. ground arith)))
