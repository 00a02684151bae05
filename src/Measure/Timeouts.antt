-- ===== src/Measure/Timeouts.antt =====
-- src/qorl/measure/timeouts.py: the statement limits that follow from the measurement settings; and
-- `statistics.median`, as Python computes it.
use qorl.Prelude.{
  ℕ, zero, suc, ◌+◌, ◌-◌, ◌/◌, ◌%◌, ◌^◌, Bool, true, false, not, ◌&&◌, Option, none, some, List,
  leb, nat_beq, if◌then◌else◌, nat_eq, string_eq, length, get_elem?, sorted, Result, ok, ◌>>=◌,
  ◌>>◌, raise_if, or_raise,
}
use qorl.Numbers.{Number, int, float, is_finite, number_le, whole}

-- Python's arithmetic on floats, which rounds: `x * y`, `x / y` and `(x + y) / 2`.
pub record Floats : Type 0 where
  pub product : Number → Number → Number
  pub quotient : Number → Number → Number
  pub half_sum : Number → Number → Number

pub data TimeoutError : Type 0 where
  seconds_not_positive median_not_positive no_median : TimeoutError

-- math.ceil of a number that is not negative
abbrev pub ceiling : Number → ℕ
ceiling (int false n) = n
ceiling (float false n s) = (n + (2 ^ s - 1)) / 2 ^ s
ceiling _ = 0

abbrev pub is_positive : Number → Bool
is_positive x = is_finite x && not (number_le x (whole 0))

abbrev pub max : ℕ → ℕ → ℕ
max a b = if leb a b then b else a

-- xs[i], and xs[i - 1] and xs[i] for the median of an even number
abbrev pub middle : (Number → Number → Number) → Bool → ℕ → List Number → Option Number
middle half_sum true i xs = get_elem? xs i
middle half_sum false zero xs = none
middle half_sum false (suc i) xs = elim (get_elem? xs i) [
  | none ↦ none
  | some low ↦ elim (get_elem? xs (suc i)) [ none ↦ none | some high ↦ some (half_sum low high) ]
]

module _ (floats : Floats) where
  unfoldable pub seconds_to_ms : Number → Result TimeoutError ℕ
  unfolding number_le
  seconds_to_ms seconds = do
    raise_if (not (is_positive seconds)) seconds_not_positive
    ok (ceiling (floats.product seconds (whole 1000)))

  -- the floor in seconds, and the multiplier, are those of the settings
  unfoldable pub candidate_timeout_ms : Number → Number → Number → Result TimeoutError ℕ
  unfolding seconds_to_ms
  candidate_timeout_ms default_median_ms floor_seconds multiplier = do
    raise_if (not (is_positive default_median_ms)) median_not_positive
    floor ← seconds_to_ms floor_seconds
    ok (max floor (ceiling (floats.product default_median_ms multiplier)))

  -- statistics.median, which raises on an empty list
  unfoldable pub median : List Number → Result TimeoutError Number
  median xs =
      or_raise
        (middle floats.half_sum (nat_beq (length xs % 2) 1) (length xs / 2) (sorted number_le xs))
        no_median
