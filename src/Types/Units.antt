-- ===== src/Types/Units.antt =====
-- crates/roadsim-types/src/units.rs. An `f64` is its IEEE 754 bit pattern, a number below 2^64: the
-- sign bit, eleven bits of exponent, fifty-two of fraction. Two finite values without a sign bit
-- compare as their bit patterns do, so the scalars that are not negative are ordered as numbers.
use road_sim.Prelude.{ℕ, ◌/◌, ◌%◌, ◌^◌, Bool, not, ◌&&◌, ◌==◌, if◌then◌else◌, Result, ok, err}

pub data ValueErrorCode : Type 0 where
  non_finite negative : ValueErrorCode

abbrev pub sign_bit : ℕ → ℕ
sign_bit bits = bits / 2 ^ 63

abbrev pub exponent : ℕ → ℕ
exponent bits = (bits / 2 ^ 52) % 2 ^ 11

abbrev pub is_finite : ℕ → Bool
is_finite bits = not (exponent bits == 2047)

-- `value == 0.0`, which holds of both zeros.
abbrev pub is_zero : ℕ → Bool
is_zero bits = (bits % 2 ^ 63) == 0

-- `value < 0.0`, of a value that is no NaN.
abbrev pub is_negative : ℕ → Bool
is_negative bits = (sign_bit bits == 1) && not (is_zero bits)

-- `try_new` of the scalar types; `non_negative` is the macro's literal.
unfoldable pub try_new : Bool → ℕ → Result ℕ ValueErrorCode
try_new non_negative bits =
    if not (is_finite bits)
    then err ValueErrorCode.non_finite
    else let value = if is_zero bits then 0 else bits in
      if non_negative && is_negative value then err ValueErrorCode.negative else ok value

-- The values of the types that are not negative.
abbrev pub LengthMeters : Type 0
LengthMeters = ℕ

abbrev pub DurationSeconds : Type 0
DurationSeconds = ℕ

abbrev pub FlowRatePerHour : Type 0
FlowRatePerHour = ℕ

-- The others are kept as they come.
abbrev pub CoordinateMeters : Type 0
CoordinateMeters = ℕ
