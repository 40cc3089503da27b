-- ===== src/Types/Float.antt =====
-- Addition of two `f64` that are not negative, on their bit patterns: exact, then rounded to the
-- nearest, ties to even. A finite value is an integer in units of 2^-1074.
mod Tests
use road_sim.Prelude.{
  ℕ, zero, suc, ◌+◌, ◌-◌, ◌*◌, ◌/◌, ◌%◌, ◌^◌, ◌&&◌, ◌||◌, ltb, leb, ◌==◌, if◌then◌else◌,
}
use road_sim.Types.Units.{exponent}

abbrev pub infinity : ℕ
infinity = 2047 * 2 ^ 52

-- The value of a finite pattern with no sign bit.
unfoldable pub magnitude : ℕ → ℕ
magnitude bits =
    if exponent bits == 0 then bits % 2 ^ 52 else (2 ^ 52 + bits % 2 ^ 52) * 2 ^ (exponent bits - 1)

-- The number of low bits of `n` that do not fit a significand of 53 bits.
excess : ℕ → ℕ → ℕ → ℕ
excess zero shift n = shift
excess (suc fuel) shift n =
    let more = excess fuel (shift + 1) n in if ltb (n / 2 ^ shift) (2 ^ 53) then shift else more

-- `n / unit`, rounded to the nearest, ties to even.
round_half_even : ℕ → ℕ → ℕ
round_half_even n unit =
    let quotient = n / unit in
    let twice_rest = 2 * (n % unit) in
    if ltb unit twice_rest || ((twice_rest == unit) && (quotient % 2 == 1))
    then quotient + 1
    else quotient

-- The pattern of an integer; what is too large is infinite. A sum of two finite values has at most
-- 2099 bits, so the fuel for `excess` is enough.
encode : ℕ → ℕ
unfolding excess round_half_even
encode n =
    let shift = excess 2100 0 n in
    let bits = shift * 2 ^ 52 + round_half_even n (2 ^ shift) in
    if leb infinity bits then infinity else bits

unfoldable pub add : ℕ → ℕ → ℕ
unfolding magnitude encode
add a b = encode (magnitude a + magnitude b)
