-- ===== src/Types/Order.antt =====
-- Comparisons of `f64` values that are not NaN, on their bit patterns: the two zeros are equal, a
-- negative value is below one that is not, and of two negative values the larger pattern is below.
use road_sim.Prelude.{ltb, ◌==◌, if◌then◌else◌, ℕ, Bool, true, false, ◌&&◌, ◌||◌}
use road_sim.Types.Units.{is_zero, is_negative}

-- The pattern of the value, with no sign on zero.
abbrev plain : ℕ → ℕ
plain bits = if is_zero bits then 0 else bits

-- `a < b`
unfoldable pub f64_lt : ℕ → ℕ → Bool
f64_lt a b =
    if is_negative a
    then if is_negative b then ltb b a else true
    else if is_negative b
    then false
    else ltb (plain a) (plain b)

-- `a == b`
unfoldable pub f64_eq : ℕ → ℕ → Bool
f64_eq a b = (a == b) || (is_zero a && is_zero b)
