-- ===== src/Types/Float/Tests.antt =====
-- Sums of doubles, compared with the patterns that the hardware gives.
use road_sim.Prelude.{◌≡◌, refl}
use road_sim.Types.Float.{add}

-- 1.5 + 2.25 = 3.75
add_exact : add 0x3ff8000000000000 0x4002000000000000 ≡ 0x400e000000000000
unfolding add
add_exact = refl

-- 0.1 + 0.2 = 0.30000000000000004
add_rounds : add 0x3fb999999999999a 0x3fc999999999999a ≡ 0x3fd3333333333334
unfolding add
add_rounds = refl

-- f64::MAX + f64::MAX is infinite.
add_overflows : add 0x7fefffffffffffff 0x7fefffffffffffff ≡ 0x7ff0000000000000
unfolding add
add_overflows = refl

-- 1e16 + 1 = 1e16, a tie.
add_lost : add 0x4341c37937e08000 0x3ff0000000000000 ≡ 0x4341c37937e08000
unfolding add
add_lost = refl

add_tiny : add 1 0x000fffffffffffff ≡ 0x0010000000000000
unfolding add
add_tiny = refl
