-- ===== src/Network/Movements/Order.antt =====
-- The order of movements, and a table in which the pairs of lanes rise.
use road_sim.Prelude.{
  ok, reject_if-eq-ok, ℕ, zero, suc, ◌<◌, ◌≡◌, refl, ap, subst, ◌⊎◌, true, false, some, List, [],
  ◌∷◌, arith, IsSorted,
}
use road_sim.Prelude.Members.{get_elem?, some-eq}
use road_sim.Network.Movements.{
  CompiledMovement, movement_le, movement_eq, same_lanes, check_pairs, duplicate_movement,
  lane_pair_ambiguous,
}

pub movement_le_total : (a b : CompiledMovement) → movement_le a b ≡ false → movement_le b a ≡ true
unfolding movement_le
movement_le_total a b h = ground arith

-- The pair of lanes of the one is below that of the other.
abbrev pub LanesBelow : CompiledMovement → CompiledMovement → Type 0
LanesBelow a b = (a.from < b.from) ⊎ ((a.from ≡ b.from) × (a.to < b.to))

abbrev pub LanesRise : List CompiledMovement → Type 0
LanesRise [] = Unit
LanesRise (a ∷ []) = Unit
LanesRise (a ∷ b ∷ rest) = LanesBelow a b × LanesRise (b ∷ rest)

pub check_pairs-LanesRise :
    (l : List CompiledMovement) → IsSorted movement_le l → check_pairs l ≡ ok tt → LanesRise l
unfolding check_pairs movement_le
check_pairs-LanesRise [] s h = tt
check_pairs-LanesRise (a ∷ []) s h = tt
check_pairs-LanesRise (a ∷ b ∷ l) s h =
    let (_, h1) = reject_if-eq-ok (movement_eq a b) duplicate_movement _ h in
    let (apart, h2) =
      reject_if-eq-ok (same_lanes a b) lane_pair_ambiguous (check_pairs (b ∷ l)) h1 in
    (ground arith, check_pairs-LanesRise (b ∷ l) s.1 h2)

behind :
    (a : CompiledMovement) (l : List CompiledMovement) (j : ℕ) (n : CompiledMovement)
    → LanesRise (a ∷ l)
    → get_elem? l j ≡ some n
    → LanesBelow a n
behind a [] j n s h = cc
behind a (b ∷ l) zero n s h = subst (LanesBelow a) (some-eq h) s.0
behind a (b ∷ l) (suc j) n s h = ground (arith, behind b l j n s.1 h)

LanesRise-tail :
    (a : CompiledMovement) (l : List CompiledMovement) → LanesRise (a ∷ l) → LanesRise l
LanesRise-tail a [] s = tt
LanesRise-tail a (b ∷ l) s = s.1

-- Where the pairs of lanes rise, they tell the positions apart.
pub LanesRise-unique :
    (l : List CompiledMovement) (i j : ℕ) (m n : CompiledMovement)
    → LanesRise l
    → get_elem? l i ≡ some m
    → get_elem? l j ≡ some n
    → m.from ≡ n.from
    → m.to ≡ n.to
    → i ≡ j
LanesRise-unique [] i j m n s h k e f = cc
LanesRise-unique (a ∷ l) zero zero m n s h k e f = refl
LanesRise-unique (a ∷ l) zero (suc j) m n s h k e f =
    let first : a ≡ m = cc h in
    let below = subst (λ x. LanesBelow x n) first (behind a l j n s k) in ground arith
LanesRise-unique (a ∷ l) (suc i) zero m n s h k e f =
    let first : a ≡ n = cc k in
    let below = subst (λ x. LanesBelow x m) first (behind a l i m s h) in ground arith
LanesRise-unique (a ∷ l) (suc i) (suc j) m n s h k e f =
    ap suc (LanesRise-unique l i j m n (LanesRise-tail a l s) h k e f)
