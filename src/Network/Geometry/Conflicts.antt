-- ===== src/Network/Geometry/Conflicts.antt =====
-- The conflict query: a symmetric relation, which holds of the pairs of the zones.
use road_sim.Prelude.{
  ltb, leb, Bool-cases, any, ok, reject_if-eq-ok, ok_eq, ℕ, ◌<◌, ◌≡◌, ap, ◌⊎◌, inl, inr, true, List,
  Memᴰ, arith,
}
use road_sim.Prelude.Members.{any-false, any-true}
use road_sim.Network.Geometry.{
  CompiledMovementCurve, CompiledConflictZone, CompiledConflictKind, CompiledPoint,
  MovementGeometryTable, new_conflict_zone, conflict_pair_not_canonical, bounds_invalid,
  conflict_bounds_invalid, is_pair, conflicts, new_geometry_table,
}
use road_sim.Network.Geometry.Table.{IsGeometryTableOf, new_geometry_table_ok}

-- The zone is of these two movements, in either order.
abbrev pub Joins : ℕ → ℕ → CompiledConflictZone → Type 0
Joins a b zone = ((zone.first ≡ a) × (zone.second ≡ b)) ⊎ ((zone.first ≡ b) × (zone.second ≡ a))

-- `CompiledConflictZone::new` puts the lower movement first.
pub new_conflict_zone_canonical :
    (first second : ℕ) (kind : CompiledConflictKind) (min max : CompiledPoint)
    (zone : CompiledConflictZone)
    → new_conflict_zone first second kind min max ≡ ok zone
    → zone.first < zone.second
unfolding new_conflict_zone
new_conflict_zone_canonical first second kind min max zone h =
    let (below, h1) = reject_if-eq-ok (leb second first) conflict_pair_not_canonical _ h in
    let (_, h2) = reject_if-eq-ok (bounds_invalid min max) conflict_bounds_invalid _ h1 in
    let made = ok_eq h2 in
    let first_is = ap (λ (z : CompiledConflictZone). z.first) made in
    let second_is = ap (λ (z : CompiledConflictZone). z.second) made in ground arith

listed :
    (a b : ℕ) (zones : List CompiledConflictZone)
    → any (is_pair a b) zones ≡ true
    → (zone : CompiledConflictZone) × Memᴰ zone zones × (zone.first ≡ a) × (zone.second ≡ b)
listed a b zones h =
    let (zone, m, e) = any-true (is_pair a b) zones h in (zone, m, ground arith, ground arith)

lists :
    (a b : ℕ) (zones : List CompiledConflictZone) (zone : CompiledConflictZone)
    → Memᴰ zone zones
    → zone.first ≡ a
    → zone.second ≡ b
    → any (is_pair a b) zones ≡ true
lists a b zones zone m e f = elim (Bool-cases (any (is_pair a b) zones)) [
  | inl h ↦ h
  | inr h ↦ let missing = (any-false (is_pair a b) zones).0 h zone m in ground arith
]

-- On a table that the constructor returned, of zones whose lower movement is first, two movements
-- conflict exactly if one of the zones is of these two, in either order; the answer does not depend
-- on the order of the two, and only movements of the table conflict.
pub conflicts_iff :
    (movement_count : ℕ) (curves : List CompiledMovementCurve) (zones : List CompiledConflictZone)
    (table : MovementGeometryTable) (a b : ℕ)
    → new_geometry_table movement_count curves zones ≡ ok table
    → ((zone : CompiledConflictZone) → Memᴰ zone zones → zone.first < zone.second)
    → ((conflicts table a b ≡ true)
        → (zone : CompiledConflictZone) × Memᴰ zone zones × Joins a b zone)
      × ((zone : CompiledConflictZone)
          → Memᴰ zone zones
          → Joins a b zone
          → conflicts table a b ≡ true)
      × (conflicts table a b ≡ conflicts table b a)
      × (conflicts table a b ≡ true → (a < movement_count) × (b < movement_count))
unfolding conflicts
conflicts_iff movement_count curves zones table a b h canonical =
    (found_zone, has_zone, ground arith, within)
  where
    of : IsGeometryTableOf movement_count curves zones table
    of = new_geometry_table_ok movement_count curves zones table h

    found_zone :
        conflicts table a b ≡ true
        → (zone : CompiledConflictZone) × Memᴰ zone zones × Joins a b zone
    found_zone t = elim (Bool-cases (ltb a b)) [
      | inl e ↦
          let (zone, m, f, s) = listed a b table.conflict_zones (ground arith) in
          (zone, (of.same zone).0 m, inl (f, s))
      | inr e ↦
          let (zone, m, f, s) = listed b a table.conflict_zones (ground arith) in
          (zone, (of.same zone).0 m, inr (f, s))
    ]

    has_zone :
        (zone : CompiledConflictZone)
        → Memᴰ zone zones
        → Joins a b zone
        → conflicts table a b ≡ true
    has_zone zone m j =
        let below = canonical zone m in
        let stored = (of.same zone).1 m in
        ground (
          arith,
          lists a b table.conflict_zones zone stored,
          lists b a table.conflict_zones zone stored,
        )

    within : conflicts table a b ≡ true → (a < movement_count) × (b < movement_count)
    within t =
        let (zone, m, j) = found_zone t in
        let below = canonical zone m in let bound = of.inside zone m in ground arith
