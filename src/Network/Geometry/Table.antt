-- ===== src/Network/Geometry/Table.antt =====
-- The geometry table: what its constructor guarantees of curves and zones.
use road_sim.Prelude.{
  ltb, ◌==◌, length, any, any_adjacent, ok, reject_if-eq-ok, ok_eq, ℕ, zero, suc, ◌+◌, ◌<◌, ◌≡◌,
  refl, ap, subst, ◌∙◌, ◌↔◌, ◌⊎◌, true, false, not, ◌||◌, some, List, [], ◌∷◌, Memᴰ, arith, sort_by,
  sort_by_key, IsSorted, sort_by-IsSorted, key_le,
}
use road_sim.Prelude.{||-false}
use road_sim.Prelude.Members.{some-eq, get_elem?, Memᴰ-sort_by, any-false, length-sort_by}
use road_sim.Network.Graph.{max_graph_edges}
use road_sim.Network.Geometry.{
  CompiledMovementCurve, CompiledConflictZone, MovementGeometryTable, too_many_movements,
  curve_count_mismatch, curve_invalid, too_many_conflicts, conflict_movement_outside_table,
  duplicate_conflict_pair, curve_key, has_invalid_point, has_invalid_curve, zone_le, same_pair,
  zone_outside, new_geometry_table,
}

zone_le_total : (a b : CompiledConflictZone) → zone_le a b ≡ false → zone_le b a ≡ true
unfolding zone_le
zone_le_total a b h = ground arith

-- The pairs of movements rise from zone to zone.
abbrev pub PairsRise : List CompiledConflictZone → Type 0
PairsRise [] = Unit
PairsRise (a ∷ []) = Unit
PairsRise (a ∷ b ∷ rest) =
    ((a.first < b.first) ⊎ ((a.first ≡ b.first) × (a.second < b.second))) × PairsRise (b ∷ rest)

PairsRise-of_sorted :
    (l : List CompiledConflictZone)
    → IsSorted zone_le l
    → any_adjacent same_pair l ≡ false
    → PairsRise l
unfolding zone_le
PairsRise-of_sorted [] s h = tt
PairsRise-of_sorted (a ∷ []) s h = tt
PairsRise-of_sorted (a ∷ b ∷ l) s h = (ground arith, PairsRise-of_sorted (b ∷ l) s.1 (ground arith))

is_index : (id index : ℕ) → not (id == index) ≡ false → id ≡ index
is_index id index h = ground arith

curve_at :
    (index : ℕ) (l : List CompiledMovementCurve) (i : ℕ) (c : CompiledMovementCurve)
    → has_invalid_curve index l ≡ false
    → get_elem? l i ≡ some c
    → c.movement_id ≡ index + i
curve_at index [] i c h k = cc
curve_at index (d ∷ l) zero c h k =
    let (valid, _) = ||-false (not (d.movement_id == index) || has_invalid_point d) _ h in
    let (here, _) = ||-false (not (d.movement_id == index)) (has_invalid_point d) valid in
    let same : d.movement_id ≡ c.movement_id =
      ap (λ (e : CompiledMovementCurve). e.movement_id) (some-eq k) in
    omega (arith, same, is_index d.movement_id index here)
curve_at index (d ∷ l) (suc i) c h k =
    let (_, rest) = ||-false (not (d.movement_id == index) || has_invalid_point d) _ h in
    omega (arith, curve_at (suc index) l i c rest k)

pub record IsGeometryTableOf (movement_count : ℕ) (curves : List CompiledMovementCurve)
    (zones : List CompiledConflictZone) (table : MovementGeometryTable) : Type 0 where
  pub count : table.movement_count ≡ movement_count
  pub size : length table.curves ≡ movement_count
  pub numbered :
      (i : ℕ) (c : CompiledMovementCurve) → get_elem? table.curves i ≡ some c → c.movement_id ≡ i
  pub rise : PairsRise table.conflict_zones
  pub same : (zone : CompiledConflictZone) → Memᴰ zone table.conflict_zones ↔ Memᴰ zone zones
  pub inside : (zone : CompiledConflictZone) → Memᴰ zone zones → zone.second < movement_count

pub new_geometry_table_ok :
    (movement_count : ℕ) (curves : List CompiledMovementCurve) (zones : List CompiledConflictZone)
    (table : MovementGeometryTable)
    → new_geometry_table movement_count curves zones ≡ ok table
    → IsGeometryTableOf movement_count curves zones table
unfolding new_geometry_table sort_by_key
new_geometry_table_ok movement_count curves zones table h =
    let by_id = sort_by_key curve_key curves in
    let sorted = sort_by zone_le zones in
    let (_, h1) = reject_if-eq-ok (ltb max_graph_edges movement_count) too_many_movements _ h in
    let (counted, h2) =
      reject_if-eq-ok (not (length curves == movement_count)) curve_count_mismatch _ h1 in
    let (valid, h3) = reject_if-eq-ok (has_invalid_curve 0 by_id) curve_invalid _ h2 in
    let (_, h4) = reject_if-eq-ok (ltb max_graph_edges (length zones)) too_many_conflicts _ h3 in
    let (bounds, h5) =
      reject_if-eq-ok (any (zone_outside movement_count) sorted) conflict_movement_outside_table _
        h4 in
    let (pairs, h6) =
      reject_if-eq-ok (any_adjacent same_pair sorted) duplicate_conflict_pair _ h5 in
    let members = λ (zone : CompiledConflictZone). Memᴰ-sort_by zone_le zone zones in
    subst (IsGeometryTableOf movement_count curves zones) (ok_eq h6) (record {
      count = refl;
      size = length-sort_by (key_le curve_key) curves ∙ (ground arith);
      numbered = λ i c k. omega (arith, curve_at 0 by_id i c valid k);
      rise = PairsRise-of_sorted sorted (sort_by-IsSorted zone_le zone_le_total zones) pairs;
      same = members;
      inside = λ zone m.
          let within =
            (any-false (zone_outside movement_count) sorted).0 bounds zone ((members zone).1 m) in
          ground arith;
    })
