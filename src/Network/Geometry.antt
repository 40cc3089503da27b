-- ===== src/Network/Geometry.antt =====
-- crates/roadsim-compiled-network/src/lib.rs: the curves of the movements and the zones in which
-- two movements conflict.
pub mod Table
pub mod Conflicts
use road_sim.Prelude.{
  ltb, leb, ◌==◌, if◌then◌else◌, ltb→lt, lt→ltb, ==_iff, ==-refl, <→==-false, Bool-cases,
  Option-cases, length, length-append, is_empty, any, all, first_adjacent, any_adjacent, contains,
  or_else, is_some, Result, ok, err, reject_if, reject_some, ok_or, map_err, ◌>>=◌, ◌>>◌, for_each,
  Result-cases, >>=-eq-ok, >>-eq-ok, map_err-eq-ok, reject_if-eq-ok, reject_some-eq-ok, ok_eq, ℕ,
  zero, suc, ◌+◌, ◌-◌, ◌*◌, ◌/◌, ◌%◌, ◌^◌, ◌≤◌, ◌<◌, ◌≡◌, refl, sym, ap, ap₂, subst, ◌∙◌, ◌≢◌, ◌↔◌,
  ◌⊎◌, inl, inr, Bool, true, false, not, ◌&&◌, ◌||◌, Option, none, some, List, [], ◌∷◌, ◌++◌, map,
  Memᴰ, arith, insert_by, sort_by, sort_by_key, IsSorted, IsTotal, sort_by-IsSorted, key_le,
  key_le_total,
}
use road_sim.Prelude.Members.{get_elem?}
use road_sim.Types.Units.{is_finite}
use road_sim.Types.Order.{f64_lt}
use road_sim.Network.Graph.{max_graph_edges}

pub record CompiledPoint : Type 0 where
  pub x_m : ℕ
  pub y_m : ℕ

abbrev pub point_is_finite : CompiledPoint → Bool
point_is_finite p = is_finite p.x_m && is_finite p.y_m

pub record CompiledMovementCurve : Type 0 where
  pub movement_id : ℕ
  pub start : CompiledPoint
  pub control_1 : CompiledPoint
  pub control_2 : CompiledPoint
  pub end : CompiledPoint

pub data CompiledConflictKind : Type 0 where
  crossing overlap : CompiledConflictKind

pub record CompiledConflictZone : Type 0 where
  pub first : ℕ
  pub second : ℕ
  pub kind : CompiledConflictKind
  pub min_point : CompiledPoint
  pub max_point : CompiledPoint

pub data MovementGeometryErrorCode : Type 0 where
  too_many_movements curve_count_mismatch curve_invalid too_many_conflicts :
      MovementGeometryErrorCode
  conflict_pair_not_canonical conflict_movement_outside_table conflict_bounds_invalid :
      MovementGeometryErrorCode
  duplicate_conflict_pair : MovementGeometryErrorCode

abbrev pub bounds_invalid : CompiledPoint → CompiledPoint → Bool
bounds_invalid min max =
    not (point_is_finite min)
    || (not (point_is_finite max) || (not (f64_lt min.x_m max.x_m) || not (f64_lt min.y_m max.y_m)))

-- `CompiledConflictZone::new`
unfoldable pub new_conflict_zone :
    ℕ
    → ℕ
    → CompiledConflictKind
    → CompiledPoint
    → CompiledPoint
    → Result CompiledConflictZone MovementGeometryErrorCode
unfolding f64_lt
new_conflict_zone first second kind min max = do
  reject_if (leb second first) conflict_pair_not_canonical
  reject_if (bounds_invalid min max) conflict_bounds_invalid
  ok (record { first = first; second = second; kind = kind; min_point = min; max_point = max })

pub record MovementGeometryTable : Type 0 where
  pub movement_count : ℕ
  pub curves : List CompiledMovementCurve
  pub conflict_zones : List CompiledConflictZone

abbrev pub curve_key : CompiledMovementCurve → ℕ
curve_key curve = curve.movement_id

abbrev pub has_invalid_point : CompiledMovementCurve → Bool
has_invalid_point curve =
    not (point_is_finite curve.start)
    || (not (point_is_finite curve.control_1)
        || (not (point_is_finite curve.control_2) || not (point_is_finite curve.end)))

-- `enumerate().any(…)`, from an index on.
abbrev pub has_invalid_curve : ℕ → List CompiledMovementCurve → Bool
has_invalid_curve index [] = false
has_invalid_curve index (curve ∷ curves) =
    (not (curve.movement_id == index) || has_invalid_point curve)
    || has_invalid_curve (suc index) curves

-- The order of the pairs of movements.
unfoldable pub zone_le : CompiledConflictZone → CompiledConflictZone → Bool
zone_le a b = ltb a.first b.first || ((a.first == b.first) && leb a.second b.second)

abbrev pub same_pair : CompiledConflictZone → CompiledConflictZone → Bool
same_pair a b = (a.first == b.first) && (a.second == b.second)

abbrev pub zone_outside : ℕ → CompiledConflictZone → Bool
zone_outside movement_count zone = leb movement_count zone.second

unfoldable pub new_geometry_table :
    ℕ
    → List CompiledMovementCurve
    → List CompiledConflictZone
    → Result MovementGeometryTable MovementGeometryErrorCode
unfolding sort_by sort_by_key zone_le
new_geometry_table movement_count curves zones = do
  reject_if (ltb max_graph_edges movement_count) too_many_movements
  reject_if (not (length curves == movement_count)) curve_count_mismatch
  let sorted_curves = sort_by_key curve_key curves
  reject_if (has_invalid_curve 0 sorted_curves) curve_invalid
  reject_if (ltb max_graph_edges (length zones)) too_many_conflicts
  let sorted_zones = sort_by zone_le zones
  reject_if (any (zone_outside movement_count) sorted_zones) conflict_movement_outside_table
  reject_if (any_adjacent same_pair sorted_zones) duplicate_conflict_pair
  ok (record {
    movement_count = movement_count;
    curves = sorted_curves;
    conflict_zones = sorted_zones;
  })

-- `MovementGeometryTable::curve`
unfoldable pub curve : MovementGeometryTable → ℕ → Option CompiledMovementCurve
curve table id = get_elem? table.curves id

abbrev pub is_pair : ℕ → ℕ → CompiledConflictZone → Bool
is_pair first second zone = (zone.first == first) && (zone.second == second)

-- `MovementGeometryTable::conflicts`; the binary search is on zones that the constructor sorted, so
-- it finds a pair if one of them has it.
unfoldable pub conflicts : MovementGeometryTable → ℕ → ℕ → Bool
conflicts table first second =
    if first == second
    then false
    else if ltb first second
    then any (is_pair first second) table.conflict_zones
    else any (is_pair second first) table.conflict_zones
