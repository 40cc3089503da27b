-- ===== src/Domain/ControlChecks.antt =====
-- crates/roadsim-domain/src/traffic_control.rs: `validate_against`, loop by loop.
use road_sim.Prelude.{
  ℕ, Bool, false, not, List, [], ◌∷◌, Option, none, some, map, Result, ◌>>=◌, ◌>>◌, reject_if,
  for_each, ok_or, leb, ◌==◌, any, contains, is_some,
}
use road_sim.Types.Ids.{ObjectKind, ObjectRef, object_ref}
use road_sim.Types.Fault.{fault}
use road_sim.Types.Units.{LengthMeters}
use road_sim.Domain.Corridor.{Corridor, lane}
use road_sim.Domain.Multimodal.{CatalogError, CatalogErrorCode}
use road_sim.Domain.Control.{
  TrafficSign, RoadMarking, StopLine, SignalGroup, SignalHead, SignalProgram, SignalController,
  SignalMovementBinding,
}
use road_sim.Domain.ControlCatalog.{
  TrafficControlCatalog, group, signal_program, group_ids, program_ids,
}
use road_sim.Domain.Catalog.{DesignCatalog, corridor, junction_key, dangling}

abbrev pub Check : Type 0
Check = Result (Unit {0}) CatalogError

unfoldable pub validate_junction : List ℕ → ℕ → ObjectRef → Check
validate_junction junction_ids junction_id owner =
    reject_if (not (contains junction_ids junction_id)) (
      dangling CatalogErrorCode.dangling_junction owner
        (object_ref ObjectKind.junction junction_id))

unfoldable pub validate_corridor_station : DesignCatalog → ℕ → LengthMeters → ObjectRef → Check
unfolding corridor
validate_corridor_station design corridor_id station owner = do
  let missing = object_ref ObjectKind.corridor corridor_id
  c ←
      ok_or (corridor design corridor_id)
        (dangling CatalogErrorCode.dangling_corridor owner missing)
  reject_if (leb c.reference_line.total_length station)
      (dangling CatalogErrorCode.station_outside_corridor owner missing)

check_lane : Corridor → ObjectRef → ℕ → Check
unfolding lane
check_lane c owner lane_id =
    reject_if (not (is_some (lane c lane_id)))
      (dangling CatalogErrorCode.dangling_lane owner (object_ref ObjectKind.lane lane_id))

unfoldable pub validate_lanes : DesignCatalog → ℕ → List ℕ → ObjectRef → Check
unfolding corridor check_lane
validate_lanes design corridor_id lane_ids owner = do
  c ← ok_or (corridor design corridor_id) (
      dangling CatalogErrorCode.dangling_corridor owner
        (object_ref ObjectKind.corridor corridor_id))
  for_each (check_lane c owner) lane_ids

unfoldable pub check_sign : DesignCatalog → TrafficSign → Check
unfolding validate_corridor_station
check_sign design s =
    validate_corridor_station design s.corridor_id s.station_m
      (object_ref ObjectKind.traffic_sign s.id)

unfoldable pub check_marking : DesignCatalog → RoadMarking → Check
unfolding validate_corridor_station validate_lanes
check_marking design m = do
  let owner = object_ref ObjectKind.road_marking m.id
  validate_corridor_station design m.corridor_id m.end_station_m owner
  validate_lanes design m.corridor_id m.lane_ids owner

unfoldable pub check_stop_line : DesignCatalog → StopLine → Check
unfolding validate_corridor_station validate_lanes
check_stop_line design s = do
  let owner = object_ref ObjectKind.stop_line s.id
  validate_corridor_station design s.corridor_id s.station_m owner
  validate_lanes design s.corridor_id s.lane_ids owner

unfoldable pub check_group : List ℕ → SignalGroup → Check
check_group junction_ids g = reject_if (not (contains junction_ids g.junction_id)) (
    dangling CatalogErrorCode.dangling_junction (object_ref ObjectKind.signal_group g.id)
      (object_ref ObjectKind.junction g.junction_id))

unfoldable pub check_head : TrafficControlCatalog → List ℕ → SignalHead → Check
unfolding validate_junction group
check_head controls junction_ids h = do
  let owner = object_ref ObjectKind.signal_head h.id
  validate_junction junction_ids h.junction_id owner
  g ← ok_or (group controls h.group_id) (
      dangling CatalogErrorCode.dangling_signal_group owner
        (object_ref ObjectKind.signal_group h.group_id))
  reject_if (not (g.junction_id == h.junction_id)) (
      fault CatalogErrorCode.signal_junction_mismatch (
        owner
        ∷ object_ref ObjectKind.signal_group g.id
        ∷ object_ref ObjectKind.junction h.junction_id
        ∷ []))

-- `lookup.expect("membership checked").junction_id() != junction_id`; the identifier is known to
-- be there.
abbrev elsewhere : {A : Type 0} → (A → ℕ) → Option A → ℕ → Bool
elsewhere junction_of none junction_id = false
elsewhere junction_of (some a) junction_id = not (junction_of a == junction_id)

-- The body of the loop over the groups of a program.
unfoldable pub check_program_group : TrafficControlCatalog → SignalProgram → ℕ → Check
unfolding group
check_program_group controls p group_id = do
  let owner = object_ref ObjectKind.signal_program p.id
  let member = object_ref ObjectKind.signal_group group_id
  reject_if (not (contains (group_ids controls) group_id))
      (dangling CatalogErrorCode.dangling_signal_group owner member)
  reject_if (elsewhere (λ g. g.junction_id) (group controls group_id) p.junction_id) (
      fault CatalogErrorCode.signal_junction_mismatch
        (owner ∷ member ∷ object_ref ObjectKind.junction p.junction_id ∷ []))

unfoldable pub check_program : TrafficControlCatalog → List ℕ → SignalProgram → Check
unfolding validate_junction check_program_group
check_program controls junction_ids p = do
  validate_junction junction_ids p.junction_id (object_ref ObjectKind.signal_program p.id)
  for_each (check_program_group controls p) p.group_ids

unfoldable pub check_controller_program : TrafficControlCatalog → SignalController → ℕ → Check
unfolding signal_program
check_controller_program controls c program_id = do
  let owner = object_ref ObjectKind.signal_controller c.id
  let member = object_ref ObjectKind.signal_program program_id
  reject_if (not (contains (program_ids controls) program_id))
      (dangling CatalogErrorCode.dangling_signal_program owner member)
  reject_if (elsewhere (λ p. p.junction_id) (signal_program controls program_id) c.junction_id) (
      fault CatalogErrorCode.signal_junction_mismatch
        (owner ∷ member ∷ object_ref ObjectKind.junction c.junction_id ∷ []))

unfoldable pub check_controller : TrafficControlCatalog → List ℕ → SignalController → Check
unfolding validate_junction check_controller_program
check_controller controls junction_ids c = do
  validate_junction junction_ids c.junction_id (object_ref ObjectKind.signal_controller c.id)
  for_each (check_controller_program controls c) c.program_ids

abbrev pub has_lane : DesignCatalog → ℕ → Bool
has_lane design lane_id = any (λ c. is_some (lane c lane_id)) design.corridors

unfoldable pub check_binding : DesignCatalog → TrafficControlCatalog → SignalMovementBinding → Check
unfolding lane
check_binding design controls b = do
  let owner = object_ref ObjectKind.signal_group b.group_id
  reject_if (not (contains (group_ids controls) b.group_id))
      (fault CatalogErrorCode.dangling_signal_group (owner ∷ []))
  for_each
      (λ lane_id.
        reject_if (not (has_lane design lane_id))
          (dangling CatalogErrorCode.dangling_lane owner (object_ref ObjectKind.lane lane_id)))
      (b.from_lane_id ∷ b.to_lane_id ∷ [])

unfoldable pub validate_against : TrafficControlCatalog → DesignCatalog → Check
unfolding check_sign check_marking check_stop_line check_group check_head check_program
    check_controller check_binding
validate_against controls design = do
  let junction_ids = map junction_key design.junctions
  for_each (check_sign design) controls.signs
  for_each (check_marking design) controls.markings
  for_each (check_stop_line design) controls.stop_lines
  for_each (check_group junction_ids) controls.groups
  for_each (check_head controls junction_ids) controls.heads
  for_each (check_program controls junction_ids) controls.programs
  for_each (check_controller controls junction_ids) controls.controllers
  for_each (check_binding design controls) controls.movement_bindings
