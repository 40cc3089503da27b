-- ===== src/Domain/Control.antt =====
-- crates/roadsim-domain/src/traffic_control.rs: signs, markings, stop lines and signals, and the
-- catalog that holds them. `ControlChecks` models its validation.
use road_sim.Prelude.{
  ℕ, Bool, true, false, not, ◌&&◌, ◌||◌, List, [], ◌∷◌, map, Result, ok, ◌>>=◌, ◌>>◌, reject_if,
  reject_some, for_each, ltb, leb, ◌==◌, any_adjacent, is_empty, contains, sort_by_key,
}
use road_sim.Types.Ids.{ObjectKind, ObjectRef, object_ref}
use road_sim.Types.Fault.{Fault, fault}
use road_sim.Types.Units.{LengthMeters, DurationSeconds}
use road_sim.Domain.Text.{Text, is_blank, byte_length}
use road_sim.Domain.Multimodal.{duplicate_object_ref}

pub data ControlErrorCode : Type 0 where
  empty_code code_too_long empty_references duplicate_reference : ControlErrorCode
  duplicate_entity invalid_station_range zero_phase_duration : ControlErrorCode
  phase_group_mismatch active_program_missing invalid_movement_binding : ControlErrorCode

abbrev pub ControlError : Type 0
ControlError = Fault ControlErrorCode

unfoldable pub new_code : Text → Result Text ControlError
unfolding is_blank byte_length
new_code value = do
  reject_if (is_blank value) (fault ControlErrorCode.empty_code [])
  reject_if (ltb 128 (byte_length value)) (fault ControlErrorCode.code_too_long [])
  ok value

abbrev pub itself : ℕ → ℕ
itself id = id

unfoldable pub sorted_unique : List ℕ → ObjectRef → Result (List ℕ) ControlError
unfolding sort_by_key
sorted_unique values owner = do
  reject_if (is_empty values) (fault ControlErrorCode.empty_references (owner ∷ []))
  let sorted = sort_by_key itself values
  reject_if (any_adjacent (λ a b. a == b) sorted)
      (fault ControlErrorCode.duplicate_reference (owner ∷ []))
  ok sorted

pub record TrafficSign : Type 0 where
  pub id : ℕ
  pub corridor_id : ℕ
  pub station_m : LengthMeters
  pub code : Text

pub record RoadMarking : Type 0 where
  pub id : ℕ
  pub corridor_id : ℕ
  pub start_station_m : LengthMeters
  pub end_station_m : LengthMeters
  pub lane_ids : List ℕ
  pub code : Text

-- The constructors take the fields, given as a record; the lists in it come back canonical.
unfoldable pub new_marking : RoadMarking → Result RoadMarking ControlError
unfolding sorted_unique
new_marking m = do
  let owner = object_ref ObjectKind.road_marking m.id
  reject_if (leb m.end_station_m m.start_station_m) (
      fault ControlErrorCode.invalid_station_range
        (owner ∷ object_ref ObjectKind.corridor m.corridor_id ∷ []))
  lanes ← sorted_unique m.lane_ids owner
  ok (record m { lane_ids = lanes })

pub record StopLine : Type 0 where
  pub id : ℕ
  pub corridor_id : ℕ
  pub station_m : LengthMeters
  pub lane_ids : List ℕ

unfoldable pub new_stop_line : StopLine → Result StopLine ControlError
unfolding sorted_unique
new_stop_line s = do
  lanes ← sorted_unique s.lane_ids (object_ref ObjectKind.stop_line s.id)
  ok (record s { lane_ids = lanes })

pub data SignalIndication : Type 0 where
  red red_amber green amber dark : SignalIndication

pub record SignalMovementBinding : Type 0 where
  pub group_id : ℕ
  pub from_lane_id : ℕ
  pub to_lane_id : ℕ

unfoldable pub new_binding : SignalMovementBinding → Result SignalMovementBinding ControlError
new_binding b = do
  reject_if (b.from_lane_id == b.to_lane_id) (
      fault ControlErrorCode.invalid_movement_binding (
        object_ref ObjectKind.signal_group b.group_id
        ∷ object_ref ObjectKind.lane b.from_lane_id
        ∷ []))
  ok b

-- The derived order, field by field.
unfoldable pub binding_le : SignalMovementBinding → SignalMovementBinding → Bool
binding_le a b =
    ltb a.group_id b.group_id
    || ((a.group_id == b.group_id)
        && (ltb a.from_lane_id b.from_lane_id
            || ((a.from_lane_id == b.from_lane_id) && leb a.to_lane_id b.to_lane_id)))

unfoldable pub binding_eq : SignalMovementBinding → SignalMovementBinding → Bool
binding_eq a b =
    (a.group_id == b.group_id)
    && ((a.from_lane_id == b.from_lane_id) && (a.to_lane_id == b.to_lane_id))

pub record SignalGroup : Type 0 where
  pub id : ℕ
  pub junction_id : ℕ

pub record SignalHead : Type 0 where
  pub id : ℕ
  pub junction_id : ℕ
  pub group_id : ℕ

pub record GroupState : Type 0 where
  pub group_id : ℕ
  pub indication : SignalIndication

pub record SignalPhase : Type 0 where
  pub id : ℕ
  pub duration_s : DurationSeconds
  pub intergreen_s : DurationSeconds
  pub states : List GroupState

abbrev pub state_key : GroupState → ℕ
state_key state = state.group_id

unfoldable pub new_phase : SignalPhase → Result SignalPhase ControlError
unfolding sort_by_key
new_phase p = do
  let owner = object_ref ObjectKind.signal_phase p.id
  reject_if (p.duration_s == 0) (fault ControlErrorCode.zero_phase_duration (owner ∷ []))
  let states = sort_by_key state_key p.states
  reject_if (is_empty states) (fault ControlErrorCode.empty_references (owner ∷ []))
  reject_if (any_adjacent (λ a b. state_key a == state_key b) states)
      (fault ControlErrorCode.duplicate_reference (owner ∷ []))
  ok (record p { states = states })

pub record SignalProgram : Type 0 where
  pub id : ℕ
  pub junction_id : ℕ
  pub group_ids : List ℕ
  pub phases : List SignalPhase

abbrev pub ids_eq : List ℕ → List ℕ → Bool
ids_eq [] [] = true
ids_eq [] (b ∷ bs) = false
ids_eq (a ∷ as') [] = false
ids_eq (a ∷ as') (b ∷ bs) = (a == b) && ids_eq as' bs

abbrev pub phase_key : SignalPhase → ℕ
phase_key phase = phase.id

abbrev pub phase_groups : SignalPhase → List ℕ
phase_groups phase = map state_key phase.states

unfoldable pub check_phases : ℕ → List ℕ → List SignalPhase → Result (Unit {0}) ControlError
check_phases id group_ids = for_each λ phase.
    reject_if (not (ids_eq (phase_groups phase) group_ids)) (
      fault ControlErrorCode.phase_group_mismatch (
        object_ref ObjectKind.signal_program id ∷ object_ref ObjectKind.signal_phase phase.id ∷ []))

unfoldable pub new_program : SignalProgram → Result SignalProgram ControlError
unfolding sorted_unique check_phases duplicate_object_ref
new_program p = do
  let owner = object_ref ObjectKind.signal_program p.id
  group_ids ← sorted_unique p.group_ids owner
  reject_if (is_empty p.phases) (fault ControlErrorCode.empty_references (owner ∷ []))
  reject_some (λ _. fault ControlErrorCode.duplicate_reference (owner ∷ []))
      (duplicate_object_ref ObjectKind.signal_phase (map phase_key p.phases))
  check_phases p.id group_ids p.phases
  ok (record p { group_ids = group_ids })

pub record SignalController : Type 0 where
  pub id : ℕ
  pub junction_id : ℕ
  pub program_ids : List ℕ
  pub active_program_id : ℕ

unfoldable pub new_controller : SignalController → Result SignalController ControlError
unfolding sorted_unique
new_controller c = do
  let owner = object_ref ObjectKind.signal_controller c.id
  program_ids ← sorted_unique c.program_ids owner
  reject_if (not (contains program_ids c.active_program_id)) (
      fault ControlErrorCode.active_program_missing
        (owner ∷ object_ref ObjectKind.signal_program c.active_program_id ∷ []))
  ok (record c { program_ids = program_ids })
