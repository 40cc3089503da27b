-- ===== src/Domain/ControlCatalog.antt =====
-- crates/roadsim-domain/src/traffic_control.rs: `TrafficControlCatalog` and its constructors.
use road_sim.Prelude.{
  ℕ, List, [], ◌∷◌, Option, map, flat_map, Result, ok, ◌>>◌, reject_some, or_else, first_adjacent,
  sort_by, sort_by_key,
}
use road_sim.Prelude.Keyed.{find}
use road_sim.Types.Ids.{ObjectKind, ObjectRef, object_ref}
use road_sim.Types.Fault.{fault}
use road_sim.Domain.Multimodal.{duplicate_object_ref}
use road_sim.Domain.Control.{
  ControlErrorCode, ControlError, TrafficSign, RoadMarking, StopLine, SignalGroup, SignalHead,
  SignalProgram, SignalController, SignalMovementBinding, binding_le, binding_eq, phase_key,
}

pub record TrafficControlCatalog : Type 0 where
  pub signs : List TrafficSign
  pub markings : List RoadMarking
  pub stop_lines : List StopLine
  pub groups : List SignalGroup
  pub heads : List SignalHead
  pub programs : List SignalProgram
  pub controllers : List SignalController
  pub movement_bindings : List SignalMovementBinding

abbrev pub empty : TrafficControlCatalog
empty = record {
  signs = [];
  markings = [];
  stop_lines = [];
  groups = [];
  heads = [];
  programs = [];
  controllers = [];
  movement_bindings = [];
}

abbrev pub group_key : SignalGroup → ℕ
group_key group = group.id

abbrev pub program_key : SignalProgram → ℕ
program_key program = program.id

abbrev pub sign_ids : TrafficControlCatalog → List ℕ
sign_ids c = map (λ x. x.id) c.signs

abbrev pub marking_ids : TrafficControlCatalog → List ℕ
marking_ids c = map (λ x. x.id) c.markings

abbrev pub stop_line_ids : TrafficControlCatalog → List ℕ
stop_line_ids c = map (λ x. x.id) c.stop_lines

abbrev pub group_ids : TrafficControlCatalog → List ℕ
group_ids c = map group_key c.groups

abbrev pub head_ids : TrafficControlCatalog → List ℕ
head_ids c = map (λ x. x.id) c.heads

abbrev pub program_ids : TrafficControlCatalog → List ℕ
program_ids c = map program_key c.programs

abbrev pub controller_ids : TrafficControlCatalog → List ℕ
controller_ids c = map (λ x. x.id) c.controllers

abbrev pub phase_ids : TrafficControlCatalog → List ℕ
phase_ids c = flat_map (λ p. map phase_key p.phases) c.programs

unfoldable pub sorted : TrafficControlCatalog → TrafficControlCatalog
unfolding sort_by_key
sorted c = record {
  signs = sort_by_key (λ x. x.id) c.signs;
  markings = sort_by_key (λ x. x.id) c.markings;
  stop_lines = sort_by_key (λ x. x.id) c.stop_lines;
  groups = sort_by_key group_key c.groups;
  heads = sort_by_key (λ x. x.id) c.heads;
  programs = sort_by_key program_key c.programs;
  controllers = sort_by_key (λ x. x.id) c.controllers;
  movement_bindings = [];
}

-- The first repeated identifier, in the order of the array in `new`.
unfoldable pub first_duplicate : TrafficControlCatalog → Option ObjectRef
unfolding duplicate_object_ref
first_duplicate c = or_else (duplicate_object_ref ObjectKind.traffic_sign (sign_ids c)) (
    or_else (duplicate_object_ref ObjectKind.road_marking (marking_ids c)) (
      or_else (duplicate_object_ref ObjectKind.stop_line (stop_line_ids c)) (
        or_else (duplicate_object_ref ObjectKind.signal_group (group_ids c)) (
          or_else (duplicate_object_ref ObjectKind.signal_head (head_ids c)) (
            or_else (duplicate_object_ref ObjectKind.signal_program (program_ids c)) (
              or_else (duplicate_object_ref ObjectKind.signal_controller (controller_ids c))
                (duplicate_object_ref ObjectKind.signal_phase (phase_ids c))))))))

-- The arguments are the lists of a catalog; its bindings are not read.
unfoldable pub new : TrafficControlCatalog → Result TrafficControlCatalog ControlError
unfolding sorted first_duplicate
new given = do
  let catalog = sorted given
  reject_some (λ duplicate. fault ControlErrorCode.duplicate_entity (duplicate ∷ []))
      (first_duplicate catalog)
  ok catalog

unfoldable pub with_signal_movement_bindings :
    TrafficControlCatalog → List SignalMovementBinding → Result TrafficControlCatalog ControlError
unfolding sort_by binding_le binding_eq
with_signal_movement_bindings catalog given = do
  let bindings = sort_by binding_le given
  reject_some
      (λ b. fault ControlErrorCode.duplicate_reference (
        object_ref ObjectKind.signal_group b.group_id
        ∷ object_ref ObjectKind.lane b.from_lane_id
        ∷ object_ref ObjectKind.lane b.to_lane_id
        ∷ []))
      (first_adjacent binding_eq bindings)
  ok (record catalog { movement_bindings = bindings })

-- The groups and programs of a catalog stand in strict order.
unfoldable pub group : TrafficControlCatalog → ℕ → Option SignalGroup
unfolding find
group catalog id = find group_key id catalog.groups

unfoldable pub signal_program : TrafficControlCatalog → ℕ → Option SignalProgram
unfolding find
signal_program catalog id = find program_key id catalog.programs
