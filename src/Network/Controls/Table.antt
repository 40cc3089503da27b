-- ===== src/Network/Controls/Table.antt =====
-- `CompiledControlTable::new` as a whole.
pub mod Exclusive
pub mod Controlled
pub mod Sound
use road_sim.Prelude.{
  ltb, leb, ◌==◌, if◌then◌else◌, ltb→lt, lt→ltb, ==_iff, ==-refl, <→==-false, Bool-cases,
  Option-cases, length, length-append, is_empty, any, all, first_adjacent, any_adjacent, contains,
  first_repeated, or_else, is_some, Result, ok, err, reject_if, reject_some, ok_or, map_err, ◌>>=◌,
  ◌>>◌, for_each, Result-cases, >>=-eq-ok, >>-eq-ok, map_err-eq-ok, reject_if-eq-ok,
  reject_some-eq-ok, ok_eq, ℕ, zero, suc, ◌+◌, ◌-◌, ◌*◌, ◌/◌, ◌%◌, ◌^◌, ◌≤◌, ◌<◌, ◌≡◌, refl, sym,
  ap, ap₂, subst, ◌∙◌, ◌≢◌, ◌↔◌, ◌⊎◌, inl, inr, Bool, true, false, not, ◌&&◌, ◌||◌, Option, none,
  some, List, [], ◌∷◌, ◌++◌, map, Memᴰ, arith, insert_by, sort_by, sort_by_key, IsSorted, IsTotal,
  sort_by-IsSorted, key_le, key_le_total,
}
use road_sim.Types.Units.{is_finite, is_negative}
use road_sim.Network.Graph.{max_graph_edges}
use road_sim.Network.Controls.{
  CompiledStopPosition, CompiledSignalGroup, CompiledSignalProgram, CompiledSignalController,
  CompiledControlTable, ControlTableErrorCode, limit_exceeded, stop_position_invalid,
  duplicate_stop_position, duplicate_signal_group, duplicate_signal_program,
  signal_controller_conflict, signal_group_uncontrolled,
}
use road_sim.Network.Controls.Groups.{group_id, check_groups}
use road_sim.Network.Controls.Programs.{
  group_index_remap, program_id, check_programs, check_controllers,
}

unfoldable pub stop_le : CompiledStopPosition → CompiledStopPosition → Bool
stop_le a b =
    ltb a.stop_line_id b.stop_line_id
    || ((a.stop_line_id == b.stop_line_id) && leb a.lane_id b.lane_id)

abbrev pub same_stop : CompiledStopPosition → CompiledStopPosition → Bool
same_stop a b = (a.stop_line_id == b.stop_line_id) && (a.lane_id == b.lane_id)

unfoldable pub stop_invalid : ℕ → CompiledStopPosition → Bool
stop_invalid lane_count stop =
    leb lane_count stop.lane_id
    || (not (is_finite stop.distance_from_lane_start_m)
        || is_negative stop.distance_from_lane_start_m)

abbrev pub controller_id : CompiledSignalController → ℕ
controller_id controller = controller.signal_controller_id

-- `duplicate_controller_id || duplicate_controller_junction`
abbrev pub controllers_conflict : List CompiledSignalController → Bool
controllers_conflict controllers =
    any_adjacent (λ a b. controller_id a == controller_id b) controllers
    || is_some (first_repeated [] (map (λ controller. controller.junction_id) controllers))

abbrev pub exceeds : ℕ → Bool
exceeds count = ltb max_graph_edges count

unfoldable pub new_control_table :
    ℕ
    → ℕ
    → List CompiledStopPosition
    → List CompiledSignalGroup
    → List CompiledSignalProgram
    → List CompiledSignalController
    → Result CompiledControlTable ControlTableErrorCode
unfolding sort_by sort_by_key stop_le stop_invalid check_groups group_index_remap check_programs
    check_controllers
new_control_table lane_count movement_count stops groups programs controllers = do
  reject_if
      (exceeds (length stops)
        || (exceeds (length groups) || (exceeds (length programs) || exceeds (length controllers))))
      limit_exceeded
  let stop_positions = sort_by stop_le stops
  reject_if (any (stop_invalid lane_count) stop_positions) stop_position_invalid
  reject_if (any_adjacent same_stop stop_positions) duplicate_stop_position
  signal_groups ← check_groups movement_count [] (sort_by_key group_id groups)
  reject_if (any_adjacent (λ a b. group_id a == group_id b) signal_groups) duplicate_signal_group
  let remap = group_index_remap (map group_id groups) signal_groups
  let by_id = sort_by_key program_id programs
  reject_if (any_adjacent (λ a b. program_id a == program_id b) by_id) duplicate_signal_program
  signal_programs ← check_programs signal_groups remap by_id
  let signal_controllers = sort_by_key controller_id controllers
  reject_if (controllers_conflict signal_controllers) signal_controller_conflict
  controlled ← check_controllers signal_groups signal_programs [] signal_controllers
  reject_if (not (length controlled == length signal_groups)) signal_group_uncontrolled
  ok (record {
    lane_count = lane_count;
    movement_count = movement_count;
    stop_positions = stop_positions;
    signal_groups = signal_groups;
    signal_programs = signal_programs;
    signal_controllers = signal_controllers;
  })
