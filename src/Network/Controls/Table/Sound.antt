-- ===== src/Network/Controls/Table/Sound.antt =====
-- `CompiledControlTable::new`: what holds of a table that it returns.
use road_sim.Prelude.{
  ◌==◌, length, any, any_adjacent, ok, >>=-eq-ok, reject_if-eq-ok, ok_eq, ℕ, ◌<◌, ◌≡◌, refl, subst,
  false, not, ◌||◌, some, List, [], map, Memᴰ, arith, sort_by, sort_by_key,
}
use road_sim.Prelude.Members.{get_elem?}
use road_sim.Network.Controls.{
  CompiledStopPosition, CompiledSignalGroup, CompiledSignalProgram, CompiledSignalController,
  CompiledControlTable, limit_exceeded, stop_position_invalid, duplicate_stop_position,
  duplicate_signal_group, duplicate_signal_program, signal_controller_conflict,
  signal_group_uncontrolled,
}
use road_sim.Network.Controls.Groups.{group_id, check_groups}
use road_sim.Network.Controls.Programs.{
  group_index_remap, program_id, check_programs, check_controllers,
}
use road_sim.Network.Controls.Table.{
  stop_le, same_stop, stop_invalid, controller_id, controllers_conflict, exceeds, new_control_table,
}
use road_sim.Network.Controls.Table.Exclusive.{IsBound, check_groups-at, check_groups-exclusive}
use road_sim.Network.Controls.Table.Controlled.{IsControlled, every_group-IsControlled}

-- The steps of the constructor that led to a table.
pub record Built (lane_count movement_count : ℕ) (stops : List CompiledStopPosition)
    (groups : List CompiledSignalGroup) (table : CompiledControlTable) : Type 0 where
  pub lanes : table.lane_count ≡ lane_count
  pub movements : table.movement_count ≡ movement_count
  pub stops_sorted : table.stop_positions ≡ sort_by stop_le stops
  pub stops_valid : any (stop_invalid lane_count) (sort_by stop_le stops) ≡ false
  pub grouped :
      check_groups movement_count [] (sort_by_key group_id groups) ≡ ok table.signal_groups
  pub controlled : List ℕ
  pub controllers :
      check_controllers table.signal_groups table.signal_programs [] table.signal_controllers
      ≡ ok controlled
  pub full : length controlled ≡ length table.signal_groups

pub new_control_table-Built :
    (lane_count movement_count : ℕ) (stops : List CompiledStopPosition)
    (groups : List CompiledSignalGroup) (programs : List CompiledSignalProgram)
    (controllers : List CompiledSignalController) (table : CompiledControlTable)
    → new_control_table lane_count movement_count stops groups programs controllers ≡ ok table
    → Built lane_count movement_count stops groups table
unfolding new_control_table
new_control_table-Built lane_count movement_count stops groups programs controllers table h =
    let sorted = sort_by stop_le stops in
    let (_, h1) =
      reject_if-eq-ok
        (exceeds (length stops)
          || (exceeds (length groups)
              || (exceeds (length programs) || exceeds (length controllers))))
        limit_exceeded _ h in
    let (valid, h2) =
      reject_if-eq-ok (any (stop_invalid lane_count) sorted) stop_position_invalid _ h1 in
    let (_, h3) = reject_if-eq-ok (any_adjacent same_stop sorted) duplicate_stop_position _ h2 in
    let (out, grouped, h4) =
      >>=-eq-ok (check_groups movement_count [] (sort_by_key group_id groups)) _ h3 in
    let (_, h5) =
      reject_if-eq-ok (any_adjacent (λ a b. group_id a == group_id b) out) duplicate_signal_group _
        h4 in
    let by_id = sort_by_key program_id programs in
    let (_, h6) =
      reject_if-eq-ok (any_adjacent (λ a b. program_id a == program_id b) by_id)
        duplicate_signal_program _ h5 in
    let (checked, _, h7) =
      >>=-eq-ok (check_programs out (group_index_remap (map group_id groups) out) by_id) _ h6 in
    let by_controller = sort_by_key controller_id controllers in
    let (_, h8) =
      reject_if-eq-ok (controllers_conflict by_controller) signal_controller_conflict _ h7 in
    let (controlled, ran, h9) = >>=-eq-ok (check_controllers out checked [] by_controller) _ h8 in
    let (full, h10) =
      reject_if-eq-ok (not (length controlled == length out)) signal_group_uncontrolled _ h9 in
    subst (Built lane_count movement_count stops groups) (ok_eq h10) (record {
      lanes = refl;
      movements = refl;
      stops_sorted = refl;
      stops_valid = valid;
      grouped = grouped;
      controlled = controlled;
      controllers = ran;
      full = ground arith;
    })

-- In a table that the constructor returned, each signal group has a movement, all its movements are
-- of the movement table, and two groups that share a movement are one group.
pub signal_groups-exclusive :
    (lane_count movement_count : ℕ) (stops : List CompiledStopPosition)
    (groups : List CompiledSignalGroup) (programs : List CompiledSignalProgram)
    (controllers : List CompiledSignalController) (table : CompiledControlTable)
    → new_control_table lane_count movement_count stops groups programs controllers ≡ ok table
    → ((i : ℕ) (g : CompiledSignalGroup)
        → get_elem? table.signal_groups i ≡ some g
        → IsBound movement_count g)
      × ((i j movement : ℕ) (a b : CompiledSignalGroup)
          → get_elem? table.signal_groups i ≡ some a
          → get_elem? table.signal_groups j ≡ some b
          → Memᴰ movement a.movement_ids
          → Memᴰ movement b.movement_ids
          → i ≡ j)
signal_groups-exclusive lane_count movement_count stops groups programs controllers table h =
    let built =
      new_control_table-Built lane_count movement_count stops groups programs controllers table h in
    let sorted = sort_by_key group_id groups in
    (
      λ i g at.
          (check_groups-at movement_count [] sorted table.signal_groups i g built.grouped at).0,
      λ i j m a b at_i at_j.
          check_groups-exclusive movement_count [] sorted table.signal_groups i j m a b
            built.grouped at_i at_j,
    )

-- In a table that the constructor returned, each signal group has a controller at its junction, whose
-- active program is of that junction and shows, in each of its phases, exactly the groups of the
-- junction.
pub signal_groups-IsControlled :
    (lane_count movement_count : ℕ) (stops : List CompiledStopPosition)
    (groups : List CompiledSignalGroup) (programs : List CompiledSignalProgram)
    (controllers : List CompiledSignalController) (table : CompiledControlTable)
    → new_control_table lane_count movement_count stops groups programs controllers ≡ ok table
    → (id : ℕ) → id < length table.signal_groups
    → IsControlled table.signal_groups table.signal_programs table.signal_controllers id
signal_groups-IsControlled lane_count movement_count stops groups programs controllers table h =
    let built =
      new_control_table-Built lane_count movement_count stops groups programs controllers table h in
    every_group-IsControlled table.signal_groups table.signal_programs table.signal_controllers
      built.controlled built.controllers built.full
