-- ===== src/Network/Controls.antt =====
-- crates/roadsim-compiled-network/src/lib.rs: stop positions, signal groups, programs and
-- controllers, and the constructor of their table.
pub mod Groups
pub mod Programs
pub mod Table
use road_sim.Prelude.{
  ltb, leb, ◌==◌, if◌then◌else◌, ltb→lt, lt→ltb, ==_iff, ==-refl, <→==-false, Bool-cases,
  Option-cases, length, length-append, is_empty, any, all, first_adjacent, any_adjacent, contains,
  or_else, is_some, Result, ok, err, reject_if, reject_some, ok_or, map_err, ◌>>=◌, ◌>>◌, for_each,
  Result-cases, >>=-eq-ok, >>-eq-ok, map_err-eq-ok, reject_if-eq-ok, reject_some-eq-ok, ok_eq, ℕ,
  zero, suc, ◌+◌, ◌-◌, ◌*◌, ◌/◌, ◌%◌, ◌^◌, ◌≤◌, ◌<◌, ◌≡◌, refl, sym, ap, ap₂, subst, ◌∙◌, ◌≢◌, ◌↔◌,
  ◌⊎◌, inl, inr, Bool, true, false, not, ◌&&◌, ◌||◌, Option, none, some, List, [], ◌∷◌, ◌++◌, map,
  Memᴰ, arith, insert_by, sort_by, sort_by_key, IsSorted, IsTotal, sort_by-IsSorted, key_le,
  key_le_total,
}

pub record CompiledStopPosition : Type 0 where
  pub stop_line_id : ℕ
  pub lane_id : ℕ
  pub distance_from_lane_start_m : ℕ

pub record CompiledSignalGroup : Type 0 where
  pub signal_group_id : ℕ
  pub junction_id : ℕ
  pub movement_ids : List ℕ

pub data CompiledSignalIndication : Type 0 where
  red red_amber green amber dark : CompiledSignalIndication

pub record CompiledSignalState : Type 0 where
  pub group_id : ℕ
  pub indication : CompiledSignalIndication

pub record CompiledSignalPhase : Type 0 where
  pub signal_phase_id : ℕ
  pub duration_s : ℕ
  pub intergreen_s : ℕ
  pub states : List CompiledSignalState

pub record CompiledSignalProgram : Type 0 where
  pub signal_program_id : ℕ
  pub junction_id : ℕ
  pub phases : List CompiledSignalPhase

pub record CompiledSignalController : Type 0 where
  pub signal_controller_id : ℕ
  pub junction_id : ℕ
  pub active_program_id : ℕ

pub record CompiledControlTable : Type 0 where
  pub lane_count : ℕ
  pub movement_count : ℕ
  pub stop_positions : List CompiledStopPosition
  pub signal_groups : List CompiledSignalGroup
  pub signal_programs : List CompiledSignalProgram
  pub signal_controllers : List CompiledSignalController

pub data ControlTableErrorCode : Type 0 where
  limit_exceeded stop_position_invalid duplicate_stop_position : ControlTableErrorCode
  signal_group_unbound movement_outside_table duplicate_movement_binding : ControlTableErrorCode
  conflicting_signal_groups duplicate_signal_group duplicate_signal_program : ControlTableErrorCode
  signal_program_invalid signal_phase_invalid signal_program_group_mismatch : ControlTableErrorCode
  signal_controller_conflict active_program_outside_table : ControlTableErrorCode
  controller_program_junction_mismatch active_program_group_mismatch : ControlTableErrorCode
  signal_group_uncontrolled : ControlTableErrorCode
