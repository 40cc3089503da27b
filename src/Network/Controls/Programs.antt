-- ===== src/Network/Controls/Programs.antt =====
-- `CompiledControlTable::new`: its loops over the signal programs and over the controllers.
use road_sim.Prelude.{
  ltb, leb, ◌==◌, if◌then◌else◌, is_empty, any, any_adjacent, contains, Result, ok, reject_if,
  ok_or, ◌>>=◌, ◌>>◌, ℕ, suc, Bool, true, false, not, ◌&&◌, ◌||◌, Option, none, some, List, [], ◌∷◌,
  map, sort_by,
}
use road_sim.Prelude.Keyed.{find}
use road_sim.Prelude.Members.{get_elem?}
use road_sim.Types.Units.{is_finite, is_zero, is_negative}
use road_sim.Network.Controls.{
  CompiledSignalIndication, red, red_amber, green, amber, dark, CompiledSignalGroup,
  CompiledSignalState, CompiledSignalPhase, CompiledSignalProgram, CompiledSignalController,
  ControlTableErrorCode, signal_program_invalid, signal_phase_invalid,
  signal_program_group_mismatch, active_program_outside_table, controller_program_junction_mismatch,
  active_program_group_mismatch,
}
use road_sim.Network.Controls.Groups.{group_id}

-- The position of a group in the sorted groups: `binary_search_by_key(…).expect(…)`. The groups
-- asked for are all there, so the last clause is never reached.
unfoldable pub group_index : ℕ → List CompiledSignalGroup → ℕ
group_index id [] = 0
group_index id (group ∷ groups) =
    let rest = group_index id groups in if group_id group == id then 0 else suc rest

-- `group_index_remap`
unfoldable pub group_index_remap : List ℕ → List CompiledSignalGroup → List ℕ
unfolding group_index
group_index_remap input_order groups = map (λ id. group_index id groups) input_order

-- The loop that renumbers the states of a phase.
unfoldable pub remap_states :
    List ℕ → List CompiledSignalState → Result (List CompiledSignalState) ControlTableErrorCode
remap_states remap [] = ok []
remap_states remap (state ∷ states) = do
  index ← ok_or (get_elem? remap state.group_id) signal_phase_invalid
  rest ← remap_states remap states
  ok (record state { group_id = index } ∷ rest)

abbrev indication_rank : CompiledSignalIndication → ℕ
indication_rank red = 0
indication_rank red_amber = 1
indication_rank green = 2
indication_rank amber = 3
indication_rank dark = 4

unfoldable pub state_le : CompiledSignalState → CompiledSignalState → Bool
state_le a b =
    ltb a.group_id b.group_id
    || ((a.group_id == b.group_id)
        && leb (indication_rank a.indication) (indication_rank b.indication))

-- The set of the groups of a phase, whose states are sorted and name no group twice.
abbrev pub phase_groups : CompiledSignalPhase → List ℕ
phase_groups phase = map (λ state. state.group_id) phase.states

abbrev pub same_ids : List ℕ → List ℕ → Bool
same_ids [] [] = true
same_ids (a ∷ ids) (b ∷ others) = (a == b) && same_ids ids others
same_ids ids others = false

unfoldable pub phase_invalid : CompiledSignalPhase → Bool
phase_invalid phase =
    not (is_finite phase.duration_s)
    || ((is_negative phase.duration_s || is_zero phase.duration_s)
        || (not (is_finite phase.intergreen_s)
            || (is_negative phase.intergreen_s
                || (is_empty phase.states
                    || any_adjacent (λ a b. a.group_id == b.group_id) phase.states))))

-- `signal_groups[index].junction_id() != junction`; an index is one of `group_index_remap`, so it is
-- below the number of groups and the first clause is never reached.
abbrev pub other_junction : Option CompiledSignalGroup → ℕ → Bool
other_junction none junction = true
other_junction (some group) junction = not (group.junction_id == junction)

-- `program_groups.as_ref().is_some_and(|expected| expected != &phase_groups)`
abbrev pub differs : Option (List ℕ) → List ℕ → Bool
differs none ids = false
differs (some expected) ids = not (same_ids expected ids)

module _ (groups : List CompiledSignalGroup) (remap : List ℕ) (junction : ℕ) where
  unfoldable pub check_phases :
      Option (List ℕ)
      → List CompiledSignalPhase
      → Result (List CompiledSignalPhase) ControlTableErrorCode
  unfolding remap_states sort_by state_le phase_invalid
  check_phases program_groups [] = ok []
  check_phases program_groups (phase ∷ phases) = remap_states remap phase.states >>= λ states.
      let canonical = record phase { states = sort_by state_le states } in
      let ids = phase_groups canonical in
      reject_if (phase_invalid canonical) signal_phase_invalid
      >> (reject_if
            (any (λ id. other_junction (get_elem? groups id) junction) ids
              || differs program_groups ids)
            signal_program_group_mismatch
          >> (check_phases (some ids) phases >>= λ rest. ok (canonical ∷ rest)))

unfoldable pub check_programs :
    List CompiledSignalGroup
    → List ℕ
    → List CompiledSignalProgram
    → Result (List CompiledSignalProgram) ControlTableErrorCode
unfolding check_phases
check_programs groups remap [] = ok []
check_programs groups remap (program ∷ programs) = do
  reject_if (is_empty program.phases) signal_program_invalid
  phases ← check_phases groups remap program.junction_id none program.phases
  rest ← check_programs groups remap programs
  ok (record program { phases = phases } ∷ rest)

-- The positions, from an index on, of the groups of a junction.
unfoldable pub groups_of : ℕ → ℕ → List CompiledSignalGroup → List ℕ
groups_of junction index [] = []
groups_of junction index (group ∷ groups) =
    let rest = groups_of junction (suc index) groups in
    if group.junction_id == junction then index ∷ rest else rest

abbrev pub program_id : CompiledSignalProgram → ℕ
program_id program = program.signal_program_id

-- `controlled_groups.extend(expected)`
abbrev pub extend : List ℕ → List ℕ → List ℕ
extend controlled [] = controlled
extend controlled (id ∷ ids) =
    let rest = extend controlled ids in if contains rest id then rest else id ∷ rest

module _ (groups : List CompiledSignalGroup) (programs : List CompiledSignalProgram) where
  -- The loop over the controllers; it returns the positions of the groups they control.
  unfoldable pub check_controllers :
      List ℕ → List CompiledSignalController → Result (List ℕ) ControlTableErrorCode
  unfolding find groups_of
  check_controllers controlled [] = ok controlled
  check_controllers controlled (controller ∷ controllers) =
      ok_or (find program_id controller.active_program_id programs) active_program_outside_table
      >>= λ program.
          let expected = groups_of controller.junction_id 0 groups in
          reject_if (not (program.junction_id == controller.junction_id))
            controller_program_junction_mismatch
          >> (reject_if (any (λ phase. not (same_ids (phase_groups phase) expected)) program.phases)
                active_program_group_mismatch
              >> check_controllers (extend controlled expected) controllers)
