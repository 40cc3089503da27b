-- ===== src/Network/Controls/Groups.antt =====
-- `CompiledControlTable::new`: its loop over the signal groups.
use road_sim.Prelude.{
  leb, ◌==◌, is_empty, any, any_adjacent, first_repeated, is_some, Result, ok, reject_if, ◌>>=◌,
  ◌>>◌, ℕ, Bool, List, [], ◌∷◌, ◌++◌, sort_by,
}
use road_sim.Network.Controls.{
  CompiledSignalGroup, ControlTableErrorCode, signal_group_unbound, movement_outside_table,
  duplicate_movement_binding, conflicting_signal_groups,
}

abbrev pub group_id : CompiledSignalGroup → ℕ
group_id group = group.signal_group_id

abbrev pub sorted_movements : CompiledSignalGroup → List ℕ
sorted_movements group = sort_by leb group.movement_ids

-- `any(|movement| !controlled_movements.insert(movement))`: the set's state after an insertion that
-- fails is not read, since the loop returns.
abbrev pub any_repeated : List ℕ → List ℕ → Bool
any_repeated controlled ids = is_some (first_repeated controlled ids)

-- The groups with their movements sorted; `controlled` holds the movements of the groups before.
unfoldable pub check_groups :
    ℕ → List ℕ → List CompiledSignalGroup → Result (List CompiledSignalGroup) ControlTableErrorCode
unfolding sort_by
check_groups movement_count controlled [] = ok []
check_groups movement_count controlled (group ∷ groups) = do
  let ids = sorted_movements group
  reject_if (is_empty ids) signal_group_unbound
  reject_if (any (λ movement. leb movement_count movement) ids) movement_outside_table
  reject_if (any_adjacent (λ a b. a == b) ids) duplicate_movement_binding
  reject_if (any_repeated controlled ids) conflicting_signal_groups
  check_groups movement_count (ids ++ controlled) groups >>= λ rest.
      ok (record group { movement_ids = ids } ∷ rest)
