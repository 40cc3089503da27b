-- ===== src/Network/Movements.antt =====
-- crates/roadsim-compiled-network/src/lib.rs: the movement table, whose positions are the compact
-- movement identifiers.
pub mod Order
pub mod Unique
use road_sim.Prelude.{
  ltb, leb, ◌==◌, if◌then◌else◌, ltb→lt, lt→ltb, ==_iff, ==-refl, <→==-false, Bool-cases,
  Option-cases, length, length-append, is_empty, any, all, first_adjacent, any_adjacent, contains,
  or_else, is_some, Result, ok, err, reject_if, reject_some, ok_or, map_err, ◌>>=◌, ◌>>◌, for_each,
  Result-cases, >>=-eq-ok, >>-eq-ok, map_err-eq-ok, reject_if-eq-ok, reject_some-eq-ok, ok_eq, ℕ,
  zero, suc, ◌+◌, ◌-◌, ◌*◌, ◌/◌, ◌%◌, ◌^◌, ◌≤◌, ◌<◌, ◌≡◌, refl, sym, ap, ap₂, subst, ◌∙◌, ◌≢◌, ◌↔◌,
  ◌⊎◌, inl, inr, Bool, true, false, not, ◌&&◌, ◌||◌, Option, none, some, List, [], ◌∷◌, ◌++◌, map,
  Memᴰ, arith, insert_by, sort_by, sort_by_key, IsSorted, IsTotal, sort_by-IsSorted, key_le,
  key_le_total,
}
use road_sim.Prelude.Members.{get_elem?}
use road_sim.Network.Graph.{max_graph_nodes, max_graph_edges}

pub record CompiledMovement : Type 0 where
  pub from : ℕ
  pub to : ℕ
  pub junction_id : ℕ

-- The derived order and equality.
unfoldable pub movement_le : CompiledMovement → CompiledMovement → Bool
movement_le a b =
    ltb a.from b.from
    || ((a.from == b.from)
        && (ltb a.to b.to || ((a.to == b.to) && leb a.junction_id b.junction_id)))

unfoldable pub movement_eq : CompiledMovement → CompiledMovement → Bool
movement_eq a b = (a.from == b.from) && ((a.to == b.to) && (a.junction_id == b.junction_id))

pub record MovementTable : Type 0 where
  pub lane_count : ℕ
  pub movements : List CompiledMovement

pub data MovementErrorCode : Type 0 where
  too_many_lanes too_many_movements lane_outside_table self_movement : MovementErrorCode
  duplicate_movement lane_pair_ambiguous : MovementErrorCode

abbrev pub same_lanes : CompiledMovement → CompiledMovement → Bool
same_lanes a b = (a.from == b.from) && (a.to == b.to)

-- The loop over `windows(2)`.
unfoldable pub check_pairs : List CompiledMovement → Result (Unit {0}) MovementErrorCode
unfolding movement_eq
check_pairs [] = ok tt
check_pairs (a ∷ []) = ok tt
check_pairs (a ∷ b ∷ rest) = do
  reject_if (movement_eq a b) duplicate_movement
  reject_if (same_lanes a b) lane_pair_ambiguous
  check_pairs (b ∷ rest)

abbrev pub movement_outside : ℕ → CompiledMovement → Bool
movement_outside lane_count m = leb lane_count m.from || leb lane_count m.to

abbrev pub is_self : CompiledMovement → Bool
is_self m = m.from == m.to

unfoldable pub new_movement_table :
    ℕ → List CompiledMovement → Result MovementTable MovementErrorCode
unfolding sort_by movement_le check_pairs
new_movement_table lane_count movements = do
  reject_if (ltb max_graph_nodes lane_count) too_many_lanes
  reject_if (ltb max_graph_edges (length movements)) too_many_movements
  let sorted = sort_by movement_le movements
  reject_if (any (movement_outside lane_count) sorted) lane_outside_table
  reject_if (any is_self sorted) self_movement
  check_pairs sorted
  ok (record { lane_count = lane_count; movements = sorted })

-- `MovementTable::movement`
unfoldable pub movement : MovementTable → ℕ → Option CompiledMovement
movement table id = get_elem? table.movements id
