-- ===== src/Network/Movements/Unique.antt =====
-- The movement table: what its constructor guarantees of the movements behind the identifiers.
use road_sim.Prelude.{
  ltb, length, any, ok, >>-eq-ok, reject_if-eq-ok, ok_eq, ℕ, ◌≤◌, ◌<◌, ◌≡◌, refl, subst, ◌≢◌, ◌↔◌,
  some, List, Memᴰ, arith, sort_by, sort_by-IsSorted,
}
use road_sim.Prelude.Members.{get_elem?-mem, get_elem?-lt, Memᴰ-sort_by, any-false, length-sort_by}
use road_sim.Network.Graph.{max_graph_nodes, max_graph_edges}
use road_sim.Network.Movements.{
  CompiledMovement, MovementTable, movement_le, movement_outside, is_self, check_pairs,
  new_movement_table, movement, too_many_lanes, too_many_movements, lane_outside_table,
  self_movement,
}
use road_sim.Network.Movements.Order.{
  movement_le_total, LanesRise, check_pairs-LanesRise, LanesRise-unique,
}

pub record IsMovementTableOf (lane_count : ℕ) (movements : List CompiledMovement)
    (table : MovementTable) : Type 0 where
  pub lanes : table.lane_count ≡ lane_count
  pub size : length table.movements ≡ length movements
  pub small : length movements ≤ max_graph_edges
  pub rise : LanesRise table.movements
  pub same : (m : CompiledMovement) → Memᴰ m table.movements ↔ Memᴰ m movements
  pub inside :
      (m : CompiledMovement)
      → Memᴰ m table.movements
      → (m.from < lane_count) × (m.to < lane_count) × (m.from ≢ m.to)

pub new_movement_table_ok :
    (lane_count : ℕ) (movements : List CompiledMovement) (table : MovementTable)
    → new_movement_table lane_count movements ≡ ok table
    → IsMovementTableOf lane_count movements table
unfolding new_movement_table
new_movement_table_ok lane_count movements table h =
    let sorted = sort_by movement_le movements in
    let (_, h1) = reject_if-eq-ok (ltb max_graph_nodes lane_count) too_many_lanes _ h in
    let (few, h2) =
      reject_if-eq-ok (ltb max_graph_edges (length movements)) too_many_movements _ h1 in
    let (lanes, h3) =
      reject_if-eq-ok (any (movement_outside lane_count) sorted) lane_outside_table _ h2 in
    let (selves, h4) = reject_if-eq-ok (any is_self sorted) self_movement _ h3 in
    let (pairs, h5) = >>-eq-ok (check_pairs sorted) _ h4 in
    subst (IsMovementTableOf lane_count movements) (ok_eq h5) (record {
      lanes = refl;
      size = length-sort_by movement_le movements;
      small = ground arith;
      rise =
          check_pairs-LanesRise sorted (sort_by-IsSorted movement_le movement_le_total movements)
            pairs;
      same = λ m. Memᴰ-sort_by movement_le m movements;
      inside = λ m found.
          let within = (any-false (movement_outside lane_count) sorted).0 lanes m found in
          let apart = (any-false is_self sorted).0 selves m found in
          (ground arith, ground arith, ground arith);
    })

-- In a table that the constructor returned, an identifier below the number of movements given has a
-- movement, which is one of those given, from a lane of the network to another; and two identifiers
-- whose movements join the same two lanes are one identifier.
pub movement_unique :
    (lane_count : ℕ) (movements : List CompiledMovement) (table : MovementTable)
    → new_movement_table lane_count movements ≡ ok table
    → ((id : ℕ)
        → id < length movements
        → (m : CompiledMovement) × (movement table id ≡ some m)
          × Memᴰ m movements
          × (m.from < lane_count)
          × (m.to < lane_count)
          × (m.from ≢ m.to))
      × ((i j : ℕ) (m n : CompiledMovement)
          → movement table i ≡ some m
          → movement table j ≡ some n
          → m.from ≡ n.from
          → m.to ≡ n.to
          → i ≡ j)
unfolding movement
movement_unique lane_count movements table h =
    let of = new_movement_table_ok lane_count movements table h in
    (
      λ id bound.
          let (m, found) = get_elem?-lt table.movements id (omega (arith, of.size, bound)) in
          let member = get_elem?-mem table.movements id m found in
          let (from, to, apart) = of.inside m member in
          (m, found, (of.same m).0 member, from, to, apart),
      λ i j m n. LanesRise-unique table.movements i j m n of.rise,
    )
