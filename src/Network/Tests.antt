-- ===== src/Network/Tests.antt =====
-- Runs of the network's constructors on a small network, and the theorems at it.
use road_sim.Prelude.{
  leb, ok, err, ℕ, ◌<◌, ◌≡◌, refl, ◌≢◌, ◌↔◌, Bool, true, false, some, List, [], ◌∷◌, Memᴰ, arith,
  sort_by, sort_by_key,
}
use road_sim.Prelude.Canonical.{sort_dedup}
use road_sim.Prelude.Members.{get_elem?, any-false, Memᴰ-sort_by}
use road_sim.Types.Order.{f64_lt, f64_eq}
use road_sim.Network.Reach.{returned, can_reach, targets, scan, visit, resume, loop, begin, Walk}
use road_sim.Network.Reach.Correct.{can_reach_decides}
use road_sim.Network.Graph.{adjacency_le, adjacency_eq, new_lane_graph, node_outside_graph}
use road_sim.Network.Graph.Lanes.{new_lane_graph_order}
use road_sim.Network.Movements.{
  CompiledMovement, movement_le, check_pairs, movement_eq, new_movement_table, movement,
  self_movement, lane_pair_ambiguous,
}
use road_sim.Network.Movements.Unique.{movement_unique}
use road_sim.Network.Geometry.{
  CompiledConflictZone, zone_le, new_geometry_table, new_conflict_zone, conflicts,
  duplicate_conflict_pair, conflict_pair_not_canonical, conflict_bounds_invalid,
}
use road_sim.Network.Geometry.Conflicts.{Joins, conflicts_iff}
use road_sim.Network.Pedestrian.{
  walking_area, origin_le, origin_eq, link_le, link_eq, new_pedestrian_graph, node_for_walking_area,
}
use road_sim.Network.Pedestrian.Graph.{node_for_walking_area_iff}
use road_sim.Network.Lanes.{lanes_invalid, same_point, width_invalid, new_lane_table}
use road_sim.Network.Controls.{CompiledSignalGroup}
use road_sim.Network.Controls.Groups.{check_groups}
use road_sim.Network.Controls.Programs.{
  group_index, group_index_remap, remap_states, state_le, phase_invalid, check_phases,
  check_programs, groups_of, check_controllers,
}
use road_sim.Network.Controls.Table.{stop_le, new_control_table}
use road_sim.Network.Controls.Table.Exclusive.{IsBound}
use road_sim.Network.Controls.Table.Controlled.{IsControlled}
use road_sim.Network.Controls.Table.Sound.{signal_groups-exclusive, signal_groups-IsControlled}
use road_sim.Network.Compiled.{lacks_edge, new_with_graphs}
use road_sim.Network.Compiled.Consistent.{
  IsConsistent, IsDriveable, new_with_graphs-IsConsistent, network_movements,
}
use road_sim.Network.Samples.{
  edges, graph, a_movement, movements, movement_table, curves, zone, geometry, one, point,
  node_origins, link, walks, starts, ends, widths, uses, lanes, lane_origins, groups, a_program,
  shows, controller, controls, topology, header, requirements, network,
}

abbrev edge_pairs : List (ℕ × ℕ)
edge_pairs = (0, 1) ∷ (2, 2) ∷ (1, 2) ∷ []

can_reach_runs :
    (can_reach 4 0 2 edge_pairs ≡ returned true)
    × (can_reach 4 0 3 edge_pairs ≡ returned false)
    × (can_reach 4 2 0 edge_pairs ≡ returned false)
    × (can_reach 4 0 4 edge_pairs ≡ returned false)
unfolding can_reach loop begin scan visit targets resume sort_by
can_reach_runs = (refl, refl, refl, refl)

new_lane_graph_runs :
    (new_lane_graph 2 edges ≡ ok graph) × (new_lane_graph 1 edges ≡ err node_outside_graph)
unfolding new_lane_graph sort_dedup sort_by adjacency_le adjacency_eq
new_lane_graph_runs = (refl, refl)

edge_pairs_in_range : (u v : ℕ) → Memᴰ (u, v) edge_pairs → v < 4
edge_pairs_in_range u v m =
    let within = (any-false (λ (e : ℕ × ℕ). leb 4 e.1) edge_pairs).0 refl (u, v) m in ground arith

can_reach_decides_example :
    (answer : Bool) × (can_reach 4 0 2 edge_pairs ≡ returned answer)
    × ((answer ≡ true) ↔ ((0 < 4) × (2 < 4) × Walk edge_pairs 0 2))
can_reach_decides_example = can_reach_decides edge_pairs 4 0 2 edge_pairs_in_range

new_lane_graph_order_example :
    new_lane_graph 2 edges ≡ new_lane_graph 2 (sort_by adjacency_le edges)
unfolding sort_by adjacency_le
new_lane_graph_order_example =
    new_lane_graph_order 2 edges (sort_by adjacency_le edges)
      (λ edge. ((Memᴰ-sort_by adjacency_le edge edges).1, (Memᴰ-sort_by adjacency_le edge edges).0))
      (omega arith) (omega arith)

new_movement_table_runs :
    (new_movement_table 2 movements ≡ ok movement_table)
    × (new_movement_table 2 (a_movement 1 1 ∷ []) ≡ err self_movement)
    × (new_movement_table 2 (a_movement 0 1 ∷ record { from = 0; to = 1; junction_id = 8 } ∷ [])
        ≡ err lane_pair_ambiguous)
unfolding new_movement_table sort_by movement_le check_pairs movement_eq
new_movement_table_runs = (refl, refl, refl)

movement_unique_example :
    ((id : ℕ)
      → id < 2
      → (m : CompiledMovement) × (movement movement_table id ≡ some m)
        × Memᴰ m movements
        × (m.from < 2)
        × (m.to < 2)
        × (m.from ≢ m.to))
    × ((i j : ℕ) (m n : CompiledMovement)
        → movement movement_table i ≡ some m
        → movement movement_table j ≡ some n
        → m.from ≡ n.from
        → m.to ≡ n.to
        → i ≡ j)
movement_unique_example = movement_unique 2 movements movement_table new_movement_table_runs.0

new_geometry_table_runs :
    (new_geometry_table 2 curves (zone ∷ []) ≡ ok geometry)
    × (new_geometry_table 2 curves (zone ∷ zone ∷ []) ≡ err duplicate_conflict_pair)
    × (new_conflict_zone 1 0 zone.kind (point 0 0) (point one one)
        ≡ err conflict_pair_not_canonical)
    × (new_conflict_zone 0 1 zone.kind (point 0 0) (point one 0) ≡ err conflict_bounds_invalid)
unfolding new_geometry_table new_conflict_zone sort_by sort_by_key zone_le f64_lt
new_geometry_table_runs = (refl, refl, refl, refl)

zone_canonical : (z : CompiledConflictZone) → Memᴰ z (zone ∷ []) → z.first < z.second
zone_canonical z m =
    let below =
      (any-false (λ (y : CompiledConflictZone). leb y.second y.first) (zone ∷ [])).0 refl z m in
    ground arith

conflicts_iff_example :
    (conflicts geometry 1 0 ≡ true → (z : CompiledConflictZone) × Memᴰ z (zone ∷ []) × Joins 1 0 z)
    × ((z : CompiledConflictZone)
        → Memᴰ z (zone ∷ [])
        → Joins 1 0 z
        → conflicts geometry 1 0 ≡ true)
    × (conflicts geometry 1 0 ≡ conflicts geometry 0 1)
    × (conflicts geometry 1 0 ≡ true → (1 < 2) × (0 < 2))
conflicts_iff_example =
    conflicts_iff 2 curves (zone ∷ []) geometry 1 0 new_geometry_table_runs.0 zone_canonical

new_pedestrian_graph_runs : new_pedestrian_graph node_origins (link ∷ []) ≡ ok walks
unfolding new_pedestrian_graph sort_dedup sort_by origin_le origin_eq link_le link_eq
new_pedestrian_graph_runs = refl

node_for_walking_area_iff_example :
    (node_for_walking_area walks 9 ≡ some 1) ↔ (get_elem? node_origins 1 ≡ some (walking_area 9))
node_for_walking_area_iff_example =
    node_for_walking_area_iff node_origins (link ∷ []) walks 9 1 new_pedestrian_graph_runs

new_control_table_runs :
    new_control_table 2 2 [] groups (a_program (shows 1 ∷ shows 0 ∷ []) ∷ []) (controller ∷ [])
    ≡ ok controls
unfolding new_control_table sort_by sort_by_key stop_le check_groups group_index group_index_remap
    remap_states state_le phase_invalid check_phases check_programs groups_of check_controllers
new_control_table_runs = refl

signal_groups-exclusive_example :
    ((i : ℕ) (g : CompiledSignalGroup) → get_elem? controls.signal_groups i ≡ some g → IsBound 2 g)
    × ((i j m : ℕ) (a b : CompiledSignalGroup)
        → get_elem? controls.signal_groups i ≡ some a
        → get_elem? controls.signal_groups j ≡ some b
        → Memᴰ m a.movement_ids
        → Memᴰ m b.movement_ids
        → i ≡ j)
signal_groups-exclusive_example =
    signal_groups-exclusive 2 2 [] groups (a_program (shows 1 ∷ shows 0 ∷ []) ∷ [])
      (controller ∷ []) controls new_control_table_runs

signal_groups-IsControlled_example :
    IsControlled controls.signal_groups controls.signal_programs controls.signal_controllers 1
signal_groups-IsControlled_example =
    signal_groups-IsControlled 2 2 [] groups (a_program (shows 1 ∷ shows 0 ∷ []) ∷ [])
      (controller ∷ []) controls new_control_table_runs 1 (omega arith)

new_lane_table_runs : new_lane_table starts ends widths uses ≡ some lanes
unfolding new_lane_table lanes_invalid same_point width_invalid f64_eq
new_lane_table_runs = refl

new_with_graphs_runs :
    new_with_graphs header lanes lane_origins topology controls requirements ≡ ok network
unfolding new_with_graphs movement lacks_edge adjacency_eq
new_with_graphs_runs = refl

new_with_graphs-IsConsistent_example : IsConsistent network
new_with_graphs-IsConsistent_example =
    new_with_graphs-IsConsistent header lanes lane_origins topology controls requirements network
      new_with_graphs_runs

network_movements_example : IsDriveable network 1
network_movements_example =
    network_movements starts ends widths uses 2 edges 2 movements header lane_origins controls
      requirements network new_lane_table_runs new_lane_graph_runs.0 new_movement_table_runs.0
      new_with_graphs_runs 1 (omega arith)
