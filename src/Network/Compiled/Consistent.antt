-- ===== src/Network/Compiled/Consistent.antt =====
-- `CompiledNetwork::new_with_graphs`: the parts of a network that it returns fit together.
use road_sim.Prelude.{
  ◌==◌, length, any, ok, reject_if-eq-ok, ok_eq, ℕ, ◌<◌, ◌≡◌, refl, sym, ap, subst, ◌∙◌, Bool, true,
  false, not, Option, none, some, List, Memᴰ, arith,
}
use road_sim.Prelude.Members.{get_elem?, get_elem?-mem, any-false, any-true}
use road_sim.Network.Reach.{returned}
use road_sim.Network.Reach.Edges.{stay, follow}
use road_sim.Network.Graph.{LaneAdjacency, adjacency_eq, LaneGraph, new_lane_graph, lane_can_reach}
use road_sim.Network.Graph.Order.{adjacency_order}
use road_sim.Network.Graph.Lanes.{new_lane_graph_ok}
use road_sim.Network.Graph.Walks.{lane_can_reach_decides}
use road_sim.Network.Movements.{CompiledMovement, new_movement_table, movement}
use road_sim.Network.Movements.Unique.{movement_unique, new_movement_table_ok}
use road_sim.Network.Geometry.{CompiledPoint}
use road_sim.Network.Lanes.{
  LaneTable, LaneOrigin, CompiledLaneUse, CompiledLaneRef, new_lane_table, lane, table_len,
}
use road_sim.Network.Lanes.Rows.{lane_rows}
use road_sim.Network.Controls.{CompiledSignalGroup, CompiledControlTable}
use road_sim.Network.Compiled.{
  CompiledNetworkHeader, CompiledTopology, CompiledNetwork, CapabilityRequirements,
  source_map_length_mismatch, lane_graph_length_mismatch, movement_table_length_mismatch,
  movement_geometry_count_mismatch, control_lane_count_mismatch, control_movement_count_mismatch,
  control_movement_junction_mismatch, movement_graph_mismatch, strays, group_strays, as_edge,
  lacks_edge, new_with_graphs,
}

-- What the parts of a network agree on.
pub record IsConsistent (network : CompiledNetwork) : Type 0 where
  pub origins : length network.lane_origins ≡ table_len network.lanes
  pub nodes : network.topology.lane_graph.node_count ≡ table_len network.lanes
  pub lane_count : network.topology.movements.lane_count ≡ table_len network.lanes
  pub geometry :
      network.topology.movement_geometry.movement_count
      ≡ length network.topology.movements.movements
  pub control_lanes : network.controls.lane_count ≡ table_len network.lanes
  pub control_movements :
      network.controls.movement_count ≡ length network.topology.movements.movements
  pub signals :
      (group : CompiledSignalGroup)
      → Memᴰ group network.controls.signal_groups
      → (id : ℕ) → Memᴰ id group.movement_ids
      → (m : CompiledMovement) × (movement network.topology.movements id ≡ some m)
        × (m.junction_id ≡ group.junction_id)
  pub edges :
      (m : CompiledMovement)
      → Memᴰ m network.topology.movements.movements
      → Memᴰ (as_edge m) network.topology.lane_graph.adjacency

same_count : (m n : ℕ) → not (m == n) ≡ false → m ≡ n
same_count m n h = ground arith

kept :
    (junction : ℕ) (o : Option CompiledMovement)
    → strays junction o ≡ false
    → (m : CompiledMovement) × (o ≡ some m) × (m.junction_id ≡ junction)
kept junction none h = cc
kept junction (some m) h = (m, refl, same_count m.junction_id junction h)

stored_edge :
    (graph : LaneGraph) (m : CompiledMovement)
    → lacks_edge graph m ≡ false
    → Memᴰ (as_edge m) graph.adjacency
unfolding lacks_edge
stored_edge graph m h =
    let (edge, found, same) =
      any-true (λ edge. adjacency_eq edge (as_edge m)) graph.adjacency (negated _ h) in
    subst (λ e. Memᴰ e graph.adjacency) ((adjacency_order.same_iff edge (as_edge m)).0 same) found
  where
    negated : (b : Bool) → not b ≡ false → b ≡ true
    negated true h = refl
    negated false h = cc

-- A network that `new_with_graphs` returns is consistent: its tables agree on the numbers of lanes and
-- of movements, each movement of a signal group is in the movement table, at the junction of the
-- group, and each movement is an edge of the lane graph.
pub new_with_graphs-IsConsistent :
    (header : CompiledNetworkHeader) (lanes : LaneTable) (origins : List LaneOrigin)
    (topology : CompiledTopology) (controls : CompiledControlTable)
    (requirements : CapabilityRequirements) (network : CompiledNetwork)
    → new_with_graphs header lanes origins topology controls requirements ≡ ok network
    → IsConsistent network
unfolding new_with_graphs
new_with_graphs-IsConsistent header lanes origins topology controls requirements network h =
    let table = topology.movements in
    let count = length table.movements in
    let (e1, h1) =
      reject_if-eq-ok (not (table_len lanes == length origins)) source_map_length_mismatch _ h in
    let (e2, h2) =
      reject_if-eq-ok (not (table_len lanes == topology.lane_graph.node_count))
        lane_graph_length_mismatch _ h1 in
    let (e3, h3) =
      reject_if-eq-ok (not (table_len lanes == table.lane_count)) movement_table_length_mismatch _
        h2 in
    let (e4, h4) =
      reject_if-eq-ok (not (count == topology.movement_geometry.movement_count))
        movement_geometry_count_mismatch _ h3 in
    let (e5, h5) =
      reject_if-eq-ok (not (controls.lane_count == table_len lanes)) control_lane_count_mismatch _
        h4 in
    let (e6, h6) =
      reject_if-eq-ok (not (controls.movement_count == count)) control_movement_count_mismatch _
        h5 in
    let (e7, h7) =
      reject_if-eq-ok (any (group_strays table) controls.signal_groups)
        control_movement_junction_mismatch _ h6 in
    let (e8, h8) =
      reject_if-eq-ok (any (lacks_edge topology.lane_graph) table.movements) movement_graph_mismatch
        _ h7 in
    subst IsConsistent (ok_eq h8) (record {
      origins = sym (same_count (table_len lanes) (length origins) e1);
      nodes = sym (same_count (table_len lanes) topology.lane_graph.node_count e2);
      lane_count = sym (same_count (table_len lanes) table.lane_count e3);
      geometry = sym (same_count count topology.movement_geometry.movement_count e4);
      control_lanes = same_count controls.lane_count (table_len lanes) e5;
      control_movements = same_count controls.movement_count count e6;
      signals = λ group m id found.
          let bound = (any-false (group_strays table) controls.signal_groups).0 e7 group m in
          kept group.junction_id (movement table id) (
            (any-false (λ i. strays group.junction_id (movement table i)) group.movement_ids).0
              bound id found);
      edges = λ m found.
          stored_edge topology.lane_graph m
            ((any-false (lacks_edge topology.lane_graph) table.movements).0 e8 m found);
    })

-- What a network of constructed parts gives for the identifier of a movement.
pub record IsDriveable (network : CompiledNetwork) (id : ℕ) : Type 0 where
  pub found : CompiledMovement
  pub stored : movement network.topology.movements id ≡ some found
  pub origin : CompiledLaneRef
  pub origin_row : lane network.lanes found.from ≡ some origin
  pub target : CompiledLaneRef
  pub target_row : lane network.lanes found.to ≡ some target
  pub reached : lane_can_reach network.topology.lane_graph found.from found.to ≡ returned true

reaches :
    (node_count : ℕ) (edges : List LaneAdjacency) (graph : LaneGraph) (edge : LaneAdjacency)
    → new_lane_graph node_count edges ≡ ok graph
    → Memᴰ edge graph.adjacency
    → lane_can_reach graph edge.from edge.to ≡ returned true
reaches node_count edges graph edge h m =
    let of = new_lane_graph_ok node_count edges graph h in
    let (from, to) = of.inside edge m in
    let (answer, ends, decides) =
      lane_can_reach_decides node_count edges graph edge.from edge.to h in
    ends ∙ ap returned (decides.1 (from, to, follow edge stay ((of.same edge).0 m)))

-- In a network of which the lane table, the lane graph and the movement table are what their
-- constructors returned, each movement joins two lanes that have rows in the lane table, and
-- `can_reach` answers that the second is reachable from the first.
pub network_movements :
    (starts ends : List CompiledPoint) (widths : List ℕ) (uses : List CompiledLaneUse)
    (node_count : ℕ) (edges : List LaneAdjacency) (lane_count : ℕ)
    (movements : List CompiledMovement) (header : CompiledNetworkHeader) (origins : List LaneOrigin)
    (controls : CompiledControlTable) (requirements : CapabilityRequirements)
    (network : CompiledNetwork)
    → new_lane_table starts ends widths uses ≡ some network.lanes
    → new_lane_graph node_count edges ≡ ok network.topology.lane_graph
    → new_movement_table lane_count movements ≡ ok network.topology.movements
    → new_with_graphs header network.lanes origins network.topology controls requirements
      ≡ ok network
    → (id : ℕ) → id < length movements
    → IsDriveable network id
unfolding movement
network_movements starts ends widths uses node_count edges lane_count movements header origins
      controls requirements network lanes graph table h id bound =
    let fits =
      new_with_graphs-IsConsistent header network.lanes origins network.topology controls
        requirements network h in
    let (m, stored, _, from, to, _) =
      (movement_unique lane_count movements network.topology.movements table).0 id bound in
    let count : lane_count ≡ table_len network.lanes =
      sym (new_movement_table_ok lane_count movements network.topology.movements table).lanes
      ∙ fits.lane_count in
    let rows = λ (i : ℕ). (lane_rows starts ends widths uses network.lanes i lanes).0 in
    let (origin, origin_row, _) = rows m.from (omega (arith, from, count)) in
    let (target, target_row, _) = rows m.to (omega (arith, to, count)) in
    let edge =
      fits.edges m (get_elem?-mem network.topology.movements.movements id m (stored_at m stored)) in
    record {
      found = m;
      stored = stored;
      origin = origin;
      origin_row = origin_row;
      target = target;
      target_row = target_row;
      reached = reaches node_count edges network.topology.lane_graph (as_edge m) graph edge;
    }
  where
    stored_at :
        (m : CompiledMovement)
        → movement network.topology.movements id ≡ some m
        → get_elem? network.topology.movements.movements id ≡ some m
    stored_at m e = e
