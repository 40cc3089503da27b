-- ===== src/Network/Compiled/Empty.antt =====
-- `CompiledNetwork::new`: a network with lanes and no topology.
use road_sim.Prelude.{
  ltb, ◌==◌, if◌then◌else◌, ==-refl, Bool-cases, length, ok, err, ℕ, ◌%◌, ◌^◌, ◌≤◌, ◌≡◌, refl, ◌∙◌,
  inl, inr, true, false, List, [], arith, sort_by, sort_by_key,
}
use road_sim.Prelude.Canonical.{sort_dedup}
use road_sim.Network.Graph.{max_graph_nodes, new_lane_graph}
use road_sim.Network.Movements.{new_movement_table, check_pairs}
use road_sim.Network.Geometry.{new_geometry_table}
use road_sim.Network.Pedestrian.{new_pedestrian_graph}
use road_sim.Network.Lanes.{LaneTable, LaneOrigin, table_len, max_u32}
use road_sim.Network.Controls.Table.{new_control_table}
use road_sim.Network.Compiled.{
  CompiledNetworkHeader, CompiledNetwork, CapabilityRequirements, graph_limit_exceeded,
  source_map_length_mismatch, no_pedestrians, new_with_graphs, new_network,
}

-- The code's expectation: the graph of no node is one that its constructor returns.
pub no_pedestrians-new : new_pedestrian_graph [] [] ≡ ok no_pedestrians
unfolding new_pedestrian_graph sort_dedup sort_by
no_pedestrians-new = refl

lane_graph-empty :
    (n : ℕ)
    → ltb max_graph_nodes n ≡ false
    → new_lane_graph n [] ≡ ok (record { node_count = n; adjacency = [] })
unfolding new_lane_graph sort_dedup sort_by
lane_graph-empty n h = rw h refl

movement_table-empty :
    (n : ℕ)
    → ltb max_graph_nodes n ≡ false
    → new_movement_table n [] ≡ ok (record { lane_count = n; movements = [] })
unfolding new_movement_table sort_by check_pairs
movement_table-empty n h = rw h refl

-- The network of the lanes, its other parts empty.
pub lanes_only :
    CompiledNetworkHeader → LaneTable → List LaneOrigin → CapabilityRequirements → CompiledNetwork
lanes_only header lanes origins requirements = record {
  header = header;
  lanes = lanes;
  lane_origins = origins;
  topology = record {
    lane_graph = record { node_count = table_len lanes; adjacency = [] };
    movements = record { lane_count = table_len lanes; movements = [] };
    movement_geometry = record { movement_count = 0; curves = []; conflict_zones = [] };
    pedestrian_graph = no_pedestrians;
  };
  controls = record {
    lane_count = table_len lanes;
    movement_count = 0;
    stop_positions = [];
    signal_groups = [];
    signal_programs = [];
    signal_controllers = [];
  };
  requirements = requirements;
}

too_large :
    (header : CompiledNetworkHeader) (lanes : LaneTable) (origins : List LaneOrigin)
    (requirements : CapabilityRequirements)
    → table_len lanes % 2 ^ 32 ≡ table_len lanes
    → ltb max_graph_nodes (table_len lanes) ≡ true
    → new_network header lanes origins requirements ≡ err graph_limit_exceeded
unfolding new_network new_lane_graph
too_large header lanes origins requirements same large = rw (same, large) refl

small :
    (header : CompiledNetworkHeader) (lanes : LaneTable) (origins : List LaneOrigin)
    (requirements : CapabilityRequirements)
    → table_len lanes % 2 ^ 32 ≡ table_len lanes
    → ltb max_graph_nodes (table_len lanes) ≡ false
    → new_network header lanes origins requirements ≡ (
        if table_len lanes == length origins
        then ok (lanes_only header lanes origins requirements)
        else err source_map_length_mismatch)
unfolding new_network new_with_graphs lanes_only new_geometry_table new_control_table sort_by
    sort_by_key
small header lanes origins requirements same fits =
    let n = table_len lanes in
    elim (Bool-cases (n == length origins)) [
      | inl e ↦ rw (same, lane_graph-empty n fits, movement_table-empty n fits, e, ==-refl n) refl
      | inr e ↦ rw (same, lane_graph-empty n fits, movement_table-empty n fits, e) refl
    ]

-- On a table of fewer than 2^32 lanes `CompiledNetwork::new` returns the network of these lanes if
-- there are at most a million and as many origins; it reports the limit if there are more, and
-- otherwise the number of origins.
pub new_network_all :
    (header : CompiledNetworkHeader) (lanes : LaneTable) (origins : List LaneOrigin)
    (requirements : CapabilityRequirements)
    → table_len lanes ≤ max_u32
    → new_network header lanes origins requirements ≡ (
        if ltb max_graph_nodes (table_len lanes)
        then err graph_limit_exceeded
        else if table_len lanes == length origins
        then ok (lanes_only header lanes origins requirements)
        else err source_map_length_mismatch)
new_network_all header lanes origins requirements bound =
    let same : table_len lanes % 2 ^ 32 ≡ table_len lanes = omega arith in
    elim (Bool-cases (ltb max_graph_nodes (table_len lanes))) [
      | inl e ↦ too_large header lanes origins requirements same e ∙ rw e refl
      | inr e ↦ small header lanes origins requirements same e ∙ rw e refl
    ]
