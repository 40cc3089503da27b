-- ===== src/Network/Compiled.antt =====
-- crates/roadsim-compiled-network/src/lib.rs: the compiled network as a whole.
pub mod Consistent
pub mod Empty
use road_sim.Prelude.{
  ||-false, &&-true, subst₂, ltb, leb, ◌==◌, if◌then◌else◌, ltb→lt, lt→ltb, ==_iff, ==-refl,
  <→==-false, Bool-cases, Option-cases, length, length-append, is_empty, any, all, first_adjacent,
  any_adjacent, contains, first_repeated, or_else, is_some, Result, ok, err, reject_if, reject_some,
  ok_or, map_err, ◌>>=◌, ◌>>◌, for_each, Result-cases, >>=-eq-ok, >>-eq-ok, map_err-eq-ok,
  reject_if-eq-ok, reject_some-eq-ok, ok_eq, ℕ, zero, suc, ◌+◌, ◌-◌, ◌*◌, ◌/◌, ◌%◌, ◌^◌, ◌≤◌, ◌<◌,
  ◌≡◌, refl, sym, ap, ap₂, subst, ◌∙◌, ◌≢◌, ◌↔◌, ◌⊎◌, inl, inr, Bool, true, false, not, ◌&&◌, ◌||◌,
  Option, none, some, List, [], ◌∷◌, ◌++◌, map, Memᴰ, arith, insert_by, sort_by, sort_by_key,
  IsSorted, IsTotal, sort_by-IsSorted, key_le, key_le_total,
}
use road_sim.Prelude.Canonical.{sort_dedup}
use road_sim.Prelude.Members.{get_elem?}
use road_sim.Network.Graph.{LaneAdjacency, adjacency_eq, LaneGraph, GraphErrorCode, new_lane_graph}
use road_sim.Network.Movements.{
  CompiledMovement, MovementTable, MovementErrorCode, new_movement_table, movement,
}
use road_sim.Network.Geometry.{MovementGeometryTable, MovementGeometryErrorCode, new_geometry_table}
use road_sim.Network.Pedestrian.{PedestrianGraph}
use road_sim.Network.Lanes.{LaneTable, LaneOrigin, table_len}
use road_sim.Network.Controls.{CompiledSignalGroup, CompiledControlTable, ControlTableErrorCode}
use road_sim.Network.Controls.Table.{new_control_table}

abbrev pub compiled_network_schema_version : ℕ
compiled_network_schema_version = 5

pub data CoordinateFrame : Type 0 where
  local_metric : CoordinateFrame

pub data CapabilityId : Type 0 where
  road_vehicles_basic transit_bus_lanes bicycle_lanes parking_lanes : CapabilityId
  pedestrian_walking_areas_basic signals_fixed_time : CapabilityId

abbrev capability_rank : CapabilityId → ℕ
capability_rank road_vehicles_basic = 0
capability_rank transit_bus_lanes = 1
capability_rank bicycle_lanes = 2
capability_rank parking_lanes = 3
capability_rank pedestrian_walking_areas_basic = 4
capability_rank signals_fixed_time = 5

-- The ordered set of capabilities, as the sorted list of its members.
pub record CapabilityRequirements : Type 0 where
  pub values : List CapabilityId

-- `CapabilityRequirements::new`
unfoldable pub new_requirements : List CapabilityId → CapabilityRequirements
unfolding sort_dedup
new_requirements values = record {
  values =
      sort_dedup (λ a b. leb (capability_rank a) (capability_rank b))
        (λ a b. capability_rank a == capability_rank b) values;
}

-- `CapabilityRequirements::contains`
unfoldable pub requires : CapabilityRequirements → CapabilityId → Bool
requires requirements capability =
    any (λ value. capability_rank value == capability_rank capability) requirements.values

pub record CompiledNetworkHeader : Type 0 where
  pub schema_version : ℕ
  pub source_revision : ℕ
  pub coordinate_frame : CoordinateFrame
  pub content_hash : List ℕ

unfoldable pub new_header : ℕ → List ℕ → CompiledNetworkHeader
new_header source_revision content_hash = record {
  schema_version = compiled_network_schema_version;
  source_revision = source_revision;
  coordinate_frame = local_metric;
  content_hash = content_hash;
}

pub data NetworkErrorCode : Type 0 where
  source_map_length_mismatch lane_graph_length_mismatch movement_table_length_mismatch :
      NetworkErrorCode
  movement_graph_mismatch movement_geometry_count_mismatch control_lane_count_mismatch :
      NetworkErrorCode
  control_movement_count_mismatch control_movement_junction_mismatch graph_limit_exceeded :
      NetworkErrorCode

pub record CompiledTopology : Type 0 where
  pub lane_graph : LaneGraph
  pub movements : MovementTable
  pub movement_geometry : MovementGeometryTable
  pub pedestrian_graph : PedestrianGraph

pub record CompiledNetwork : Type 0 where
  pub header : CompiledNetworkHeader
  pub lanes : LaneTable
  pub lane_origins : List LaneOrigin
  pub topology : CompiledTopology
  pub controls : CompiledControlTable
  pub requirements : CapabilityRequirements

-- `movement.is_none_or(|movement| movement.junction_id() != junction)`
abbrev pub strays : ℕ → Option CompiledMovement → Bool
strays junction none = true
strays junction (some m) = not (m.junction_id == junction)

abbrev pub group_strays : MovementTable → CompiledSignalGroup → Bool
group_strays table group =
    any (λ id. strays group.junction_id (movement table id)) group.movement_ids

-- `LaneAdjacency::new(movement.from(), movement.to(), movement.junction_id())`
abbrev pub as_edge : CompiledMovement → LaneAdjacency
as_edge m = record { from = m.from; to = m.to; junction_id = m.junction_id }

-- `adjacency().binary_search(…).is_err()`, on edges that the constructor of the graph sorted.
unfoldable pub lacks_edge : LaneGraph → CompiledMovement → Bool
unfolding adjacency_eq
lacks_edge graph m = not (any (λ edge. adjacency_eq edge (as_edge m)) graph.adjacency)

-- `CompiledNetwork::new_with_graphs`
unfoldable pub new_with_graphs :
    CompiledNetworkHeader
    → LaneTable
    → List LaneOrigin
    → CompiledTopology
    → CompiledControlTable
    → CapabilityRequirements
    → Result CompiledNetwork NetworkErrorCode
unfolding movement lacks_edge
new_with_graphs header lanes lane_origins topology controls requirements = do
  let table = topology.movements
  let count = length table.movements
  reject_if (not (table_len lanes == length lane_origins)) source_map_length_mismatch
  reject_if (not (table_len lanes == topology.lane_graph.node_count)) lane_graph_length_mismatch
  reject_if (not (table_len lanes == table.lane_count)) movement_table_length_mismatch
  reject_if (not (count == topology.movement_geometry.movement_count))
      movement_geometry_count_mismatch
  reject_if (not (controls.lane_count == table_len lanes)) control_lane_count_mismatch
  reject_if (not (controls.movement_count == count)) control_movement_count_mismatch
  reject_if (any (group_strays table) controls.signal_groups) control_movement_junction_mismatch
  reject_if (any (lacks_edge topology.lane_graph) table.movements) movement_graph_mismatch
  ok (record {
    header = header;
    lanes = lanes;
    lane_origins = lane_origins;
    topology = topology;
    controls = controls;
    requirements = requirements;
  })

-- `map_err(|_| NetworkError(NetworkErrorCode::GraphLimitExceeded))`
abbrev limited {ℓ κ} : {A : Type ℓ} {E : Type κ} → Result A E → Result A NetworkErrorCode
limited r = map_err (λ _. graph_limit_exceeded) r

-- The graph of no node, for which the code expects that `PedestrianGraph::new` succeeds.
abbrev pub no_pedestrians : PedestrianGraph
no_pedestrians = record { origins = []; adjacency = [] }

-- `CompiledNetwork::new`: a network with lanes only.
unfoldable pub new_network :
    CompiledNetworkHeader
    → LaneTable
    → List LaneOrigin
    → CapabilityRequirements
    → Result CompiledNetwork NetworkErrorCode
unfolding new_lane_graph new_movement_table new_geometry_table new_control_table new_with_graphs
new_network header lanes lane_origins requirements = do
  let count = table_len lanes % 2 ^ 32
  lane_graph ← limited (new_lane_graph count [])
  movements ← limited (new_movement_table count [])
  movement_geometry ← limited (new_geometry_table 0 [] [])
  controls ← limited (new_control_table count 0 [] [] [] [])
  new_with_graphs header lanes lane_origins
      (record {
        lane_graph = lane_graph;
        movements = movements;
        movement_geometry = movement_geometry;
        pedestrian_graph = no_pedestrians;
      })
      controls requirements

-- `CompiledNetwork::lane_origin`
unfoldable pub lane_origin : CompiledNetwork → ℕ → Option LaneOrigin
lane_origin network id = get_elem? network.lane_origins id
