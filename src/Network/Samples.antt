-- ===== src/Network/Samples.antt =====
-- A small network: two lanes, a signal-controlled movement from the first to the second, and a
-- second movement back that conflicts with it.
use road_sim.Prelude.{ℕ, List, [], ◌∷◌}
use road_sim.Network.Graph.{LaneAdjacency, LaneGraph}
use road_sim.Network.Movements.{CompiledMovement, MovementTable}
use road_sim.Network.Geometry.{
  CompiledPoint, CompiledMovementCurve, CompiledConflictZone, crossing, MovementGeometryTable,
}
use road_sim.Network.Pedestrian.{
  PedestrianNodeOrigin, walking_area, sidewalk, PedestrianAdjacency, PedestrianGraph,
}
use road_sim.Network.Lanes.{LaneTable, LaneOrigin, CompiledLaneUse, general_traffic}
use road_sim.Network.Controls.{
  CompiledSignalGroup, green, CompiledSignalState, CompiledSignalProgram, CompiledSignalController,
  CompiledControlTable,
}
use road_sim.Network.Compiled.{
  CompiledNetwork, CompiledTopology, CompiledNetworkHeader, local_metric, CapabilityRequirements,
}

-- 1.0 and 2.0
abbrev pub one : ℕ
one = 4607182418800017408

abbrev pub two : ℕ
two = 4611686018427387904

abbrev pub point : ℕ → ℕ → CompiledPoint
point x y = record { x_m = x; y_m = y }

abbrev pub edge : ℕ → ℕ → LaneAdjacency
edge from to = record { from = from; to = to; junction_id = 7 }

abbrev pub a_movement : ℕ → ℕ → CompiledMovement
a_movement from to = record { from = from; to = to; junction_id = 7 }

-- Out of order, and one edge twice.
abbrev pub edges : List LaneAdjacency
edges = edge 1 0 ∷ edge 0 1 ∷ edge 1 0 ∷ []

abbrev pub graph : LaneGraph
graph = record { node_count = 2; adjacency = edge 0 1 ∷ edge 1 0 ∷ [] }

abbrev pub movements : List CompiledMovement
movements = a_movement 1 0 ∷ a_movement 0 1 ∷ []

abbrev pub movement_table : MovementTable
movement_table = record { lane_count = 2; movements = a_movement 0 1 ∷ a_movement 1 0 ∷ [] }

abbrev pub a_curve : ℕ → CompiledMovementCurve
a_curve id = record {
  movement_id = id;
  start = point 0 0;
  control_1 = point 0 one;
  control_2 = point one 0;
  end = point one one;
}

abbrev pub curves : List CompiledMovementCurve
curves = a_curve 1 ∷ a_curve 0 ∷ []

abbrev pub zone : CompiledConflictZone
zone = record {
  first = 0;
  second = 1;
  kind = crossing;
  min_point = point 0 0;
  max_point = point one one;
}

abbrev pub geometry : MovementGeometryTable
geometry = record {
  movement_count = 2;
  curves = a_curve 0 ∷ a_curve 1 ∷ [];
  conflict_zones = zone ∷ [];
}

abbrev pub node_origins : List PedestrianNodeOrigin
node_origins = sidewalk 4 ∷ walking_area 9 ∷ []

abbrev pub link : PedestrianAdjacency
link = record { from = 0; to = 1; crossing_id = 3 }

abbrev pub walks : PedestrianGraph
walks = record { origins = node_origins; adjacency = link ∷ [] }

abbrev pub starts : List CompiledPoint
starts = point 0 0 ∷ point one 0 ∷ []

abbrev pub ends : List CompiledPoint
ends = point one 0 ∷ point two 0 ∷ []

abbrev pub widths : List ℕ
widths = two ∷ two ∷ []

abbrev pub uses : List CompiledLaneUse
uses = general_traffic ∷ general_traffic ∷ []

abbrev pub lanes : LaneTable
lanes = record { starts = starts; ends = ends; widths_m = widths; uses = uses }

abbrev pub lane_origins : List LaneOrigin
lane_origins =
    record { corridor_id = 20; lane_id = 21 } ∷ record { corridor_id = 20; lane_id = 22 } ∷ []

abbrev pub a_group : ℕ → List ℕ → CompiledSignalGroup
a_group id ids = record { signal_group_id = id; junction_id = 7; movement_ids = ids }

-- The states name the groups by their place in this list.
abbrev pub groups : List CompiledSignalGroup
groups = a_group 31 (1 ∷ []) ∷ a_group 30 (0 ∷ []) ∷ []

abbrev pub shows : ℕ → CompiledSignalState
shows id = record { group_id = id; indication = green }

abbrev pub a_program : List CompiledSignalState → CompiledSignalProgram
a_program states = record {
  signal_program_id = 40;
  junction_id = 7;
  phases =
      record { signal_phase_id = 41; duration_s = two; intergreen_s = 0; states = states } ∷ [];
}

abbrev pub controller : CompiledSignalController
controller = record { signal_controller_id = 50; junction_id = 7; active_program_id = 40 }

abbrev pub controls : CompiledControlTable
controls = record {
  lane_count = 2;
  movement_count = 2;
  stop_positions = [];
  signal_groups = a_group 30 (0 ∷ []) ∷ a_group 31 (1 ∷ []) ∷ [];
  signal_programs = a_program (shows 0 ∷ shows 1 ∷ []) ∷ [];
  signal_controllers = controller ∷ [];
}

abbrev pub topology : CompiledTopology
topology = record {
  lane_graph = graph;
  movements = movement_table;
  movement_geometry = geometry;
  pedestrian_graph = walks;
}

abbrev pub header : CompiledNetworkHeader
header = record {
  schema_version = 5;
  source_revision = 1;
  coordinate_frame = local_metric;
  content_hash = [];
}

abbrev pub requirements : CapabilityRequirements
requirements = record { values = [] }

abbrev pub network : CompiledNetwork
network = record {
  header = header;
  lanes = lanes;
  lane_origins = lane_origins;
  topology = topology;
  controls = controls;
  requirements = requirements;
}
