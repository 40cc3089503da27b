-- ===== src/Commands/Samples.antt =====
-- A project, its state and commands on it, for the tests.
use road_sim.Prelude.{ℕ, List, [], ◌∷◌, none}
use road_sim.Domain.ReferenceLine.{ReferenceLine, line}
use road_sim.Domain.Corridor.{Corridor, along_reference, general_traffic}
use road_sim.Domain.Project
use road_sim.Domain.Catalog
use road_sim.Domain.Study
use road_sim.Domain.Rules
use road_sim.Domain.Project.{
  Project, ProjectMetadata, CoordinateReference, CrsDefinition, EngineeringUnit, AxisOrder,
}
use road_sim.Types.Ids.{ObjectKind, object_ref}
use road_sim.Commands.Primitive.{Command, CommandOutcome, create, update, delete, primitive}
use road_sim.Commands.State.{ModelState, with_revision}

-- 100.0 and 3.5
abbrev pub hundred_metres : ℕ
hundred_metres = 0x4059000000000000

abbrev pub lane_width : ℕ
lane_width = 0x400c000000000000

abbrev pub straight : ReferenceLine
straight = record {
  start = record { position = record { x_m = 0; y_m = 0 }; heading = 0 };
  segments = line hundred_metres ∷ [];
  total_length = hundred_metres;
}

-- A straight corridor with one lane.
abbrev pub corridor_with : ℕ → ℕ → Corridor
corridor_with id lane_id = record {
  id = id;
  reference_line = straight;
  lane_definitions =
      record { id = lane_id; direction = along_reference; use_kind = general_traffic } ∷ [];
  cross_section_profile =
      record {
        start_station = 0;
        layout = record {
          left = [];
          right = record { lane_id = lane_id; width_m = lane_width } ∷ [];
        };
      }
      ∷ [];
}

abbrev pub crs : CrsDefinition
crs = Project.authority [] []

abbrev pub sample_project : Project
sample_project = record {
  id = 1;
  metadata = record { name = [] };
  coordinate_reference = record {
    source = crs;
    engineering = record { definition = crs; declared_unit = Project.metre };
    origin = record { east_m = 0; north_m = 0 };
    axis_order = Project.east_north;
    vertical_datum = none;
    provenance = record { source = []; transform_method = []; axis_order_decision = [] };
  };
  design_catalog = Catalog.empty;
  study_catalog = Study.empty;
  rule_configuration = Rules.unconfigured;
}

abbrev pub start_state : ModelState
start_state = with_revision 7 sample_project 0

abbrev pub with_corridors : List Corridor → ℕ → ModelState
with_corridors corridors revision = record start_state {
  project = record sample_project {
    design_catalog = record sample_project.design_catalog { corridors = corridors };
  };
  revision = revision;
}

-- The state after `create_corridor`, and after `update_corridor` on it.
abbrev pub created_state : ModelState
created_state = with_corridors (corridor_with 5 9 ∷ []) 1

abbrev pub create_corridor : Command
create_corridor = primitive (create (corridor_with 5 9))

abbrev pub update_corridor : Command
update_corridor = primitive (update (corridor_with 5 8))

abbrev pub created_outcome : CommandOutcome
created_outcome = record {
  changed = object_ref ObjectKind.corridor 5 ∷ [];
  created = object_ref ObjectKind.corridor 5 ∷ [];
  deleted = [];
  inverse = delete 5 ∷ [];
}
