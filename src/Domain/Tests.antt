-- ===== src/Domain/Tests.antt =====
-- Tests of the constructors on a straight line and on a corridor of two sections.
use road_sim.Prelude.{ℕ, ◌≡◌, refl, List, [], ◌∷◌, ok, sort_by_key}
use road_sim.Prelude.Keyed.{IsStrict}
use road_sim.Types.Float.{add}
use road_sim.Domain.ReferenceLine
use road_sim.Domain.ReferenceLine.{
  ReferenceLine, ReferenceLineElement, ReferenceLinePose, line, accumulate, station_ranges,
}
use road_sim.Domain.Corridor
use road_sim.Domain.Corridor.{
  Corridor, LaneDefinition, LaneSlice, CrossSectionSection, along_reference, general_traffic,
  new_profile, check_stations, check_sections, check_references, section_ranges, key,
}
use road_sim.Domain.Stations.{Covers, station_ranges-Covers, section_ranges-Covers}
use road_sim.Prelude.{sort_by, insert_by, arith}
use road_sim.Domain.Scenario.{
  DemandInterval, DemandFlow, DemandEndpoint, car, start_key, new_flow, accepts, endpoint_eq,
}
use road_sim.Domain.Flows.{AreProper, AreDisjoint, new_flow-AreDisjoint}
use road_sim.Domain.Catalog
use road_sim.Domain.Catalog.{DesignCatalog, with_multimodal, check_parts}
use road_sim.Domain.ControlChecks.{validate_against}
use road_sim.Domain.Design.{replace_corridors}
use road_sim.Domain.Design.Laws.{arranged, replace_corridors-eq-ok, replace_corridors_again}

abbrev origin : ReferenceLinePose
origin = record { position = record { x_m = 0; y_m = 0 }; heading = 0 }

-- 60 m and 40 m, which are 100 m.
abbrev two_lines : List ReferenceLineElement
two_lines = line 0x404e000000000000 ∷ line 0x4044000000000000 ∷ []

abbrev two_lines_line : ReferenceLine
two_lines_line = record { start = origin; segments = two_lines; total_length = 0x4059000000000000 }

two_lines-new : ReferenceLine.new origin two_lines ≡ ok two_lines_line
unfolding ReferenceLine.new accumulate add
two_lines-new = refl

station_ranges-Covers_example : Covers 0 0x4059000000000000 (station_ranges two_lines_line)
station_ranges-Covers_example = station_ranges-Covers origin two_lines two_lines_line two_lines-new

abbrev one_lane : List LaneDefinition
one_lane = record { id = 9; direction = along_reference; use_kind = general_traffic } ∷ []

-- The lane, 3.5 m wide.
abbrev section_at : ℕ → CrossSectionSection
section_at start = record {
  start_station = start;
  layout = record { left = []; right = record { lane_id = 9; width_m = 0x400c000000000000 } ∷ [] };
}

abbrev two_sections : List CrossSectionSection
two_sections = section_at 0 ∷ section_at 0x404e000000000000 ∷ []

abbrev sectioned : ℕ → Corridor
sectioned id = record {
  id = id;
  reference_line = two_lines_line;
  lane_definitions = one_lane;
  cross_section_profile = two_sections;
}

two_sections-new : new_profile two_sections ≡ ok two_sections
unfolding new_profile check_stations
two_sections-new = refl

sectioned-new : Corridor.new 5 two_lines_line one_lane two_sections ≡ ok (sectioned 5)
unfolding Corridor.new check_sections
sectioned-new = refl

section_ranges-Covers_example : Covers 0 0x4059000000000000 (section_ranges (sectioned 5))
section_ranges-Covers_example =
    section_ranges-Covers 5 two_lines_line one_lane two_sections two_sections (sectioned 5)
      two_sections-new sectioned-new

abbrev one_corridor : DesignCatalog
one_corridor = record Catalog.empty { corridors = sectioned 5 ∷ [] }

replaced_one : replace_corridors Catalog.empty (sectioned 5 ∷ []) ≡ ok one_corridor
unfolding replace_corridors with_multimodal Catalog.new check_parts validate_against
replaced_one = refl

replace_corridors-eq-ok_example :
    (one_corridor ≡ record (arranged (sectioned 5 ∷ []) Catalog.empty) {
      traffic_controls = Catalog.empty.traffic_controls;
    })
    × IsStrict key (sort_by_key key (sectioned 5 ∷ []))
replace_corridors-eq-ok_example =
    replace_corridors-eq-ok Catalog.empty (sectioned 5 ∷ []) replaced_one

replace_corridors_again_example :
    replace_corridors one_corridor (sectioned 6 ∷ [])
    ≡ replace_corridors Catalog.empty (sectioned 6 ∷ [])
replace_corridors_again_example =
    replace_corridors_again Catalog.empty (sectioned 5 ∷ []) (sectioned 6 ∷ []) replaced_one

-- Two intervals given in the opposite order: from 0 s to 60 s, and from 60 s on.
abbrev first_minute : DemandInterval
first_minute = record {
  start_s = 0;
  end_s = 0x404e000000000000;
  flow_per_hour = 0x4059000000000000;
}

abbrev second_minute : DemandInterval
second_minute = record {
  start_s = 0x404e000000000000;
  end_s = 0x405e000000000000;
  flow_per_hour = 0x4059000000000000;
}

abbrev flow_with : List DemandInterval → DemandFlow
flow_with intervals = record {
  id = 21;
  mode = car;
  origin = DemandEndpoint.corridor 5;
  destination = DemandEndpoint.corridor 6;
  intervals = intervals;
}

flow_accepted :
    new_flow (flow_with (second_minute ∷ first_minute ∷ []))
    ≡ ok (flow_with (first_minute ∷ second_minute ∷ []))
unfolding new_flow accepts endpoint_eq sort_by_key sort_by insert_by
flow_accepted = refl

both_proper : AreProper (second_minute ∷ first_minute ∷ [])
unfolding AreProper
both_proper = (omega arith, (omega arith, tt))

new_flow-AreDisjoint_example :
    (first_minute ∷ second_minute ∷ [] ≡ sort_by_key start_key (second_minute ∷ first_minute ∷ []))
    × AreDisjoint (first_minute ∷ second_minute ∷ [])
new_flow-AreDisjoint_example =
    new_flow-AreDisjoint (flow_with (second_minute ∷ first_minute ∷ []))
      (flow_with (first_minute ∷ second_minute ∷ [])) flow_accepted both_proper
