-- ===== src/Domain/Corridor.antt =====
-- crates/roadsim-domain/src/corridor.rs, without `DesignCatalog`, which `Catalog` models.
use road_sim.Prelude.{
  ℕ, ◌+◌, not, ◌&&◌, List, [], ◌∷◌, ◌++◌, map, Option, none, some, Result, ok, err, ◌>>◌, reject_if,
  reject_some, for_each, leb, ◌==◌, if◌then◌else◌, is_empty, contains, first_adjacent, sort_by_key,
}
use road_sim.Prelude.Keyed.{find}
use road_sim.Types.Units.{LengthMeters, is_finite}
use road_sim.Types.Float.{add}
use road_sim.Domain.ReferenceLine.{ReferenceLine, StationRange}

pub data CorridorErrorCode : Type 0 where
  empty_lane_catalog duplicate_lane_definition empty_cross_section_profile : CorridorErrorCode
  first_section_not_at_zero section_station_not_increasing : CorridorErrorCode
  section_outside_reference_line empty_lane_layout zero_lane_width : CorridorErrorCode
  duplicate_lane_reference dangling_lane_reference unused_lane_definition : CorridorErrorCode
  cross_section_width_overflow cross_section_width_resolution_lost : CorridorErrorCode
  duplicate_corridor duplicate_project_lane_id : CorridorErrorCode

pub record CorridorError : Type 0 where
  pub code : CorridorErrorCode
  pub corridor_id : Option ℕ
  pub section_index : Option ℕ
  pub lane_id : Option ℕ

abbrev pub error : CorridorErrorCode → CorridorError
error code = record { code = code; corridor_id = none; section_index = none; lane_id = none }

abbrev pub at_section : ℕ → CorridorError → CorridorError
at_section index e = record e { section_index = some index }

abbrev pub for_lane : ℕ → CorridorError → CorridorError
for_lane id e = record e { lane_id = some id }

abbrev pub for_corridor : ℕ → CorridorError → CorridorError
for_corridor id e = record e { corridor_id = some id }

pub data LaneDirection : Type 0 where
  along_reference against_reference : LaneDirection

pub data LaneUse : Type 0 where
  general_traffic bus_only bicycle parking : LaneUse

pub record LaneDefinition : Type 0 where
  pub id : ℕ
  pub direction : LaneDirection
  pub use_kind : LaneUse

pub record LaneSlice : Type 0 where
  pub lane_id : ℕ
  pub width_m : LengthMeters

unfoldable pub new_slice : ℕ → LengthMeters → Result LaneSlice CorridorError
new_slice lane_id width_m =
    if width_m == 0
    then err (for_lane lane_id (error CorridorErrorCode.zero_lane_width))
    else ok (record { lane_id = lane_id; width_m = width_m })

pub record CrossSectionLayout : Type 0 where
  pub left : List LaneSlice
  pub right : List LaneSlice

-- The loop of `CrossSectionLayout::new`: the identifiers seen and the width so far.
unfoldable pub check_slices : List ℕ → ℕ → List LaneSlice → Result (Unit {0}) CorridorError
check_slices ids width [] = ok tt
check_slices ids width (lane ∷ lanes) =
    let next = add width lane.width_m in
    let rest = check_slices (lane.lane_id ∷ ids) next lanes in
    reject_if (contains ids lane.lane_id)
      (for_lane lane.lane_id (error CorridorErrorCode.duplicate_lane_reference))
    >> (reject_if (not (is_finite next))
          (for_lane lane.lane_id (error CorridorErrorCode.cross_section_width_overflow))
        >> (reject_if (leb next width)
              (for_lane lane.lane_id (error CorridorErrorCode.cross_section_width_resolution_lost))
            >> rest))

unfoldable pub new_layout :
    List LaneSlice → List LaneSlice → Result CrossSectionLayout CorridorError
unfolding check_slices
new_layout left right = do
  reject_if (is_empty left && is_empty right) (error CorridorErrorCode.empty_lane_layout)
  check_slices [] 0 (left ++ right)
  ok (record { left = left; right = right })

pub record CrossSectionSection : Type 0 where
  pub start_station : LengthMeters
  pub layout : CrossSectionLayout

-- The loop over the pairs of neighbours, from the pair whose second section has the index.
unfoldable pub check_stations : ℕ → List CrossSectionSection → Result (Unit {0}) CorridorError
check_stations index [] = ok tt
check_stations index (a ∷ []) = ok tt
check_stations index (a ∷ b ∷ sections) =
    let rest = check_stations (index + 1) (b ∷ sections) in
    reject_if (leb b.start_station a.start_station)
      (at_section index (error CorridorErrorCode.section_station_not_increasing))
    >> rest

-- A profile is its sections.
unfoldable pub new_profile :
    List CrossSectionSection → Result (List CrossSectionSection) CorridorError
unfolding check_stations
new_profile [] = err (error CorridorErrorCode.empty_cross_section_profile)
new_profile (s ∷ sections) = do
  reject_if (not (s.start_station == 0))
      (at_section 0 (error CorridorErrorCode.first_section_not_at_zero))
  check_stations 1 (s ∷ sections)
  ok (s ∷ sections)

pub record Corridor : Type 0 where
  pub id : ℕ
  pub reference_line : ReferenceLine
  pub lane_definitions : List LaneDefinition
  pub cross_section_profile : List CrossSectionSection

abbrev pub lane_key : LaneDefinition → ℕ
lane_key lane = lane.id

abbrev pub slices : CrossSectionSection → List LaneSlice
slices s = s.layout.left ++ s.layout.right

pub check_references : ℕ → ℕ → List ℕ → List LaneSlice → Result (Unit {0}) CorridorError
check_references id index defined = for_each λ slice.
    reject_if (not (contains defined slice.lane_id)) (
      for_lane slice.lane_id
        (at_section index (for_corridor id (error CorridorErrorCode.dangling_lane_reference))))

-- The loop over the sections in `Corridor::new`.
unfoldable pub check_sections :
    ℕ → LengthMeters → List ℕ → ℕ → List CrossSectionSection → Result (Unit {0}) CorridorError
unfolding check_references
check_sections id total defined index [] = ok tt
check_sections id total defined index (section ∷ sections) =
    let rest = check_sections id total defined (index + 1) sections in
    reject_if (leb total section.start_station)
      (at_section index (for_corridor id (error CorridorErrorCode.section_outside_reference_line)))
    >> (check_references id index defined (slices section) >> rest)

abbrev pub used_lanes : List CrossSectionSection → List ℕ
used_lanes [] = []
used_lanes (section ∷ sections) = map (λ s. s.lane_id) (slices section) ++ used_lanes sections

-- `defined.difference(&used).next()`, the first in ascending order.
abbrev pub first_unused : List ℕ → List ℕ → Option ℕ
first_unused used [] = none
first_unused used (id ∷ ids) = if contains used id then first_unused used ids else some id

unfoldable pub new :
    ℕ
    → ReferenceLine
    → List LaneDefinition
    → List CrossSectionSection
    → Result Corridor CorridorError
unfolding check_sections sort_by_key
new id reference_line given profile = do
  reject_if (is_empty given) (for_corridor id (error CorridorErrorCode.empty_lane_catalog))
  let lanes = sort_by_key lane_key given
  reject_some
      (λ lane.
        for_lane lane.id (for_corridor id (error CorridorErrorCode.duplicate_lane_definition)))
      (first_adjacent (λ a b. lane_key a == lane_key b) lanes)
  let defined = map lane_key lanes
  check_sections id reference_line.total_length defined 0 profile
  reject_some
      (λ unused. for_lane unused (for_corridor id (error CorridorErrorCode.unused_lane_definition)))
      (first_unused (used_lanes profile) defined)
  ok (record {
    id = id;
    reference_line = reference_line;
    lane_definitions = lanes;
    cross_section_profile = profile;
  })

abbrev pub key : Corridor → ℕ
key corridor = corridor.id

-- The lookup of a lane: the definitions stand in strict order.
unfoldable pub lane : Corridor → ℕ → Option LaneDefinition
unfolding find
lane corridor id = find lane_key id corridor.lane_definitions

unfoldable pub ranges_to : LengthMeters → List CrossSectionSection → List StationRange
ranges_to total [] = []
ranges_to total (s ∷ []) = record { start = s.start_station; end = total } ∷ []
ranges_to total (s ∷ t ∷ sections) =
    record { start = s.start_station; end = t.start_station } ∷ ranges_to total (t ∷ sections)

unfoldable pub section_ranges : Corridor → List StationRange
unfolding ranges_to
section_ranges c = ranges_to c.reference_line.total_length c.cross_section_profile
