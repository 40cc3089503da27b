-- ===== src/Domain/Catalog.antt =====
-- crates/roadsim-domain/src/corridor.rs: `DesignCatalog` up to `with_multimodal`. `Design` models
-- the operations that validate the traffic controls too.
use road_sim.Prelude.{
  ℕ, not, List, [], ◌∷◌, ◌++◌, Option, none, some, map, Result, ok, err, ◌>>=◌, ◌>>◌, reject_if,
  reject_some, for_each, map_err, ltb, leb, ◌==◌, if◌then◌else◌, first_adjacent, contains, or_else,
  sort_by_key,
}
use road_sim.Prelude.Keyed.{find}
use road_sim.Types.Ids.{ObjectKind, ObjectRef, object_ref}
use road_sim.Types.Fault.{fault}
use road_sim.Domain.Corridor.{
  Corridor, CorridorError, CorridorErrorCode, LaneDefinition, error, for_lane, for_corridor, key,
}
use road_sim.Domain.Multimodal.{
  Junction, WalkingArea, Sidewalk, Crossing, RailAlignment, CorridorEndpointRef, endpoint_eq,
  CatalogError, CatalogErrorCode, duplicate_object_ref,
}
use road_sim.Domain.ControlCatalog
use road_sim.Domain.ControlCatalog.{TrafficControlCatalog}

pub record DesignCatalog : Type 0 where
  pub corridors : List Corridor
  pub junctions : List Junction
  pub walking_areas : List WalkingArea
  pub sidewalks : List Sidewalk
  pub crossings : List Crossing
  pub rail_alignments : List RailAlignment
  pub traffic_controls : TrafficControlCatalog

abbrev pub empty : DesignCatalog
empty = record {
  corridors = [];
  junctions = [];
  walking_areas = [];
  sidewalks = [];
  crossings = [];
  rail_alignments = [];
  traffic_controls = ControlCatalog.empty;
}

abbrev pub junction_key : Junction → ℕ
junction_key x = x.id

abbrev pub area_key : WalkingArea → ℕ
area_key x = x.id

abbrev pub sidewalk_key : Sidewalk → ℕ
sidewalk_key x = x.id

abbrev pub crossing_key : Crossing → ℕ
crossing_key x = x.id

abbrev pub rail_key : RailAlignment → ℕ
rail_key x = x.id

-- The lane identifiers of one corridor, put into the project's set.
unfoldable pub insert_lanes : ℕ → List ℕ → List LaneDefinition → Result (List ℕ) CorridorError
insert_lanes id seen [] = ok seen
insert_lanes id seen (lane ∷ lanes) =
    let rest = insert_lanes id (lane.id ∷ seen) lanes in
    reject_if (contains seen lane.id)
      (for_lane lane.id (for_corridor id (error CorridorErrorCode.duplicate_project_lane_id)))
    >> rest

unfoldable pub insert_corridors : List ℕ → List Corridor → Result (List ℕ) CorridorError
unfolding insert_lanes
insert_corridors seen [] = ok seen
insert_corridors seen (corridor ∷ corridors) =
    insert_lanes corridor.id seen corridor.lane_definitions >>= λ seen'.
    insert_corridors seen' corridors

unfoldable pub new : List Corridor → Result DesignCatalog CorridorError
unfolding sort_by_key insert_corridors
new given = do
  let corridors = sort_by_key key given
  reject_some (λ corridor. for_corridor corridor.id (error CorridorErrorCode.duplicate_corridor))
      (first_adjacent (λ a b. key a == key b) corridors)
  lanes ← insert_corridors [] corridors
  ok (record empty { corridors = corridors })

-- The lookup of a corridor: they stand in strict order.
unfoldable pub corridor : DesignCatalog → ℕ → Option Corridor
unfolding find
corridor design id = find key id design.corridors

abbrev optional_ref : ObjectKind → Option ℕ → List ObjectRef
optional_ref kind none = []
optional_ref kind (some id) = object_ref kind id ∷ []

abbrev pub corridor_fault : CorridorError → CatalogError
corridor_fault e =
    fault CatalogErrorCode.corridor_invariant
      (optional_ref ObjectKind.corridor e.corridor_id ++ optional_ref ObjectKind.lane e.lane_id)

unfoldable pub first_duplicate : DesignCatalog → Option ObjectRef
unfolding duplicate_object_ref
first_duplicate c =
    or_else (duplicate_object_ref ObjectKind.junction (map junction_key c.junctions)) (
      or_else (duplicate_object_ref ObjectKind.walking_area (map area_key c.walking_areas)) (
        or_else (duplicate_object_ref ObjectKind.sidewalk (map sidewalk_key c.sidewalks)) (
          or_else (duplicate_object_ref ObjectKind.crossing (map crossing_key c.crossings))
            (duplicate_object_ref ObjectKind.rail_alignment (map rail_key c.rail_alignments)))))

-- The map from the ends that junctions hold to the junctions.
abbrev pub Ends : Type 0
Ends = List (CorridorEndpointRef × ℕ)

unfoldable pub owner_of : CorridorEndpointRef → Ends → Option ℕ
unfolding endpoint_eq
owner_of a [] = none
owner_of a ((b, owner) ∷ ends) = if endpoint_eq b a then some owner else owner_of a ends

-- The approaches of one junction.
unfoldable pub connect : List ℕ → ℕ → Ends → List CorridorEndpointRef → Result Ends CatalogError
unfolding owner_of
connect corridor_ids id ends [] = ok ends
connect corridor_ids id ends (a ∷ approaches) =
    let rest = connect corridor_ids id ((a, id) ∷ ends) approaches in
    let junction = object_ref ObjectKind.junction id in
    let end = object_ref ObjectKind.corridor a.corridor_id in
    reject_if (not (contains corridor_ids a.corridor_id))
      (fault CatalogErrorCode.dangling_corridor (junction ∷ end ∷ []))
    >> (reject_some
          (λ owner.
            fault CatalogErrorCode.endpoint_already_connected
              (object_ref ObjectKind.junction owner ∷ junction ∷ end ∷ []))
          (owner_of a ends)
        >> rest)

unfoldable pub connect_junctions : List ℕ → Ends → List Junction → Result Ends CatalogError
unfolding connect
connect_junctions corridor_ids ends [] = ok ends
connect_junctions corridor_ids ends (j ∷ junctions) =
    connect corridor_ids j.id ends j.approaches >>= λ ends'.
    connect_junctions corridor_ids ends' junctions

abbrev pub dangling : CatalogErrorCode → ObjectRef → ObjectRef → CatalogError
dangling code owner missing = fault code (owner ∷ missing ∷ [])

unfoldable pub check_sidewalk : List Corridor → Sidewalk → Result (Unit {0}) CatalogError
unfolding find
check_sidewalk corridors s = elim (find key s.corridor_id corridors) [
  | none ↦ err (
      dangling CatalogErrorCode.dangling_corridor (object_ref ObjectKind.sidewalk s.id)
        (object_ref ObjectKind.corridor s.corridor_id))
  | some c ↦ reject_if (ltb c.reference_line.total_length s.end_station_m) (
      dangling CatalogErrorCode.station_outside_corridor (object_ref ObjectKind.sidewalk s.id)
        (object_ref ObjectKind.corridor c.id))
]

abbrev check_area : List ℕ → Crossing → ℕ → Result (Unit {0}) CatalogError
check_area area_ids x area = reject_if (not (contains area_ids area)) (
    dangling CatalogErrorCode.dangling_walking_area (object_ref ObjectKind.crossing x.id)
      (object_ref ObjectKind.walking_area area))

unfoldable pub check_crossing : List Corridor → List ℕ → Crossing → Result (Unit {0}) CatalogError
unfolding find
check_crossing corridors area_ids x = elim (find key x.corridor_id corridors) [
  | none ↦ err (
      dangling CatalogErrorCode.dangling_corridor (object_ref ObjectKind.crossing x.id)
        (object_ref ObjectKind.corridor x.corridor_id))
  | some c ↦
      reject_if (leb c.reference_line.total_length x.station_m) (
        dangling CatalogErrorCode.station_outside_corridor (object_ref ObjectKind.crossing x.id)
          (object_ref ObjectKind.corridor c.id))
      >> for_each (check_area area_ids x) (x.from ∷ x.to ∷ [])
]

-- What `with_multimodal` checks once its lists are in order.
unfoldable pub check_parts : DesignCatalog → Result (Unit {0}) CatalogError
unfolding first_duplicate connect_junctions check_sidewalk check_crossing
check_parts catalog = do
  reject_some (λ duplicate. fault CatalogErrorCode.duplicate_entity (duplicate ∷ []))
      (first_duplicate catalog)
  ends ← connect_junctions (map key catalog.corridors) [] catalog.junctions
  for_each (check_sidewalk catalog.corridors) catalog.sidewalks
  for_each (check_crossing catalog.corridors (map area_key catalog.walking_areas)) catalog.crossings

unfoldable pub with_multimodal :
    List Corridor
    → List Junction
    → List WalkingArea
    → List Sidewalk
    → List Crossing
    → List RailAlignment
    → Result DesignCatalog CatalogError
with_multimodal corridors junctions walking_areas sidewalks crossings rail_alignments = do
  base ← map_err corridor_fault (new corridors)
  let catalog = record base {
    junctions = sort_by_key junction_key junctions;
    walking_areas = sort_by_key area_key walking_areas;
    sidewalks = sort_by_key sidewalk_key sidewalks;
    crossings = sort_by_key crossing_key crossings;
    rail_alignments = sort_by_key rail_key rail_alignments;
  }
  check_parts catalog
  ok catalog
