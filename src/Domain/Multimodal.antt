-- ===== src/Domain/Multimodal.antt =====
-- crates/roadsim-domain/src/multimodal.rs: junctions, walking areas, sidewalks, crossings, rails.
use road_sim.Prelude.{
  ℕ, Bool, ◌&&◌, ◌||◌, List, [], ◌∷◌, Option, none, some, Result, ok, ◌>>◌, reject_if, ltb, leb,
  ◌==◌, length, any, any_adjacent, sort_by, first_repeated,
}
use road_sim.Types.Ids.{ObjectKind, ObjectRef, object_ref}
use road_sim.Types.Fault.{Fault, fault}
use road_sim.Types.Units.{LengthMeters}
use road_sim.Domain.ReferenceLine.{ReferenceLine, Point2Meters}

pub data MultimodalErrorCode : Type 0 where
  too_few_junction_approaches duplicate_junction_approach : MultimodalErrorCode
  too_few_walking_area_vertices duplicate_walking_area_vertex : MultimodalErrorCode
  invalid_station_range zero_width same_crossing_endpoint : MultimodalErrorCode

pub data CorridorEnd : Type 0 where
  start end : CorridorEnd

abbrev pub end_rank : CorridorEnd → ℕ
end_rank start = 0
end_rank end = 1

pub record CorridorEndpointRef : Type 0 where
  pub corridor_id : ℕ
  pub end : CorridorEnd

unfoldable pub endpoint_le : CorridorEndpointRef → CorridorEndpointRef → Bool
endpoint_le a b =
    ltb a.corridor_id b.corridor_id
    || ((a.corridor_id == b.corridor_id) && leb (end_rank a.end) (end_rank b.end))

unfoldable pub endpoint_eq : CorridorEndpointRef → CorridorEndpointRef → Bool
endpoint_eq a b = (a.corridor_id == b.corridor_id) && (end_rank a.end == end_rank b.end)

pub record Junction : Type 0 where
  pub id : ℕ
  pub approaches : List CorridorEndpointRef

abbrev pub first_corridor : ObjectRef → List CorridorEndpointRef → List ObjectRef
first_corridor owner [] = owner ∷ []
first_corridor owner (a ∷ approaches) = owner ∷ object_ref ObjectKind.corridor a.corridor_id ∷ []

unfoldable pub new_junction :
    ℕ → List CorridorEndpointRef → Result Junction (Fault MultimodalErrorCode)
unfolding sort_by endpoint_le endpoint_eq
new_junction id given = do
  let owner = object_ref ObjectKind.junction id
  reject_if (ltb (length given) 2)
      (fault MultimodalErrorCode.too_few_junction_approaches (owner ∷ []))
  let approaches = sort_by endpoint_le given
  reject_if (any_adjacent endpoint_eq approaches)
      (fault MultimodalErrorCode.duplicate_junction_approach (first_corridor owner approaches))
  ok (record { id = id; approaches = approaches })

pub record WalkingArea : Type 0 where
  pub id : ℕ
  pub boundary : List Point2Meters

-- Equal coordinates have equal patterns: the scalar keeps one zero and no NaN.
abbrev pub point_eq : Point2Meters → Point2Meters → Bool
point_eq a b = (a.x_m == b.x_m) && (a.y_m == b.y_m)

abbrev pub has_duplicate : List Point2Meters → Bool
has_duplicate [] = Bool.false
has_duplicate (p ∷ points) = any (point_eq p) points || has_duplicate points

unfoldable pub new_walking_area :
    ℕ → List Point2Meters → Result WalkingArea (Fault MultimodalErrorCode)
new_walking_area id boundary = do
  let owner = object_ref ObjectKind.walking_area id
  reject_if (ltb (length boundary) 3)
      (fault MultimodalErrorCode.too_few_walking_area_vertices (owner ∷ []))
  reject_if (has_duplicate boundary)
      (fault MultimodalErrorCode.duplicate_walking_area_vertex (owner ∷ []))
  ok (record { id = id; boundary = boundary })

pub data CorridorSide : Type 0 where
  left right : CorridorSide

pub record Sidewalk : Type 0 where
  pub id : ℕ
  pub corridor_id : ℕ
  pub side : CorridorSide
  pub start_station_m : LengthMeters
  pub end_station_m : LengthMeters
  pub width_m : LengthMeters

-- The constructor's arguments are the fields.
unfoldable pub new_sidewalk : Sidewalk → Result Sidewalk (Fault MultimodalErrorCode)
new_sidewalk s = do
  let refs = object_ref ObjectKind.sidewalk s.id ∷ object_ref ObjectKind.corridor s.corridor_id ∷ []
  reject_if (leb s.end_station_m s.start_station_m)
      (fault MultimodalErrorCode.invalid_station_range refs)
  reject_if (s.width_m == 0) (fault MultimodalErrorCode.zero_width refs)
  ok s

pub record Crossing : Type 0 where
  pub id : ℕ
  pub corridor_id : ℕ
  pub station_m : LengthMeters
  pub width_m : LengthMeters
  pub from : ℕ
  pub to : ℕ

unfoldable pub new_crossing : Crossing → Result Crossing (Fault MultimodalErrorCode)
new_crossing c = do
  let owner = object_ref ObjectKind.crossing c.id
  reject_if (c.width_m == 0) (
      fault MultimodalErrorCode.zero_width
        (owner ∷ object_ref ObjectKind.corridor c.corridor_id ∷ []))
  reject_if (c.from == c.to) (
      fault MultimodalErrorCode.same_crossing_endpoint
        (owner ∷ object_ref ObjectKind.walking_area c.from ∷ []))
  ok c

pub record RailAlignment : Type 0 where
  pub id : ℕ
  pub reference_line : ReferenceLine
  pub track_gauge_m : LengthMeters

unfoldable pub new_rail_alignment : RailAlignment → Result RailAlignment (Fault MultimodalErrorCode)
new_rail_alignment r = do
  reject_if (r.track_gauge_m == 0)
      (fault MultimodalErrorCode.zero_width (object_ref ObjectKind.rail_alignment r.id ∷ []))
  ok r

pub data CatalogErrorCode : Type 0 where
  corridor_invariant duplicate_entity dangling_corridor dangling_lane : CatalogErrorCode
  dangling_junction dangling_walking_area dangling_signal_group : CatalogErrorCode
  dangling_signal_program signal_junction_mismatch endpoint_already_connected : CatalogErrorCode
  station_outside_corridor : CatalogErrorCode

abbrev pub CatalogError : Type 0
CatalogError = Fault CatalogErrorCode

abbrev pub as_ref : ObjectKind → Option ℕ → Option ObjectRef
as_ref kind none = none
as_ref kind (some id) = some (object_ref kind id)

-- The identifiers are all of one kind.
unfoldable pub duplicate_object_ref : ObjectKind → List ℕ → Option ObjectRef
duplicate_object_ref kind ids = as_ref kind (first_repeated [] ids)
