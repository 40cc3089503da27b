-- ===== src/Domain/ReferenceLine.antt =====
-- crates/roadsim-domain/src/reference_line.rs. Angles and curvatures, which no check here reads,
-- are kept as bit patterns.
use road_sim.Prelude.{
  ℕ, ◌+◌, not, List, [], ◌∷◌, Option, none, some, Result, ok, ◌>>=◌, ◌>>◌, reject_if, leb, is_empty,
}
use road_sim.Types.Units.{LengthMeters, CoordinateMeters, is_finite}
use road_sim.Types.Float.{add}

pub data ReferenceLineErrorCode : Type 0 where
  empty zero_length zero_arc_curvature constant_transition_curvature : ReferenceLineErrorCode
  angular_change_non_finite station_overflow station_resolution_lost : ReferenceLineErrorCode

pub record ReferenceLineError : Type 0 where
  pub code : ReferenceLineErrorCode
  pub segment_index : Option ℕ

pub record Point2Meters : Type 0 where
  pub x_m : CoordinateMeters
  pub y_m : CoordinateMeters

pub record ReferenceLinePose : Type 0 where
  pub position : Point2Meters
  pub heading : ℕ

pub data ReferenceLineElement : Type 0 where
  line : (length_m : LengthMeters) → ReferenceLineElement
  circular_arc : (length_m : LengthMeters) (curvature_per_m : ℕ) → ReferenceLineElement
  linear_curvature_transition :
      (length_m : LengthMeters) (start_curvature_per_m end_curvature_per_m : ℕ)
      → ReferenceLineElement

abbrev pub element_length : ReferenceLineElement → LengthMeters
element_length (line l) = l
element_length (circular_arc l _) = l
element_length (linear_curvature_transition l _ _) = l

pub record ReferenceLine : Type 0 where
  pub start : ReferenceLinePose
  pub segments : List ReferenceLineElement
  pub total_length : LengthMeters

pub at_segment : ReferenceLineErrorCode → ℕ → ReferenceLineError
at_segment code index = record { code = code; segment_index = some index }

-- The loop of `new`, from the element at `index`.
unfoldable pub accumulate :
    ℕ → ℕ → List ReferenceLineElement → Result LengthMeters ReferenceLineError
unfolding at_segment
accumulate index total [] = ok total
accumulate index total (segment ∷ segments) =
    let next = add total (element_length segment) in
    let rest = accumulate (index + 1) next segments in
    reject_if (not (is_finite next)) (at_segment ReferenceLineErrorCode.station_overflow index)
    >> (reject_if (leb next total) (at_segment ReferenceLineErrorCode.station_resolution_lost index)
        >> rest)

unfoldable pub new :
    ReferenceLinePose → List ReferenceLineElement → Result ReferenceLine ReferenceLineError
unfolding accumulate
new start segments = do
  reject_if (is_empty segments)
      (record { code = ReferenceLineErrorCode.empty; segment_index = none })
  total ← accumulate 0 0 segments
  ok (record { start = start; segments = segments; total_length = total })

pub record StationRange : Type 0 where
  pub start : LengthMeters
  pub end : LengthMeters

unfoldable pub ranges_from : ℕ → List ReferenceLineElement → List StationRange
ranges_from station [] = []
ranges_from station (segment ∷ segments) =
    let next = add station (element_length segment) in
    record { start = station; end = next } ∷ ranges_from next segments

unfoldable pub station_ranges : ReferenceLine → List StationRange
unfolding ranges_from
station_ranges l = ranges_from 0 l.segments
