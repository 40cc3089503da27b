-- ===== src/Domain/Stations.antt =====
-- Reference lines and corridors that their constructors accept: what their stations cover.
use road_sim.Prelude.{
  ℕ, ◌+◌, not, ◌<◌, ◌≡◌, refl, sym, subst, subst₂, false, List, [], ◌∷◌, map, Result, ok, ◌>>=◌,
  ◌>>◌, >>=-eq-ok, >>-eq-ok, reject_if, reject_some, reject_if-eq-ok, reject_some-eq-ok, leb, ◌==◌,
  is_empty, first_adjacent, sort_by_key, arith, none,
}
use road_sim.Types.Units.{LengthMeters, is_finite}
use road_sim.Types.Float.{add}
use road_sim.Domain.ReferenceLine
use road_sim.Domain.ReferenceLine.{
  ReferenceLine, ReferenceLineElement, ReferenceLineError, ReferenceLineErrorCode,
  ReferenceLinePose, StationRange, element_length, accumulate, ranges_from, station_ranges,
  at_segment,
}
use road_sim.Domain.Corridor
use road_sim.Domain.Corridor.{
  Corridor, CorridorError, CorridorErrorCode, CrossSectionSection, LaneDefinition, error,
  at_section, for_lane, for_corridor, check_stations, new_profile, check_sections, check_references,
  slices, lane_key, used_lanes, first_unused, ranges_to, section_ranges,
}

-- The ranges follow on one another, none of them empty, from the first station to the last.
unfoldable pub Covers : LengthMeters → LengthMeters → List StationRange → Type 0
Covers a b [] = a ≡ b
Covers a b (r ∷ rs) = (r.start ≡ a) × (r.start < r.end) × Covers r.end b rs

past : (a b : ℕ) → leb b a ≡ false → a < b
past a b h = ground arith

at_zero : (a : ℕ) → not (a == 0) ≡ false → a ≡ 0
at_zero a h = ground arith

accumulate-Covers :
    (i : ℕ) (total : LengthMeters) (segments : List ReferenceLineElement) {end : LengthMeters}
    → accumulate i total segments ≡ ok end
    → Covers total end (ranges_from total segments)
unfolding accumulate Covers ranges_from
accumulate-Covers i total [] h = cc
accumulate-Covers i total (segment ∷ segments) h =
    let next = add total (element_length segment) in
    let rest = accumulate (i + 1) next segments in
    let (finite, a) =
      reject_if-eq-ok (not (is_finite next)) (at_segment ReferenceLineErrorCode.station_overflow i)
        (reject_if (leb next total) (at_segment ReferenceLineErrorCode.station_resolution_lost i)
          >> rest)
        h in
    let (grows, b) =
      reject_if-eq-ok (leb next total) (at_segment ReferenceLineErrorCode.station_resolution_lost i)
        rest a in
    (refl, past total next grows, accumulate-Covers (i + 1) next segments b)

-- The station ranges of a reference line that `new` accepts are not empty, follow on one another
-- and reach from 0 to its total length.
pub station_ranges-Covers :
    (start : ReferenceLinePose) (segments : List ReferenceLineElement) (l : ReferenceLine)
    → ReferenceLine.new start segments ≡ ok l
    → Covers 0 l.total_length (station_ranges l)
unfolding ReferenceLine.new station_ranges
station_ranges-Covers start segments l h =
    let (total, a, b) =
      >>=-eq-ok (accumulate 0 0 segments)
        (λ total. ok (record { start = start; segments = segments; total_length = total }))
        (reject_if-eq-ok (is_empty segments) _
          (accumulate 0 0 segments >>= λ total.
            ok (record { start = start; segments = segments; total_length = total }))
          h).1 in
    let built : record { start = start; segments = segments; total_length = total } ≡ l = cc b in
    subst (λ (x : ReferenceLine). Covers 0 x.total_length (station_ranges x)) built
      (accumulate-Covers 0 0 segments a)

check_stations-cons :
    (index : ℕ) (a b : CrossSectionSection) (sections : List CrossSectionSection)
    → check_stations index (a ∷ b ∷ sections) ≡ ok tt
    → (a.start_station < b.start_station) × (check_stations (index + 1) (b ∷ sections) ≡ ok tt)
unfolding check_stations
check_stations-cons index a b sections h =
    let (grows, rest) =
      reject_if-eq-ok (leb b.start_station a.start_station)
        (at_section index (error CorridorErrorCode.section_station_not_increasing))
        (check_stations (index + 1) (b ∷ sections)) h in
    (past a.start_station b.start_station grows, rest)

check_sections-cons :
    (id total : ℕ) (defined : List ℕ) (index : ℕ) (s : CrossSectionSection)
    (sections : List CrossSectionSection)
    → check_sections id total defined index (s ∷ sections) ≡ ok tt
    → (s.start_station < total) × (check_sections id total defined (index + 1) sections ≡ ok tt)
unfolding check_sections
check_sections-cons id total defined index s sections h =
    let rest = check_sections id total defined (index + 1) sections in
    let lanes = check_references id index defined (slices s) in
    let (inside, a) =
      reject_if-eq-ok (leb total s.start_station)
        (at_section index
          (for_corridor id (error CorridorErrorCode.section_outside_reference_line)))
        (lanes >> rest) h in
    (past s.start_station total inside, (>>-eq-ok lanes rest a).1)

ranges_to-Covers :
    (id total : ℕ) (defined : List ℕ) (i j : ℕ) (s : CrossSectionSection)
    (sections : List CrossSectionSection)
    → check_stations i (s ∷ sections) ≡ ok tt
    → check_sections id total defined j (s ∷ sections) ≡ ok tt
    → Covers s.start_station total (ranges_to total (s ∷ sections))
unfolding Covers ranges_to
ranges_to-Covers id total defined i j s [] a b =
    (refl, (check_sections-cons id total defined j s [] b).0, refl)
ranges_to-Covers id total defined i j s (t ∷ sections) a b =
    let (grows, a') = check_stations-cons i s t sections a in
    let (_, b') = check_sections-cons id total defined j s (t ∷ sections) b in
    (refl, grows, ranges_to-Covers id total defined (i + 1) (j + 1) t sections a' b')

-- What the checks of `Corridor::new` have established where it succeeds.
pub record Checked (id : ℕ) (line : ReferenceLine) (given : List LaneDefinition)
    (profile : List CrossSectionSection) (c : Corridor) : Type 0 where
  pub unique : first_adjacent (λ a b. lane_key a == lane_key b) (sort_by_key lane_key given) ≡ none
  pub sections :
      check_sections id line.total_length (map lane_key (sort_by_key lane_key given)) 0 profile
      ≡ ok tt
  pub used : first_unused (used_lanes profile) (map lane_key (sort_by_key lane_key given)) ≡ none
  pub built :
      record {
        id = id;
        reference_line = line;
        lane_definitions = sort_by_key lane_key given;
        cross_section_profile = profile;
      }
      ≡ c

pub new-eq-ok :
    (id : ℕ) (line : ReferenceLine) (given : List LaneDefinition)
    (profile : List CrossSectionSection) {c : Corridor}
    → Corridor.new id line given profile ≡ ok c
    → Checked id line given profile c
unfolding Corridor.new
new-eq-ok id line given profile h =
    let lanes = sort_by_key lane_key given in
    let defined = map lane_key lanes in
    let made : Result Corridor CorridorError = ok (record {
      id = id;
      reference_line = line;
      lane_definitions = lanes;
      cross_section_profile = profile;
    }) in
    let use_checked = reject_some unused (first_unused (used_lanes profile) defined) >> made in
    let sections_checked = check_sections id line.total_length defined 0 profile >> use_checked in
    let lanes_checked =
      reject_some duplicate (first_adjacent (λ a b. lane_key a == lane_key b) lanes)
      >> sections_checked in
    let (_, a) =
      reject_if-eq-ok (is_empty given)
        (for_corridor id (error CorridorErrorCode.empty_lane_catalog)) lanes_checked h in
    let (unique, b) =
      reject_some-eq-ok duplicate (first_adjacent (λ a b. lane_key a == lane_key b) lanes)
        sections_checked a in
    let (sections, c) =
      >>-eq-ok (check_sections id line.total_length defined 0 profile) use_checked b in
    let (used, d) = reject_some-eq-ok unused (first_unused (used_lanes profile) defined) made c in
    record { unique = unique; sections = sections; used = used; built = cc d }
  where
    unused : ℕ → CorridorError
    unused lane = for_lane lane (for_corridor id (error CorridorErrorCode.unused_lane_definition))

    duplicate : LaneDefinition → CorridorError
    duplicate lane =
        for_lane lane.id (for_corridor id (error CorridorErrorCode.duplicate_lane_definition))

new_profile-eq-ok :
    (s : CrossSectionSection) (sections : List CrossSectionSection)
    {profile : List CrossSectionSection}
    → new_profile (s ∷ sections) ≡ ok profile
    → (s.start_station ≡ 0) × (check_stations 1 (s ∷ sections) ≡ ok tt) × (s ∷ sections ≡ profile)
unfolding new_profile
new_profile-eq-ok s sections h =
    let made : Result (List CrossSectionSection) CorridorError = ok (s ∷ sections) in
    let (zeroth, a) =
      reject_if-eq-ok (not (s.start_station == 0))
        (at_section 0 (error CorridorErrorCode.first_section_not_at_zero))
        (check_stations 1 (s ∷ sections) >> made) h in
    let (stations, b) = >>-eq-ok (check_stations 1 (s ∷ sections)) made a in
    (at_zero s.start_station zeroth, stations, cc b)

-- The section ranges of a corridor whose profile and own checks passed are not empty, follow on one
-- another and reach from 0 to the total length of its reference line.
pub section_ranges-Covers :
    (id : ℕ) (line : ReferenceLine) (given : List LaneDefinition)
    (sections profile : List CrossSectionSection) (c : Corridor)
    → new_profile sections ≡ ok profile
    → Corridor.new id line given profile ≡ ok c
    → Covers 0 c.reference_line.total_length (section_ranges c)
unfolding section_ranges new_profile
section_ranges-Covers id line given [] profile c made h = cc
section_ranges-Covers id line given (s ∷ sections) profile c made h =
    let (zeroth, stations, whole) = new_profile-eq-ok s sections made in
    let checked = new-eq-ok id line given profile h in
    let inside =
      subst
        (λ p.
          check_sections id line.total_length (map lane_key (sort_by_key lane_key given)) 0 p
          ≡ ok tt)
        (sym whole) checked.sections in
    let covered : Covers 0 line.total_length (ranges_to line.total_length profile) =
      subst₂ (λ a p. Covers a line.total_length (ranges_to line.total_length p)) zeroth whole
        (ranges_to-Covers id line.total_length (map lane_key (sort_by_key lane_key given)) 1 0 s
          sections stations inside) in
    subst (λ (x : Corridor). Covers 0 x.reference_line.total_length (section_ranges x))
      checked.built covered
