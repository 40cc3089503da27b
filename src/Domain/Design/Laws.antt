-- ===== src/Domain/Design/Laws.antt =====
-- Replacing the corridors of a design: which lists give the same result.
use road_sim.Prelude.{
  ◌≡◌, refl, List, Result, ok, ◌>>=◌, >>=-eq-ok, >>-eq-ok, map_err, map_err-eq-ok, sort_by_key,
  sort_by_key_idem, arith,
}
use road_sim.Prelude.Keyed.{IsStrict, first_adjacent-sort_by_key}
use road_sim.Domain.Corridor.{Corridor, key}
use road_sim.Domain.Catalog
use road_sim.Domain.Multimodal
use road_sim.Domain.Catalog.{
  DesignCatalog, new, check_parts, with_multimodal, junction_key, area_key, sidewalk_key,
  crossing_key, rail_key,
}
use road_sim.Domain.ControlChecks.{validate_against}
use road_sim.Domain.Design.{with_traffic_controls, replace_corridors}

new-sort : (cs : List Corridor) → new (sort_by_key key cs) ≡ new cs
unfolding new
new-sort cs = simp sort_by_key_idem

new-eq-ok :
    (cs : List Corridor) {base : DesignCatalog}
    → new cs ≡ ok base
    → (base ≡ record Catalog.empty { corridors = sort_by_key key cs })
      × IsStrict key (sort_by_key key cs)
unfolding new
new-eq-ok cs h = ground (arith, first_adjacent-sort_by_key key cs)

-- A catalog that `with_multimodal` returns holds its arguments in canonical order, no two corridors
-- under one identifier, and no traffic controls.
abbrev pub arranged : List Corridor → DesignCatalog → DesignCatalog
arranged cs d = record Catalog.empty {
  corridors = sort_by_key key cs;
  junctions = sort_by_key junction_key d.junctions;
  walking_areas = sort_by_key area_key d.walking_areas;
  sidewalks = sort_by_key sidewalk_key d.sidewalks;
  crossings = sort_by_key crossing_key d.crossings;
  rail_alignments = sort_by_key rail_key d.rail_alignments;
}

abbrev rebuilt : List Corridor → DesignCatalog → Result DesignCatalog (Multimodal.CatalogError)
rebuilt cs d =
    with_multimodal cs d.junctions d.walking_areas d.sidewalks d.crossings d.rail_alignments

rebuilt-eq-ok :
    (cs : List Corridor) (d : DesignCatalog) {c : DesignCatalog}
    → rebuilt cs d ≡ ok c
    → (c ≡ arranged cs d) × IsStrict key (sort_by_key key cs)
unfolding with_multimodal
rebuilt-eq-ok cs d {c} h =
    let (base, e, rest) = >>=-eq-ok (map_err Catalog.corridor_fault (new cs)) _ h in
    let (same, strict) =
      new-eq-ok cs {base = base} (map_err-eq-ok Catalog.corridor_fault (new cs) e) in
    let checked = >>-eq-ok (check_parts _) _ rest in (cc (checked.1, same), strict)

rebuilt-sort :
    (cs : List Corridor) (d : DesignCatalog) → rebuilt (sort_by_key key cs) d ≡ rebuilt cs d
unfolding with_multimodal
rebuilt-sort cs d = rw new-sort

rebuilt-arranged :
    (cs ds : List Corridor) (d : DesignCatalog) → rebuilt cs (arranged ds d) ≡ rebuilt cs d
unfolding with_multimodal
rebuilt-arranged cs ds d = simp sort_by_key_idem

replace-eq-rebuilt :
    (d : DesignCatalog) (cs : List Corridor)
    → replace_corridors d cs ≡ (rebuilt cs d >>= λ c. with_traffic_controls c d.traffic_controls)
unfolding replace_corridors
replace-eq-rebuilt d cs = refl

-- The order of the corridors does not matter.
pub replace_corridors-sort :
    (d : DesignCatalog) (cs : List Corridor)
    → replace_corridors d (sort_by_key key cs) ≡ replace_corridors d cs
unfolding replace_corridors
replace_corridors-sort d cs = rw (rebuilt-sort cs d)

-- Where `replace_corridors` returns a design, it is the one before with the corridors and the other
-- lists sorted by identifier and the same traffic controls, and the sorted corridors have strictly
-- rising identifiers.
pub replace_corridors-eq-ok :
    (d : DesignCatalog) (cs : List Corridor) {d' : DesignCatalog}
    → replace_corridors d cs ≡ ok d'
    → (d' ≡ record (arranged cs d) { traffic_controls = d.traffic_controls })
      × IsStrict key (sort_by_key key cs)
unfolding replace_corridors with_traffic_controls
replace_corridors-eq-ok d cs {d'} h =
    let (c, e, rest) = >>=-eq-ok (rebuilt cs d) _ h in
    let (same, strict) = rebuilt-eq-ok cs d {c = c} e in
    let checked = >>-eq-ok (validate_against d.traffic_controls c) _ rest in
    (cc (checked.1, same), strict)

-- On a design that `replace_corridors` returned, replacing the corridors by another list gives what
-- it gives on the design before, an error included.
pub replace_corridors_again :
    (d : DesignCatalog) (cs ds : List Corridor) {d' : DesignCatalog}
    → replace_corridors d cs ≡ ok d'
    → replace_corridors d' ds ≡ replace_corridors d ds
unfolding replace_corridors
replace_corridors_again d cs ds h =
    rw ((replace_corridors-eq-ok d cs h).0) (rw (rebuilt-arranged ds cs d))
