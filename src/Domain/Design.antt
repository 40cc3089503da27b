-- ===== src/Domain/Design.antt =====
-- crates/roadsim-domain/src/corridor.rs: the operations of `DesignCatalog` that validate the
-- traffic controls against it.
pub mod Laws
use road_sim.Prelude.{List, Result, ok, ◌>>=◌, ◌>>◌}
use road_sim.Domain.Corridor.{Corridor}
use road_sim.Domain.Multimodal.{CatalogError}
use road_sim.Domain.ControlCatalog.{TrafficControlCatalog}
use road_sim.Domain.ControlChecks.{validate_against}
use road_sim.Domain.Catalog.{DesignCatalog, with_multimodal}

-- The checks do not read the traffic controls of the catalog.
unfoldable pub with_traffic_controls :
    DesignCatalog → TrafficControlCatalog → Result DesignCatalog CatalogError
with_traffic_controls design controls = do
  validate_against controls design
  ok (record design { traffic_controls = controls })

unfoldable pub replace_corridors : DesignCatalog → List Corridor → Result DesignCatalog CatalogError
unfolding with_traffic_controls
replace_corridors design corridors = do
  catalog ←
      with_multimodal corridors design.junctions design.walking_areas design.sidewalks
        design.crossings design.rail_alignments
  with_traffic_controls catalog design.traffic_controls
