-- ===== src/Domain/Study.antt =====
-- crates/roadsim-domain/src/scenario.rs: `StudyCatalog`.
use road_sim.Prelude.{
  ℕ, Bool, not, List, [], ◌∷◌, map, flat_map, Option, Result, ok, ◌>>◌, reject_if, reject_some,
  for_each, contains, or_else, is_some, sort_by_key,
}
use road_sim.Types.Ids.{ObjectKind, ObjectRef, object_ref}
use road_sim.Types.Fault.{fault}
use road_sim.Domain.Multimodal.{duplicate_object_ref}
use road_sim.Domain.Catalog
use road_sim.Domain.Catalog.{DesignCatalog, area_key, rail_key}
use road_sim.Domain.Scenario.{
  ScenarioErrorCode, ScenarioError, DemandEndpoint, endpoint_ref, DemandFlow, DemandProfile,
  Scenario, Experiment, flow_key,
}

pub record StudyCatalog : Type 0 where
  pub demand_profiles : List DemandProfile
  pub scenarios : List Scenario
  pub experiments : List Experiment

abbrev pub empty : StudyCatalog
empty = record { demand_profiles = []; scenarios = []; experiments = [] }

abbrev pub profile_key : DemandProfile → ℕ
profile_key p = p.id

abbrev pub scenario_key : Scenario → ℕ
scenario_key s = s.id

abbrev pub experiment_key : Experiment → ℕ
experiment_key e = e.id

unfoldable pub first_duplicate : StudyCatalog → Option ObjectRef
unfolding duplicate_object_ref
first_duplicate c =
    or_else (duplicate_object_ref ObjectKind.demand_profile (map profile_key c.demand_profiles)) (
      or_else (duplicate_object_ref ObjectKind.scenario (map scenario_key c.scenarios)) (
        or_else (duplicate_object_ref ObjectKind.experiment (map experiment_key c.experiments)) (
          duplicate_object_ref ObjectKind.demand_flow
            (flat_map (λ p. map flow_key p.flows) c.demand_profiles))))

-- The arguments are the lists of a catalog.
unfoldable pub new : StudyCatalog → Result StudyCatalog ScenarioError
unfolding first_duplicate sort_by_key
new given = do
  let catalog = record given {
    demand_profiles = sort_by_key profile_key given.demand_profiles;
    scenarios = sort_by_key scenario_key given.scenarios;
    experiments = sort_by_key experiment_key given.experiments;
  }
  reject_some (λ duplicate. fault ScenarioErrorCode.duplicate_entity (duplicate ∷ []))
      (first_duplicate catalog)
  ok catalog

unfoldable pub exists : DesignCatalog → DemandEndpoint → Bool
exists design (DemandEndpoint.corridor id) = is_some (Catalog.corridor design id)
exists design (DemandEndpoint.walking_area id) = contains (map area_key design.walking_areas) id
exists design (DemandEndpoint.rail_alignment id) = contains (map rail_key design.rail_alignments) id

abbrev pub Check : Type 0
Check = Result (Unit {0}) ScenarioError

unfoldable pub check_endpoint : DesignCatalog → DemandFlow → DemandEndpoint → Check
unfolding exists
check_endpoint design flow endpoint = reject_if (not (exists design endpoint)) (
    fault ScenarioErrorCode.dangling_demand_endpoint
      (object_ref ObjectKind.demand_flow flow.id ∷ endpoint_ref endpoint ∷ []))

abbrev pub check_flow : DesignCatalog → DemandFlow → Check
check_flow design flow = for_each (check_endpoint design flow) (flow.origin ∷ flow.destination ∷ [])

unfoldable pub check_scenario : List ℕ → Scenario → Check
check_scenario profile_ids s = reject_if (not (contains profile_ids s.demand_profile_id)) (
    fault ScenarioErrorCode.dangling_demand_profile (
      object_ref ObjectKind.scenario s.id
      ∷ object_ref ObjectKind.demand_profile s.demand_profile_id
      ∷ []))

unfoldable pub check_experiment : List ℕ → Experiment → Check
check_experiment scenario_ids e =
    for_each
      (λ id. reject_if (not (contains scenario_ids id)) (
        fault ScenarioErrorCode.dangling_scenario
          (object_ref ObjectKind.experiment e.id ∷ object_ref ObjectKind.scenario id ∷ [])))
      e.scenario_ids

unfoldable pub validate_against : StudyCatalog → DesignCatalog → Check
validate_against study design = do
  for_each (λ p. for_each (check_flow design) p.flows) study.demand_profiles
  for_each (check_scenario (map profile_key study.demand_profiles)) study.scenarios
  for_each (check_experiment (map scenario_key study.scenarios)) study.experiments
