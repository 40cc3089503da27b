-- ===== src/Domain/Scenario.antt =====
-- crates/roadsim-domain/src/scenario.rs: demand, scenarios and experiments. `Study` models the
-- catalog that holds them.
use road_sim.Prelude.{
  ℕ, Bool, true, false, not, ◌||◌, List, [], ◌∷◌, map, Result, ok, ◌>>◌, reject_if, reject_some,
  Option, none, some, ltb, leb, ◌==◌, if◌then◌else◌, is_empty, any_adjacent, sort_by_key,
}
use road_sim.Types.Ids.{ObjectKind, ObjectRef, object_ref}
use road_sim.Types.Fault.{Fault, fault}
use road_sim.Types.Units.{DurationSeconds, FlowRatePerHour}
use road_sim.Domain.Multimodal.{duplicate_object_ref}

pub data ScenarioErrorCode : Type 0 where
  empty_references duplicate_reference duplicate_entity same_endpoint : ScenarioErrorCode
  incompatible_endpoint invalid_interval overlapping_intervals zero_flow_rate : ScenarioErrorCode
  zero_duration zero_step zero_sampling_interval warmup_outside_duration : ScenarioErrorCode
  sampling_faster_than_step dangling_demand_endpoint dangling_demand_profile : ScenarioErrorCode
  dangling_scenario : ScenarioErrorCode

abbrev pub ScenarioError : Type 0
ScenarioError = Fault ScenarioErrorCode

pub data DemandMode : Type 0 where
  car bus pedestrian tram : DemandMode

pub data DemandEndpoint : Type 0 where
  corridor walking_area rail_alignment : ℕ → DemandEndpoint

abbrev pub endpoint_ref : DemandEndpoint → ObjectRef
endpoint_ref (corridor id) = object_ref ObjectKind.corridor id
endpoint_ref (walking_area id) = object_ref ObjectKind.walking_area id
endpoint_ref (rail_alignment id) = object_ref ObjectKind.rail_alignment id

unfoldable pub accepts : DemandEndpoint → DemandMode → Bool
accepts (corridor id) car = true
accepts (corridor id) bus = true
accepts (walking_area id) pedestrian = true
accepts (rail_alignment id) tram = true
accepts _ _ = false

unfoldable pub endpoint_eq : DemandEndpoint → DemandEndpoint → Bool
endpoint_eq (corridor a) (corridor b) = a == b
endpoint_eq (walking_area a) (walking_area b) = a == b
endpoint_eq (rail_alignment a) (rail_alignment b) = a == b
endpoint_eq _ _ = false

pub record DemandInterval : Type 0 where
  pub start_s : DurationSeconds
  pub end_s : DurationSeconds
  pub flow_per_hour : FlowRatePerHour

-- The constructors take the fields, given as a record; the lists in it come back in order.
unfoldable pub new_interval : DemandInterval → Result DemandInterval ScenarioError
new_interval i = do
  reject_if (leb i.end_s i.start_s) (fault ScenarioErrorCode.invalid_interval [])
  reject_if (i.flow_per_hour == 0) (fault ScenarioErrorCode.zero_flow_rate [])
  ok i

pub record DemandFlow : Type 0 where
  pub id : ℕ
  pub mode : DemandMode
  pub origin : DemandEndpoint
  pub destination : DemandEndpoint
  pub intervals : List DemandInterval

abbrev pub start_key : DemandInterval → ℕ
start_key i = i.start_s

-- The later of two neighbours starts before the earlier ends.
abbrev pub overlaps : DemandInterval → DemandInterval → Bool
overlaps a b = ltb b.start_s a.end_s

unfoldable pub new_flow : DemandFlow → Result DemandFlow ScenarioError
unfolding accepts endpoint_eq sort_by_key
new_flow f = do
  let owner = object_ref ObjectKind.demand_flow f.id
  reject_if (endpoint_eq f.origin f.destination)
      (fault ScenarioErrorCode.same_endpoint (owner ∷ endpoint_ref f.origin ∷ []))
  reject_if (not (accepts f.origin f.mode) || not (accepts f.destination f.mode)) (
      fault ScenarioErrorCode.incompatible_endpoint
        (owner ∷ endpoint_ref f.origin ∷ endpoint_ref f.destination ∷ []))
  reject_if (is_empty f.intervals) (fault ScenarioErrorCode.empty_references (owner ∷ []))
  let intervals = sort_by_key start_key f.intervals
  reject_if (any_adjacent overlaps intervals)
      (fault ScenarioErrorCode.overlapping_intervals (owner ∷ []))
  ok (record f { intervals = intervals })

pub record DemandProfile : Type 0 where
  pub id : ℕ
  pub flows : List DemandFlow

abbrev pub flow_key : DemandFlow → ℕ
flow_key f = f.id

unfoldable pub new_profile : DemandProfile → Result DemandProfile ScenarioError
unfolding sort_by_key duplicate_object_ref
new_profile p = do
  reject_if (is_empty p.flows)
      (fault ScenarioErrorCode.empty_references (object_ref ObjectKind.demand_profile p.id ∷ []))
  let flows = sort_by_key flow_key p.flows
  reject_some (λ duplicate. fault ScenarioErrorCode.duplicate_entity (duplicate ∷ []))
      (duplicate_object_ref ObjectKind.demand_flow (map flow_key flows))
  ok (record p { flows = flows })

pub record ScenarioTiming : Type 0 where
  pub warmup_s : DurationSeconds
  pub duration_s : DurationSeconds
  pub step_s : DurationSeconds
  pub output_sampling_s : DurationSeconds

timing_error : ScenarioTiming → Option ScenarioErrorCode
timing_error t =
    if t.duration_s == 0
    then some ScenarioErrorCode.zero_duration
    else if t.step_s == 0
    then some ScenarioErrorCode.zero_step
    else if t.output_sampling_s == 0
    then some ScenarioErrorCode.zero_sampling_interval
    else if leb t.duration_s t.warmup_s
    then some ScenarioErrorCode.warmup_outside_duration
    else if ltb t.output_sampling_s t.step_s
    then some ScenarioErrorCode.sampling_faster_than_step
    else none

unfoldable pub new_timing : ScenarioTiming → Result ScenarioTiming ScenarioError
unfolding timing_error
new_timing t = do reject_some (λ code. fault code []) (timing_error t); ok t

pub record Scenario : Type 0 where
  pub id : ℕ
  pub demand_profile_id : ℕ
  pub timing : ScenarioTiming
  pub root_seed : ℕ

pub record Experiment : Type 0 where
  pub id : ℕ
  pub scenario_ids : List ℕ
  pub replication_seeds : List ℕ

abbrev pub ascending : List ℕ → List ℕ
ascending = sort_by_key (λ n. n)

unfoldable pub new_experiment : Experiment → Result Experiment ScenarioError
unfolding sort_by_key
new_experiment e = do
  let owner = object_ref ObjectKind.experiment e.id
  reject_if (is_empty e.scenario_ids || is_empty e.replication_seeds)
      (fault ScenarioErrorCode.empty_references (owner ∷ []))
  let scenario_ids = ascending e.scenario_ids
  reject_if (any_adjacent (λ a b. a == b) scenario_ids)
      (fault ScenarioErrorCode.duplicate_reference (owner ∷ []))
  let replication_seeds = ascending e.replication_seeds
  reject_if (any_adjacent (λ a b. a == b) replication_seeds)
      (fault ScenarioErrorCode.duplicate_reference (owner ∷ []))
  ok (record e { scenario_ids = scenario_ids; replication_seeds = replication_seeds })
