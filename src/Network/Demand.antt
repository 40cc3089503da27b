-- ===== src/Network/Demand.antt =====
-- crates/roadsim-compiled-network/src/lib.rs: the compiled demand of a profile.
pub mod Table
use road_sim.Prelude.{
  ltb, leb, ◌==◌, if◌then◌else◌, ltb→lt, lt→ltb, ==_iff, ==-refl, <→==-false, Bool-cases,
  Option-cases, length, length-append, is_empty, any, all, first_adjacent, any_adjacent, contains,
  or_else, is_some, Result, ok, err, reject_if, reject_some, ok_or, map_err, ◌>>=◌, ◌>>◌, for_each,
  Result-cases, >>=-eq-ok, >>-eq-ok, map_err-eq-ok, reject_if-eq-ok, reject_some-eq-ok, ok_eq, ℕ,
  zero, suc, ◌+◌, ◌-◌, ◌*◌, ◌/◌, ◌%◌, ◌^◌, ◌≤◌, ◌<◌, ◌≡◌, refl, sym, ap, ap₂, subst, ◌∙◌, ◌≢◌, ◌↔◌,
  ◌⊎◌, inl, inr, Bool, true, false, not, ◌&&◌, ◌||◌, Option, none, some, List, [], ◌∷◌, ◌++◌, map,
  Memᴰ, arith, insert_by, sort_by, sort_by_key, IsSorted, IsTotal, sort_by-IsSorted, key_le,
  key_le_total,
}
use road_sim.Types.Units.{is_finite, is_zero, is_negative}
use road_sim.Types.Order.{f64_lt}
use road_sim.Network.Graph.{max_graph_edges}

abbrev pub compiled_demand_schema_version : ℕ
compiled_demand_schema_version = 1

pub data CompiledDemandMode : Type 0 where
  car bus : CompiledDemandMode

pub record CompiledDemandInterval : Type 0 where
  pub start_s : ℕ
  pub end_s : ℕ
  pub flow_per_hour : ℕ

abbrev pub interval_invalid : ℕ → ℕ → ℕ → Bool
interval_invalid start end flow =
    not (is_finite start && (is_finite end && is_finite flow))
    || (is_negative start || (not (f64_lt start end) || (is_negative flow || is_zero flow)))

-- `CompiledDemandInterval::new`
unfoldable pub new_demand_interval : ℕ → ℕ → ℕ → Option CompiledDemandInterval
unfolding f64_lt
new_demand_interval start end flow =
    if interval_invalid start end flow
    then none
    else some (record { start_s = start; end_s = end; flow_per_hour = flow })

pub record CompiledDemandFlow : Type 0 where
  pub demand_flow_id : ℕ
  pub mode : CompiledDemandMode
  pub origin_lane : ℕ
  pub destination_lane : ℕ
  pub intervals : List CompiledDemandInterval

pub record CompiledDemandTable : Type 0 where
  pub schema_version : ℕ
  pub demand_profile_id : ℕ
  pub lane_count : ℕ
  pub flows : List CompiledDemandFlow

pub data DemandTableErrorCode : Type 0 where
  limit_exceeded duplicate_flow lane_outside_table degenerate_flow : DemandTableErrorCode
  flow_without_intervals : DemandTableErrorCode

abbrev pub flow_id : CompiledDemandFlow → ℕ
flow_id flow = flow.demand_flow_id

abbrev pub flow_outside : ℕ → CompiledDemandFlow → Bool
flow_outside lane_count flow =
    leb lane_count flow.origin_lane || leb lane_count flow.destination_lane

-- The body of the loop over the flows.
unfoldable pub check_flow : ℕ → CompiledDemandFlow → Result (Unit {0}) DemandTableErrorCode
check_flow lane_count flow = do
  reject_if (flow_outside lane_count flow) lane_outside_table
  reject_if (flow.origin_lane == flow.destination_lane) degenerate_flow
  reject_if (is_empty flow.intervals) flow_without_intervals

unfoldable pub new_demand_table :
    ℕ → ℕ → List CompiledDemandFlow → Result CompiledDemandTable DemandTableErrorCode
unfolding sort_by_key check_flow
new_demand_table demand_profile_id lane_count flows = do
  reject_if (ltb max_graph_edges (length flows)) limit_exceeded
  let sorted = sort_by_key flow_id flows
  reject_if (any_adjacent (λ a b. flow_id a == flow_id b) sorted) duplicate_flow
  for_each (check_flow lane_count) sorted
  ok (record {
    schema_version = compiled_demand_schema_version;
    demand_profile_id = demand_profile_id;
    lane_count = lane_count;
    flows = sorted;
  })
