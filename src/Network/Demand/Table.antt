-- ===== src/Network/Demand/Table.antt =====
-- The demand table: what its constructor guarantees of the flows.
use road_sim.Prelude.{
  ltb, ◌==◌, length, is_empty, any_adjacent, ok, reject_if, for_each, >>-eq-ok, reject_if-eq-ok,
  ok_eq, ℕ, ◌<◌, ◌≡◌, refl, sym, ap, subst, ◌≢◌, ◌↔◌, inl, inr, false, List, [], ◌∷◌, Memᴰ, arith,
  sort_by_key, sort_by-IsSorted, key_le, key_le_total,
}
use mathlib.Core.List.Memᴰ
use road_sim.Prelude.Members.{Memᴰ-sort_by}
use road_sim.Prelude.Keyed.{IsStrict, IsStrict-of_any_adjacent}
use road_sim.Network.Graph.{max_graph_edges}
use road_sim.Network.Demand.{
  CompiledDemandFlow, CompiledDemandTable, limit_exceeded, duplicate_flow, lane_outside_table,
  degenerate_flow, flow_without_intervals, flow_id, flow_outside, check_flow, new_demand_table,
}

-- A flow from one lane of the network to another, at some time.
abbrev pub IsRoutable : ℕ → CompiledDemandFlow → Type 0
IsRoutable lane_count flow =
    (flow.origin_lane < lane_count)
    × (flow.destination_lane < lane_count)
    × (flow.origin_lane ≢ flow.destination_lane)
    × (flow.intervals ≢ [])

check_flow-IsRoutable :
    (lane_count : ℕ) (flow : CompiledDemandFlow)
    → check_flow lane_count flow ≡ ok tt
    → IsRoutable lane_count flow
unfolding check_flow
check_flow-IsRoutable lane_count flow h =
    let (inside, h1) = reject_if-eq-ok (flow_outside lane_count flow) lane_outside_table _ h in
    let (apart, h2) =
      reject_if-eq-ok (flow.origin_lane == flow.destination_lane) degenerate_flow _ h1 in
    (ground arith, ground arith, ground arith, λ e. cc (ap is_empty e, no_rest flow.intervals h2))
  where
    no_rest :
        {A : Type 0} (l : List A)
        → reject_if (is_empty l) flow_without_intervals ≡ ok tt
        → is_empty l ≡ false
    no_rest [] h = cc
    no_rest (x ∷ l) h = refl

for_each-ok :
    (lane_count : ℕ) (flows : List CompiledDemandFlow)
    → for_each (check_flow lane_count) flows ≡ ok tt
    → (flow : CompiledDemandFlow) → Memᴰ flow flows
    → IsRoutable lane_count flow
for_each-ok lane_count [] h flow m = absurd (Memᴰ.not-nil m)
for_each-ok lane_count (f ∷ flows) h flow m =
    let (first, rest) = >>-eq-ok (check_flow lane_count f) _ h in
    elim (Memᴰ.cases_cons m) [
      | inl e ↦ subst (IsRoutable lane_count) (sym e) (check_flow-IsRoutable lane_count f first)
      | inr later ↦ for_each-ok lane_count flows rest flow later
    ]

-- A demand table that the constructor returns has the flows it was given in strict order of their
-- identifiers, and each leads from one lane of the network to another and has an interval.
pub new_demand_table_ok :
    (profile lane_count : ℕ) (flows : List CompiledDemandFlow) (table : CompiledDemandTable)
    → new_demand_table profile lane_count flows ≡ ok table
    → IsStrict flow_id table.flows
      × ((flow : CompiledDemandFlow) → Memᴰ flow table.flows ↔ Memᴰ flow flows)
      × ((flow : CompiledDemandFlow) → Memᴰ flow flows → IsRoutable lane_count flow)
unfolding new_demand_table sort_by_key
new_demand_table_ok profile lane_count flows table h =
    let sorted = sort_by_key flow_id flows in
    let (_, h1) = reject_if-eq-ok (ltb max_graph_edges (length flows)) limit_exceeded _ h in
    let (apart, h2) =
      reject_if-eq-ok (any_adjacent (λ a b. flow_id a == flow_id b) sorted) duplicate_flow _ h1 in
    let (checked, h3) = >>-eq-ok (for_each (check_flow lane_count) sorted) _ h2 in
    let same : sorted ≡ table.flows = ap (λ (t : CompiledDemandTable). t.flows) (ok_eq h3) in
    let members = λ (flow : CompiledDemandFlow). Memᴰ-sort_by (key_le flow_id) flow flows in
    (
      subst (IsStrict flow_id) same (
          IsStrict-of_any_adjacent flow_id sorted
            (sort_by-IsSorted (key_le flow_id) (key_le_total flow_id) flows) apart),
      λ flow. subst (λ l. Memᴰ flow l ↔ Memᴰ flow flows) same (members flow),
      λ flow m. for_each-ok lane_count sorted checked flow ((members flow).1 m),
    )
