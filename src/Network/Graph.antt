-- ===== src/Network/Graph.antt =====
-- crates/roadsim-compiled-network/src/lib.rs: the lane graph, with compact indices as numbers.
pub mod Order
pub mod Lanes
pub mod Walks
use road_sim.Prelude.{
  ltb, leb, ◌==◌, if◌then◌else◌, ltb→lt, lt→ltb, ==_iff, ==-refl, <→==-false, Bool-cases,
  Option-cases, length, length-append, is_empty, any, all, first_adjacent, any_adjacent, contains,
  or_else, is_some, Result, ok, err, reject_if, reject_some, ok_or, map_err, ◌>>=◌, ◌>>◌, for_each,
  Result-cases, >>=-eq-ok, >>-eq-ok, map_err-eq-ok, reject_if-eq-ok, reject_some-eq-ok, ℕ, zero,
  suc, ◌+◌, ◌-◌, ◌*◌, ◌/◌, ◌%◌, ◌^◌, ◌≤◌, ◌<◌, ◌≡◌, refl, sym, ap, ap₂, subst, ◌∙◌, ◌≢◌, ◌↔◌, ◌⊎◌,
  inl, inr, Bool, true, false, not, ◌&&◌, ◌||◌, Option, none, some, List, [], ◌∷◌, ◌++◌, map, Memᴰ,
  arith, insert_by, sort_by, sort_by_key, IsSorted, IsTotal, sort_by-IsSorted, key_le, key_le_total,
}
use road_sim.Prelude.Canonical.{sort_dedup}
use road_sim.Network.Reach.{Outcome, can_reach}

abbrev pub max_graph_nodes : ℕ
max_graph_nodes = 1000000

abbrev pub max_graph_edges : ℕ
max_graph_edges = 4000000

pub record LaneAdjacency : Type 0 where
  pub from : ℕ
  pub to : ℕ
  pub junction_id : ℕ

-- The derived order: by origin, target and junction.
unfoldable pub adjacency_le : LaneAdjacency → LaneAdjacency → Bool
adjacency_le a b =
    ltb a.from b.from
    || ((a.from == b.from)
        && (ltb a.to b.to || ((a.to == b.to) && leb a.junction_id b.junction_id)))

unfoldable pub adjacency_eq : LaneAdjacency → LaneAdjacency → Bool
adjacency_eq a b = (a.from == b.from) && ((a.to == b.to) && (a.junction_id == b.junction_id))

pub record LaneGraph : Type 0 where
  pub node_count : ℕ
  pub adjacency : List LaneAdjacency

pub data GraphErrorCode : Type 0 where
  too_many_nodes too_many_edges duplicate_origin node_outside_graph : GraphErrorCode

abbrev pub lane_outside : ℕ → LaneAdjacency → Bool
lane_outside node_count edge = leb node_count edge.from || leb node_count edge.to

unfoldable pub new_lane_graph : ℕ → List LaneAdjacency → Result LaneGraph GraphErrorCode
unfolding sort_dedup adjacency_le adjacency_eq
new_lane_graph node_count adjacency = do
  reject_if (ltb max_graph_nodes node_count) too_many_nodes
  reject_if (ltb max_graph_edges (length adjacency)) too_many_edges
  let sorted = sort_dedup adjacency_le adjacency_eq adjacency
  reject_if (any (lane_outside node_count) sorted) node_outside_graph
  ok (record { node_count = node_count; adjacency = sorted })

abbrev pub lane_ends : LaneAdjacency → ℕ × ℕ
lane_ends edge = (edge.from, edge.to)

-- `LaneGraph::can_reach`
unfoldable pub lane_can_reach : LaneGraph → ℕ → ℕ → Outcome
unfolding can_reach
lane_can_reach graph from to = can_reach graph.node_count from to (map lane_ends graph.adjacency)
