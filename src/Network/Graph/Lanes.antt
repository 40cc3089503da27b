-- ===== src/Network/Graph/Lanes.antt =====
-- The lane graph: what its constructor returns, whatever the order of the edges it is given.
use road_sim.Prelude.{
  ltb, length, any, ok, reject_if-eq-ok, ok_eq, ℕ, ◌≤◌, ◌<◌, ◌≡◌, refl, subst, ◌↔◌, List, Memᴰ,
  arith,
}
use road_sim.Prelude.Canonical.{
  sort_dedup, IsStrictBy, sort_dedup-IsStrictBy, Memᴰ-sort_dedup, sort_dedup-eq_of_members,
}
use road_sim.Prelude.Members.{any-false}
use road_sim.Network.Graph.{
  max_graph_nodes, max_graph_edges, LaneAdjacency, LaneGraph, too_many_nodes, too_many_edges,
  node_outside_graph, adjacency_le, adjacency_eq, lane_outside, new_lane_graph,
}
use road_sim.Network.Graph.Order.{adjacency_order}

-- What the constructor makes of a list of edges.
pub record IsLaneGraphOf (node_count : ℕ) (edges : List LaneAdjacency) (graph : LaneGraph)
    : Type 0 where
  pub count : graph.node_count ≡ node_count
  pub small : node_count ≤ max_graph_nodes
  pub strict : IsStrictBy adjacency_le adjacency_eq graph.adjacency
  pub same : (edge : LaneAdjacency) → Memᴰ edge graph.adjacency ↔ Memᴰ edge edges
  pub inside :
      (edge : LaneAdjacency)
      → Memᴰ edge graph.adjacency
      → (edge.from < node_count) × (edge.to < node_count)

-- A graph that the constructor returns has the edges it was given, each once and in order, and they
-- join nodes of the graph.
pub new_lane_graph_ok :
    (node_count : ℕ) (edges : List LaneAdjacency) (graph : LaneGraph)
    → new_lane_graph node_count edges ≡ ok graph
    → IsLaneGraphOf node_count edges graph
unfolding new_lane_graph
new_lane_graph_ok node_count edges graph h =
    let sorted = sort_dedup adjacency_le adjacency_eq edges in
    let (nodes, h1) = reject_if-eq-ok (ltb max_graph_nodes node_count) too_many_nodes _ h in
    let (_, h2) = reject_if-eq-ok (ltb max_graph_edges (length edges)) too_many_edges _ h1 in
    let (bounds, h3) =
      reject_if-eq-ok (any (lane_outside node_count) sorted) node_outside_graph _ h2 in
    subst (IsLaneGraphOf node_count edges) (ok_eq h3) (record {
      count = refl;
      small = ground arith;
      strict = sort_dedup-IsStrictBy adjacency_le adjacency_eq adjacency_order edges;
      same = λ edge. Memᴰ-sort_dedup adjacency_le adjacency_eq adjacency_order edge edges;
      inside = λ edge m.
          let within = (any-false (lane_outside node_count) sorted).0 bounds edge m in ground arith;
    })

-- Two lists of edges with the same members, both within the limit, give the same result: the order
-- of the edges and their repetition do not matter.
pub new_lane_graph_order :
    (node_count : ℕ) (xs ys : List LaneAdjacency)
    → ((edge : LaneAdjacency) → Memᴰ edge xs ↔ Memᴰ edge ys)
    → length xs ≤ max_graph_edges
    → length ys ≤ max_graph_edges
    → new_lane_graph node_count xs ≡ new_lane_graph node_count ys
unfolding new_lane_graph
new_lane_graph_order node_count xs ys same few_xs few_ys =
    let sorted = sort_dedup-eq_of_members adjacency_le adjacency_eq adjacency_order xs ys same in
    let few : ltb max_graph_edges (length xs) ≡ ltb max_graph_edges (length ys) = ground arith in
    rw (sorted, few)
