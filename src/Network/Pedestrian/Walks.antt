-- ===== src/Network/Pedestrian/Walks.antt =====
-- Reachability on a pedestrian graph that its constructor returned.
use road_sim.Prelude.{length, ok, ℕ, ◌<◌, ◌≡◌, ap, ◌↔◌, Bool, true, List, arith}
use road_sim.Network.Reach.{returned}
use road_sim.Network.Reach.Edges.{EdgeWalk, can_reach_edges}
use road_sim.Network.Pedestrian.{
  PedestrianNodeOrigin, PedestrianAdjacency, PedestrianGraph, link_ends, walking_can_reach,
  new_pedestrian_graph,
}
use road_sim.Network.Pedestrian.Graph.{new_pedestrian_graph_ok}

-- On a graph that the constructor returned, `can_reach` returns, and its answer is true exactly if
-- both nodes are of the graph and a walk along the links given to the constructor joins them.
pub walking_can_reach_decides :
    (origins : List PedestrianNodeOrigin) (links : List PedestrianAdjacency)
    (graph : PedestrianGraph) (from to : ℕ)
    → new_pedestrian_graph origins links ≡ ok graph
    → (answer : Bool) × (walking_can_reach graph from to ≡ returned answer)
      × ((answer ≡ true)
          ↔ ((from < length origins) × (to < length origins) × EdgeWalk link_ends links from to))
unfolding walking_can_reach
walking_can_reach_decides origins links graph from to h =
    let of = new_pedestrian_graph_ok origins links graph h in
    let count = ap length of.nodes in
    let (answer, ends, decides) =
      can_reach_edges link_ends graph.adjacency links of.same (length graph.origins) from to
        (λ link m. omega (arith, of.inside link m, count)) in
    (answer, ends, ground (arith, decides, count))
