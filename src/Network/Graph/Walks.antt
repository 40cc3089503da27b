-- ===== src/Network/Graph/Walks.antt =====
-- Reachability on a lane graph that its constructor returned.
use road_sim.Prelude.{ok, ℕ, ◌<◌, ◌≡◌, ◌↔◌, Bool, true, List, arith}
use road_sim.Network.Reach.{returned}
use road_sim.Network.Reach.Edges.{EdgeWalk, can_reach_edges}
use road_sim.Network.Graph.{LaneAdjacency, LaneGraph, lane_ends, lane_can_reach, new_lane_graph}
use road_sim.Network.Graph.Lanes.{new_lane_graph_ok}

-- On a graph that the constructor returned, `can_reach` returns, and its answer is true exactly if
-- both lanes are of the graph and a walk along the edges given to the constructor joins them.
pub lane_can_reach_decides :
    (node_count : ℕ) (edges : List LaneAdjacency) (graph : LaneGraph) (from to : ℕ)
    → new_lane_graph node_count edges ≡ ok graph
    → (answer : Bool) × (lane_can_reach graph from to ≡ returned answer)
      × ((answer ≡ true)
          ↔ ((from < node_count) × (to < node_count) × EdgeWalk lane_ends edges from to))
unfolding lane_can_reach
lane_can_reach_decides node_count edges graph from to h =
    let of = new_lane_graph_ok node_count edges graph h in
    let (answer, ends, decides) =
      can_reach_edges lane_ends graph.adjacency edges of.same graph.node_count from to
        (λ edge m. omega (arith, of.inside edge m, of.count)) in
    (answer, ends, ground (arith, decides, of.count))
