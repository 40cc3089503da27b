-- ===== src/Network/Pedestrian.antt =====
-- crates/roadsim-compiled-network/src/lib.rs: the pedestrian graph, whose nodes stand for walking
-- areas and sidewalks.
pub mod Order
pub mod Graph
pub mod Walks
use road_sim.Prelude.{
  ltb, leb, ◌==◌, if◌then◌else◌, ltb→lt, lt→ltb, ==_iff, ==-refl, <→==-false, Bool-cases,
  Option-cases, length, length-append, is_empty, any, all, first_adjacent, any_adjacent, contains,
  or_else, is_some, Result, ok, err, reject_if, reject_some, ok_or, map_err, ◌>>=◌, ◌>>◌, for_each,
  Result-cases, >>=-eq-ok, >>-eq-ok, map_err-eq-ok, reject_if-eq-ok, reject_some-eq-ok, ok_eq, ℕ,
  zero, suc, ◌+◌, ◌-◌, ◌*◌, ◌/◌, ◌%◌, ◌^◌, ◌≤◌, ◌<◌, ◌≡◌, refl, sym, ap, ap₂, subst, ◌∙◌, ◌≢◌, ◌↔◌,
  ◌⊎◌, inl, inr, Bool, true, false, not, ◌&&◌, ◌||◌, Option, none, some, List, [], ◌∷◌, ◌++◌, map,
  Memᴰ, arith, insert_by, sort_by, sort_by_key, IsSorted, IsTotal, sort_by-IsSorted, key_le,
  key_le_total,
}
use road_sim.Prelude.Canonical.{sort_dedup}
use road_sim.Network.Reach.{Outcome, can_reach}
use road_sim.Network.Graph.{
  max_graph_nodes, max_graph_edges, GraphErrorCode, too_many_nodes, too_many_edges,
  duplicate_origin, node_outside_graph,
}

pub data PedestrianNodeOrigin : Type 0 where
  walking_area sidewalk : ℕ → PedestrianNodeOrigin

-- The derived order: walking areas first, then by identifier.
unfoldable pub origin_le : PedestrianNodeOrigin → PedestrianNodeOrigin → Bool
origin_le (walking_area a) (walking_area b) = leb a b
origin_le (walking_area a) (sidewalk b) = true
origin_le (sidewalk a) (walking_area b) = false
origin_le (sidewalk a) (sidewalk b) = leb a b

unfoldable pub origin_eq : PedestrianNodeOrigin → PedestrianNodeOrigin → Bool
origin_eq (walking_area a) (walking_area b) = a == b
origin_eq (sidewalk a) (sidewalk b) = a == b
origin_eq a b = false

pub record PedestrianAdjacency : Type 0 where
  pub from : ℕ
  pub to : ℕ
  pub crossing_id : ℕ

unfoldable pub link_le : PedestrianAdjacency → PedestrianAdjacency → Bool
link_le a b =
    ltb a.from b.from
    || ((a.from == b.from)
        && (ltb a.to b.to || ((a.to == b.to) && leb a.crossing_id b.crossing_id)))

unfoldable pub link_eq : PedestrianAdjacency → PedestrianAdjacency → Bool
link_eq a b = (a.from == b.from) && ((a.to == b.to) && (a.crossing_id == b.crossing_id))

pub record PedestrianGraph : Type 0 where
  pub origins : List PedestrianNodeOrigin
  pub adjacency : List PedestrianAdjacency

abbrev pub link_outside : ℕ → PedestrianAdjacency → Bool
link_outside node_count link = leb node_count link.from || leb node_count link.to

unfoldable pub new_pedestrian_graph :
    List PedestrianNodeOrigin → List PedestrianAdjacency → Result PedestrianGraph GraphErrorCode
unfolding sort_dedup origin_le origin_eq link_le link_eq
new_pedestrian_graph origins adjacency = do
  reject_if (ltb max_graph_nodes (length origins)) too_many_nodes
  reject_if (ltb max_graph_edges (length adjacency)) too_many_edges
  let unique_origins = sort_dedup origin_le origin_eq origins
  reject_if (not (length unique_origins == length origins)) duplicate_origin
  let sorted = sort_dedup link_le link_eq adjacency
  reject_if (any (link_outside (length origins)) sorted) node_outside_graph
  ok (record { origins = origins; adjacency = sorted })

-- `position`, counted from an index on.
abbrev pub position_from {ℓ} : {A : Type ℓ} → (A → Bool) → ℕ → List A → Option ℕ
position_from p index [] = none
position_from p index (x ∷ xs) = if p x then some index else position_from p (suc index) xs

-- `PedestrianGraph::node_for_walking_area`
unfoldable pub node_for_walking_area : PedestrianGraph → ℕ → Option ℕ
unfolding origin_eq
node_for_walking_area graph id = position_from (λ o. origin_eq o (walking_area id)) 0 graph.origins

abbrev pub link_ends : PedestrianAdjacency → ℕ × ℕ
link_ends link = (link.from, link.to)

-- `PedestrianGraph::can_reach`
unfoldable pub walking_can_reach : PedestrianGraph → ℕ → ℕ → Outcome
unfolding can_reach
walking_can_reach graph from to =
    can_reach (length graph.origins) from to (map link_ends graph.adjacency)
