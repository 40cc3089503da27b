-- ===== src/Network/Pedestrian/Graph.antt =====
-- The pedestrian graph: what its constructor guarantees of nodes and links, and the node of a
-- walking area.
use road_sim.Prelude.{
  ltb, ◌==◌, Bool-cases, Option-cases, length, any, ok, reject_if-eq-ok, ok_eq, ℕ, suc, ◌+◌, ◌<◌,
  ◌≡◌, refl, sym, ap, subst, ◌∙◌, ◌↔◌, inl, inr, Bool, true, false, not, none, some, List, [], ◌∷◌,
  Memᴰ, arith,
}
use road_sim.Prelude.Canonical.{sort_dedup, IsStrictBy, sort_dedup-IsStrictBy, Memᴰ-sort_dedup}
use road_sim.Prelude.Members.{any-false, get_elem?, get_elem?-mem, some-eq}
use road_sim.Prelude.Distinct.{positions-eq}
use road_sim.Network.Graph.{
  max_graph_nodes, max_graph_edges, too_many_nodes, too_many_edges, duplicate_origin,
  node_outside_graph,
}
use road_sim.Network.Pedestrian.{
  PedestrianNodeOrigin, walking_area, origin_le, origin_eq, PedestrianAdjacency, link_le, link_eq,
  PedestrianGraph, link_outside, new_pedestrian_graph, position_from, node_for_walking_area,
}
use road_sim.Network.Pedestrian.Order.{origin_eq_iff, origin_order, link_order}

pub record IsPedestrianGraphOf (origins : List PedestrianNodeOrigin)
    (links : List PedestrianAdjacency) (graph : PedestrianGraph) : Type 0 where
  pub nodes : graph.origins ≡ origins
  pub distinct :
      (i j : ℕ) (o : PedestrianNodeOrigin)
      → get_elem? origins i ≡ some o
      → get_elem? origins j ≡ some o
      → i ≡ j
  pub strict : IsStrictBy link_le link_eq graph.adjacency
  pub same : (link : PedestrianAdjacency) → Memᴰ link graph.adjacency ↔ Memᴰ link links
  pub inside :
      (link : PedestrianAdjacency)
      → Memᴰ link graph.adjacency
      → (link.from < length origins) × (link.to < length origins)

pub new_pedestrian_graph_ok :
    (origins : List PedestrianNodeOrigin) (links : List PedestrianAdjacency)
    (graph : PedestrianGraph)
    → new_pedestrian_graph origins links ≡ ok graph
    → IsPedestrianGraphOf origins links graph
unfolding new_pedestrian_graph
new_pedestrian_graph_ok origins links graph h =
    let sorted = sort_dedup link_le link_eq links in
    let unique = sort_dedup origin_le origin_eq origins in
    let (_, h1) = reject_if-eq-ok (ltb max_graph_nodes (length origins)) too_many_nodes _ h in
    let (_, h2) = reject_if-eq-ok (ltb max_graph_edges (length links)) too_many_edges _ h1 in
    let (full, h3) =
      reject_if-eq-ok (not (length unique == length origins)) duplicate_origin _ h2 in
    let (bounds, h4) =
      reject_if-eq-ok (any (link_outside (length origins)) sorted) node_outside_graph _ h3 in
    subst (IsPedestrianGraphOf origins links) (ok_eq h4) (record {
      nodes = refl;
      distinct =
          λ i j o. positions-eq origin_le origin_eq origin_order origins i j o (ground arith);
      strict = sort_dedup-IsStrictBy link_le link_eq link_order links;
      same = λ link. Memᴰ-sort_dedup link_le link_eq link_order link links;
      inside = λ link m.
          let within = (any-false (link_outside (length origins)) sorted).0 bounds link m in
          ground arith;
    })

position_from-some :
    (p : PedestrianNodeOrigin → Bool) (index : ℕ) (l : List PedestrianNodeOrigin) (i : ℕ)
    → position_from p index l ≡ some i
    → (k : ℕ) × (i ≡ index + k)
      × (o : PedestrianNodeOrigin) × (get_elem? l k ≡ some o)
      × (p o ≡ true)
position_from-some p index [] i h = cc
position_from-some p index (x ∷ l) i h = elim (Bool-cases (p x)) [
  | inl e ↦
      let here : some index ≡ some i = ground arith in (0, omega (arith, some-eq here), x, refl, e)
  | inr e ↦
      let (k, at, o, found, t) = position_from-some p (suc index) l i (ground arith) in
      (suc k, omega (arith, at), o, found, t)
]

position_from-none :
    (p : PedestrianNodeOrigin → Bool) (index : ℕ) (l : List PedestrianNodeOrigin)
    → position_from p index l ≡ none
    → (o : PedestrianNodeOrigin) → Memᴰ o l
    → p o ≡ false
position_from-none p index l h = (any-false p l).0 (unmatched index l h)
  where
    unmatched :
        (index : ℕ) (l : List PedestrianNodeOrigin)
        → position_from p index l ≡ none
        → any p l ≡ false
    unmatched index [] h = refl
    unmatched index (x ∷ l) h = ground (arith, unmatched (suc index) l)

-- On a graph that the constructor returned, `node_for_walking_area` gives exactly the one node whose
-- origin is the walking area, and nothing if no node has it.
pub node_for_walking_area_iff :
    (origins : List PedestrianNodeOrigin) (links : List PedestrianAdjacency)
    (graph : PedestrianGraph) (id node : ℕ)
    → new_pedestrian_graph origins links ≡ ok graph
    → (node_for_walking_area graph id ≡ some node)
      ↔ (get_elem? origins node ≡ some (walking_area id))
unfolding node_for_walking_area
node_for_walking_area_iff origins links graph id node h = (found, back)
  where
    of : IsPedestrianGraphOf origins links graph
    of = new_pedestrian_graph_ok origins links graph h

    p : PedestrianNodeOrigin → Bool
    p = λ o. origin_eq o (walking_area id)

    at :
        (i : ℕ)
        → position_from p 0 graph.origins ≡ some i
        → get_elem? origins i ≡ some (walking_area id)
    at i e =
        let (k, same, o, stored, t) = position_from-some p 0 graph.origins i e in
        let index : k ≡ i = omega (arith, same) in
        subst (λ n. get_elem? origins n ≡ some (walking_area id)) index
          (ap (λ l. get_elem? l k) (sym of.nodes)
            ∙ stored
            ∙ ap some ((origin_eq_iff o (walking_area id)).0 t))

    found :
        position_from p 0 graph.origins ≡ some node
        → get_elem? origins node ≡ some (walking_area id)
    found = at node

    back :
        get_elem? origins node ≡ some (walking_area id)
        → position_from p 0 graph.origins ≡ some node
    back e = elim (Option-cases (position_from p 0 graph.origins)) [
      | inl absent ↦
          let missing = position_from-none p 0 graph.origins absent (walking_area id) (
            get_elem?-mem graph.origins node (walking_area id)
              (ap (λ l. get_elem? l node) of.nodes ∙ e)) in
          absurd (cc (missing, (origin_eq_iff (walking_area id) (walking_area id)).1 refl))
      | inr (i, present) ↦ present ∙ ap some (of.distinct i node (walking_area id) (at i present) e)
    ]
