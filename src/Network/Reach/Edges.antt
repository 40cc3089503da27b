-- ===== src/Network/Reach/Edges.antt =====
-- `can_reach` on the edges of a graph, whatever they record besides their two ends.
use road_sim.Prelude.{ℕ, ◌<◌, ◌≡◌, sym, ap, subst, ◌↔◌, Bool, true, List, map, Memᴰ, arith}
use road_sim.Prelude.Members.{Memᴰ-map, Memᴰ-map_cases}
use road_sim.Network.Reach.{returned, can_reach, Walk, here, step}
use road_sim.Network.Reach.Correct.{can_reach_decides}

-- A walk along the edges of a list.
pub data EdgeWalk {E : Type 0} (ends : E → ℕ × ℕ) (edges : List E) (from : ℕ) : ℕ → Type 0 where
  stay : EdgeWalk ends edges from from
  follow :
      (edge : E)
      → EdgeWalk ends edges from (ends edge).0
      → Memᴰ edge edges
      → EdgeWalk ends edges from (ends edge).1

module _ {E : Type 0} (ends : E → ℕ × ℕ) (stored given : List E)
    (same : (edge : E) → Memᴰ edge stored ↔ Memᴰ edge given) where
  from_pairs : (from : ℕ) {to : ℕ} → Walk (map ends stored) from to → EdgeWalk ends given from to
  from_pairs from here = stay
  from_pairs from (step {u} {v} walk pair) =
      let (edge, m, e) = Memᴰ-map_cases ends (u, v) stored pair in
      let start = ap (λ (p : ℕ × ℕ). p.0) e in
      let end = ap (λ (p : ℕ × ℕ). p.1) e in
      let sofar = from_pairs from walk in
      subst (EdgeWalk ends given from) (sym end)
        (follow edge (subst (EdgeWalk ends given from) start sofar) ((same edge).0 m))

  to_pairs : (from : ℕ) {to : ℕ} → EdgeWalk ends given from to → Walk (map ends stored) from to
  to_pairs from stay = here
  to_pairs from (follow edge walk m) =
      step (to_pairs from walk) (Memᴰ-map ends edge stored ((same edge).1 m))

  -- `can_reach` on stored edges that lead to nodes of the graph answers for the edges given.
  pub can_reach_edges :
      (node_count from to : ℕ)
      → ((edge : E) → Memᴰ edge stored → (ends edge).1 < node_count)
      → (answer : Bool) × (can_reach node_count from to (map ends stored) ≡ returned answer)
        × ((answer ≡ true)
            ↔ ((from < node_count) × (to < node_count) × EdgeWalk ends given from to))
  can_reach_edges node_count from to inside =
      let in_range : (u v : ℕ) → Memᴰ (u, v) (map ends stored) → v < node_count = λ u v m.
        let (edge, found, e) = Memᴰ-map_cases ends (u, v) stored m in
        omega (arith, inside edge found, ap (λ (p : ℕ × ℕ). p.1) e) in
      let (answer, ends_with, decides) =
        can_reach_decides (map ends stored) node_count from to in_range in
      let walks : Walk (map ends stored) from to ↔ EdgeWalk ends given from to =
        (from_pairs from, to_pairs from) in
      (answer, ends_with, ground (arith, decides, walks))
