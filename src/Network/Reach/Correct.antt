-- ===== src/Network/Reach/Correct.antt =====
-- `can_reach`: the search answers whether a walk leads from one node to the other.
use road_sim.Prelude.{
  leb, ◌==◌, Bool-cases, ℕ, ◌<◌, ◌≡◌, refl, sym, ap, subst, ◌∙◌, ◌≢◌, ◌↔◌, inl, inr, Bool, true,
  false, ◌||◌, List, Memᴰ, arith, sort_by, IsSorted, sort_by-IsSorted,
}
use mathlib.Core.List.Memᴰ
use road_sim.Prelude.Members.{
  Memᴰ-sort_by, get_or-set_at, get_or-replicate, length-set_at, length-replicate, unset-set_at,
  unset-replicate, replicate,
}
use road_sim.Network.Reach.{edge_le, marked, returned, loop, begin, can_reach, Walk, here, step}
use road_sim.Network.Reach.Slices.{edge_le_total}
use road_sim.Network.Reach.Loop.{InRange, Inv, loop-Decides}

pub Walk-of_members :
    (xs ys : List (ℕ × ℕ)) (from : ℕ)
    → ((u v : ℕ) → Memᴰ (u, v) xs → Memᴰ (u, v) ys)
    → {v : ℕ} → Walk xs from v
    → Walk ys from v
Walk-of_members xs ys from h here = here
Walk-of_members xs ys from h (step {u} {v} walk edge) =
    step (Walk-of_members xs ys from h walk) (h u v edge)

module _ (edges : List (ℕ × ℕ)) (node_count from to : ℕ) (bound : from < node_count) where
  marked-begin : (v : ℕ) → (marked (begin node_count from) v ≡ true) ↔ (v ≡ from)
  unfolding begin
  marked-begin v = ground (
    arith,
    get_or-set_at (replicate node_count false) from v,
    length-replicate node_count false,
    get_or-replicate node_count v false,
  )

  Inv-begin : from ≢ to → Inv edges node_count from to (begin node_count from)
  unfolding begin
  Inv-begin apart = record {
    size = length-set_at (replicate node_count false) from true ∙ length-replicate node_count false;
    avoids = ground (arith, marked-begin to);
    source = (marked-begin from).1 refl;
    queued = λ v q. (marked-begin v).1 (Memᴰ.eq_of_singleton q);
    sound = λ v m. rw ((marked-begin v).0 m) here;
    closed = λ u v m e. inl (Memᴰ.head ((marked-begin u).0 m));
  }

  search_decides :
      from ≢ to
      → IsSorted edge_le edges
      → InRange edges node_count from to
      → (answer : Bool) × (loop edges to node_count (begin node_count from) ≡ returned answer)
        × ((answer ≡ true) ↔ Walk edges from to)
  unfolding begin
  search_decides apart sorted in_range =
      loop-Decides edges node_count from to sorted in_range node_count (begin node_count from)
        (Inv-begin apart)
        (omega (
          arith,
          unset-replicate node_count,
          length-replicate node_count false,
          unset-set_at (replicate node_count false) from
              (omega (arith, length-replicate node_count false))
              (get_or-replicate node_count from false),
        ))

-- On edges that lead to nodes of the graph `can_reach` returns, on one unit of fuel for each node,
-- and its answer is true exactly if both nodes are of the graph and a walk leads from one to the
-- other.
pub can_reach_decides :
    (edges : List (ℕ × ℕ)) (node_count from to : ℕ)
    → ((u v : ℕ) → Memᴰ (u, v) edges → v < node_count)
    → (answer : Bool) × (can_reach node_count from to edges ≡ returned answer)
      × ((answer ≡ true) ↔ ((from < node_count) × (to < node_count) × Walk edges from to))
unfolding can_reach
can_reach_decides edges node_count from to in_range =
    elim (Bool-cases (leb node_count from || leb node_count to)) [
      | inl e ↦ (false, ground arith, (λ f. cc, λ w. ground arith))
      | inr e ↦ elim (Bool-cases (from == to)) [
        | inl same ↦ (
          true,
          ground arith,
          (
            λ _. (ground arith, ground arith, subst (Walk edges from) (ground arith) here),
            λ _. refl,
          ),
        )
        | inr apart ↦
            let members = λ (u v : ℕ). Memᴰ-sort_by edge_le (u, v) edges in
            let (answer, ends, decides) =
              search_decides (sort_by edge_le edges) node_count from to (ground arith)
                (ground arith) (sort_by-IsSorted edge_le edge_le_total edges)
                (λ u v m. in_range u v ((members u v).0 m)) in
            (
              answer,
              ground (arith, ends),
              (
                λ t. (
                  ground arith,
                  ground arith,
                  Walk-of_members (sort_by edge_le edges) edges from (λ u v. (members u v).0)
                      (decides.0 t),
                ),
                λ w. decides.1 (
                    Walk-of_members edges (sort_by edge_le edges) from (λ u v. (members u v).1)
                      w.2),
              ),
            )
      ]
    ]

answers-eq : (a b : Bool) (P : Type 0) → ((a ≡ true) ↔ P) → ((b ≡ true) ↔ P) → a ≡ b
answers-eq true true P h k = refl
answers-eq true false P h k = ground arith
answers-eq false true P h k = ground arith
answers-eq false false P h k = refl

-- On edges that lead to nodes of the graph, neither the order of the edges nor their repetition
-- changes what `can_reach` returns.
can_reach_order :
    (xs ys : List (ℕ × ℕ)) (node_count from to : ℕ)
    → ((u v : ℕ) → Memᴰ (u, v) xs → v < node_count)
    → ((u v : ℕ) → Memᴰ (u, v) xs ↔ Memᴰ (u, v) ys)
    → can_reach node_count from to xs ≡ can_reach node_count from to ys
can_reach_order xs ys node_count from to in_range same =
    let (a, a_ends, a_decides) = can_reach_decides xs node_count from to in_range in
    let (b, b_ends, b_decides) =
      can_reach_decides ys node_count from to (λ u v m. in_range u v ((same u v).1 m)) in
    let walks : Walk xs from to ↔ Walk ys from to = (
      Walk-of_members xs ys from (λ u v. (same u v).0),
      Walk-of_members ys xs from (λ u v. (same u v).1),
    ) in
    a_ends
    ∙ ap returned (
        answers-eq a b ((from < node_count) × (to < node_count) × Walk xs from to) a_decides
          (ground (arith, b_decides, walks)))
    ∙ sym b_ends
