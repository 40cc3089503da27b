-- ===== src/Network/Graph/Order.antt =====
-- The order of the edges of the lane graph is a total order.
use road_sim.Prelude.{◌≡◌, subst, ◌↔◌, true, arith}
use road_sim.Prelude.Canonical.{IsOrder}
use road_sim.Network.Graph.{LaneAdjacency, adjacency_le, adjacency_eq}

adjacency-eq :
    (a b : LaneAdjacency) → a.from ≡ b.from → a.to ≡ b.to → a.junction_id ≡ b.junction_id → a ≡ b
adjacency-eq a b e f g = λ i. record { from = e i; to = f i; junction_id = g i }

adjacency_antisym :
    (a b : LaneAdjacency) → adjacency_le a b ≡ true → adjacency_le b a ≡ true → a ≡ b
unfolding adjacency_le
adjacency_antisym a b h k = adjacency-eq a b (ground arith) (ground arith) (ground arith)

adjacency_eq_iff : (a b : LaneAdjacency) → (adjacency_eq a b ≡ true) ↔ (a ≡ b)
unfolding adjacency_eq
adjacency_eq_iff a b = (
  λ h. adjacency-eq a b (ground arith) (ground arith) (ground arith),
  λ e. subst (λ c. adjacency_eq a c ≡ true) e (ground arith),
)

pub adjacency_order : IsOrder adjacency_le adjacency_eq
unfolding adjacency_le
adjacency_order = record {
  total = λ a b h. ground arith;
  trans = λ a b c h k. ground arith;
  antisym = adjacency_antisym;
  same_iff = adjacency_eq_iff;
}
