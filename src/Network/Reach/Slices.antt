-- ===== src/Network/Reach/Slices.antt =====
-- `can_reach`: the slice of the sorted edges that one node reads.
use road_sim.Prelude.{
  ltb, leb, Bool-cases, ℕ, ◌≤◌, ◌<◌, ◌≡◌, refl, ap, ap₂, ◌↔◌, inl, inr, true, false, List, [], ◌∷◌,
  map, Memᴰ, arith, IsSorted,
}
use mathlib.Core.List.Memᴰ
use road_sim.Prelude.Members.{Memᴰ-cons}
use road_sim.Network.Reach.{edge_le, partition_point, take, targets}

pub edge_le_total : (a b : ℕ × ℕ) → edge_le a b ≡ false → edge_le b a ≡ true
edge_le_total a b h = ground arith

IsSorted-tail : (x : ℕ × ℕ) (l : List (ℕ × ℕ)) → IsSorted edge_le (x ∷ l) → IsSorted edge_le l
IsSorted-tail x [] s = tt
IsSorted-tail x (y ∷ l) s = s.1

-- Behind an edge of a later node, and at the end of the node's own edges.
above :
    (node v : ℕ) (x : ℕ × ℕ) (l : List (ℕ × ℕ))
    → IsSorted edge_le (x ∷ l)
    → node < x.0
    → ¬ Memᴰ (node, v) (x ∷ l)
above node v x [] s h m = elim (Memᴰ.cases_cons m) [
  | inl e ↦ omega (arith, ap (λ (edge : ℕ × ℕ). edge.0) e)
  | inr none_left ↦ Memᴰ.not-nil none_left
]
above node v x (y ∷ l) s h m = elim (Memᴰ.cases_cons m) [
  | inl e ↦ omega (arith, ap (λ (edge : ℕ × ℕ). edge.0) e)
  | inr rest ↦ above node v y l s.1 (ground arith) rest
]

pub starts_here :
    (node : ℕ) (x : ℕ × ℕ) (l : List (ℕ × ℕ))
    → IsSorted edge_le (x ∷ l)
    → node ≤ x.0
    → partition_point (λ edge. ltb edge.0 node) l ≡ 0
starts_here node x [] s h = refl
starts_here node x (y ∷ l) s h = ground arith

pair-eq : (node v : ℕ) (x : ℕ × ℕ) → ((node, v) ≡ x) ↔ ((node ≡ x.0) × (v ≡ x.1))
pair-eq node v x = (
  λ e. (ap (λ (edge : ℕ × ℕ). edge.0) e, ap (λ (edge : ℕ × ℕ). edge.1) e),
  λ (e, d). ap₂ (λ a b. (a, b)) e d,
)

own :
    (node v : ℕ) (l : List (ℕ × ℕ))
    → IsSorted edge_le l
    → partition_point (λ edge. ltb edge.0 node) l ≡ 0
    → Memᴰ v (map (λ edge. edge.1) (take (partition_point (λ edge. leb edge.0 node) l) l))
      ↔ Memᴰ (node, v) l
own node v [] s h = (λ m. absurd (Memᴰ.not-nil m), λ m. absurd (Memᴰ.not-nil m))
own node v (x ∷ l) s h = elim (Bool-cases (leb x.0 node)) [
  | inl e ↦
      let tail = own node v l (IsSorted-tail x l s) (starts_here node x l s (ground arith)) in
      let head = Memᴰ-cons (node, v) x l in
      let first =
        Memᴰ-cons v x.1
          (map (λ edge. edge.1) (take (partition_point (λ edge. leb edge.0 node) l) l)) in
      ground (arith, tail, head, first, pair-eq node v x)
  | inr e ↦
      let later = above node v x l s (ground arith) in
      ground (arith, later, λ (m : Memᴰ v []). Memᴰ.not-nil m)
]

-- The edges a node reads lead to exactly the nodes its edges lead to.
pub targets_iff :
    (edges : List (ℕ × ℕ)) (node v : ℕ)
    → IsSorted edge_le edges
    → Memᴰ v (targets edges node) ↔ Memᴰ (node, v) edges
unfolding targets
targets_iff [] node v s = own node v [] s refl
targets_iff (x ∷ l) node v s = elim (Bool-cases (ltb x.0 node)) [
  | inl e ↦
      let tail = targets_iff l node v (IsSorted-tail x l s) in
      ground (arith, tail, Memᴰ-cons (node, v) x l, pair-eq node v x)
  | inr e ↦ let all_own = own node v (x ∷ l) s (ground arith) in ground (arith, all_own)
]
