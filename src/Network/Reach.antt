-- ===== src/Network/Reach.antt =====
-- crates/roadsim-compiled-network/src/lib.rs: the free function `can_reach`, a depth-first search
-- over sorted edges that the lane graph and the pedestrian graph share. The `while` loop runs on
-- fuel, one unit for each node of the graph.
pub mod Slices
pub mod Pass
pub mod Loop
pub mod Correct
pub mod Edges
use road_sim.Prelude.{
  ltb, leb, ◌==◌, if◌then◌else◌, ltb→lt, lt→ltb, ==_iff, ==-refl, <→==-false, Bool-cases,
  Option-cases, length, length-append, is_empty, any, all, first_adjacent, any_adjacent, contains,
  or_else, is_some, Result, ok, err, reject_if, reject_some, ok_or, map_err, ◌>>=◌, ◌>>◌, for_each,
  Result-cases, >>=-eq-ok, >>-eq-ok, map_err-eq-ok, reject_if-eq-ok, reject_some-eq-ok, ℕ, zero,
  suc, ◌+◌, ◌-◌, ◌*◌, ◌/◌, ◌%◌, ◌^◌, ◌≤◌, ◌<◌, ◌≡◌, refl, sym, ap, ap₂, subst, ◌∙◌, ◌≢◌, ◌↔◌, ◌⊎◌,
  inl, inr, Bool, true, false, not, ◌&&◌, ◌||◌, Option, none, some, List, [], ◌∷◌, ◌++◌, map, Memᴰ,
  arith, insert_by, sort_by, sort_by_key, IsSorted, IsTotal, sort_by-IsSorted, key_le, key_le_total,
}
use road_sim.Prelude.Members.{get_or, set_at, replicate}

-- The order of pairs, by the first component and then by the second.
abbrev pub edge_le : ℕ × ℕ → ℕ × ℕ → Bool
edge_le a b = ltb a.0 b.0 || ((a.0 == b.0) && leb a.1 b.1)

-- `partition_point` of a list that the test partitions.
abbrev pub partition_point {ℓ} : {A : Type ℓ} → (A → Bool) → List A → ℕ
partition_point p [] = 0
partition_point p (x ∷ xs) = if p x then suc (partition_point p xs) else 0

abbrev pub take {ℓ} : {A : Type ℓ} → ℕ → List A → List A
take zero xs = []
take (suc n) [] = []
take (suc n) (x ∷ xs) = x ∷ take n xs

abbrev pub drop {ℓ} : {A : Type ℓ} → ℕ → List A → List A
drop zero xs = xs
drop (suc n) [] = []
drop (suc n) (x ∷ xs) = drop n xs

-- `&items[start..end]`
abbrev pub slice {ℓ} : {A : Type ℓ} → ℕ → ℕ → List A → List A
slice start end xs = take (end - start) (drop start xs)

-- The targets of the edges that leave a node, read from the sorted edges.
unfoldable pub targets : List (ℕ × ℕ) → ℕ → List ℕ
targets edges node =
    let start = partition_point (λ edge. ltb edge.0 node) edges in
    let end = partition_point (λ edge. leb edge.0 node) edges in
    map (λ edge. edge.1) (slice start end edges)

-- `visited` and the stack `pending`, whose top is the head of the list.
pub record Search : Type 0 where
  pub visited : List Bool
  pub pending : List ℕ

abbrev pub marked : Search → ℕ → Bool
marked s node = get_or s.visited node false

unfoldable pub visit : Search → ℕ → Search
visit s node = record { visited = set_at s.visited node true; pending = node ∷ s.pending }

-- How the loop over a node's edges ends: with the node sought, at an index outside `visited`
-- (where the code panics), or after the last edge.
pub data Scan : Type 0 where
  found outside : Scan
  scanned : Search → Scan

unfoldable pub scan : ℕ → Search → List ℕ → Scan
unfolding visit
scan to s [] = scanned s
scan to s (target ∷ rest) =
    if target == to
    then found
    else if leb (length s.visited) target
    then outside
    else scan to (if marked s target then s else visit s target) rest

pub data Outcome : Type 0 where
  returned : Bool → Outcome
  out_of_range out_of_fuel : Outcome

unfoldable pub resume : Scan → (Search → Outcome) → Outcome
resume found next = returned true
resume outside next = out_of_range
resume (scanned s) next = next s

module _ (edges : List (ℕ × ℕ)) (to : ℕ) where
  unfoldable pub loop : ℕ → Search → Outcome
  unfolding scan targets resume
  loop zero s = elim s.pending [ [] ↦ returned false | _ ∷ _ ↦ out_of_fuel ]
  loop (suc fuel) s = elim s.pending [
    | [] ↦ returned false
    | node ∷ rest ↦
        resume (scan to (record s { pending = rest }) (targets edges node)) (λ t. loop fuel t)
  ]

unfoldable pub begin : ℕ → ℕ → Search
begin node_count from = record {
  visited = set_at (replicate node_count false) from true;
  pending = from ∷ [];
}

unfoldable pub can_reach : ℕ → ℕ → ℕ → List (ℕ × ℕ) → Outcome
unfolding loop begin sort_by
can_reach node_count from to edges =
    if leb node_count from || leb node_count to
    then returned false
    else if from == to
    then returned true
    else loop (sort_by edge_le edges) to node_count (begin node_count from)

-- The walks along the edges.
pub data Walk (edges : List (ℕ × ℕ)) (from : ℕ) : ℕ → Type 0 where
  here : Walk edges from from
  step : {u v : ℕ} → Walk edges from u → Memᴰ (u, v) edges → Walk edges from v
