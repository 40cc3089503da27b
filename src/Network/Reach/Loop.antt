-- ===== src/Network/Reach/Loop.antt =====
-- `can_reach`: the outer loop, what it keeps, and that a unit of fuel for each node is enough.
use road_sim.Prelude.{
  length, ℕ, zero, suc, ◌+◌, ◌≤◌, ◌<◌, ◌≡◌, refl, ap, subst, ◌∙◌, ◌≢◌, ◌↔◌, ◌⊎◌, inl, inr, Bool,
  true, false, List, [], ◌∷◌, Memᴰ, arith, IsSorted,
}
use mathlib.Core.Logic.{⊎_elim}
use mathlib.Core.List.Memᴰ
use road_sim.Prelude.Members.{Memᴰ-cons, unset}
use road_sim.Network.Reach.{
  Search, marked, found, outside, scanned, Scan, scan, targets, resume, returned, loop, edge_le,
  Walk, here, step,
}
use road_sim.Network.Reach.Slices.{targets_iff}
use road_sim.Network.Reach.Pass.{
  scan-Conserves, scan_found, scan_avoids, scan_in_range, marked-scan, pending-scan,
}

Scan-cases : (r : Scan) → (r ≡ found) ⊎ ((r ≡ outside) ⊎ ((t : Search) × (r ≡ scanned t)))
Scan-cases found = inl refl
Scan-cases outside = inr (inl refl)
Scan-cases (scanned t) = inr (inr (t, refl))

List-cases {ℓ} :
    {A : Type ℓ} (xs : List A) → (xs ≡ []) ⊎ ((x : A) × (rest : List A) × (xs ≡ x ∷ rest))
List-cases [] = inl refl
List-cases (x ∷ xs) = inr (x, xs, refl)

module _ (edges : List (ℕ × ℕ)) (node_count from to : ℕ) where
  -- Each edge leads to a node of the graph.
  abbrev pub InRange : Type 0
  InRange = (u v : ℕ) → Memᴰ (u, v) edges → v < node_count

  pub record Inv (s : Search) : Type 0 where
    pub size : length s.visited ≡ node_count
    pub avoids : marked s to ≡ false
    pub source : marked s from ≡ true
    pub queued : (v : ℕ) → Memᴰ v s.pending → marked s v ≡ true
    pub sound : (v : ℕ) → marked s v ≡ true → Walk edges from v
    pub closed :
        (u v : ℕ) → marked s u ≡ true → Memᴰ (u, v) edges → Memᴰ u s.pending ⊎ (marked s v ≡ true)

  Inv-scan :
      (s t : Search) (u : ℕ) (rest : List ℕ)
      → IsSorted edge_le edges
      → s.pending ≡ u ∷ rest
      → Inv s
      → scan to (record s { pending = rest }) (targets edges u) ≡ scanned t
      → Inv t
  Inv-scan s t u rest sorted e inv h =
      let s' = record s { pending = rest } in
      let flags = λ (w : ℕ). marked-scan to s' t (targets edges u) w h in
      let queue = λ (w : ℕ). pending-scan to s' t (targets edges u) w h in
      let edge = λ (v : ℕ). targets_iff edges u v sorted in
      let to_u = sound u (queued u (simp e (Memᴰ.head refl))) in
      record {
        size = (scan-Conserves to s' t (targets edges u) h).size ∙ size;
        avoids = ground (arith, flags to, avoids, scan_avoids to s' t (targets edges u) h);
        source = (flags from).1 (inl source);
        queued = λ v q. ground (arith, flags v, queue v, queued v, Memᴰ-cons v u rest);
        sound = λ v m. ⊎_elim (sound v) (λ target. step to_u ((edge v).0 target)) ((flags v).0 m);
        closed = λ x v m d.
            ground (arith, flags v, flags x, queue x, edge v, closed x v, Memᴰ-cons x u rest);
      }
    where
      open inv use {size, avoids, source, queued, sound, closed}

  -- With nothing pending the marked nodes are closed under edges.
  covers : (s : Search) → Inv s → s.pending ≡ [] → {v : ℕ} → Walk edges from v → marked s v ≡ true
  covers s inv e here = inv.source
  covers s inv e (step {u} {v} walk edge) = elim (inv.closed u v (covers s inv e walk) edge) [
    | inl waiting ↦ absurd (Memᴰ.not-nil (subst (Memᴰ u) e waiting))
    | inr m ↦ m
  ]

  exhausted : (s : Search) → Inv s → s.pending ≡ [] → ¬ Walk edges from to
  exhausted s inv e walk = cc (inv.avoids, covers s inv e walk)

  abbrev Decides : ℕ → Search → Type 0
  Decides fuel s =
      (answer : Bool) × (loop edges to fuel s ≡ returned answer)
      × ((answer ≡ true) ↔ Walk edges from to)

  loop_empty : (fuel : ℕ) (s : Search) → s.pending ≡ [] → loop edges to fuel s ≡ returned false
  unfolding loop
  loop_empty zero s e = simp (e, loop)
  loop_empty (suc fuel) s e = simp (e, loop)

  loop_round :
      (fuel : ℕ) (s : Search) (u : ℕ) (rest : List ℕ)
      → s.pending ≡ u ∷ rest
      → loop edges to (suc fuel) s
        ≡ resume (scan to (record s { pending = rest }) (targets edges u)) (loop edges to fuel)
  unfolding loop
  loop_round fuel s u rest e = simp (e, loop)

  finds :
      (s : Search) (u : ℕ) (rest : List ℕ)
      → IsSorted edge_le edges
      → s.pending ≡ u ∷ rest
      → Inv s
      → scan to (record s { pending = rest }) (targets edges u) ≡ found
      → Walk edges from to
  finds s u rest sorted e inv h = step (inv.sound u (inv.queued u (simp e (Memᴰ.head refl)))) (
      (targets_iff edges u to sorted).0
        (scan_found to (record s { pending = rest }) (targets edges u) h))

  never_outside :
      (s : Search) (u : ℕ) (rest : List ℕ)
      → IsSorted edge_le edges
      → InRange
      → Inv s
      → scan to (record s { pending = rest }) (targets edges u) ≢ outside
  never_outside s u rest sorted in_range inv =
      scan_in_range to (record s { pending = rest }) (targets edges u)
        (λ v m. rw inv.size (in_range u v ((targets_iff edges u v sorted).0 m)))

  pub loop-Decides :
      IsSorted edge_le edges
      → InRange
      → (fuel : ℕ) (s : Search) → Inv s
      → unset s.visited + length s.pending ≤ fuel
      → Decides fuel s
  unfolding resume
  loop-Decides sorted in_range zero s inv h = elim (List-cases s.pending) [
    | inl e ↦ (false, loop_empty zero s e, (λ f. cc, λ walk. absurd (exhausted s inv e walk)))
    | inr (u, rest, e) ↦ absurd (omega (arith, ap length e))
  ]
  loop-Decides sorted in_range (suc fuel) s inv h = elim (List-cases s.pending) [
    | inl e ↦ (false, loop_empty (suc fuel) s e, (λ f. cc, λ walk. absurd (exhausted s inv e walk)))
    | inr (u, rest, e) ↦
        let round = loop_round fuel s u rest e in
        elim (Scan-cases (scan to (record s { pending = rest }) (targets edges u))) [
          | inl h' ↦ (
            true,
            round ∙ ap (λ r. resume r (loop edges to fuel)) h',
            (λ _. finds s u rest sorted e inv h', λ _. refl),
          )
          | inr (inl h') ↦ absurd (never_outside s u rest sorted in_range inv h')
          | inr (inr (t, h')) ↦
              let kept = scan-Conserves to (record s { pending = rest }) t (targets edges u) h' in
              let (answer, ends, decides) =
                loop-Decides sorted in_range fuel t (Inv-scan s t u rest sorted e inv h')
                  (omega (arith, kept.work, ap length e)) in
              (answer, round ∙ ap (λ r. resume r (loop edges to fuel)) h' ∙ ends, decides)
        ]
  ]
