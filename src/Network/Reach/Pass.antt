-- ===== src/Network/Reach/Pass.antt =====
-- `can_reach`: one pass of the inner loop over the edges that leave a node.
use road_sim.Prelude.{
  if◌then◌else◌, length, ℕ, ◌+◌, ◌<◌, ◌≡◌, refl, ◌∙◌, ◌≢◌, ◌↔◌, ◌⊎◌, true, false, List, [], ◌∷◌,
  Memᴰ, arith,
}
use mathlib.Core.List.Memᴰ
use road_sim.Prelude.Members.{Memᴰ-cons, length-set_at, get_or-set_at, unset, unset-set_at}
use road_sim.Network.Reach.{Search, marked, visit, found, outside, scanned, scan}

-- The state behind a target that is not the node sought.
abbrev offer : Search → ℕ → Search
offer s target = if marked s target then s else visit s target

Scan-continues :
    (to : ℕ) (s t : Search) (target : ℕ) (rest : List ℕ)
    → scan to s (target ∷ rest) ≡ scanned t
    → (target ≢ to) × (target < length s.visited) × (scan to (offer s target) rest ≡ scanned t)
unfolding scan
Scan-continues to s t target rest h = ground arith

pub record Conserves (s t : Search) : Type 0 where
  pub size : length t.visited ≡ length s.visited
  pub work : unset t.visited + length t.pending ≡ unset s.visited + length s.pending

offer-Conserves : (s : Search) (v : ℕ) → v < length s.visited → Conserves s (offer s v)
unfolding visit
offer-Conserves s v h = ground (arith, length-set_at s.visited v true, unset-set_at s.visited v)

pub scan-Conserves :
    (to : ℕ) (s t : Search) (es : List ℕ) → scan to s es ≡ scanned t → Conserves s t
unfolding scan
scan-Conserves to s t [] h = ground arith
scan-Conserves to s t (v ∷ es) h =
    let (_, bound, next) = Scan-continues to s t v es h in
    let first = offer-Conserves s v bound in
    let rest = scan-Conserves to (offer s v) t es next in
    record { size = rest.size ∙ first.size; work = rest.work ∙ first.work }

pub scan_found : (to : ℕ) (s : Search) (es : List ℕ) → scan to s es ≡ found → Memᴰ to es
unfolding scan
scan_found to s [] h = cc
scan_found to s (v ∷ es) h = ground (arith, Memᴰ-cons to v es, scan_found to (offer s v) es)

pub scan_avoids : (to : ℕ) (s t : Search) (es : List ℕ) → scan to s es ≡ scanned t → ¬ Memᴰ to es
scan_avoids to s t [] h m = Memᴰ.not-nil m
scan_avoids to s t (v ∷ es) h m =
    let (other, _, next) = Scan-continues to s t v es h in
    ground (arith, Memᴰ-cons to v es, scan_avoids to (offer s v) t es next)

pub scan_in_range :
    (to : ℕ) (s : Search) (es : List ℕ)
    → ((v : ℕ) → Memᴰ v es → v < length s.visited)
    → scan to s es ≢ outside
unfolding scan visit
scan_in_range to s [] b h = cc
scan_in_range to s (v ∷ es) b h =
    let size = (offer-Conserves s v (b v (Memᴰ.head refl))).size in
    let rest = scan_in_range to (offer s v) es (λ w m. omega (arith, size, b w (Memᴰ.tail m))) in
    ground (arith, rest, b v (Memᴰ.head refl))

-- The pass sets the flags of the targets, and no other.
pub marked-scan :
    (to : ℕ) (s t : Search) (es : List ℕ) (w : ℕ)
    → scan to s es ≡ scanned t
    → (marked t w ≡ true) ↔ ((marked s w ≡ true) ⊎ Memᴰ w es)
unfolding scan visit
marked-scan to s t [] w h = ground (arith, λ (m : Memᴰ w []). Memᴰ.not-nil m)
marked-scan to s t (v ∷ es) w h =
    let (_, bound, next) = Scan-continues to s t v es h in
    ground (
      arith,
      marked-scan to (offer s v) t es w next,
      get_or-set_at s.visited v w bound,
      Memᴰ-cons w v es,
    )

-- It pushes the nodes whose flag it sets, and no other.
pub pending-scan :
    (to : ℕ) (s t : Search) (es : List ℕ) (w : ℕ)
    → scan to s es ≡ scanned t
    → Memᴰ w t.pending ↔ (Memᴰ w s.pending ⊎ (marked t w ≡ true) × (marked s w ≡ false))
unfolding scan visit
pending-scan to s t [] w h = ground arith
pending-scan to s t (v ∷ es) w h =
    let (_, bound, next) = Scan-continues to s t v es h in
    ground (
      arith,
      pending-scan to (offer s v) t es w next,
      marked-scan to (offer s v) t es w next,
      get_or-set_at s.visited v w bound,
      Memᴰ-cons w v s.pending,
    )
