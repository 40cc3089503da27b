-- ===== src/Worker/Frame/Truncated.antt =====
-- A frame that the pipe cuts short.
use road_sim.Prelude.{ℕ, List, [], ◌∷◌}

head_or : ℕ → List ℕ → ℕ
head_or d [] = d
head_or d (x ∷ xs) = x

tail_of : List ℕ → List ℕ
tail_of [] = []
tail_of (x ∷ xs) = xs
