-- ===== src/Worker/Frame/Bytes.antt =====
-- The bytes of a length, and reading an exact number of bytes.
use road_sim.Prelude.{
  Option-cases, length, ℕ, zero, suc, ◌/◌, ◌%◌, ◌^◌, ◌<◌, ◌≡◌, refl, sym, ap, ap₂, ◌∙◌, inl, inr,
  none, some, List, [], ◌∷◌, ◌++◌, arith,
}
use road_sim.Prelude.Members.{some-eq}
use road_sim.Worker.Frame.{from_le_bytes, read_exact}

pub from-to_le_bytes :
    (n : ℕ)
    → n < 2 ^ 32
    → from_le_bytes (n % 256) (n / 256 % 256) (n / 65536 % 256) (n / 16777216 % 256) ≡ n
from-to_le_bytes n h = omega (arith, h)

pub read_exact-append :
    (payload rest : List ℕ) → read_exact (length payload) (payload ++ rest) ≡ some (payload, rest)
unfolding read_exact
read_exact-append [] rest = refl
read_exact-append (b ∷ payload) rest = rw (read_exact-append payload rest) refl

pub read_exact-short : (n : ℕ) (bytes : List ℕ) → length bytes < n → read_exact n bytes ≡ none
unfolding read_exact
read_exact-short zero bytes h = absurd (omega arith)
read_exact-short (suc n) [] h = refl
read_exact-short (suc n) (b ∷ bytes) h = rw (read_exact-short n bytes (omega arith)) refl

pub read_exact-some :
    (n : ℕ) (bytes taken left : List ℕ)
    → read_exact n bytes ≡ some (taken, left)
    → (bytes ≡ taken ++ left) × (length taken ≡ n)
unfolding read_exact
read_exact-some zero bytes taken left h =
    let same = some-eq h in
    (
      ap₂ ◌++◌ (ap (λ (p : List ℕ × List ℕ). p.0) same) (ap (λ (p : List ℕ × List ℕ). p.1) same),
      ap length (sym (ap (λ (p : List ℕ × List ℕ). p.0) same)),
    )
read_exact-some (suc n) [] taken left h = cc
read_exact-some (suc n) (b ∷ bytes) taken left h = elim (Option-cases (read_exact n bytes)) [
  | inl e ↦ cc (rw e at h)
  | inr ((front, back), e) ↦
      let (whole, size) = read_exact-some n bytes front back e in
      let same : some (b ∷ front, back) ≡ some (taken, left) = rw e at h in
      let pair = some-eq same in
      let first : b ∷ front ≡ taken = ap (λ (p : List ℕ × List ℕ). p.0) pair in
      let second : back ≡ left = ap (λ (p : List ℕ × List ℕ). p.1) pair in
      (ap (λ l. b ∷ l) whole ∙ ap₂ ◌++◌ first second, ap length (sym first) ∙ ap suc size)
]
