-- ===== src/Worker/Token/Matches.antt =====
-- The comparison of two tokens that takes all their bytes agrees with their equality.
use road_sim.Prelude.{
  ==_iff, length, ok, ℕ, ◌≡◌, refl, sym, ap, ap₂, ◌∙◌, ◌↔◌, true, List, [], ◌∷◌, arith,
}
use Prim.Native.Nat.{bit_or, bit_xor}
use road_sim.Worker.Token.{AuthToken, parse, fold_difference, matches}
use road_sim.Worker.Token.Bits.{bit_xor_zero, bit_or_zero}

fold_difference_zero :
    (difference : ℕ) (left right : List ℕ)
    → length left ≡ length right
    → (fold_difference difference left right ≡ 0) ↔ ((difference ≡ 0) × (left ≡ right))
unfolding fold_difference
fold_difference_zero difference [] [] h = (λ e. (e, refl), λ e. e.0)
fold_difference_zero difference [] (b ∷ right) h = absurd (omega (arith, h))
fold_difference_zero difference (a ∷ left) [] h = absurd (omega (arith, h))
fold_difference_zero difference (a ∷ left) (b ∷ right) h =
    let (split, join) =
      fold_difference_zero (bit_or difference (bit_xor a b)) left right (omega (arith, h)) in
    (
      λ e.
          let (both, rest) = split e in
          let (before, byte) = (bit_or_zero difference (bit_xor a b)).0 both in
          (before, ap₂ ◌∷◌ ((bit_xor_zero a b).0 byte) rest),
      λ (before, same). join (
        (bit_or_zero difference (bit_xor a b)).1
            (before, (bit_xor_zero a b).1 (ap (λ l. head_or l 0) same)),
        ap tail_of same,
      ),
    )
  where
    head_or : List ℕ → ℕ → ℕ
    head_or [] d = d
    head_or (x ∷ xs) d = x

    tail_of : List ℕ → List ℕ
    tail_of [] = []
    tail_of (x ∷ xs) = xs

parse-length :
    (text : List ℕ) (token : AuthToken)
    → parse text ≡ ok token
    → (token.value ≡ text) × (length text ≡ 64)
unfolding parse
parse-length text token h = ground arith

-- Two tokens that `parse` returned match exactly if they are the same text: the comparison, which
-- takes the bytes in pairs up to the shorter of the two, misses no difference.
pub matches_iff :
    (a b : List ℕ) (token candidate : AuthToken)
    → parse a ≡ ok token
    → parse b ≡ ok candidate
    → (matches token candidate ≡ true) ↔ (a ≡ b)
unfolding matches
matches_iff a b token candidate h k =
    let (left, long) = parse-length a token h in
    let (right, wide) = parse-length b candidate k in
    let same_length : length token.value ≡ length candidate.value =
      omega (arith, long, wide, ap length left, ap length right) in
    let zero_iff = fold_difference_zero 0 token.value candidate.value same_length in
    let test = ==_iff (fold_difference 0 token.value candidate.value) 0 in
    (
      λ e. sym left ∙ (zero_iff.0 (test.0 e)).1 ∙ right,
      λ e. test.1 (zero_iff.1 (refl, left ∙ e ∙ sym right)),
    )
