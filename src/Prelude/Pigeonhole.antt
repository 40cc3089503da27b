-- ===== src/Prelude/Pigeonhole.antt =====
-- Numbers below a bound, none of them repeated: there are at most as many as the bound, and if there
-- are as many, each number below the bound is one of them.
use Prim.Native.Nat.{ℕ, zero, suc, ◌≤◌, ◌<◌}
use mathlib.Core.Path.{◌≡◌, refl, ap, sym, subst}
use mathlib.Core.Logic.{inl, inr, ◌↔◌, ⊎_elim}
use mathlib.Core.Bool.{true, false}
use mathlib.Core.List.{List, [], ◌∷◌, Memᴰ}
use mathlib.Core.List.Memᴰ
use native.Mathlib.Omega.{arith}
use road_sim.Prelude.Tests.{◌==◌, if◌then◌else◌, Bool-cases}
use road_sim.Prelude.Lists.{length, contains}
use road_sim.Prelude.Members.{Memᴰ-cons}

abbrev pub Unrepeated : List ℕ → Type 0
Unrepeated [] = Unit
Unrepeated (x ∷ xs) = (contains xs x ≡ false) × Unrepeated xs

pub contains_iff : (xs : List ℕ) (m : ℕ) → (contains xs m ≡ true) ↔ Memᴰ m xs
contains_iff [] m = (λ h. cc, λ found. absurd (Memᴰ.not-nil found))
contains_iff (x ∷ xs) m = ground (arith, contains_iff xs m, Memᴰ-cons m x xs)

abbrev without : ℕ → List ℕ → List ℕ
without k [] = []
without k (x ∷ xs) = let rest = without k xs in if x == k then rest else x ∷ rest

without-contains :
    (k m : ℕ) (xs : List ℕ) → contains xs m ≡ false → contains (without k xs) m ≡ false
without-contains k m [] h = refl
without-contains k m (x ∷ xs) h = ground (arith, without-contains k m xs)

without-Unrepeated : (k : ℕ) (xs : List ℕ) → Unrepeated xs → Unrepeated (without k xs)
without-Unrepeated k [] u = tt
without-Unrepeated k (x ∷ xs) u = ground (arith, without-Unrepeated k xs, without-contains k x xs)

without_absent : (k : ℕ) (xs : List ℕ) → contains xs k ≡ false → without k xs ≡ xs
without_absent k [] h = refl
without_absent k (x ∷ xs) h = ground (arith, without_absent k xs)

length-without : (k : ℕ) (xs : List ℕ) → Unrepeated xs → length xs ≤ suc (length (without k xs))
length-without k [] u = omega arith
length-without k (x ∷ xs) u = elim (Bool-cases (x == k)) [
  | inl e ↦
      let here : x ≡ k = ground arith in
      let same = without_absent k xs (subst (λ y. contains xs y ≡ false) here u.0) in
      rw e (omega (arith, ap length same))
  | inr e ↦ rw e (omega (arith, length-without k xs u.1))
]

without-below :
    (n : ℕ) (xs : List ℕ)
    → ((m : ℕ) → Memᴰ m xs → m < suc n)
    → (m : ℕ) → Memᴰ m (without n xs)
    → m < n
without-below n [] b m found = absurd (Memᴰ.not-nil found)
without-below n (x ∷ xs) b m found =
    let rest = without-below n xs (λ k f. b k (Memᴰ.tail f)) m in
    let first = b x (Memᴰ.head refl) in ground (arith, rest, first, Memᴰ-cons m x (without n xs))

length_below : (n : ℕ) (xs : List ℕ) → Unrepeated xs → ((m : ℕ) → Memᴰ m xs → m < n) → length xs ≤ n
length_below zero [] u b = omega arith
length_below zero (x ∷ xs) u b = absurd (omega (arith, b x (Memᴰ.head refl)))
length_below (suc n) xs u b = omega (
  arith,
  length-without n xs u,
  length_below n (without n xs) (without-Unrepeated n xs u) (without-below n xs b),
)

pub all_below :
    (n : ℕ) (xs : List ℕ)
    → Unrepeated xs
    → ((m : ℕ) → Memᴰ m xs → m < n)
    → length xs ≡ n
    → (k : ℕ) → k < n
    → Memᴰ k xs
all_below n xs u b full k small = elim (Bool-cases (contains xs k)) [
  | inl e ↦ (contains_iff xs k).0 e
  | inr e ↦
      let more =
        length_below n (k ∷ xs) (e, u)
          (λ m found.
            ⊎_elim (λ same. subst (λ j. j < n) (sym same) small) (b m) (Memᴰ.cases_cons found)) in
      absurd (omega (arith, more, full))
]
