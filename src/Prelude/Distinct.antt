-- ===== src/Prelude/Distinct.antt =====
-- A list as long as its sorted list without repeated neighbours repeats no item.
use Prim.Native.Nat.{ℕ, zero, suc, ◌≤◌}
use mathlib.Core.Path.{◌≡◌, refl, ap, sym, ◌∙◌, subst}
use mathlib.Core.Logic.{◌≢◌, ◌⊎◌, inl, inr, ◌↔◌, ⊎_elim}
use mathlib.Core.Bool.{Bool}
use mathlib.Core.Option.{some}
use mathlib.Core.List.{List, [], ◌∷◌, Memᴰ}
use mathlib.Core.List.Memᴰ
use native.Mathlib.Omega.{arith}
use road_sim.Prelude.Tests.{◌==◌, Bool-cases}
use road_sim.Prelude.Lists.{length}
use road_sim.Prelude.Sort.{sort_by}
use road_sim.Prelude.Members.{some-eq, get_elem?, get_elem?-mem, length-sort_by}
use road_sim.Prelude.Canonical.{dedup_after, dedup, sort_dedup, IsOrder, sort_dedup-eq_of_members}

dec_eq : (i j : ℕ) → (i ≡ j) ⊎ (i ≢ j)
dec_eq i j = elim (Bool-cases (i == j)) [
  | inl e ↦ inl (ground arith)
  | inr e ↦ inr (λ same. ground arith)
]

module _ {ℓ} {A : Type ℓ} where
  abbrev remove_at : List A → ℕ → List A
  remove_at [] i = []
  remove_at (x ∷ xs) zero = xs
  remove_at (x ∷ xs) (suc i) = x ∷ remove_at xs i

  length-remove_at :
      (xs : List A) (i : ℕ) (x : A)
      → get_elem? xs i ≡ some x
      → suc (length (remove_at xs i)) ≡ length xs
  length-remove_at [] i x h = cc
  length-remove_at (y ∷ xs) zero x h = refl
  length-remove_at (y ∷ xs) (suc i) x h = ap suc (length-remove_at xs i x h)

  remove_at-sub : (a : A) (xs : List A) (i : ℕ) → Memᴰ a (remove_at xs i) → Memᴰ a xs
  remove_at-sub a [] i m = m
  remove_at-sub a (y ∷ xs) zero m = Memᴰ.tail m
  remove_at-sub a (y ∷ xs) (suc i) m =
      ⊎_elim Memᴰ.head (λ rest. Memᴰ.tail (remove_at-sub a xs i rest)) (Memᴰ.cases_cons m)

  remove_at-other :
      (xs : List A) (i j : ℕ) (y : A) → get_elem? xs j ≡ some y → i ≢ j → Memᴰ y (remove_at xs i)
  remove_at-other [] i j y h n = cc
  remove_at-other (x ∷ xs) zero zero y h n = absurd (n refl)
  remove_at-other (x ∷ xs) zero (suc j) y h n = get_elem?-mem xs j y h
  remove_at-other (x ∷ xs) (suc i) zero y h n = Memᴰ.head (sym (some-eq h))
  remove_at-other (x ∷ xs) (suc i) (suc j) y h n =
      Memᴰ.tail (remove_at-other xs i j y h (λ e. n (ap suc e)))

  remove_at-keeps :
      (a x : A) (xs : List A) (i : ℕ)
      → get_elem? xs i ≡ some x
      → Memᴰ a xs
      → (a ≡ x) ⊎ Memᴰ a (remove_at xs i)
  remove_at-keeps a x [] i h m = cc
  remove_at-keeps a x (y ∷ xs) zero h m = elim (Memᴰ.cases_cons m) [
    | inl e ↦ inl (e ∙ some-eq h)
    | inr rest ↦ inr rest
  ]
  remove_at-keeps a x (y ∷ xs) (suc i) h m = elim (Memᴰ.cases_cons m) [
    | inl e ↦ inr (Memᴰ.head e)
    | inr rest ↦ ⊎_elim inl (λ k. inr (Memᴰ.tail k)) (remove_at-keeps a x xs i h rest)
  ]

module _ {ℓ} {A : Type ℓ} (le same : A → A → Bool) where
  length-dedup_after : (a : A) (l : List A) → length (dedup_after le same a l) ≤ length l
  unfolding dedup_after
  length-dedup_after a [] = omega arith
  length-dedup_after a (b ∷ l) = elim (Bool-cases (same a b)) [
    | inl e ↦ rw e (omega (arith, length-dedup_after b l))
    | inr e ↦ rw e (omega (arith, length-dedup_after b l))
  ]

  length-dedup : (l : List A) → length (dedup le same l) ≤ length l
  unfolding dedup
  length-dedup [] = omega arith
  length-dedup (a ∷ l) = omega (arith, length-dedup_after a l)

  length-sort_dedup : (l : List A) → length (sort_dedup le same l) ≤ length l
  unfolding sort_dedup
  length-sort_dedup l = omega (arith, length-dedup (sort_by le l), length-sort_by le l)

  pub positions-eq :
      IsOrder le same
      → (l : List A) (i j : ℕ) (x : A) → length (sort_dedup le same l) ≡ length l
      → get_elem? l i ≡ some x
      → get_elem? l j ≡ some x
      → i ≡ j
  positions-eq order l i j x full h k = elim (dec_eq i j) [
    | inl e ↦ e
    | inr n ↦
        let less = remove_at l i in
        let twin = remove_at-other l i j x k n in
        let members : (a : A) → Memᴰ a l ↔ Memᴰ a less = λ a. (
          λ m.
              ⊎_elim (λ e. subst (λ b. Memᴰ b less) (sym e) twin) (λ r. r)
                (remove_at-keeps a x l i h m),
          remove_at-sub a l i,
        ) in
        let shorter = ap length (sort_dedup-eq_of_members le same order l less members) in
        absurd (omega (arith, full, shorter, length-sort_dedup less, length-remove_at l i x h))
  ]
