-- ===== src/Prelude/Keyed.antt =====
-- Lists of items with an identifier: lookup by it, and the one strictly ordered list of a lookup.
use Prim.Native.Nat.{ℕ, ◌<◌, ◌≤◌}
use mathlib.Core.Path.{◌≡◌, refl, sym, ◌∙◌, ap, ap₂, subst}
use mathlib.Core.Logic.{inl, inr}
use mathlib.Core.Bool.{false}
use mathlib.Core.List.{List, [], ◌∷◌, ◌++◌}
use mathlib.Core.Option.{Option, none, some}
use native.Mathlib.Decide.{dec_le}
use native.Mathlib.Omega.{arith}
use road_sim.Prelude.Tests.{◌==◌, if◌then◌else◌, Bool-cases}
use road_sim.Prelude.Lists.{or_else, first_adjacent, any_adjacent}
use road_sim.Prelude.Sort.{
  insert_by, sort_by, sort_by_key, key_le, key_le_total, IsSorted, sort_by-IsSorted,
}

module _ {ℓ} {A : Type ℓ} (key : A → ℕ) where
  -- The item with an identifier: `binary_search_by_key` on a slice in strict order, and
  -- `iter().find` on any.
  unfoldable pub find : ℕ → List A → Option A
  find i [] = none
  find i (x ∷ xs) = if key x == i then some x else find i xs

  find-nil : (i : ℕ) → find i [] ≡ none
  unfolding find
  find-nil i = refl

  pub find-append : (i : ℕ) (xs ys : List A) → find i (xs ++ ys) ≡ or_else (find i xs) (find i ys)
  unfolding find
  find-append i [] ys = refl
  find-append i (x ∷ xs) ys = ground (arith, find-append i xs ys)

  -- No two items share an identifier.
  abbrev pub Distinct : List A → Type ℓ
  Distinct [] = Unit
  Distinct (x ∷ xs) = (find (key x) xs ≡ none) × Distinct xs

  -- The identifiers rise along the list.
  abbrev pub IsStrict : List A → Type 0
  IsStrict [] = Unit
  IsStrict (x ∷ []) = Unit
  IsStrict (x ∷ y ∷ l) = (key x < key y) × IsStrict (y ∷ l)

  pub find_below :
      (i : ℕ) (x : A) (l : List A) → IsStrict (x ∷ l) → i < key x → find i (x ∷ l) ≡ none
  unfolding find
  find_below i x [] s h = ground arith
  find_below i x (y ∷ l) s h = ground (arith, find_below i y l s.1)

  pub find_tail : (x : A) (l : List A) → IsStrict (x ∷ l) → find (key x) l ≡ none
  unfolding find
  find_tail x [] s = refl
  find_tail x (y ∷ l) s = find_below (key x) y l s.1 s.0

  pub IsStrict-tail : (x : A) (l : List A) → IsStrict (x ∷ l) → IsStrict l
  IsStrict-tail x [] s = tt
  IsStrict-tail x (y ∷ l) s = s.1

  pub IsStrict-Distinct : (l : List A) → IsStrict l → Distinct l
  IsStrict-Distinct [] s = tt
  IsStrict-Distinct (x ∷ l) s = (find_tail x l s, IsStrict-Distinct l (IsStrict-tail x l s))

  find-tails :
      (x : A) (xs ys : List A)
      → IsStrict (x ∷ xs)
      → IsStrict (x ∷ ys)
      → ((i : ℕ) → find i (x ∷ xs) ≡ find i (x ∷ ys))
      → (i : ℕ) → find i xs ≡ find i ys
  unfolding find
  find-tails x xs ys s t h i = elim (Bool-cases (key x == i)) [
    | inl e ↦ ground (arith, find_tail x xs s, find_tail x ys t)
    | inr e ↦ ground (arith, h i)
  ]

  find_self : (x : A) (l : List A) → find (key x) (x ∷ l) ≡ some x
  unfolding find
  find_self x l = ground arith

  not_below :
      (x y : A) (xs : List A) → IsStrict (x ∷ xs) → find (key y) (x ∷ xs) ≡ some y → key x ≤ key y
  not_below x y xs s h = elim (dec_le (key x) (key y)) [
    | yes p ↦ p
    | no p ↦ cc (find_below (key y) x xs s (omega arith))
  ]

  heads-eq :
      (x y : A) (xs ys : List A)
      → IsStrict (x ∷ xs)
      → IsStrict (y ∷ ys)
      → ((i : ℕ) → find i (x ∷ xs) ≡ find i (y ∷ ys))
      → x ≡ y
  heads-eq x y xs ys s t h =
      let same : key x ≡ key y = omega (
        arith,
        not_below x y xs s (h (key y) ∙ find_self y ys),
        not_below y x ys t (sym (h (key x)) ∙ find_self x xs),
      ) in
      cc (sym (find_self x xs) ∙ h (key x) ∙ ap (λ i. find i (y ∷ ys)) same ∙ find_self y ys)

  IsStrict-head : {x y : A} (l : List A) → x ≡ y → IsStrict (x ∷ l) → IsStrict (y ∷ l)
  IsStrict-head l e s = subst (λ z. IsStrict (z ∷ l)) e s

  -- The lookup determines a strictly ordered list.
  pub IsStrict-eq_of_find :
      (xs ys : List A) → IsStrict xs → IsStrict ys → ((i : ℕ) → find i xs ≡ find i ys) → xs ≡ ys
  IsStrict-eq_of_find [] [] s t h = refl
  IsStrict-eq_of_find [] (y ∷ ys) s t h = cc (h (key y), find_self y ys, find-nil (key y))
  IsStrict-eq_of_find (x ∷ xs) [] s t h = cc (h (key x), find_self x xs, find-nil (key x))
  IsStrict-eq_of_find (x ∷ xs) (y ∷ ys) s t h =
      let same = heads-eq x y xs ys s t h in
      ap₂ ◌∷◌ same (
        IsStrict-eq_of_find xs ys (IsStrict-tail x xs s) (IsStrict-tail y ys t) (
          find-tails x xs ys s (IsStrict-head ys (sym same) t)
            (λ i. h i ∙ ap (λ z. find i (z ∷ ys)) (sym same))))

  find-insert_by :
      (i : ℕ) (x : A) (l : List A)
      → find i (insert_by (key_le key) x l) ≡ (if key x == i then some x else find i l)
  unfolding find insert_by
  find-insert_by i x [] = refl
  find-insert_by i x (y ∷ l) = ground (arith, find-insert_by i x l)

  pub find-sort_by_key : (i : ℕ) (l : List A) → find i (sort_by_key key l) ≡ find i l
  unfolding find sort_by_key
  find-sort_by_key i [] = refl
  find-sort_by_key i (x ∷ l) =
      find-insert_by i x (sort_by (key_le key) l)
      ∙ ap (if◌then◌else◌ (key x == i) (some x)) (find-sort_by_key i l)

  insert_by-IsStrict :
      (x : A) (l : List A)
      → find (key x) l ≡ none
      → IsStrict l
      → IsStrict (insert_by (key_le key) x l)
  unfolding find insert_by
  insert_by-IsStrict x [] f s = tt
  insert_by-IsStrict x (y ∷ []) f s = ground arith
  insert_by-IsStrict x (y ∷ z ∷ l) f s = ground (arith, insert_by-IsStrict x (z ∷ l))

  pub sort_by_key-IsStrict : (l : List A) → Distinct l → IsStrict (sort_by_key key l)
  unfolding sort_by_key
  sort_by_key-IsStrict [] d = tt
  sort_by_key-IsStrict (x ∷ l) d =
      insert_by-IsStrict x (sort_by_key key l) (find-sort_by_key (key x) l ∙ d.0)
        (sort_by_key-IsStrict l d.1)

  -- Sorting takes a list to the strictly ordered list of its lookup.
  pub sort_by_key-eq_of_find :
      (xs ys : List A)
      → Distinct xs
      → IsStrict ys
      → ((i : ℕ) → find i xs ≡ find i ys)
      → sort_by_key key xs ≡ ys
  sort_by_key-eq_of_find xs ys d s h =
      IsStrict-eq_of_find (sort_by_key key xs) ys (sort_by_key-IsStrict xs d) s
        (λ i. find-sort_by_key i xs ∙ h i)

  pub sort_by_key_of_IsStrict : (l : List A) → IsStrict l → sort_by_key key l ≡ l
  sort_by_key_of_IsStrict l s = sort_by_key-eq_of_find l l (IsStrict-Distinct l s) s (λ i. refl)

  -- A sorted list in which no two neighbours have one identifier is in strict order.
  pub IsStrict-of_first_adjacent :
      (l : List A)
      → IsSorted (key_le key) l
      → first_adjacent (λ a b. key a == key b) l ≡ none
      → IsStrict l
  IsStrict-of_first_adjacent [] s h = tt
  IsStrict-of_first_adjacent (x ∷ []) s h = tt
  IsStrict-of_first_adjacent (x ∷ y ∷ l) s h = elim (Bool-cases (key x == key y)) [
    | inl e ↦ cc
    | inr e ↦ (ground arith, IsStrict-of_first_adjacent (y ∷ l) s.1 (rw e at h))
  ]

  pub IsStrict-of_any_adjacent :
      (l : List A)
      → IsSorted (key_le key) l
      → any_adjacent (λ a b. key a == key b) l ≡ false
      → IsStrict l
  IsStrict-of_any_adjacent [] s h = tt
  IsStrict-of_any_adjacent (x ∷ []) s h = tt
  IsStrict-of_any_adjacent (x ∷ y ∷ l) s h = elim (Bool-cases (key x == key y)) [
    | inl e ↦ cc
    | inr e ↦ (ground arith, IsStrict-of_any_adjacent (y ∷ l) s.1 (rw e at h))
  ]

  pub first_adjacent-sort_by_key :
      (l : List A)
      → first_adjacent (λ a b. key a == key b) (sort_by_key key l) ≡ none
      → IsStrict (sort_by_key key l)
  unfolding sort_by_key
  first_adjacent-sort_by_key l h =
      IsStrict-of_first_adjacent (sort_by_key key l)
        (sort_by-IsSorted (key_le key) (key_le_total key) l) h
