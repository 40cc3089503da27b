-- ===== src/Prelude/Sort.antt =====
-- The standard library's stable sort, by a test `le` or by a key, as insertion sort: a stable sort
-- has one result, so the algorithm does not matter.
use Prim.Native.Nat.{ℕ}
use mathlib.Core.Path.{◌≡◌, refl}
use mathlib.Core.Bool.{Bool, true, false}
use mathlib.Core.List.{List, [], ◌∷◌}
use native.Mathlib.Omega.{arith}
use road_sim.Prelude.Tests.{leb, if◌then◌else◌}

module _ {ℓ} {A : Type ℓ} (le : A → A → Bool) where
  unfoldable pub insert_by : A → List A → List A
  insert_by x [] = x ∷ []
  insert_by x (y ∷ ys) = if le x y then x ∷ y ∷ ys else y ∷ insert_by x ys

  unfoldable pub sort_by : List A → List A
  unfolding insert_by
  sort_by [] = []
  sort_by (x ∷ xs) = insert_by x (sort_by xs)

  abbrev pub IsSorted : List A → Type 0
  IsSorted [] = Unit
  IsSorted (x ∷ []) = Unit
  IsSorted (x ∷ y ∷ l) = (le x y ≡ true) × IsSorted (y ∷ l)

  abbrev pub IsTotal : Type ℓ
  IsTotal = (a b : A) → le a b ≡ false → le b a ≡ true

  insert_by-IsSorted : IsTotal → (x : A) (l : List A) → IsSorted l → IsSorted (insert_by x l)
  unfolding insert_by
  insert_by-IsSorted total x [] s = tt
  insert_by-IsSorted total x (y ∷ []) s = ground (arith, total x y)
  insert_by-IsSorted total x (y ∷ z ∷ l) s =
      ground (arith, total x y, total x z, insert_by-IsSorted total x (z ∷ l))

  pub sort_by-IsSorted : IsTotal → (l : List A) → IsSorted (sort_by l)
  unfolding sort_by
  sort_by-IsSorted total [] = tt
  sort_by-IsSorted total (x ∷ l) = insert_by-IsSorted total x (sort_by l) (sort_by-IsSorted total l)

  pub sort_by_of_IsSorted : (l : List A) → IsSorted l → sort_by l ≡ l
  unfolding sort_by
  sort_by_of_IsSorted [] s = refl
  sort_by_of_IsSorted (x ∷ []) s = refl
  sort_by_of_IsSorted (x ∷ y ∷ l) s = ground (arith, sort_by_of_IsSorted (y ∷ l))

  -- Sorting again changes nothing.
  pub sort_by_idem : IsTotal → (l : List A) → sort_by (sort_by l) ≡ sort_by l
  sort_by_idem total l = sort_by_of_IsSorted (sort_by l) (sort_by-IsSorted total l)

-- `sort_by_key(key)`
abbrev pub key_le {ℓ} : {A : Type ℓ} → (A → ℕ) → A → A → Bool
key_le key a b = leb (key a) (key b)

unfoldable pub sort_by_key {ℓ} : {A : Type ℓ} → (A → ℕ) → List A → List A
unfolding sort_by
sort_by_key key = sort_by (key_le key)

pub key_le_total {ℓ} :
    {A : Type ℓ} (key : A → ℕ) (a b : A) → key_le key a b ≡ false → key_le key b a ≡ true
key_le_total key a b h = ground arith

pub sort_by_key_idem {ℓ} :
    {A : Type ℓ} (key : A → ℕ) (l : List A)
    → sort_by_key key (sort_by_key key l) ≡ sort_by_key key l
unfolding sort_by_key
sort_by_key_idem key l = sort_by_idem (key_le key) (key_le_total key) l
