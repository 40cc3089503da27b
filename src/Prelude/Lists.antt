-- ===== src/Prelude/Lists.antt =====
-- Lists measured by native numbers, and what the code asks of slices, sets and maps.
use Prim.Native.Nat.{ℕ, suc, ◌+◌}
use mathlib.Core.Path.{◌≡◌}
use mathlib.Core.Bool.{Bool, true, false, ◌&&◌, ◌||◌}
use mathlib.Core.List.{List, [], ◌∷◌, ◌++◌}
use mathlib.Core.Option.{Option, none, some}
use native.Mathlib.Omega.{arith}
use road_sim.Prelude.Tests.{◌==◌, if◌then◌else◌}

module _ {ℓ} {A : Type ℓ} where
  abbrev pub length : List A → ℕ
  length [] = 0
  length (x ∷ xs) = suc (length xs)

  pub length-append : (xs ys : List A) → length (xs ++ ys) ≡ length xs + length ys
  length-append [] ys = omega arith
  length-append (x ∷ xs) ys = omega (arith, length-append xs ys)

  abbrev pub is_empty : List A → Bool
  is_empty [] = true
  is_empty (x ∷ xs) = false

  -- `iter().any(p)` and `iter().all(p)`
  abbrev pub any : (A → Bool) → List A → Bool
  any p [] = false
  any p (x ∷ xs) = p x || any p xs

  abbrev pub all : (A → Bool) → List A → Bool
  all p [] = true
  all p (x ∷ xs) = p x && all p xs

  -- `windows(2).find(|pair| same(pair[0], pair[1])).map(|pair| pair[0])`
  abbrev pub first_adjacent : (A → A → Bool) → List A → Option A
  first_adjacent same [] = none
  first_adjacent same (x ∷ []) = none
  first_adjacent same (x ∷ y ∷ xs) = if same x y then some x else first_adjacent same (y ∷ xs)

  -- `windows(2).any(|pair| same(pair[0], pair[1]))`
  abbrev pub any_adjacent : (A → A → Bool) → List A → Bool
  any_adjacent same [] = false
  any_adjacent same (x ∷ []) = false
  any_adjacent same (x ∷ y ∷ xs) = same x y || any_adjacent same (y ∷ xs)

-- `contains` on a slice of identifiers, or on a set of them.
abbrev pub contains : List ℕ → ℕ → Bool
contains [] a = false
contains (x ∷ xs) a = (x == a) || contains xs a

-- The first identifier that occurs before it too: `find_map` over `BTreeSet::insert`.
abbrev pub first_repeated : List ℕ → List ℕ → Option ℕ
first_repeated seen [] = none
first_repeated seen (x ∷ xs) = if contains seen x then some x else first_repeated (x ∷ seen) xs

-- `a.or_else(|| b)` on options, which is `flatten().next()` over a list of them.
abbrev pub or_else {ℓ} : {A : Type ℓ} → Option A → Option A → Option A
or_else none b = b
or_else (some a) b = some a

abbrev pub is_some {ℓ} : {A : Type ℓ} → Option A → Bool
is_some none = false
is_some (some a) = true
