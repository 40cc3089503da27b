-- ===== src/Prelude/Members.antt =====
-- Membership in a list, which sorting keeps, and flags kept as a list of Booleans.
use Prim.Native.Nat.{ℕ, zero, suc, ◌<◌, ◌≤◌}
use mathlib.Core.Path.{◌≡◌, refl, ap, sym, ◌∙◌}
use mathlib.Core.Logic.{◌⊎◌, inl, inr, ◌↔◌, ⊎_elim}
use mathlib.Core.Bool.{Bool, true, false}
use mathlib.Core.Option.{Option, none, some}
use mathlib.Core.List.{List, [], ◌∷◌, map, Memᴰ}
use mathlib.Core.List.Memᴰ
use native.Mathlib.Omega.{arith}
use road_sim.Prelude.Tests.{if◌then◌else◌, Bool-cases}
use road_sim.Prelude.Lists.{length, any}
use road_sim.Prelude.Sort.{insert_by, sort_by}

pub some-eq {ℓ} : {A : Type ℓ} {x y : A} → ◌≡◌ {A = Option A} (some x) (some y) → x ≡ y
some-eq h = cc h

-- What follows a test that returns `None`.
pub if-eq-some {ℓ} :
    {A : Type ℓ} (b : Bool) (x : A) {y : A}
    → (if b then none else some x) ≡ some y
    → (b ≡ false) × (x ≡ y)
if-eq-some true x h = cc
if-eq-some false x h = (refl, some-eq h)

module _ {ℓ} {A : Type ℓ} where
  pub Memᴰ-cons : (a x : A) (xs : List A) → Memᴰ a (x ∷ xs) ↔ ((a ≡ x) ⊎ Memᴰ a xs)
  Memᴰ-cons a x xs = (Memᴰ.cases_cons, ⊎_elim Memᴰ.head Memᴰ.tail)

  Memᴰ-insert_by :
      (le : A → A → Bool) (a x : A) (l : List A) → Memᴰ a (insert_by le x l) ↔ ((a ≡ x) ⊎ Memᴰ a l)
  unfolding insert_by
  Memᴰ-insert_by le a x [] = Memᴰ-cons a x []
  Memᴰ-insert_by le a x (y ∷ l) = ground (
    arith,
    Memᴰ-cons a x (y ∷ l),
    Memᴰ-cons a y (insert_by le x l),
    Memᴰ-cons a y l,
    Memᴰ-insert_by le a x l,
  )

  pub Memᴰ-sort_by : (le : A → A → Bool) (a : A) (l : List A) → Memᴰ a (sort_by le l) ↔ Memᴰ a l
  unfolding sort_by
  Memᴰ-sort_by le a [] = (λ m. m, λ m. m)
  Memᴰ-sort_by le a (x ∷ l) =
      ground (arith, Memᴰ-insert_by le a x (sort_by le l), Memᴰ-sort_by le a l, Memᴰ-cons a x l)

  pub length-insert_by :
      (le : A → A → Bool) (x : A) (l : List A) → length (insert_by le x l) ≡ suc (length l)
  unfolding insert_by
  length-insert_by le x [] = refl
  length-insert_by le x (y ∷ l) = ground (arith, length-insert_by le x l)

  pub length-sort_by : (le : A → A → Bool) (l : List A) → length (sort_by le l) ≡ length l
  unfolding sort_by
  length-sort_by le [] = refl
  length-sort_by le (x ∷ l) =
      omega (arith, length-insert_by le x (sort_by le l), length-sort_by le l)

  -- A test that no member passes.
  pub any-false :
      (p : A → Bool) (xs : List A) → (any p xs ≡ false) ↔ ((x : A) → Memᴰ x xs → p x ≡ false)
  any-false p [] = (λ h x m. absurd (Memᴰ.not-nil m), λ h. refl)
  any-false p (y ∷ ys) = (
    λ h x m. elim (Memᴰ.cases_cons m) [
      | inl e ↦ rw e (ground arith)
      | inr rest ↦ (any-false p ys).0 (ground arith) x rest
    ],
    λ h.
        let first = h y (Memᴰ.head refl) in
        let rest = (any-false p ys).1 (λ x m. h x (Memᴰ.tail m)) in ground arith,
  )

  pub any-eq_of_members :
      (p : A → Bool) (xs ys : List A) → ((x : A) → Memᴰ x xs ↔ Memᴰ x ys) → any p xs ≡ any p ys
  any-eq_of_members p xs ys h = elim (Bool-cases (any p xs)) [
    | inr e ↦ e ∙ sym ((any-false p ys).1 (λ x m. (any-false p xs).0 e x ((h x).1 m)))
    | inl e ↦ elim (Bool-cases (any p ys)) [
      | inl f ↦ e ∙ sym f
      | inr f ↦ (any-false p xs).1 (λ x m. (any-false p ys).0 f x ((h x).0 m)) ∙ sym f
    ]
  ]

  -- `items.get(i)`
  abbrev pub get_elem? : List A → ℕ → Option A
  get_elem? [] i = none
  get_elem? (x ∷ xs) zero = some x
  get_elem? (x ∷ xs) (suc i) = get_elem? xs i

  pub get_elem?-mem : (xs : List A) (i : ℕ) (x : A) → get_elem? xs i ≡ some x → Memᴰ x xs
  get_elem?-mem [] i x h = cc
  get_elem?-mem (y ∷ xs) zero x h = Memᴰ.head (sym (some-eq h))
  get_elem?-mem (y ∷ xs) (suc i) x h = Memᴰ.tail (get_elem?-mem xs i x h)

  pub get_elem?-lt : (xs : List A) (i : ℕ) → i < length xs → (x : A) × (get_elem? xs i ≡ some x)
  get_elem?-lt [] i h = absurd (omega arith)
  get_elem?-lt (x ∷ xs) zero h = (x, refl)
  get_elem?-lt (x ∷ xs) (suc i) h = get_elem?-lt xs i (omega arith)

  pub get_elem?-ge : (xs : List A) (i : ℕ) → length xs ≤ i → get_elem? xs i ≡ none
  get_elem?-ge [] i h = refl
  get_elem?-ge (x ∷ xs) zero h = absurd (omega arith)
  get_elem?-ge (x ∷ xs) (suc i) h = get_elem?-ge xs i (omega arith)

  -- `items[i]`, with a default out of range, and `items[i] = v`
  abbrev pub get_or : List A → ℕ → A → A
  get_or [] i d = d
  get_or (x ∷ xs) zero d = x
  get_or (x ∷ xs) (suc i) d = get_or xs i d

  abbrev pub set_at : List A → ℕ → A → List A
  set_at [] i v = []
  set_at (x ∷ xs) zero v = v ∷ xs
  set_at (x ∷ xs) (suc i) v = x ∷ set_at xs i v

  pub length-set_at : (xs : List A) (i : ℕ) (v : A) → length (set_at xs i v) ≡ length xs
  length-set_at [] i v = refl
  length-set_at (x ∷ xs) zero v = refl
  length-set_at (x ∷ xs) (suc i) v = ap suc (length-set_at xs i v)

  -- `vec![v; n]`
  abbrev pub replicate : ℕ → A → List A
  replicate zero v = []
  replicate (suc n) v = v ∷ replicate n v

  pub length-replicate : (n : ℕ) (v : A) → length (replicate n v) ≡ n
  length-replicate zero v = refl
  length-replicate (suc n) v = ap suc (length-replicate n v)

  pub get_or-replicate : (n i : ℕ) (v : A) → get_or (replicate n v) i v ≡ v
  get_or-replicate zero i v = refl
  get_or-replicate (suc n) zero v = refl
  get_or-replicate (suc n) (suc i) v = get_or-replicate n i v

pub any-true {ℓ} :
    {A : Type ℓ} (p : A → Bool) (xs : List A) → any p xs ≡ true → (x : A) × Memᴰ x xs × (p x ≡ true)
any-true p [] h = cc
any-true p (x ∷ xs) h = elim (Bool-cases (p x)) [
  | inl e ↦ (x, Memᴰ.head refl, e)
  | inr e ↦ let (y, m, f) = any-true p xs (ground arith) in (y, Memᴰ.tail m, f)
]

pub Memᴰ-map_cases {ℓ κ} :
    {A : Type ℓ} {B : Type κ} (f : A → B) (b : B) (xs : List A)
    → Memᴰ b (map f xs)
    → (a : A) × Memᴰ a xs × (b ≡ f a)
Memᴰ-map_cases f b [] m = absurd (Memᴰ.not-nil m)
Memᴰ-map_cases f b (x ∷ xs) m = elim (Memᴰ.cases_cons m) [
  | inl e ↦ (x, Memᴰ.head refl, e)
  | inr rest ↦ let (a, found, e) = Memᴰ-map_cases f b xs rest in (a, Memᴰ.tail found, e)
]

pub Memᴰ-map {ℓ κ} :
    {A : Type ℓ} {B : Type κ} (f : A → B) (a : A) (xs : List A) → Memᴰ a xs → Memᴰ (f a) (map f xs)
Memᴰ-map f a [] m = absurd (Memᴰ.not-nil m)
Memᴰ-map f a (x ∷ xs) m = elim (Memᴰ.cases_cons m) [
  | inl e ↦ Memᴰ.head (ap f e)
  | inr rest ↦ Memᴰ.tail (Memᴰ-map f a xs rest)
]

-- The flags that are not yet set.
abbrev pub unset : List Bool → ℕ
unset [] = 0
unset (false ∷ flags) = suc (unset flags)
unset (true ∷ flags) = unset flags

pub unset-replicate : (n : ℕ) → unset (replicate n false) ≡ n
unset-replicate zero = refl
unset-replicate (suc n) = ap suc (unset-replicate n)

pub get_or-set_at :
    (flags : List Bool) (i v : ℕ)
    → i < length flags
    → (get_or (set_at flags i true) v false ≡ true) ↔ ((get_or flags v false ≡ true) ⊎ (v ≡ i))
get_or-set_at [] i v h = absurd (omega arith)
get_or-set_at (f ∷ flags) zero zero h = (λ _. inr refl, λ _. refl)
get_or-set_at (f ∷ flags) (suc i) (suc v) h = ground (arith, get_or-set_at flags i v)
get_or-set_at (f ∷ flags) i v h = (inl, ⊎_elim (λ m. m) (λ e. absurd (omega arith)))

pub unset-set_at :
    (flags : List Bool) (i : ℕ)
    → i < length flags
    → get_or flags i false ≡ false
    → suc (unset (set_at flags i true)) ≡ unset flags
unset-set_at [] i h e = absurd (omega arith)
unset-set_at (f ∷ flags) zero h e = rw e
unset-set_at (false ∷ flags) (suc i) h e = ap suc (unset-set_at flags i (omega arith) e)
unset-set_at (true ∷ flags) (suc i) h e = unset-set_at flags i (omega arith) e
