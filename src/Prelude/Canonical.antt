-- ===== src/Prelude/Canonical.antt =====
-- Sorting followed by the removal of repeated neighbours: the one strictly ordered list of the
-- members.
use mathlib.Core.Path.{◌≡◌, refl, ap₂, sym, subst, ◌∙◌}
use mathlib.Core.Logic.{inl, inr, ◌↔◌}
use mathlib.Core.Bool.{Bool, true, false}
use mathlib.Core.List.{List, [], ◌∷◌, Memᴰ}
use mathlib.Core.List.Memᴰ
use native.Mathlib.Omega.{arith}
use road_sim.Prelude.Tests.{if◌then◌else◌, Bool-cases}
use road_sim.Prelude.Sort.{sort_by, IsSorted, IsTotal, sort_by-IsSorted}
use road_sim.Prelude.Members.{Memᴰ-cons, Memᴰ-sort_by}

module _ {ℓ} {A : Type ℓ} (le same : A → A → Bool) where
  -- What `dedup()` keeps behind `a`: of each run of equal neighbours the first stays.
  unfoldable pub dedup_after : A → List A → List A
  dedup_after a [] = []
  dedup_after a (b ∷ items) = let rest = dedup_after b items in if same a b then rest else b ∷ rest

  unfoldable pub dedup : List A → List A
  unfolding dedup_after
  dedup [] = []
  dedup (a ∷ items) = a ∷ dedup_after a items

  -- `items.sort_unstable(); items.dedup();`
  unfoldable pub sort_dedup : List A → List A
  unfolding sort_by dedup
  sort_dedup items = dedup (sort_by le items)

  -- A total order with a decidable equality.
  pub record IsOrder : Type ℓ where
    pub total : IsTotal le
    pub trans : (a b c : A) → le a b ≡ true → le b c ≡ true → le a c ≡ true
    pub antisym : (a b : A) → le a b ≡ true → le b a ≡ true → a ≡ b
    pub same_iff : (a b : A) → (same a b ≡ true) ↔ (a ≡ b)

  abbrev pub IsStrictBy : List A → Type 0
  IsStrictBy [] = Unit
  IsStrictBy (x ∷ []) = Unit
  IsStrictBy (x ∷ y ∷ l) = (le x y ≡ true) × (same x y ≡ false) × IsStrictBy (y ∷ l)

  IsStrictBy-tail : (x : A) (l : List A) → IsStrictBy (x ∷ l) → IsStrictBy l
  IsStrictBy-tail x [] s = tt
  IsStrictBy-tail x (y ∷ l) s = s.2

  pub IsStrictBy-IsSorted : (l : List A) → IsStrictBy l → IsSorted le l
  IsStrictBy-IsSorted [] s = tt
  IsStrictBy-IsSorted (x ∷ []) s = tt
  IsStrictBy-IsSorted (x ∷ y ∷ l) s = (s.0, IsStrictBy-IsSorted (y ∷ l) s.2)

  module _ (order : IsOrder) where
    behind :
        (x y : A) (l : List A)
        → IsStrictBy (x ∷ l)
        → Memᴰ y l
        → (le x y ≡ true) × (same x y ≡ false)
    behind x y [] s m = absurd (Memᴰ.not-nil m)
    behind x y (z ∷ l) s m = elim (Memᴰ.cases_cons m) [
      | inl e ↦ subst (λ w. (le x w ≡ true) × (same x w ≡ false)) (sym e) (s.0, s.1)
      | inr rest ↦
          let (above, apart) = behind z y l s.2 rest in
          (
            order.trans x z y s.0 above,
            elim (Bool-cases (same x y)) [
              | inr e ↦ e
              | inl e ↦
                  let x_y = (order.same_iff x y).0 e in
                  let y_z : le y z ≡ true = subst (λ w. le w z ≡ true) x_y s.0 in
                  let z_y = order.antisym z y above y_z in cc (apart, (order.same_iff z y).1 z_y)
            ],
          )
    ]

    dedup_after-IsStrictBy :
        (a : A) (l : List A) → IsSorted le (a ∷ l) → IsStrictBy (a ∷ dedup_after a l)
    unfolding dedup_after
    dedup_after-IsStrictBy a [] s = tt
    dedup_after-IsStrictBy a (b ∷ l) s = elim (Bool-cases (same a b)) [
      | inl e ↦
          let a_b = (order.same_iff a b).0 e in
          rw e (
            subst (λ w. IsStrictBy (w ∷ dedup_after b l)) (sym a_b)
              (dedup_after-IsStrictBy b l s.1))
      | inr e ↦ rw e (s.0, e, dedup_after-IsStrictBy b l s.1)
    ]

    Memᴰ-dedup_after : (x a : A) (l : List A) → Memᴰ x (a ∷ dedup_after a l) ↔ Memᴰ x (a ∷ l)
    unfolding dedup_after
    Memᴰ-dedup_after x a [] = (λ m. m, λ m. m)
    Memᴰ-dedup_after x a (b ∷ l) = ground (
      arith,
      Memᴰ-dedup_after x b l,
      Memᴰ-cons x a (b ∷ l),
      Memᴰ-cons x b l,
      Memᴰ-cons x a (dedup_after b l),
      Memᴰ-cons x b (dedup_after b l),
      Memᴰ-cons x a (b ∷ dedup_after b l),
      order.same_iff a b,
    )

    pub sort_dedup-IsStrictBy : (l : List A) → IsStrictBy (sort_dedup l)
    unfolding sort_dedup dedup
    sort_dedup-IsStrictBy l = go (sort_by le l) (sort_by-IsSorted le order.total l)
      where
        go : (l : List A) → IsSorted le l → IsStrictBy (dedup l)
        go [] s = tt
        go (a ∷ l) s = dedup_after-IsStrictBy a l s

    pub Memᴰ-sort_dedup : (x : A) (l : List A) → Memᴰ x (sort_dedup l) ↔ Memᴰ x l
    unfolding sort_dedup dedup
    Memᴰ-sort_dedup x l = ground (arith, Memᴰ-sort_by le x l, go (sort_by le l))
      where
        go : (l : List A) → Memᴰ x (dedup l) ↔ Memᴰ x l
        go [] = (λ m. m, λ m. m)
        go (a ∷ l) = Memᴰ-dedup_after x a l

    first-eq :
        (x y : A) (xs ys : List A)
        → IsStrictBy (x ∷ xs)
        → IsStrictBy (y ∷ ys)
        → Memᴰ x (y ∷ ys)
        → Memᴰ y (x ∷ xs)
        → x ≡ y
    first-eq x y xs ys s t m n = elim (Memᴰ.cases_cons m) [
      | inl e ↦ e
      | inr later ↦ elim (Memᴰ.cases_cons n) [
        | inl e ↦ sym e
        | inr later' ↦ order.antisym x y (behind x y xs s later').0 (behind y x ys t later).0
      ]
    ]

    rest-in :
        (a x y : A) (xs ys : List A)
        → IsStrictBy (x ∷ xs)
        → x ≡ y
        → (Memᴰ a (x ∷ xs) → Memᴰ a (y ∷ ys))
        → Memᴰ a xs
        → Memᴰ a ys
    rest-in a x y xs ys s e h m = elim (Memᴰ.cases_cons (h (Memᴰ.tail m))) [
      | inl first ↦ cc ((behind x a xs s m).1, (order.same_iff x a).1 (e ∙ sym first))
      | inr rest ↦ rest
    ]

    -- Two strictly ordered lists with the same members are equal.
    pub IsStrictBy-eq_of_members :
        (xs ys : List A)
        → IsStrictBy xs
        → IsStrictBy ys
        → ((a : A) → Memᴰ a xs ↔ Memᴰ a ys)
        → xs ≡ ys
    IsStrictBy-eq_of_members [] [] s t h = refl
    IsStrictBy-eq_of_members [] (y ∷ ys) s t h = absurd (Memᴰ.not-nil ((h y).1 (Memᴰ.head refl)))
    IsStrictBy-eq_of_members (x ∷ xs) [] s t h = absurd (Memᴰ.not-nil ((h x).0 (Memᴰ.head refl)))
    IsStrictBy-eq_of_members (x ∷ xs) (y ∷ ys) s t h =
        let first = first-eq x y xs ys s t ((h x).0 (Memᴰ.head refl)) ((h y).1 (Memᴰ.head refl)) in
        ap₂ ◌∷◌ first (
          IsStrictBy-eq_of_members xs ys (IsStrictBy-tail x xs s) (IsStrictBy-tail y ys t)
            (λ a. (rest-in a x y xs ys s first (h a).0, rest-in a y x ys xs t (sym first) (h a).1)))

    pub sort_dedup-eq_of_members :
        (xs ys : List A) → ((a : A) → Memᴰ a xs ↔ Memᴰ a ys) → sort_dedup xs ≡ sort_dedup ys
    sort_dedup-eq_of_members xs ys h =
        IsStrictBy-eq_of_members (sort_dedup xs) (sort_dedup ys) (sort_dedup-IsStrictBy xs)
          (sort_dedup-IsStrictBy ys)
          (λ a. ground (arith, Memᴰ-sort_dedup a xs, Memᴰ-sort_dedup a ys, h a))
