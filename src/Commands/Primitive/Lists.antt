-- ===== src/Commands/Primitive/Lists.antt =====
-- What the primitive commands do to a list of corridors, seen through the lookup by identifier.
use road_sim.Prelude.{
  ℕ, ◌≡◌, refl, inl, inr, List, [], ◌∷◌, ◌++◌, none, some, arith, ◌==◌, if◌then◌else◌, any, is_some,
  Option-cases,
}
use road_sim.Prelude.Keyed.{find, find-append, Distinct}
use road_sim.Domain.Corridor.{Corridor, key}
use road_sim.Commands.Primitive.{replace_first, remove_first}

pub find-key : (i : ℕ) (c : Corridor) (m : List Corridor) → find key i m ≡ some c → key c ≡ i
unfolding find
find-key i c [] h = cc
find-key i c (d ∷ m) h = ground (arith, find-key i c m)

pub any-find : (i : ℕ) (m : List Corridor) → any (λ d. key d == i) m ≡ is_some (find key i m)
unfolding find
any-find i [] = refl
any-find i (d ∷ m) = ground (arith, any-find i m)

pub append-Distinct :
    (c : Corridor) (m : List Corridor)
    → find key (key c) m ≡ none
    → Distinct key m
    → Distinct key (m ++ c ∷ [])
unfolding find
append-Distinct c [] f d = (refl, tt)
append-Distinct c (x ∷ m) f d =
    ground (arith, find-append key (key x) m (c ∷ []), append-Distinct c m)

pub replace_first-none :
    (c : Corridor) (m : List Corridor) → replace_first c m ≡ none → find key (key c) m ≡ none
unfolding find replace_first
replace_first-none c [] h = refl
replace_first-none c (d ∷ m) h = ground (arith, replace_first-none c m)

pub replace_first_old :
    (c : Corridor) (m : List Corridor) {old : Corridor} {m' : List Corridor}
    → replace_first c m ≡ some (old, m')
    → find key (key c) m ≡ some old
unfolding find replace_first
replace_first_old c [] h = cc
replace_first_old c (d ∷ m) {old} {m'} h = elim (Option-cases (replace_first c m)) [
  | inl e ↦ ground arith
  | inr ((o, n), e) ↦ ground (arith, replace_first_old c m {old = o} {m' = n} e)
]

pub find-replace_first :
    (i : ℕ) (c : Corridor) (m : List Corridor) {old : Corridor} {m' : List Corridor}
    → replace_first c m ≡ some (old, m')
    → find key i m' ≡ (if key c == i then some c else find key i m)
unfolding find replace_first
find-replace_first i c [] h = cc
find-replace_first i c (d ∷ m) {old} {m'} h = elim (Option-cases (replace_first c m)) [
  | inl e ↦ ground arith
  | inr ((o, n), e) ↦ ground (arith, find-replace_first i c m {old = o} {m' = n} e)
]

pub remove_first-none : (i : ℕ) (m : List Corridor) → remove_first i m ≡ none → find key i m ≡ none
unfolding find remove_first
remove_first-none i [] h = refl
remove_first-none i (d ∷ m) h = ground (arith, remove_first-none i m)

pub remove_first_old :
    (i : ℕ) (m : List Corridor) {old : Corridor} {m' : List Corridor}
    → remove_first i m ≡ some (old, m')
    → find key i m ≡ some old
unfolding find remove_first
remove_first_old i [] h = cc
remove_first_old i (d ∷ m) {old} {m'} h = elim (Option-cases (remove_first i m)) [
  | inl e ↦ ground arith
  | inr ((o, n), e) ↦ ground (arith, remove_first_old i m {old = o} {m' = n} e)
]

pub find-remove_first :
    (j i : ℕ) (m : List Corridor) {old : Corridor} {m' : List Corridor}
    → Distinct key m
    → remove_first i m ≡ some (old, m')
    → find key j m' ≡ (if i == j then none else find key j m)
unfolding find remove_first
find-remove_first j i [] u h = cc
find-remove_first j i (d ∷ m) {old} {m'} u h = elim (Option-cases (remove_first i m)) [
  | inl e ↦ ground arith
  | inr ((o, n), e) ↦ ground (arith, find-remove_first j i m {old = o} {m' = n} u.1 e)
]

pub replace_first-Distinct :
    (c : Corridor) (m : List Corridor) {old : Corridor} {m' : List Corridor}
    → Distinct key m
    → replace_first c m ≡ some (old, m')
    → Distinct key m'
unfolding find replace_first
replace_first-Distinct c [] u h = cc
replace_first-Distinct c (d ∷ m) {old} {m'} u h = elim (Option-cases (replace_first c m)) [
  | inl e ↦ ground arith
  | inr ((o, n), e) ↦ ground (
    arith,
    find-replace_first (key d) c m {old = o} {m' = n} e,
    replace_first-Distinct c m {old = o} {m' = n} u.1 e,
  )
]

pub remove_first-Distinct :
    (i : ℕ) (m : List Corridor) {old : Corridor} {m' : List Corridor}
    → Distinct key m
    → remove_first i m ≡ some (old, m')
    → Distinct key m'
unfolding find remove_first
remove_first-Distinct i [] u h = cc
remove_first-Distinct i (d ∷ m) {old} {m'} u h = elim (Option-cases (remove_first i m)) [
  | inl e ↦ ground arith
  | inr ((o, n), e) ↦ ground (
    arith,
    find-remove_first (key d) i m {old = o} {m' = n} u.1 e,
    remove_first-Distinct i m {old = o} {m' = n} u.1 e,
  )
]
