-- ===== src/Prelude/Results.antt =====
-- `Result` with its `?` operator, and loops over a collection that stop at the first error.
use mathlib.Core.Path.{◌≡◌, refl, ap}
use mathlib.Core.Logic.{◌⊎◌, inl, inr}
use mathlib.Core.Bool.{Bool, true, false}
use mathlib.Core.List.{List, [], ◌∷◌}
use mathlib.Core.Option.{Option, none, some}

pub data Result {ℓ κ} (A : Type ℓ) (E : Type κ) : Type (ℓ ⊔ κ) where
  ok : A → Result A E
  err : E → Result A E

-- `if test { return Err(e) }`
abbrev pub reject_if {ℓ} : {E : Type ℓ} → Bool → E → Result (Unit {0}) E
reject_if true e = err e
reject_if false e = ok tt

-- `if let Some(x) = found { return Err(e(x)) }`
abbrev pub reject_some {ℓ κ} : {A : Type ℓ} {E : Type κ} → (A → E) → Option A → Result (Unit {0}) E
reject_some e none = ok tt
reject_some e (some a) = err (e a)

abbrev pub ok_or {ℓ κ} : {A : Type ℓ} {E : Type κ} → Option A → E → Result A E
ok_or none e = err e
ok_or (some a) e = ok a

abbrev pub map_err {ℓ κ μ} :
    {A : Type ℓ} {E : Type κ} {F : Type μ} → (E → F) → Result A E → Result A F
map_err f (ok a) = ok a
map_err f (err e) = err (f e)

-- `let value = result?;` and what follows it, with and without a value.
infixl 5 ◌>>=◌ ◌>>◌
abbrev pub ◌>>=◌ {α β ρ} :
    {V : Type α} {W : Type β} {Failure : Type ρ}
    → Result V Failure
    → (V → Result W Failure)
    → Result W Failure
err failure >>= next = err failure
ok value >>= next = next value

abbrev pub ◌>>◌ {β ρ} :
    {W : Type β} {Failure : Type ρ}
    → Result (Unit {0}) Failure
    → Result W Failure
    → Result W Failure
check >> rest = check >>= λ done. rest

-- `for x in xs { check(x)?; }`
abbrev pub for_each {ℓ κ} :
    {A : Type ℓ} {E : Type κ} → (A → Result (Unit {0}) E) → List A → Result (Unit {0}) E
for_each f [] = ok tt
for_each f (x ∷ xs) = f x >> for_each f xs

pub Result-cases {ℓ κ} :
    {A : Type ℓ} {E : Type κ} (r : Result A E) → ((a : A) × (r ≡ ok a)) ⊎ ((e : E) × (r ≡ err e))
Result-cases (ok a) = inl (a, refl)
Result-cases (err e) = inr (e, refl)

module _ {α β ρ} {V : Type α} {W : Type β} {Failure : Type ρ} where
  pub >>=-eq-ok :
      (first : Result V Failure) (next : V → Result W Failure) {w : W}
      → (first >>= next) ≡ ok w
      → (v : V) × (first ≡ ok v) × (next v ≡ ok w)
  >>=-eq-ok (err failure) next h = cc
  >>=-eq-ok (ok v) next h = (v, refl, h)

pub >>-eq-ok {ℓ κ} :
    {B : Type ℓ} {E : Type κ} (m : Result (Unit {0}) E) (k : Result B E) {b : B}
    → (m >> k) ≡ ok b
    → (m ≡ ok tt) × (k ≡ ok b)
>>-eq-ok (ok tt) k h = (refl, h)
>>-eq-ok (err e) k h = cc

pub map_err-eq-ok {ℓ κ μ} :
    {A : Type ℓ} {E : Type κ} {F : Type μ} (f : E → F) (r : Result A E) {a : A}
    → map_err f r ≡ ok a
    → r ≡ ok a
map_err-eq-ok f (ok a) h = cc
map_err-eq-ok f (err e) h = cc

-- What follows a test that may return an error.
pub reject_if-eq-ok {ℓ κ} :
    {B : Type ℓ} {E : Type κ} (b : Bool) (e : E) (k : Result B E) {v : B}
    → (reject_if b e >> k) ≡ ok v
    → (b ≡ false) × (k ≡ ok v)
reject_if-eq-ok true e k h = cc
reject_if-eq-ok false e k h = (refl, h)

pub reject_some-eq-ok {ℓ κ μ} :
    {A : Type ℓ} {B : Type κ} {E : Type μ} (e : A → E) (o : Option A) (k : Result B E) {v : B}
    → (reject_some e o >> k) ≡ ok v
    → (o ≡ none) × (k ≡ ok v)
reject_some-eq-ok e none k h = (refl, h)
reject_some-eq-ok e (some a) k h = cc

pub ok_eq {ℓ κ} : {A : Type ℓ} {E : Type κ} {a b : A} → ◌≡◌ {A = Result A E} (ok a) (ok b) → a ≡ b
ok_eq h = cc h

pub ok_or-ok {ℓ κ} :
    {A : Type ℓ} {E : Type κ} (o : Option A) (e : E) {a : A} → ok_or o e ≡ ok a → o ≡ some a
ok_or-ok none e h = cc
ok_or-ok (some x) e h = ap some (ok_eq h)
