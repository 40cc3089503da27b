-- ===== src/Worker/Token/Bits.antt =====
-- When the exclusive or, and the or, of two numbers is zero.
use road_sim.Prelude.{
  subst₂, ℕ, zero, suc, ◌/◌, ◌%◌, ◌≤◌, ◌≡◌, refl, sym, ap, subst, ◌∙◌, ◌↔◌, arith,
}
use Prim.Native.Nat.{bit_or, bit_xor, bit_or-bitwise, bit_xor-bitwise, digits, differ, max}

differ_zero : (x y : ℕ) → differ x y ≡ 0 → x ≡ y
differ_zero zero y h = sym h
differ_zero (suc x) zero h = absurd (omega (arith, h))
differ_zero (suc x) (suc y) h = ap suc (differ_zero x y h)

differ_self : (x : ℕ) → differ x x ≡ 0
differ_self zero = refl
differ_self (suc x) = differ_self x

xor_digits_zero : (n a b : ℕ) → a ≤ n → digits (λ b. b) differ n a b ≡ 0 → a ≡ b
xor_digits_zero zero a b h e = omega (arith, h, e)
xor_digits_zero (suc n) zero b h e = sym e
xor_digits_zero (suc n) (suc a) b h e =
    let rest = digits (λ b. b) differ n (suc a / 2) (b / 2) in
    let high : rest ≡ 0 = omega (arith, e) in
    let low : differ (suc a % 2) (b % 2) ≡ 0 = omega (arith, e) in
    let halves = xor_digits_zero n (suc a / 2) (b / 2) (omega (arith, h)) high in
    omega (arith, halves, differ_zero (suc a % 2) (b % 2) low)

xor_digits_self : (n a : ℕ) → a ≤ n → digits (λ b. b) differ n a a ≡ 0
xor_digits_self zero a h = omega arith
xor_digits_self (suc n) zero h = refl
xor_digits_self (suc n) (suc a) h =
    omega (arith, xor_digits_self n (suc a / 2) (omega (arith, h)), differ_self (suc a % 2))

or_digits_zero : (n a b : ℕ) → a ≤ n → digits (λ b. b) max n a b ≡ 0 → (a ≡ 0) × (b ≡ 0)
or_digits_zero zero a b h e = (omega arith, e)
or_digits_zero (suc n) zero b h e = (refl, e)
or_digits_zero (suc n) (suc a) b h e =
    let rest = digits (λ b. b) max n (suc a / 2) (b / 2) in
    let high : rest ≡ 0 = omega (arith, e) in
    let low : max (suc a % 2) (b % 2) ≡ 0 = omega (arith, e) in
    let (ha, hb) = or_digits_zero n (suc a / 2) (b / 2) (omega (arith, h)) high in
    (omega (arith, ha, low), omega (arith, hb, low))

pub bit_xor_zero : (a b : ℕ) → (bit_xor a b ≡ 0) ↔ (a ≡ b)
bit_xor_zero a b = (
  λ e. xor_digits_zero a a b (omega arith) (sym (bit_xor-bitwise a b) ∙ e),
  λ e. subst (λ c. bit_xor a c ≡ 0) e (bit_xor-bitwise a a ∙ xor_digits_self a a (omega arith)),
)

pub bit_or_zero : (a b : ℕ) → (bit_or a b ≡ 0) ↔ ((a ≡ 0) × (b ≡ 0))
bit_or_zero a b = (
  λ e. or_digits_zero a a b (omega arith) (sym (bit_or-bitwise a b) ∙ e),
  λ (e, f). subst₂ (λ x y. bit_or x y ≡ 0) (sym e) (sym f) refl,
)
