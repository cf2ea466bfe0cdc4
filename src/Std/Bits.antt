-- ===== src/Std/Bits.antt =====
-- The bit operations that the crates use, at variables.
use Prim.Native.Nat.{bit_or, bit_xor, bit_or-bitwise, bit_xor-bitwise, digits, differ, max}
use telemetry_fabric.Prelude.{ℕ, zero, suc, ◌/◌, ◌%◌, ◌≤◌, ◌≡◌, ◌∙◌, sym, ap, refl, arith}

differ-eq_zero : (x y : ℕ) → differ x y ≡ 0 → x ≡ y
differ-eq_zero zero y h = sym h
differ-eq_zero (suc x) zero h = h
differ-eq_zero (suc x) (suc y) h = ap suc (differ-eq_zero x y h)

differ_self : (x : ℕ) → differ x x ≡ 0
differ_self zero = refl
differ_self (suc x) = differ_self x

xor_digits-eq_zero : (n a b : ℕ) → a ≤ n → digits (λ c. c) differ n a b ≡ 0 → a ≡ b
xor_digits-eq_zero zero zero b l h = sym h
xor_digits-eq_zero zero (suc a) b l h = absurd (omega arith)
xor_digits-eq_zero (suc n) zero b l h = sym h
xor_digits-eq_zero (suc n) (suc a) b l h =
    let high : suc a / 2 ≡ b / 2 =
      xor_digits-eq_zero n (suc a / 2) (b / 2) (omega arith) (omega arith) in
    let low : suc a % 2 ≡ b % 2 = differ-eq_zero (suc a % 2) (b % 2) (omega arith) in omega arith

pub bit_xor-eq_zero : (a b : ℕ) → bit_xor a b ≡ 0 → a ≡ b
bit_xor-eq_zero a b h = xor_digits-eq_zero a a b (omega arith) (sym (bit_xor-bitwise a b) ∙ h)

xor_digits_self : (n a : ℕ) → a ≤ n → digits (λ c. c) differ n a a ≡ 0
xor_digits_self zero zero l = refl
xor_digits_self zero (suc a) l = absurd (omega arith)
xor_digits_self (suc n) zero l = refl
xor_digits_self (suc n) (suc a) l =
    omega (arith, xor_digits_self n (suc a / 2) (omega arith), differ_self (suc a % 2))

pub bit_xor_self : (a : ℕ) → bit_xor a a ≡ 0
bit_xor_self a = bit_xor-bitwise a a ∙ xor_digits_self a a (omega arith)

or_digits-eq_zero : (n a b : ℕ) → a ≤ n → digits (λ c. c) max n a b ≡ 0 → (a ≡ 0) × (b ≡ 0)
or_digits-eq_zero zero zero b l h = (refl, h)
or_digits-eq_zero zero (suc a) b l h = absurd (omega arith)
or_digits-eq_zero (suc n) zero b l h = (refl, h)
or_digits-eq_zero (suc n) (suc a) b l h =
    let high : (suc a / 2 ≡ 0) × (b / 2 ≡ 0) =
      or_digits-eq_zero n (suc a / 2) (b / 2) (omega arith) (omega arith) in
    (omega arith, omega arith)

pub bit_or-eq_zero : (a b : ℕ) → bit_or a b ≡ 0 → (a ≡ 0) × (b ≡ 0)
bit_or-eq_zero a b h = or_digits-eq_zero a a b (omega arith) (sym (bit_or-bitwise a b) ∙ h)
