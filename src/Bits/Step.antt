-- ===== src/Bits/Step.antt =====
-- One equation for the lowest binary digit of each bit operation. The library's operations stand
-- for a recursion on digits that carries fuel; these equations do without it.
use Prim.Native.Nat.{min, max, digits, differ, bit_and-bitwise, bit_or-bitwise, bit_xor-bitwise}
use patricia_c.Base.{
  ℕ, zero, suc, ◌+◌, ◌*◌, ◌/◌, ◌%◌, ◌≤◌, ◌<◌, bit_and, bit_or, bit_xor, ◌≡◌, refl, arith,
}

module _ (rest : ℕ → ℕ) (op : ℕ → ℕ → ℕ) where
  same_digits : (k l x y : ℕ) → x ≤ k → x ≤ l → digits rest op k x y ≡ digits rest op l x y
  same_digits zero zero x y hk hl = refl
  same_digits zero (suc l) zero y hk hl = refl
  same_digits zero (suc l) (suc x) y hk hl = elim hk [ ]
  same_digits (suc k) zero zero y hk hl = refl
  same_digits (suc k) zero (suc x) y hk hl = elim hl [ ]
  same_digits (suc k) (suc l) zero y hk hl = refl
  same_digits (suc k) (suc l) (suc x) y hk hl =
      omega (arith, same_digits k l (suc x / 2) (y / 2) (omega arith) (omega arith))

  -- Where the operation agrees with `rest` on a left operand of zero, the step holds at zero too.
  digit_step :
      ((y : ℕ) → rest y ≡ rest (y / 2) * 2 + op 0 (y % 2))
      → (x y : ℕ)
      → digits rest op x x y ≡ digits rest op (x / 2) (x / 2) (y / 2) * 2 + op (x % 2) (y % 2)
  digit_step base zero y = base y
  digit_step base (suc x) y =
      omega (arith, same_digits x (suc x / 2) (suc x / 2) (y / 2) (omega arith) (omega arith))

pub bit_or_step : (x y : ℕ) → bit_or x y ≡ bit_or (x / 2) (y / 2) * 2 + max (x % 2) (y % 2)
bit_or_step x y = simp bit_or-bitwise (digit_step (λ b. b) max (λ b. omega arith) x y)

pub bit_and_step : (x y : ℕ) → bit_and x y ≡ bit_and (x / 2) (y / 2) * 2 + min (x % 2) (y % 2)
bit_and_step x y = simp bit_and-bitwise (digit_step (λ b. 0) min (λ b. omega arith) x y)

differ_digits : (x y : ℕ) → x < 2 → y < 2 → differ x y ≡ (x + y) % 2
differ_digits zero y hx hy = omega arith
differ_digits (suc zero) zero hx hy = refl
differ_digits (suc zero) (suc y) hx hy = omega arith
differ_digits (suc (suc x)) y hx hy = absurd (omega arith)

pub bit_xor_step : (x y : ℕ) → bit_xor x y ≡ bit_xor (x / 2) (y / 2) * 2 + (x + y) % 2
bit_xor_step x y = omega (
  arith,
  bit_xor-bitwise x y,
  bit_xor-bitwise (x / 2) (y / 2),
  digit_step (λ b. b) differ (λ b. omega arith) x y,
  differ_digits (x % 2) (y % 2) (omega arith) (omega arith),
)
