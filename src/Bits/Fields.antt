-- ===== src/Bits/Fields.antt =====
-- `&` and `|` on the upper and the lower part of a word.
use native.Mathlib.Nat.{pow-suc, one-le-pow, div-one, div-div-eq-div-mul, mul_comm}
use mathlib.Core.Path.{ap₂}
use patricia_c.Base.{ℕ, zero, suc, ◌+◌, ◌*◌, ◌/◌, ◌%◌, ◌^◌, ◌≡◌, sym, ap, arith, bit_and, bit_or}
use patricia_c.Bits.{div-two-pow-suc}
use patricia_c.Bits.Step.{bit_and_step, bit_or_step}

pub bit_and_shift : (k a b : ℕ) → bit_and a b / 2 ^ k ≡ bit_and (a / 2 ^ k) (b / 2 ^ k)
bit_and_shift zero a b = simp div-one
bit_and_shift (suc k) a b = omega (
  arith,
  div-two-pow-suc k (bit_and a b),
  ap₂ bit_and (div-two-pow-suc k a) (div-two-pow-suc k b),
  bit_and_shift k a b,
  bit_and_step (a / 2 ^ k) (b / 2 ^ k),
)

pub bit_or_shift : (k a b : ℕ) → bit_or a b / 2 ^ k ≡ bit_or (a / 2 ^ k) (b / 2 ^ k)
bit_or_shift zero a b = simp div-one
bit_or_shift (suc k) a b = omega (
  arith,
  div-two-pow-suc k (bit_or a b),
  ap₂ bit_or (div-two-pow-suc k a) (div-two-pow-suc k b),
  bit_or_shift k a b,
  bit_or_step (a / 2 ^ k) (b / 2 ^ k),
)

-- The low part without its lowest digit.
low_part : (k x : ℕ) → x % 2 ^ suc k ≡ x / 2 % 2 ^ k * 2 + x % 2
low_part k x = omega (
  arith,
  ap (λ (t : ℕ). 2 ^ suc k * t) quotient,
  ap (λ (t : ℕ). t * (x / 2 / 2 ^ k)) (pow-suc 2 k),
  one-le-pow k 2,
)
  where
    quotient : x / 2 ^ suc k ≡ x / 2 / 2 ^ k
    quotient = rw (pow-suc, mul_comm (2 ^ k) 2) (sym (div-div-eq-div-mul x 2 (2 ^ k)))

low_half : (k x : ℕ) → x % 2 ^ suc k / 2 ≡ x / 2 % 2 ^ k
low_half k x = omega (arith, low_part k x)

low_digit : (k x : ℕ) → x % 2 ^ suc k % 2 ≡ x % 2
low_digit k x = omega (arith, low_part k x)

pub bit_and_low : (k a b : ℕ) → bit_and a b % 2 ^ k ≡ bit_and (a % 2 ^ k) (b % 2 ^ k)
bit_and_low zero a b =
    let e : a % 1 ≡ 0 = omega arith in let f : b % 1 ≡ 0 = omega arith in rw (e, f) (omega arith)
bit_and_low (suc k) a b = omega (
  arith,
  low_part k (bit_and a b),
  low_digit k a,
  low_digit k b,
  bit_and_step a b,
  bit_and_step (a % 2 ^ suc k) (b % 2 ^ suc k),
  ap₂ bit_and (low_half k a) (low_half k b),
  ap (λ (t : ℕ). t % 2 ^ k) (halves k a b),
  bit_and_low k (a / 2) (b / 2),
)
  where
    halves : (k a b : ℕ) → bit_and a b / 2 ≡ bit_and (a / 2) (b / 2)
    halves k a b = omega (arith, bit_and_step a b)

pub bit_or_low : (k a b : ℕ) → bit_or a b % 2 ^ k ≡ bit_or (a % 2 ^ k) (b % 2 ^ k)
bit_or_low zero a b =
    let e : a % 1 ≡ 0 = omega arith in let f : b % 1 ≡ 0 = omega arith in rw (e, f) (omega arith)
bit_or_low (suc k) a b = omega (
  arith,
  low_part k (bit_or a b),
  low_digit k a,
  low_digit k b,
  bit_or_step a b,
  bit_or_step (a % 2 ^ suc k) (b % 2 ^ suc k),
  ap₂ bit_or (low_half k a) (low_half k b),
  ap (λ (t : ℕ). t % 2 ^ k) (halves k a b),
  bit_or_low k (a / 2) (b / 2),
)
  where
    halves : (k a b : ℕ) → bit_or a b / 2 ≡ bit_or (a / 2) (b / 2)
    halves k a b = omega (arith, bit_or_step a b)
