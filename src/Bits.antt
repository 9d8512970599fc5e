-- ===== src/Bits.antt =====
-- `&`, `|` and `^` of the C code as arithmetic, at every width.
mod Step
pub mod Bytes
pub mod Fields
use Step.{bit_or_step, bit_and_step, bit_xor_step}
use mathlib.Core.WellFounded
use Prim.Native.Nat.{bit_xor-bitwise, bit_and-bitwise}
use mathlib.Core.Path.{ap₂}
use native.Mathlib.Nat.{pow-suc, one-le-pow, div-one, div-div-eq-div-mul}
use patricia_c.Base.{
  ℕ, zero, suc, ◌+◌, ◌-◌, ◌*◌, ◌/◌, ◌%◌, ◌^◌, ◌≤◌, ◌<◌, bit_and, bit_or, bit_xor, ◌≡◌, refl, ap,
  arith,
}
use patricia_c.Base.Order.{lt_wf}

pub zero-bit_or : (a : ℕ) → bit_or 0 a ≡ a
zero-bit_or a = WellFounded.induction lt_wf {C = λ n. bit_or 0 n ≡ n} a λ n ih. half n ih
  where
    half : (n : ℕ) → ((m : ℕ) → m < n → bit_or 0 m ≡ m) → bit_or 0 n ≡ n
    half zero ih = refl
    half (suc n) ih = omega (arith, bit_or_step 0 (suc n), ih (suc n / 2) (omega arith))

pub bit_or-zero : (a : ℕ) → bit_or a 0 ≡ a
bit_or-zero a = WellFounded.induction lt_wf {C = λ n. bit_or n 0 ≡ n} a λ n ih. half n ih
  where
    half : (n : ℕ) → ((m : ℕ) → m < n → bit_or m 0 ≡ m) → bit_or n 0 ≡ n
    half zero ih = refl
    half (suc n) ih = omega (arith, bit_or_step (suc n) 0, ih (suc n / 2) (omega arith))

pub bit_and-zero : (a : ℕ) → bit_and a 0 ≡ 0
bit_and-zero a = WellFounded.induction lt_wf {C = λ n. bit_and n 0 ≡ 0} a λ n ih. half n ih
  where
    half : (n : ℕ) → ((m : ℕ) → m < n → bit_and m 0 ≡ 0) → bit_and n 0 ≡ 0
    half zero ih = refl
    half (suc n) ih = omega (arith, bit_and_step (suc n) 0, ih (suc n / 2) (omega arith))

double_shift : (q k : ℕ) → q * 2 ^ suc k ≡ q * 2 ^ k * 2
double_shift q k = omega (arith, ap (λ (t : ℕ). q * t) (pow-suc 2 k))

mask_low_part : (k q r : ℕ) → r < 2 ^ k → bit_and (q * 2 ^ k + r) (2 ^ k - 1) ≡ r
mask_low_part zero q r h = rw bit_and-zero (omega arith)
mask_low_part (suc k) q r h = ground (
  arith,
  double_shift q k,
  pow-suc 2 k,
  bit_and_step (q * 2 ^ suc k + r) (2 ^ suc k - 1),
  mask_low_part k q (r / 2) (omega arith),
)

pub zero-bit_and : (a : ℕ) → bit_and 0 a ≡ 0
zero-bit_and a = bit_and-bitwise 0 a

-- A mask of `k` ones keeps the `k` lowest digits.
pub bit_and_mask : (k a : ℕ) → bit_and a (2 ^ k - 1) ≡ a % 2 ^ k
bit_and_mask k a = ground (arith, mask_low_part k (a / 2 ^ k) (a % 2 ^ k), one-le-pow k 2)

-- The lowest digit of an exclusive or.
pub bit_xor_parity : (a b : ℕ) → bit_xor a b % 2 ≡ (a + b) % 2
bit_xor_parity a b = omega (arith, bit_xor_step a b)

-- A shift by one more place.
pub div-two-pow-suc : (k x : ℕ) → x / 2 ^ suc k ≡ x / 2 ^ k / 2
div-two-pow-suc k x = rw (pow-suc, div-div-eq-div-mul)

-- An exclusive or is zero exactly at equal operands.
pub bit_xor-eq-zero : (a b : ℕ) → bit_xor a b ≡ 0 → a ≡ b
bit_xor-eq-zero a b = below a a b (omega arith)
  where
    below : (n a b : ℕ) → a ≤ n → bit_xor a b ≡ 0 → a ≡ b
    below zero zero b h e = omega (arith, bit_xor-bitwise 0 b)
    below zero (suc a) b h e = elim h [ ]
    below (suc n) a b h e = omega (
      arith,
      bit_xor_step a b,
      below n (a / 2) (b / 2) (omega arith) (omega (arith, bit_xor_step a b)),
    )

pub bit_xor_self : (a : ℕ) → bit_xor a a ≡ 0
bit_xor_self a = WellFounded.induction lt_wf {C = λ n. bit_xor n n ≡ 0} a λ n ih. half n ih
  where
    half : (n : ℕ) → ((m : ℕ) → m < n → bit_xor m m ≡ 0) → bit_xor n n ≡ 0
    half zero ih = refl
    half (suc n) ih = omega (arith, bit_xor_step (suc n) (suc n), ih (suc n / 2) (omega arith))

-- An exclusive or is taken digit by digit, so a shift goes under it.
pub bit_xor_shift : (k a b : ℕ) → bit_xor a b / 2 ^ k ≡ bit_xor (a / 2 ^ k) (b / 2 ^ k)
bit_xor_shift zero a b = simp div-one
bit_xor_shift (suc k) a b = omega (
  arith,
  halve (bit_xor a b),
  ap₂ bit_xor (halve a) (halve b),
  bit_xor_shift k a b,
  bit_xor_step (a / 2 ^ k) (b / 2 ^ k),
)
  where
    halve : (x : ℕ) → x / 2 ^ suc k ≡ x / 2 ^ k / 2
    halve x = div-two-pow-suc k x
