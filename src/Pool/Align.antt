-- ===== src/Pool/Align.antt =====
-- `topalign` of src/vmbumppool.c in numbers.
use patricia_c.Base.{
  ℕ, ◌+◌, ◌-◌, ◌*◌, ◌/◌, ◌%◌, ◌^◌, ◌≤◌, ◌<◌, ◌≡◌, refl, sym, ap, ◌∙◌, bit_and, ◌==◌, true, arith,
  Bool, ltb, ◌&&◌,
}
use native.Mathlib.Nat.{
  div-lt_iff_lt-mul, div-add-mod', mod-eq_of_lt, mod_self, mod-lt, mul-mod_left,
}
use patricia_c.Base.Table.{holds_to, holds_at}
use patricia_c.Bits.{bit_and_mask, bit_and-zero}
use patricia_c.Bits.Fields.{bit_and_shift, bit_and_low}
use patricia_c.Heap.{ok}
use patricia_c.Pool.{topalign, pred64, not64}

-- What is needed of the powers of two below `2 ^ 64`.
abbrev power_known : ℕ → Bool
power_known k =
    ((2 ^ 64 - 2 ^ k) / 2 ^ k == 2 ^ (64 - k) - 1)
    && ((2 ^ 64 - 2 ^ k) % 2 ^ k == 0)
    && (2 ^ (64 - k) * 2 ^ k == 2 ^ 64)
    && ltb 0 (2 ^ k)
    && ltb (2 ^ k) (2 ^ 64)

powers_known : holds_to power_known 64 ≡ true
unfolding holds_to
powers_known = refl

pub power_facts :
    (k : ℕ)
    → k < 64
    → ((2 ^ 64 - 2 ^ k) / 2 ^ k ≡ 2 ^ (64 - k) - 1)
      × ((2 ^ 64 - 2 ^ k) % 2 ^ k ≡ 0)
      × (2 ^ (64 - k) * 2 ^ k ≡ 2 ^ 64)
      × (0 < 2 ^ k)
      × (2 ^ k < 2 ^ 64)
power_facts k l = ground (arith, holds_at power_known 64 k powers_known l)

-- Masking with the complement of `2 ^ k - 1` rounds down.
bit_and-not : (k x : ℕ) → k < 64 → x < 2 ^ 64 → bit_and x (2 ^ 64 - 2 ^ k) ≡ x / 2 ^ k * 2 ^ k
bit_and-not k x l fits =
    let (quot, rest, whole, pos, le) = power_facts k l in
    let small : x / 2 ^ k < 2 ^ (64 - k) = (div-lt_iff_lt-mul pos).1 (rw whole fits) in
    let high : bit_and x (2 ^ 64 - 2 ^ k) / 2 ^ k ≡ x / 2 ^ k =
      bit_and_shift k x (2 ^ 64 - 2 ^ k)
      ∙ rw quot (bit_and_mask (64 - k) (x / 2 ^ k) ∙ mod-eq_of_lt small) in
    let low : bit_and x (2 ^ 64 - 2 ^ k) % 2 ^ k ≡ 0 =
      bit_and_low k x (2 ^ 64 - 2 ^ k) ∙ rw rest (bit_and-zero (x % 2 ^ k)) in
    sym (div-add-mod' (bit_and x (2 ^ 64 - 2 ^ k)) (2 ^ k)) ∙ rw (high, low) (omega arith)

pub pred64-pow : (k : ℕ) → k < 64 → pred64 (2 ^ k) ≡ 2 ^ k - 1
pred64-pow k l = let (quot, rest, whole, pos, le) = power_facts k l in omega arith

-- `topalign` at a power of two rounds up to a multiple of it.
pub topalign_up :
    (k base : ℕ)
    → k < 64
    → base + 2 ^ k ≤ 2 ^ 64
    → topalign base (2 ^ k) ≡ ok ((base + (2 ^ k - 1)) / 2 ^ k * 2 ^ k)
unfolding topalign
topalign_up k base l room =
    let (quot, rest, whole, pos, le) = power_facts k l in
    let power : bit_and (2 ^ k) (2 ^ k - 1) ≡ 0 = bit_and_mask k (2 ^ k) ∙ mod_self (2 ^ k) in
    let fits : (base + (2 ^ k - 1)) % 2 ^ 64 ≡ base + (2 ^ k - 1) = omega arith in
    let mask : not64 (2 ^ k - 1) ≡ 2 ^ 64 - 2 ^ k = omega arith in
    rw (pred64-pow k l, power, fits, mask)
      (ap ok (bit_and-not k (base + (2 ^ k - 1)) l (omega arith)))

-- For an alignment that is a power of two below 2 ^ 64 and a base that leaves room for one
-- alignment below 2 ^ 64, the assertion holds and the result is a multiple of the alignment, at
-- least the base and less than one alignment above it.
pub topalign_lem :
    (k base : ℕ)
    → k < 64
    → base + 2 ^ k ≤ 2 ^ 64
    → (z : ℕ) × (topalign base (2 ^ k) ≡ ok z) × (base ≤ z) × (z < base + 2 ^ k) × (z % 2 ^ k ≡ 0)
topalign_lem k base l room =
    let (quot, rest, whole, pos, le) = power_facts k l in
    let sum : ℕ = base + (2 ^ k - 1) in
    let split : sum / 2 ^ k * 2 ^ k + sum % 2 ^ k ≡ sum = div-add-mod' sum (2 ^ k) in
    let part : sum % 2 ^ k < 2 ^ k = mod-lt sum pos in
    (_, topalign_up k base l room, omega arith, omega arith, mul-mod_left (sum / 2 ^ k) (2 ^ k))
