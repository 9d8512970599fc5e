-- ===== src/Words/Swap.antt =====
-- `patricia_bswap` mirrors the bytes of a word.
use native.Mathlib.Nat.{
  div-div-eq-div-mul, mul-div_cancel, one-le-pow, mul_assoc, mul-mod_left, add-mul-div_left,
  div-eq_of_lt,
}
use mathlib.Core.Path.{ap₂}
use patricia_c.Base.{
  ℕ, zero, suc, ◌+◌, ◌-◌, ◌*◌, ◌/◌, ◌%◌, ◌^◌, ◌<◌, ◌≡◌, refl, sym, ◌∙◌, ap, arith, bit_and, bit_or,
  true, false, ltb, ◌==◌, if◌then◌else◌, Bool-cases, inl, inr, ==_iff,
}
use native.Mathlib.Decide.{dec_lt}
use patricia_c.Base.Table.{holds_to, holds_at}
use patricia_c.Bits.{bit_or-zero, zero-bit_or, bit_and-zero, bit_and_mask}
use patricia_c.Bits.Bytes.{byte_of, pow-add}
use patricia_c.Bits.Fields.{bit_and_shift, bit_or_shift, bit_and_low, bit_or_low}
use patricia_c.Words.{shl64, patricia_bswap}

byte_of-and : (x y j : ℕ) → byte_of (bit_and x y) j ≡ bit_and (byte_of x j) (byte_of y j)
byte_of-and x y j =
    ap (λ (t : ℕ). t % 2 ^ 8) (bit_and_shift (8 * j) x y)
    ∙ bit_and_low 8 (x / 2 ^ (8 * j)) (y / 2 ^ (8 * j))

byte_of-or : (x y j : ℕ) → byte_of (bit_or x y) j ≡ bit_or (byte_of x j) (byte_of y j)
byte_of-or x y j =
    ap (λ (t : ℕ). t % 2 ^ 8) (bit_or_shift (8 * j) x y)
    ∙ bit_or_low 8 (x / 2 ^ (8 * j)) (y / 2 ^ (8 * j))

unfoldable pub round : ℕ → ℕ → ℕ → ℕ
round bits mask v = bit_or (shl64 (bit_and v mask) bits) (bit_and (v / 2 ^ bits) mask)

-- The three rounds of the loop.
swap_rounds :
    (v : ℕ)
    → patricia_bswap v
      ≡ round 8 0x00ff00ff00ff00ff (round 16 0x0000ffff0000ffff (round 32 0x00000000ffffffff v))
unfolding patricia_bswap round
swap_rounds v = refl

low_bytes : (j x : ℕ) → j < 8 → byte_of (x % 2 ^ 64) j ≡ byte_of x j
low_bytes zero x h = omega arith
low_bytes (suc zero) x h = omega arith
low_bytes (suc (suc zero)) x h = omega arith
low_bytes (suc (suc (suc zero))) x h = omega arith
low_bytes (suc (suc (suc (suc zero)))) x h = omega arith
low_bytes (suc (suc (suc (suc (suc zero))))) x h = omega arith
low_bytes (suc (suc (suc (suc (suc (suc zero)))))) x h = omega arith
low_bytes (suc (suc (suc (suc (suc (suc (suc zero))))))) x h = omega arith
low_bytes (suc (suc (suc (suc (suc (suc (suc (suc j)))))))) x h = absurd (omega arith)

-- Shifts by whole bytes.
shr_byte : (q j x : ℕ) → byte_of (x / 2 ^ (8 * q)) j ≡ byte_of x (q + j)
shr_byte q j x =
    let e : 8 * (q + j) ≡ 8 * q + 8 * j = omega arith in
    ap (λ (t : ℕ). t % 2 ^ 8)
      (rw (e, pow-add (8 * q) (8 * j)) (div-div-eq-div-mul x (2 ^ (8 * q)) (2 ^ (8 * j))))

shl_byte : (q j x : ℕ) → q + j < 8 → byte_of (shl64 x (8 * q)) (q + j) ≡ byte_of x j
shl_byte q j x h =
    low_bytes (q + j) (x * 2 ^ (8 * q)) h
    ∙ sym (shr_byte q j (x * 2 ^ (8 * q)))
    ∙ ap (λ (t : ℕ). byte_of t j) (mul-div_cancel x (one-le-pow (8 * q) 2 (omega arith)))

shl_byte_low : (q j x : ℕ) → j < 8 → j < q → byte_of (shl64 x (8 * q)) j ≡ 0
shl_byte_low q j x h l =
    let a : ℕ = 8 * (q - j - 1) in
    let e : 8 * q ≡ a + 8 + 8 * j = omega arith in
    low_bytes j (x * 2 ^ (8 * q)) h
    ∙ rw
        (
          e,
          pow-add (a + 8) (8 * j),
          ← mul_assoc x (2 ^ (a + 8)) (2 ^ (8 * j)),
          mul-div_cancel (x * 2 ^ (a + 8)) (one-le-pow (8 * j) 2 (omega arith)),
          pow-add a 8,
          ← mul_assoc x (2 ^ a) (2 ^ 8),
        )
        (mul-mod_left (x * 2 ^ a) (2 ^ 8))

and_ones : (v j : ℕ) → bit_and (byte_of v j) 255 ≡ byte_of v j
and_ones v j = omega (arith, bit_and_mask 8 (byte_of v j))

-- A round takes the byte at `j` from `q` places above where the mask has the byte, and else from
-- `q` places below.
module _ (q m v : ℕ) where
  left_byte :
      (i : ℕ)
      → q + i < 8
      → byte_of (shl64 (bit_and v m) (8 * q)) (q + i) ≡ bit_and (byte_of v i) (byte_of m i)
  left_byte i h = shl_byte q i (bit_and v m) h ∙ byte_of-and v m i

  right_byte :
      (j : ℕ) → byte_of (bit_and (v / 2 ^ (8 * q)) m) j ≡ bit_and (byte_of v (q + j)) (byte_of m j)
  right_byte j =
      byte_of-and (v / 2 ^ (8 * q)) m j ∙ ap (λ (t : ℕ). bit_and t (byte_of m j)) (shr_byte q j v)

  round_low :
      (j : ℕ)
      → j < 8
      → j < q
      → byte_of m j ≡ 255
      → byte_of (round (8 * q) m v) j ≡ byte_of v (q + j)
  unfolding round
  round_low j h l e =
      byte_of-or (shl64 (bit_and v m) (8 * q)) (bit_and (v / 2 ^ (8 * q)) m) j
      ∙ rw (shl_byte_low q j (bit_and v m) h l, right_byte j, e, and_ones v (q + j))
          (zero-bit_or (byte_of v (q + j)))

  round_up :
      (i : ℕ)
      → q + i < 8
      → byte_of m (q + i) ≡ 255
      → byte_of m i ≡ 0
      → byte_of (round (8 * q) m v) (q + i) ≡ byte_of v (q + (q + i))
  unfolding round
  round_up i h e z =
      byte_of-or (shl64 (bit_and v m) (8 * q)) (bit_and (v / 2 ^ (8 * q)) m) (q + i)
      ∙ rw (left_byte i h, right_byte (q + i), e, z, bit_and-zero, and_ones v (q + (q + i)))
          (zero-bit_or (byte_of v (q + (q + i))))

  round_down :
      (i : ℕ)
      → q + i < 8
      → byte_of m (q + i) ≡ 0
      → byte_of m i ≡ 255
      → byte_of (round (8 * q) m v) (q + i) ≡ byte_of v i
  unfolding round
  round_down i h z e =
      byte_of-or (shl64 (bit_and v m) (8 * q)) (bit_and (v / 2 ^ (8 * q)) m) (q + i)
      ∙ rw (left_byte i h, right_byte (q + i), e, z, bit_and-zero, and_ones v i)
          (bit_or-zero (byte_of v i))

-- The partner of a byte in a round, and the mask that goes with it.
abbrev partner : ℕ → ℕ → ℕ
partner q j = if j / q % 2 == 0 then q + j else j - q

HasMask : ℕ → ℕ → Type 0
HasMask q m = (j : ℕ) → j < 8 → byte_of m j ≡ (if j / q % 2 == 0 then 255 else 0)

mask_known :
    (q m : ℕ)
    → holds_to (λ j. byte_of m j == (if j / q % 2 == 0 then 255 else 0)) 8 ≡ true
    → HasMask q m
unfolding HasMask
mask_known q m e j h = (==_iff _ _).0 (holds_at _ 8 j e h)

module _ (q m v : ℕ) (pos : 0 < q) where
  next_unit : (i : ℕ) → (q + i) / q ≡ i / q + 1
  next_unit i = let e : q + i ≡ i + q * 1 = omega arith in rw e (add-mul-div_left i 1 pos)

  round_bytes :
      HasMask q m → (j : ℕ) → j < 8 → byte_of (round (8 * q) m v) j ≡ byte_of v (partner q j)
  unfolding HasMask
  round_bytes mask j h = elim (dec_lt j q) [
    | yes l ↦
        let e : j / q ≡ 0 = div-eq_of_lt l in
        let f : byte_of m j ≡ 255 = mask j h ∙ rw e in rw e (round_low q m v j h l f)
    | no l ↦ let i : ℕ = j - q in let e : j ≡ q + i = omega arith in rw e (upper i (omega arith))
  ]
    where
      upper :
          (i : ℕ) → q + i < 8 → byte_of (round (8 * q) m v) (q + i) ≡ byte_of v (partner q (q + i))
      upper i b = elim (Bool-cases (i / q % 2 == 0)) [
        | inl even ↦
            let odd : ((q + i) / q % 2 == 0) ≡ false = ground (arith, next_unit i) in
            let back : q + i - q ≡ i = omega arith in
            rw (odd, back)
              (round_down q m v i b (mask (q + i) b ∙ rw odd) (mask i (omega arith) ∙ rw even))
        | inr odd ↦
            let even : ((q + i) / q % 2 == 0) ≡ true = ground (arith, next_unit i) in
            rw even (round_up q m v i b (mask (q + i) b ∙ rw even) (mask i (omega arith) ∙ rw odd))
      ]

partners : (j : ℕ) → j < 8 → partner 4 (partner 2 (partner 1 j)) ≡ 7 - j
partners j h =
    (==_iff _ _).0
      (holds_at (λ j. partner 4 (partner 2 (partner 1 j)) == 7 - j) 8 j (unfold holds_to in refl) h)

partner-lt : (q j : ℕ) → holds_to (λ j. ltb (partner q j) 8) 8 ≡ true → j < 8 → partner q j < 8
partner-lt q j e h = let f = holds_at (λ j. ltb (partner q j) 8) 8 j e h in ground arith

-- The portable byte swap puts byte 7 - j of a word at byte j, for each j below 8.
pub patricia_bswap_bytes : (v j : ℕ) → j < 8 → byte_of (patricia_bswap v) j ≡ byte_of v (7 - j)
patricia_bswap_bytes v j h =
    let one : partner 1 j < 8 = partner-lt 1 j (unfold holds_to in refl) h in
    let two : partner 2 (partner 1 j) < 8 =
      partner-lt 2 (partner 1 j) (unfold holds_to in refl) one in
    ap (λ (t : ℕ). byte_of t j) (swap_rounds v)
    ∙ round_bytes 1 0x00ff00ff00ff00ff _ (omega arith) (mask_known 1 _ (unfold holds_to in refl)) j
        h
    ∙ round_bytes 2 0x0000ffff0000ffff _ (omega arith) (mask_known 2 _ (unfold holds_to in refl))
        (partner 1 j) one
    ∙ round_bytes 4 0x00000000ffffffff v (omega arith) (mask_known 4 _ (unfold holds_to in refl))
        (partner 2 (partner 1 j)) two
    ∙ ap (byte_of v) (partners j h)

-- A round stays within the word, whatever the mask lets through.
round-lt : (bits m v : ℕ) → m < 2 ^ 64 → round bits m v < 2 ^ 64
unfolding round
round-lt bits m v h =
    let x : ℕ = shl64 (bit_and v m) bits in
    let y : ℕ = bit_and (v / 2 ^ bits) m in
    let ex : x / 2 ^ 64 ≡ 0 = omega arith in
    let em : m / 2 ^ 64 ≡ 0 = omega arith in
    let ey : y / 2 ^ 64 ≡ 0 = bit_and_shift 64 (v / 2 ^ bits) m ∙ rw em (bit_and-zero _) in
    omega (arith, bit_or_shift 64 x y, ap₂ bit_or ex ey, bit_or-zero 0)

pub patricia_bswap-lt : (v : ℕ) → patricia_bswap v < 2 ^ 64
patricia_bswap-lt v = rw (swap_rounds v) (round-lt 8 0x00ff00ff00ff00ff _ (omega arith))
