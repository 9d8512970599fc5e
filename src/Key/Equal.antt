-- ===== src/Key/Equal.antt =====
-- What `patricia_equkey` means: equal lengths and equal bits.
use patricia_c.Base.{
  ℕ, zero, suc, ◌+◌, ◌-◌, ◌*◌, ◌/◌, ◌%◌, ◌^◌, ◌≤◌, ◌<◌, ◌≡◌, refl, ◌↔◌, ◌∙◌, sym, ◌≢◌, Bool, true,
  not, ltb, ◌==◌, if◌then◌else◌, Bool-cases, bit_and, bit_xor, arith, inl, inr,
}
use native.Mathlib.Decide.{dec_lt}
use patricia_c.Bits.{bit_xor-eq-zero, bit_xor_self, bit_xor_shift, div-two-pow-suc}
use patricia_c.Base.Table.{holds_to, holds_at}
use patricia_c.Key.{Mem, Key, byte_at, same_bytes, equkey, getbit}
use patricia_c.Key.Stream.{raw_bit, stream, getbit-stream, getbit-mod}

-- The same bits below `n`.
abbrev pub SameBits : ℕ → Mem → Mem → Type 0
SameBits n p q = (z : ℕ) → z < n → raw_bit p z ≡ raw_bit q z

abbrev pub SameKey : Key → Key → Type 0
SameKey a b = (a.nbit ≡ b.nbit) × SameBits a.nbit a.mem b.mem

-- One byte: bit `i` from the top.
abbrev eqb : Bool → Bool → Bool
eqb a b = if a then b else not b

abbrev top_bit : ℕ → ℕ → Bool
top_bit x i = x / 2 ^ (7 - i) % 2 == 1

top_bits_of_eq :
    (n x y i : ℕ) → n ≤ 8 → i < n → x / 2 ^ (8 - n) ≡ y / 2 ^ (8 - n) → top_bit x i ≡ top_bit y i
top_bits_of_eq zero x y i h l e = elim l [ ]
top_bits_of_eq (suc n) x y i h l e =
    ground (arith, top_bits_of_eq n x y i, div-two-pow-suc (7 - n) x, div-two-pow-suc (7 - n) y)

eq_of_top_bits :
    (n x y : ℕ)
    → n ≤ 8
    → x < 256
    → y < 256
    → ((i : ℕ) → i < n → top_bit x i ≡ top_bit y i)
    → x / 2 ^ (8 - n) ≡ y / 2 ^ (8 - n)
eq_of_top_bits zero x y h hx hy same = omega arith
eq_of_top_bits (suc n) x y h hx hy same = ground (
  arith,
  same n,
  eq_of_top_bits n x y (omega arith) hx hy (λ i l. same i (omega arith)),
  div-two-pow-suc (7 - n) x,
  div-two-pow-suc (7 - n) y,
)

same_bytes_iff :
    (n : ℕ) (p q : Mem) → (same_bytes n p q ≡ true) ↔ ((i : ℕ) → i < n → byte_at p i ≡ byte_at q i)
unfolding same_bytes
same_bytes_iff zero p q = (λ e i l. elim l [ ], λ h. refl)
same_bytes_iff (suc n) p q = (
  λ e i l. ground (arith, (same_bytes_iff n p q).0 (ground arith) i),
  λ h. ground (arith, h n, (same_bytes_iff n p q).1 (λ i l. h i (omega arith))),
)

-- The mask of the last, partial byte selects its upper bits.
mask_test : ℕ → ℕ → Bool
mask_test e w = eqb (bit_and w (255 * 2 ^ (8 - e) % 2 ^ 8) == 0) (w / 2 ^ (8 - e) == 0)

mask_table : holds_to (λ e. holds_to (mask_test e) 256) 8 ≡ true
unfolding holds_to mask_test
mask_table = refl

mask_selects :
    (e w : ℕ)
    → e < 8
    → w < 256
    → (bit_and w (255 * 2 ^ (8 - e) % 2 ^ 8) == 0) ≡ (w / 2 ^ (8 - e) == 0)
unfolding mask_test
mask_selects e w he hw = ground (
  arith,
  holds_at (mask_test e) 256 w (holds_at (λ d. holds_to (mask_test d) 256) 8 e mask_table he) hw,
)

xor-lt : (x y : ℕ) → x < 256 → y < 256 → bit_xor x y < 256
xor-lt x y hx hy = ground (arith, bit_xor_shift 8 x y, zero_quotients x y hx hy)
  where
    zero_quotients : (x y : ℕ) → x < 256 → y < 256 → bit_xor (x / 2 ^ 8) (y / 2 ^ 8) ≡ 0
    zero_quotients x y hx hy =
        let e : x / 2 ^ 8 ≡ 0 = omega arith in
        let f : y / 2 ^ 8 ≡ 0 = omega arith in rw (e, f) (bit_xor_self 0)

-- The comparison of the last, partial byte.
tail_iff :
    (x y e : ℕ)
    → x < 256
    → y < 256
    → e < 8
    → ((bit_and (bit_xor x y) (255 * 2 ^ (8 - e) % 2 ^ 8) == 0) ≡ true)
      ↔ (x / 2 ^ (8 - e) ≡ y / 2 ^ (8 - e))
tail_iff x y e hx hy he = (
  λ h. bit_xor-eq-zero _ _ (
      ground
        (arith, mask_selects e (bit_xor x y) he (xor-lt x y hx hy), bit_xor_shift (8 - e) x y)),
  λ h. ground (
    arith,
    mask_selects e (bit_xor x y) he (xor-lt x y hx hy),
    bit_xor_shift (8 - e) x y,
    equal_quotients h,
  ),
)
  where
    equal_quotients :
        x / 2 ^ (8 - e) ≡ y / 2 ^ (8 - e) → bit_xor (x / 2 ^ (8 - e)) (y / 2 ^ (8 - e)) ≡ 0
    equal_quotients h = rw h (bit_xor_self _)

-- The bits of whole bytes and a partial byte, and back.
SameBits-of_bytes :
    (n : ℕ) (p q : Mem)
    → ((i : ℕ) → i < n / 8 → byte_at p i ≡ byte_at q i)
    → byte_at p (n / 8) / 2 ^ (8 - n % 8) ≡ byte_at q (n / 8) / 2 ^ (8 - n % 8)
    → SameBits n p q
SameBits-of_bytes n p q whole part z l = elim (Bool-cases (ltb (z / 8) (n / 8))) [
  | inl inside ↦ rw (whole (z / 8) (ground arith))
  | inr last ↦
      let e : z / 8 ≡ n / 8 = ground arith in
      rw e (
        top_bits_of_eq (n % 8) (byte_at p (n / 8)) (byte_at q (n / 8)) (z % 8) (omega arith)
          (omega arith) part)
]

whole_of_SameBits :
    (n : ℕ) (p q : Mem) → SameBits n p q → (i : ℕ) → i < n / 8 → byte_at p i ≡ byte_at q i
whole_of_SameBits n p q same i l = omega (
  arith,
  eq_of_top_bits 8 (byte_at p i) (byte_at q i) (omega arith) (omega arith) (omega arith)
      (bit_of i l),
)
  where
    bit_of :
        (i : ℕ) → i < n / 8 → (j : ℕ) → j < 8 → top_bit (byte_at p i) j ≡ top_bit (byte_at q i) j
    bit_of i l j m =
        let e : (i * 8 + j) / 8 ≡ i = omega arith in
        let f : (i * 8 + j) % 8 ≡ j = omega arith in
        ground (arith, same (i * 8 + j) (omega arith), e, f)

part_of_SameBits :
    (n : ℕ) (p q : Mem)
    → SameBits n p q
    → byte_at p (n / 8) / 2 ^ (8 - n % 8) ≡ byte_at q (n / 8) / 2 ^ (8 - n % 8)
part_of_SameBits n p q same =
    eq_of_top_bits (n % 8) (byte_at p (n / 8)) (byte_at q (n / 8)) (omega arith) (omega arith)
      (omega arith) bit_of
  where
    bit_of : (j : ℕ) → j < n % 8 → top_bit (byte_at p (n / 8)) j ≡ top_bit (byte_at q (n / 8)) j
    bit_of j m =
        let e : (n / 8 * 8 + j) / 8 ≡ n / 8 = omega arith in
        let f : (n / 8 * 8 + j) % 8 ≡ j = omega arith in
        ground (arith, same (n / 8 * 8 + j) (omega arith), e, f)

-- The comparison of two keys says true exactly when their lengths are equal and they agree at
-- every bit below the length.
pub equkey_iff : (a b : Key) → (equkey a b ≡ true) ↔ SameKey a b
unfolding equkey
equkey_iff a b = (there, back)
  where
    part :
        ((bit_and
              (bit_xor (byte_at a.mem (a.nbit / 8)) (byte_at b.mem (a.nbit / 8)))
              (255 * 2 ^ (8 - a.nbit % 8) % 2 ^ 8)
            == 0)
          ≡ true)
        ↔ (byte_at a.mem (a.nbit / 8) / 2 ^ (8 - a.nbit % 8)
            ≡ byte_at b.mem (a.nbit / 8) / 2 ^ (8 - a.nbit % 8))
    part =
        tail_iff (byte_at a.mem (a.nbit / 8)) (byte_at b.mem (a.nbit / 8)) (a.nbit % 8)
          (omega arith) (omega arith) (omega arith)

    partial :
        equkey a b ≡ true
        → byte_at a.mem (a.nbit / 8) / 2 ^ (8 - a.nbit % 8)
          ≡ byte_at b.mem (a.nbit / 8) / 2 ^ (8 - a.nbit % 8)
    partial h = elim (Bool-cases (a.nbit % 8 == 0)) [
      | inl none_left ↦ let e : a.nbit % 8 ≡ 0 = ground arith in rw e (omega arith)
      | inr some_left ↦ part.0 (ground arith)
    ]

    there : equkey a b ≡ true → SameKey a b
    there h = (
      ground arith,
      SameBits-of_bytes a.nbit a.mem b.mem
          ((same_bytes_iff (a.nbit / 8) a.mem b.mem).0 (ground arith)) (partial h),
    )

    back : SameKey a b → equkey a b ≡ true
    back h = ground (
      arith,
      h.0,
      (same_bytes_iff (a.nbit / 8) a.mem b.mem).1 (whole_of_SameBits a.nbit a.mem b.mem h.1),
      part.1 (part_of_SameBits a.nbit a.mem b.mem h.1),
    )

-- Equal keys are one stream.
pub stream-SameKey : (a b : Key) → SameKey a b → (i : ℕ) → stream a i ≡ stream b i
unfolding stream
stream-SameKey a b (e, same) i = ground (arith, e, same (i - 1), same (a.nbit - 1))

pub getbit-equkey :
    (a b : Key) (i : ℕ) → a.nbit < 2 ^ 16 → equkey a b ≡ true → getbit a i ≡ getbit b i
getbit-equkey a b i ha e =
    let same = (equkey_iff a b).0 e in
    let hb : b.nbit < 2 ^ 16 = omega (arith, same.0) in
    getbit-mod a i
    ∙ getbit-stream a (i % 2 ^ 16) ha (omega arith)
    ∙ stream-SameKey a b same (i % 2 ^ 16)
    ∙ sym (getbit-stream b (i % 2 ^ 16) hb (omega arith))
    ∙ sym (getbit-mod b i)

-- Two keys of different length differ at the latest one bit behind the longer one.
pub stream-shorter :
    (a b : Key)
    → a.nbit < b.nbit
    → stream a b.nbit ≡ stream b b.nbit
    → stream a (suc b.nbit) ≢ stream b (suc b.nbit)
unfolding stream
stream-shorter a b l e f = ground arith

stream_inside :
    (a b : Key) (z : ℕ)
    → z < a.nbit
    → a.nbit ≡ b.nbit
    → stream a (suc z) ≡ stream b (suc z)
    → raw_bit a.mem z ≡ raw_bit b.mem z
unfolding stream
stream_inside a b z l e f = let g : suc z - 1 ≡ z = omega arith in ground arith

-- Streams that agree up to one bit behind the longer key belong to equal keys.
pub stream-injective :
    (a b : Key)
    → ((i : ℕ) → i ≤ a.nbit + 1 → stream a i ≡ stream b i)
    → ((i : ℕ) → i ≤ b.nbit + 1 → stream a i ≡ stream b i)
    → SameKey a b
stream-injective a b ha hb = (lengths, bits)
  where
    lengths : a.nbit ≡ b.nbit
    lengths = elim (dec_lt a.nbit b.nbit) [
      | yes l ↦
          absurd (stream-shorter a b l (hb b.nbit (omega arith)) (hb (suc b.nbit) (omega arith)))
      | no m ↦ elim (dec_lt b.nbit a.nbit) [
        | yes l ↦ absurd (
            stream-shorter b a l (sym (ha a.nbit (omega arith)))
              (sym (ha (suc a.nbit) (omega arith))))
        | no l ↦ omega arith
      ]
    ]

    bits : SameBits a.nbit a.mem b.mem
    bits z l = stream_inside a b z l lengths (ha (suc z) (omega arith))

-- Two keys of fewer than 65535 bits compare equal exactly when the bit reads of both agree at
-- every index below 65536, those behind the ends of the keys included.
pub equkey-getbit_iff :
    (a b : Key)
    → a.nbit < 2 ^ 16 - 1
    → b.nbit < 2 ^ 16 - 1
    → (equkey a b ≡ true) ↔ ((i : ℕ) → i < 2 ^ 16 → getbit a i ≡ getbit b i)
equkey-getbit_iff a b ha hb = (
  λ e i l. getbit-equkey a b i (omega arith) e,
  λ same. (equkey_iff a b).1 (
      stream-injective a b (λ i l. agree same i (omega arith)) (λ i l. agree same i (omega arith))),
)
  where
    agree :
        ((i : ℕ) → i < 2 ^ 16 → getbit a i ≡ getbit b i)
        → (i : ℕ) → i < 2 ^ 16
        → stream a i ≡ stream b i
    agree same i l =
        sym (getbit-stream a i (omega arith) l) ∙ same i l ∙ getbit-stream b i (omega arith) l
