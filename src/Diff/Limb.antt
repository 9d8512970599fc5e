-- ===== src/Diff/Limb.antt =====
-- A limb of 64 bits: its bytes in memory order, and its bits in stream order.
use mathlib.Core.Path.{ap₂}
use native.Mathlib.Nat.{div-div-eq-div-mul, pow-suc, one-le-pow, div-eq_of_lt}
use patricia_c.Base.{
  ℕ, zero, suc, ◌+◌, ◌-◌, ◌*◌, ◌/◌, ◌%◌, ◌^◌, ◌<◌, ◌≡◌, ◌≢◌, sym, ◌∙◌, ap, arith, bit_xor, Bool,
  true, false, if◌then◌else◌,
}
use patricia_c.Bits.{bit_xor_shift, bit_xor_parity, bit_xor_self}
use patricia_c.Bits.Bytes.{byte_of, pow-add, digit_of_word}
use patricia_c.Key.{Mem, byte_at}
use patricia_c.Diff.{WordOps, load_little, load_big, load, skip, clzz}

-- The byte that stands at offset `j` in memory.
abbrev pub byte_in : Bool → ℕ → ℕ → ℕ
byte_in little v j = byte_of v (if little then j else 7 - j)

-- Bit `i` of a limb in the order of the stream, as a digit.
abbrev pub digit_in : Bool → ℕ → ℕ → ℕ
digit_in little v i = byte_in little v (i / 8) / 2 ^ (7 - i % 8) % 2

byte_of-suc : (b r j : ℕ) → b < 256 → byte_of (b + 2 ^ 8 * r) (suc j) ≡ byte_of r j
byte_of-suc b r j h =
    ap (λ (t : ℕ). t % 2 ^ 8)
      (let e : 8 * suc j ≡ 8 + 8 * j = omega arith in
        let f : (b + 2 ^ 8 * r) / 2 ^ 8 ≡ r = omega arith in
        rw (e, pow-add 8 (8 * j))
          (sym (div-div-eq-div-mul (b + 2 ^ 8 * r) (2 ^ 8) (2 ^ (8 * j)))
            ∙ ap (λ (t : ℕ). t / 2 ^ (8 * j)) f))

load_little_bytes : (n j : ℕ) (m : Mem) → j < n → byte_of (load_little n m) j ≡ byte_at m j
unfolding load_little
load_little_bytes zero j m h = elim h [ ]
load_little_bytes (suc n) zero m h = omega arith
load_little_bytes (suc n) (suc j) m h =
    byte_of-suc (byte_at m 0) (load_little n (skip 1 m)) j (omega arith)
    ∙ load_little_bytes n j (skip 1 m) (omega arith)
    ∙ (let e : 1 + j ≡ suc j = omega arith in rw e)

load_big_bytes : (n j : ℕ) (m : Mem) → j < n → byte_of (load_big n m) j ≡ byte_at m (n - 1 - j)
unfolding load_big
load_big_bytes zero j m h = elim h [ ]
load_big_bytes (suc n) zero m h = let e : suc n - 1 - 0 ≡ n = omega arith in rw e (omega arith)
load_big_bytes (suc n) (suc j) m h =
    let e : load_big n m * 2 ^ 8 + byte_at m n ≡ byte_at m n + 2 ^ 8 * load_big n m = omega arith in
    let f : suc n - 1 - suc j ≡ n - 1 - j = omega arith in
    rw (e, f)
      (byte_of-suc (byte_at m n) (load_big n m) j (omega arith)
        ∙ load_big_bytes n j m (omega arith))

-- The union gives back the bytes of the array.
pub load_bytes :
    (little : Bool) (m : Mem) (j : ℕ) → j < 8 → byte_in little (load little m) j ≡ byte_at m j
unfolding load
load_bytes true m j h = load_little_bytes 8 j m h
load_bytes false m j h =
    let e : 8 - 1 - (7 - j) ≡ j = omega arith in load_big_bytes 8 (7 - j) m (omega arith) ∙ rw e

pub load-lt : (little : Bool) (m : Mem) → load little m < 2 ^ 64
unfolding load load_little load_big
load-lt true m = omega arith
load-lt false m = omega arith

digit-xor : (x y k : ℕ) → bit_xor x y / 2 ^ k % 2 ≡ (x / 2 ^ k % 2 + y / 2 ^ k % 2) % 2
digit-xor x y k = omega (arith, bit_xor_shift k x y, bit_xor_parity (x / 2 ^ k) (y / 2 ^ k))

-- The digits of an exclusive or tell where two limbs differ.
pub digit_in-xor :
    (little : Bool) (x y i : ℕ)
    → digit_in little (bit_xor x y) i ≡ (digit_in little x i + digit_in little y i) % 2
digit_in-xor little x y i =
    let j : ℕ = if little then i / 8 else 7 - i / 8 in
    let r : ℕ = 7 - i % 8 in
    omega (
      arith,
      digit_of_word (bit_xor x y) j r (omega arith),
      digit_of_word x j r (omega arith),
      digit_of_word y j r (omega arith),
      digit-xor x y (8 * j + r),
    )

pub bit_xor-lt : (x y : ℕ) → x < 2 ^ 64 → y < 2 ^ 64 → bit_xor x y < 2 ^ 64
bit_xor-lt x y hx hy =
    let e : x / 2 ^ 64 ≡ 0 = omega arith in
    let f : y / 2 ^ 64 ≡ 0 = omega arith in
    omega (arith, bit_xor_shift 64 x y, ap₂ bit_xor e f, bit_xor_self 0)

-- Bits in stream order are the digits of the number with the first byte on top.
pub digit_in_big : (v i : ℕ) → i < 64 → digit_in false v i ≡ v / 2 ^ (63 - i) % 2
digit_in_big v i h =
    let e : 8 * (7 - i / 8) + (7 - i % 8) ≡ 63 - i = omega arith in
    digit_of_word v (7 - i / 8) (7 - i % 8) (omega arith) ∙ rw e

-- Mirroring the bytes of a limb puts them in the order of a big-endian target.
unfoldable pub mirror : WordOps → Bool → ℕ → ℕ
mirror w little v = if little then w.bswap v else v

mirror_digits :
    (w : WordOps) (little : Bool) (v i : ℕ)
    → v < 2 ^ 64
    → i < 64
    → mirror w little v / 2 ^ (63 - i) % 2 ≡ digit_in little v i
unfolding mirror
mirror_digits w false v i hv h = sym (digit_in_big v i h)
mirror_digits w true v i hv h =
    let e : 7 - (7 - i / 8) ≡ i / 8 = omega arith in
    sym (digit_in_big (w.bswap v) i h)
    ∙ ap (λ (t : ℕ). t / 2 ^ (7 - i % 8) % 2) (w.bswap_bytes v (7 - i / 8) hv (omega arith) ∙ rw e)

mirror-lt : (w : WordOps) (little : Bool) (v : ℕ) → v < 2 ^ 64 → mirror w little v < 2 ^ 64
unfolding mirror
mirror-lt w false v h = h
mirror-lt w true v h = w.bswap-lt v h

mirror_pos : (w : WordOps) (little : Bool) (v : ℕ) → v < 2 ^ 64 → 0 < v → 0 < mirror w little v
unfolding mirror
mirror_pos w false v h p = p
mirror_pos w true v h p = pos_of_bytes (w.bswap v) v h p (λ j l. w.bswap_bytes v j h l)
  where
    pos_of_bytes :
        (u v : ℕ) → v < 2 ^ 64 → 0 < v → ((j : ℕ) → j < 8 → byte_of u j ≡ byte_of v (7 - j)) → 0 < u
    pos_of_bytes zero v h p same = omega (
      arith,
      same 0 (omega arith),
      same 1 (omega arith),
      same 2 (omega arith),
      same 3 (omega arith),
      same 4 (omega arith),
      same 5 (omega arith),
      same 6 (omega arith),
      same 7 (omega arith),
    )
    pos_of_bytes (suc u) v h p same = omega arith

-- Digits above the topmost one are zero.
above_top : (b c i : ℕ) → b / 2 ^ (63 - c) ≡ 1 → c < 64 → i < c → b / 2 ^ (63 - i) ≡ 0
above_top b c i e h l =
    let split : 63 - i ≡ 63 - c + suc (c - i - 1) = omega arith in
    rw (split, pow-add (63 - c) (suc (c - i - 1)))
      (omega (
        arith,
        div-div-eq-div-mul b (2 ^ (63 - c)) (2 ^ suc (c - i - 1)),
        ap (λ (t : ℕ). t / 2 ^ suc (c - i - 1)) e,
        small (c - i - 1),
      ))
  where
    small : (k : ℕ) → 1 / 2 ^ suc k ≡ 0
    small k = div-eq_of_lt (omega (arith, pow-suc 2 k, one-le-pow k 2 (omega arith)))

-- The count of leading zeros of the difference pattern finds the first bit that differs.
pub first_digit :
    (w : WordOps) (little : Bool) (x y : ℕ)
    → x < 2 ^ 64
    → y < 2 ^ 64
    → bit_xor x y ≢ 0
    → let c = clzz w (mirror w little (bit_xor x y)) in
      (c < 64)
      × (digit_in little x c ≢ digit_in little y c)
      × ((i : ℕ) → i < c → digit_in little x i ≡ digit_in little y i)
unfolding clzz
first_digit w little x y hx hy ne =
    let accu : ℕ = bit_xor x y in
    let big : ℕ = mirror w little accu in
    let fits : accu < 2 ^ 64 = bit_xor-lt x y hx hy in
    let pos : 0 < big = mirror_pos w little accu fits (ground arith) in
    let top = w.clz_top big pos (mirror-lt w little accu fits) in
    let found : clzz w big ≡ w.clz big = ground arith in
    rw found (
      top.0,
      λ e. absurd (
          omega (
            arith,
            e,
            top.1,
            mirror_digits w little accu (w.clz big) fits top.0,
            digit_in-xor little x y (w.clz big),
          )),
      λ i l. omega (
        arith,
        above_top big (w.clz big) i top.1 top.0 l,
        mirror_digits w little accu i fits (omega (arith, top.0)),
        digit_in-xor little x y i,
      ),
    )
