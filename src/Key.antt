-- ===== src/Key.antt =====
-- Keys of src/cpatricia_set.c: a bit string in memory, `patricia_getbit` and `patricia_equkey`.
-- Memory is read through a base pointer, so a key is the function from offsets to bytes with the
-- length in bits, as the two arguments `(const void *key, uint16_t bitlen)`.
pub mod Stream
pub mod Equal
use patricia_c.Base.{
  ℕ, zero, suc, ◌+◌, ◌-◌, ◌*◌, ◌/◌, ◌%◌, ◌^◌, bit_and, bit_or, bit_xor, Bool, true, false, not,
  ◌&&◌, ◌||◌, ltb, ◌==◌, if◌then◌else◌,
}

abbrev pub Mem : Type 0
Mem = ℕ → ℕ

pub record Key : Type 0 where
  pub mem : Mem
  pub nbit : ℕ

-- A read of an `unsigned char`.
abbrev pub byte_at : Mem → ℕ → ℕ
byte_at m i = m i % 2 ^ 8

-- An integer used as a truth value, and a truth value used as an integer.
abbrev pub to_bool : ℕ → Bool
to_bool n = not (n == 0)

abbrev pub from_bool : Bool → ℕ
from_bool b = if b then 1 else 0

-- `-x` and `~x` at the width of `unsigned`.
abbrev pub neg32 : ℕ → ℕ
neg32 x = (2 ^ 32 - x) % 2 ^ 32

abbrev pub not32 : ℕ → ℕ
not32 x = 2 ^ 32 - 1 - x

-- The clamped zero-based index: `bitidx = ((bitidx & ~exmask) | (bitlen & exmask)) - 1u`, stored
-- in a `uint16_t`.
clamp_index : ℕ → ℕ → ℕ → ℕ
clamp_index exmask bitlen bitidx =
    (bit_or (bit_and bitidx (not32 exmask)) (bit_and bitlen exmask) + 2 ^ 32 - 1) % 2 ^ 32 % 2 ^ 16

-- `((bytes[bindex] >> bshift) ^ exmask) & 1u`
pick_bit : Mem → ℕ → ℕ → Bool
pick_bit m exmask zidx =
    let bindex = zidx / 2 ^ 3 in
    let bshift = bit_and (not32 zidx) 7 in
    to_bool (bit_and (bit_xor (byte_at m bindex / 2 ^ bshift) exmask) 1)

-- `patricia_getbit`; the index is passed as a `uint16_t`.
unfoldable pub getbit : Key → ℕ → Bool
unfolding clamp_index pick_bit
getbit k index =
    let bitidx = index % 2 ^ 16 in
    let exmask = neg32 (from_bool (ltb k.nbit bitidx)) in
    if (k.nbit == 0) || (bitidx == 0)
    then to_bool (bit_and exmask 1)
    else pick_bit k.mem exmask (clamp_index exmask k.nbit bitidx)

-- `memcmp` of the first `n` bytes tells whether they are all equal.
unfoldable pub same_bytes : ℕ → Mem → Mem → Bool
same_bytes zero p q = true
same_bytes (suc n) p q = (byte_at p n == byte_at q n) && same_bytes n p q

unfoldable pub equkey : Key → Key → Bool
unfolding same_bytes
equkey a b =
    let bytes = a.nbit / 8 in
    let ebits = a.nbit % 8 in
    let mask = 255 * 2 ^ (8 - ebits) % 2 ^ 8 in
    if not (a.nbit == b.nbit)
    then false
    else if not (same_bytes bytes a.mem b.mem)
    then false
    else if not (ebits == 0)
    then (if not (bit_and (bit_xor (byte_at a.mem bytes) (byte_at b.mem bytes)) mask == 0)
        then false
        else true)
    else true
