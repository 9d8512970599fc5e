-- ===== src/Key/Stream.antt =====
-- What `patricia_getbit` means: a key is read as an infinite stream of bits, its own bits first
-- and after them for ever the complement of the last one.
use patricia_c.Base.{
  ℕ, ◌-◌, ◌/◌, ◌%◌, ◌^◌, ◌<◌, ◌≡◌, Bool, true, false, not, leb, ◌==◌, if◌then◌else◌, bit_and,
  bit_xor, arith,
}
use patricia_c.Bits.{zero-bit_or, bit_or-zero, bit_and-zero, bit_and_mask, bit_xor_parity}
use patricia_c.Key.{Mem, Key, byte_at, getbit, clamp_index, pick_bit, not32}

-- The bit at a zero-based index; the most significant bit of a byte comes first.
abbrev pub raw_bit : Mem → ℕ → Bool
raw_bit m z = byte_at m (z / 8) / 2 ^ (7 - z % 8) % 2 == 1

unfoldable pub stream : Key → ℕ → Bool
stream k i =
    if i == 0
    then false
    else if k.nbit == 0
    then true
    else if leb i k.nbit
    then raw_bit k.mem (i - 1)
    else not (raw_bit k.mem (k.nbit - 1))

-- Within the key the index is kept.
clamp_index_inside : (n i : ℕ) → 0 < i → i < 2 ^ 16 → clamp_index 0 n i ≡ i - 1
unfolding clamp_index
clamp_index_inside n i h w = ground (arith, bit_and_mask 32 i, bit_and-zero n, bit_or-zero i)

-- Behind its end the last index is taken.
clamp_index_behind : (n i : ℕ) → 0 < n → n < 2 ^ 16 → clamp_index (2 ^ 32 - 1) n i ≡ n - 1
unfolding clamp_index
clamp_index_behind n i h w = ground (arith, bit_and_mask 32 n, bit_and-zero i, zero-bit_or n)

pick_bit_shift : (z : ℕ) → z < 2 ^ 16 → bit_and (not32 z) 7 ≡ 7 - z % 8
pick_bit_shift z h = ground (arith, bit_and_mask 3 (not32 z))

pick_bit_plain : (m : Mem) (z : ℕ) → z < 2 ^ 16 → pick_bit m 0 z ≡ raw_bit m z
unfolding pick_bit
pick_bit_plain m z h = rw (pick_bit_shift z h) (
    ground (
      arith,
      bit_and_mask 1 (bit_xor (byte_at m (z / 8) / 2 ^ (7 - z % 8)) 0),
      bit_xor_parity (byte_at m (z / 8) / 2 ^ (7 - z % 8)) 0,
    ))

pick_bit_flipped : (m : Mem) (z : ℕ) → z < 2 ^ 16 → pick_bit m (2 ^ 32 - 1) z ≡ not (raw_bit m z)
unfolding pick_bit
pick_bit_flipped m z h = rw (pick_bit_shift z h) (
    ground (
      arith,
      bit_and_mask 1 (bit_xor (byte_at m (z / 8) / 2 ^ (7 - z % 8)) (2 ^ 32 - 1)),
      bit_xor_parity (byte_at m (z / 8) / 2 ^ (7 - z % 8)) (2 ^ 32 - 1),
    ))

-- At every index below 65536 the bit of a key of fewer than 65536 bits is the bit of its stream:
-- no bit at index zero, the bits of the key up to its length, then the complement of the last bit,
-- and only ones after an empty key.
pub getbit-stream : (k : Key) (i : ℕ) → k.nbit < 2 ^ 16 → i < 2 ^ 16 → getbit k i ≡ stream k i
unfolding getbit stream
getbit-stream k i hk hi =
    let e : i % 2 ^ 16 ≡ i = omega arith in
    rw e (
      ground (
        arith,
        bit_and_mask 1 (2 ^ 32 - 1),
        bit_and_mask 1 0,
        clamp_index_inside k.nbit i,
        clamp_index_behind k.nbit i,
        pick_bit_plain k.mem (i - 1),
        pick_bit_flipped k.mem (k.nbit - 1),
      ))

pub getbit-mod : (k : Key) (i : ℕ) → getbit k i ≡ getbit k (i % 2 ^ 16)
unfolding getbit
getbit-mod k i = let e : i % 2 ^ 16 % 2 ^ 16 ≡ i % 2 ^ 16 = omega arith in rw e
