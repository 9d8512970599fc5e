-- ===== src/Diff.antt =====
-- `patricia_bitdiff` of src/cpatricia_set.c and the bit stream `nextbits` that feeds it, for a
-- `size_t` of 64 bits and bytes of 8 bits, on a target of either endianness.
pub mod Limb
pub mod Stream
pub mod First
use patricia_c.Base.{
  ℕ, zero, suc, ◌+◌, ◌-◌, ◌*◌, ◌/◌, ◌%◌, ◌^◌, ◌≤◌, ◌<◌, ◌≡◌, bit_and, bit_or, bit_xor, Bool, true,
  false, not, ◌&&◌, ltb, leb, ◌==◌, if◌then◌else◌,
}
use patricia_c.Bits.Bytes.{byte_of}
use patricia_c.Key.{Mem, Key, byte_at, from_bool, not32, getbit}

-- The two low-level functions on a `size_t` that the code takes from the compiler or from its
-- own fallbacks, and what it relies on: the bytes are mirrored, and the number of leading zeros
-- of a word that is not zero leads to its topmost one.
pub record WordOps : Type 0 where
  pub bswap : ℕ → ℕ
  pub clz : ℕ → ℕ
  pub bswap-lt : (v : ℕ) → v < 2 ^ 64 → bswap v < 2 ^ 64
  pub bswap_bytes : (v j : ℕ) → v < 2 ^ 64 → j < 8 → byte_of (bswap v) j ≡ byte_of v (7 - j)
  pub clz_top : (v : ℕ) → 0 < v → v < 2 ^ 64 → (clz v < 64) × (v / 2 ^ (63 - clz v) ≡ 1)

-- `clzz` nails down the value at zero.
unfoldable pub clzz : WordOps → ℕ → ℕ
clzz w v = if v == 0 then 64 else w.clz v

abbrev pub skip : ℕ → Mem → Mem
skip n m = λ i. m (n + i)

-- The first `n` bytes of an array read as one number, the lowest or the highest byte first.
unfoldable pub load_little : ℕ → Mem → ℕ
load_little zero m = 0
load_little (suc n) m = byte_at m 0 + 2 ^ 8 * load_little n (skip 1 m)

unfoldable pub load_big : ℕ → Mem → ℕ
load_big zero m = 0
load_big (suc n) m = load_big n m * 2 ^ 8 + byte_at m n

-- The union `accu`: eight bytes in memory order read as a `size_t`.
unfoldable pub load : Bool → Mem → ℕ
unfolding load_little load_big
load little m = if little then load_little 8 m else load_big 8 m

pub record BitStream : Type 0 where
  pub ptr : Mem
  pub bits : ℕ
  pub last : Bool

-- The array `acv` of a partial load: the bytes left, the fill behind them, and in the partial
-- byte the unused bits flushed to the fill.
unfoldable pub flush : Bool → ℕ → ℕ → ℕ
flush last ebits x =
    if last then bit_and x (not32 (255 / 2 ^ ebits)) % 2 ^ 8 else bit_or x (255 / 2 ^ ebits) % 2 ^ 8

unfoldable pub partial_load : BitStream → Mem
unfolding flush
partial_load bs j =
    let bytes = (bs.bits + 8 - 1) / 8 in
    let ebits = bs.bits % 8 in
    let fill = (from_bool bs.last + 2 ^ 32 - 1) % 2 ^ 32 % 2 ^ 8 in
    let copied = if ltb j bytes then byte_at bs.ptr j else fill in
    if not (ebits == 0) && (j == bytes - 1) then flush bs.last ebits copied else copied

-- The next 64 bits and the stream behind them.
unfoldable pub nextbits : Bool → BitStream → ℕ × BitStream
unfolding load partial_load
nextbits little bs =
    if leb 64 bs.bits
    then (load little bs.ptr, record bs { ptr = skip 8 bs.ptr; bits = bs.bits - 64 })
    else if bs.bits == 0
    then ((from_bool bs.last + 2 ^ 64 - 1) % 2 ^ 64, bs)
    else (
      load little (partial_load bs),
      record bs { ptr = skip ((bs.bits + 8 - 1) / 8) bs.ptr; bits = 0 },
    )

-- The loop over the limbs, with the number of rounds left. What stands behind the loop is its
-- last argument.
unfoldable pub limb_loop : WordOps → Bool → ℕ → ℕ → BitStream → BitStream → ℕ → ℕ
unfolding nextbits clzz
limb_loop w little zero bpos bs1 bs2 behind = behind
limb_loop w little (suc words) bpos bs1 bs2 behind =
    let limb1 = nextbits little bs1 in
    let limb2 = nextbits little bs2 in
    let accu = bit_xor limb1.0 limb2.0 in
    let rest = limb_loop w little words ((bpos + 64) % 2 ^ 16) limb1.1 limb2.1 behind in
    if not (accu == 0)
    then (bpos + clzz w (if little then w.bswap accu else accu)) % 2 ^ 16
    else rest

abbrev pub open_stream : Key → BitStream
open_stream k = record { ptr = k.mem; bits = k.nbit; last = getbit k k.nbit }

unfoldable pub bitdiff : WordOps → Bool → Key → Key → ℕ
unfolding limb_loop
bitdiff w little a b =
    let bits = if ltb a.nbit b.nbit then b.nbit else a.nbit in
    limb_loop w little ((bits + 64 - 1) / 64) 1 (open_stream a) (open_stream b)
      (if a.nbit == b.nbit then 0 else (bits + 1) % 2 ^ 16)
