-- ===== src/Words.antt =====
-- The portable fallbacks `patricia_bswap` and `patricia_clz` of src/cpatricia_set.c, for a
-- `size_t` of 64 bits.
pub mod Swap
pub mod Zeros
pub mod Ops
use patricia_c.Base.{
  ℕ, zero, suc, ◌+◌, ◌-◌, ◌*◌, ◌/◌, ◌%◌, ◌^◌, bit_and, bit_or, bit_xor, Bool, not, ltb, ◌==◌,
  if◌then◌else◌,
}

-- `x << n` on a `size_t`
abbrev pub shl64 : ℕ → ℕ → ℕ
shl64 x n = x * 2 ^ n % 2 ^ 64

-- The loop of `patricia_bswap`; the width of the swapped units halves in each round, so it makes
-- fewer rounds than the word has bits.
unfoldable pub bswap_loop : ℕ → ℕ → ℕ → ℕ → ℕ
bswap_loop zero bits mask v = v
bswap_loop (suc fuel) bits mask v =
    let bits' = bits / 2 in
    let mask' = bit_xor mask (shl64 mask bits') in
    let rest =
      bswap_loop fuel bits' mask'
        (bit_or (shl64 (bit_and v mask') bits') (bit_and (v / 2 ^ bits') mask')) in
    if ltb 8 bits then rest else v

unfoldable pub patricia_bswap : ℕ → ℕ
unfolding bswap_loop
patricia_bswap v = bswap_loop 64 64 (2 ^ 64 - 1) v

-- The loop of `patricia_clz`: `bits` falls in each round, so the number of bits is fuel enough.
unfoldable pub clz_loop : ℕ → ℕ → ℕ → ℕ → ℕ → ℕ
clz_loop zero mask bits nclz v = nclz
clz_loop (suc fuel) mask bits nclz v =
    let s = (bits + 1) / 2 in
    let mask' = bit_xor mask (mask / 2 ^ s) in
    let upper_empty = bit_and v mask' == 0 in
    let rest =
      clz_loop fuel mask' (bits - s) (if upper_empty then nclz + s else nclz)
        (if upper_empty then v else bit_and v mask') in
    if not (bits == 0) then rest else nclz

unfoldable pub patricia_clz : ℕ → ℕ
unfolding clz_loop
patricia_clz v = clz_loop 64 (2 ^ 64 - 1) 64 0 v
