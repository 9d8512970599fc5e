-- ===== src/Words/Ops.antt =====
-- The low-level functions of src/cpatricia_set.c on a platform whose compiler offers no intrinsics:
-- `bswapz` and `clzz` stand on `patricia_bswap` and `patricia_clz`.
use patricia_c.Diff.{WordOps}
use patricia_c.Words.{patricia_bswap, patricia_clz}
use patricia_c.Words.Swap.{patricia_bswap-lt, patricia_bswap_bytes}
use patricia_c.Words.Zeros.{patricia_clz_top}

abbrev pub fallback : WordOps
fallback = record {
  bswap = patricia_bswap;
  clz = patricia_clz;
  bswap-lt = λ v lt. patricia_bswap-lt v;
  bswap_bytes = λ v j lv lj. patricia_bswap_bytes v j lj;
  clz_top = patricia_clz_top;
}
