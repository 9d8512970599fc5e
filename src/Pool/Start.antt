-- ===== src/Pool/Start.antt =====
-- `vmBump_init` of src/vmbumppool.c.
use patricia_c.Base.{
  ℕ, ◌+◌, ◌-◌, ◌*◌, ◌/◌, ◌%◌, ◌^◌, ◌≤◌, ◌<◌, ◌≡◌, ◌⊎◌, inl, inr, refl, ap, ◌∙◌, ◌==◌, ◌||◌, false,
  true, arith, bit_and, not, Bool-cases, some, [], ==_iff, ltb,
}
use native.Mathlib.Nat.{mod-eq_of_lt, add-mod, mul-div_cancel_left, mul-div-le}
use patricia_c.Bits.{bit_and_mask}
use patricia_c.Key.{to_bool}
use patricia_c.Heap.{ok}
use patricia_c.Pool.{Pool, erange, pred64, topalign, init}
use patricia_c.Pool.Align.{topalign_lem, pred64-pow, power_facts}
use patricia_c.Pool.More.{fit_none, IsPool, accounted, power32}

-- What the set-up asks of its arguments.
abbrev pub Usable : ℕ → ℕ → ℕ → Type 0
Usable page blklen blkcnt =
    (0 < blklen) × (0 < blkcnt) × (blklen % page ≡ 0) × (blklen * blkcnt < 2 ^ 64)

-- The pool that is set up.
abbrev pub started : ℕ → ℕ → Pool
started blklen blkcnt = record { blocks = []; blks = blklen; total = 0; limit = blklen * blkcnt }

abbrev pub zeroed : Pool
zeroed = record { blocks = []; blks = 0; total = 0; limit = 0 }

-- Two multiples of a number that are closer than it are equal.
same_multiple : (n b z : ℕ) → b % n ≡ 0 → z % n ≡ 0 → b ≤ z → z < b + n → z ≡ b
same_multiple n b z eb ez lo hi =
    let gap : (z - b) % n ≡ z - b = mod-eq_of_lt (omega arith) in
    let split : z ≡ b + (z - b) = omega arith in
    let sum : z % n ≡ (b % n + (z - b) % n) % n = ap (λ x. x % n) split ∙ add-mod b (z - b) n in
    let parts : b % n + (z - b) % n ≡ z - b = omega (arith, eb, gap) in
    let flat : z % n ≡ z - b = sum ∙ ap (λ x. x % n) parts ∙ gap in omega (arith, flat, ez)

module _ (p : ℕ) (lp : p ≤ 32) (blklen blkcnt : ℕ) (bound : blklen < 2 ^ 62) where
  -- A multiple of the page is aligned as it is.
  topalign_multiple : blklen % 2 ^ p ≡ 0 → topalign blklen (2 ^ p) ≡ ok blklen
  topalign_multiple whole =
      let pp = power32 p lp in
      let (quot, rest, all, pos, le) = power_facts p (omega arith) in
      let (z, ez, lo, hi, al) = topalign_lem p blklen (omega arith) (omega arith) in
      ez ∙ ap ok (same_multiple (2 ^ p) blklen z whole al lo hi)

  -- The test for an overflow of the product.
  overflow_test :
      0 < blklen
      → ((blkcnt == blklen * blkcnt % 2 ^ 64 / blklen) ≡ true × (blklen * blkcnt < 2 ^ 64))
        ⊎ ((blkcnt == blklen * blkcnt % 2 ^ 64 / blklen) ≡ false × (2 ^ 64 ≤ blklen * blkcnt))
  overflow_test pos = elim (Bool-cases (ltb (blklen * blkcnt) (2 ^ 64))) [
    | inl small ↦
        let fits : blklen * blkcnt % 2 ^ 64 ≡ blklen * blkcnt = mod-eq_of_lt (ground arith) in
        let back : blklen * blkcnt / blklen ≡ blkcnt = mul-div_cancel_left blkcnt pos in
        inl (rw (fits, back) (ground arith), ground arith)
    | inr large ↦ inr (
      elim (Bool-cases (blkcnt == blklen * blkcnt % 2 ^ 64 / blklen)) [
        | inr e ↦ e
        | inl e ↦
            let q : blkcnt ≡ blklen * blkcnt % 2 ^ 64 / blklen = (==_iff _ _).0 e in
            let le : blklen * (blklen * blkcnt % 2 ^ 64 / blklen) ≤ blklen * blkcnt % 2 ^ 64 =
              mul-div-le (blklen * blkcnt % 2 ^ 64) blklen in
            let le' : blklen * blkcnt ≤ blklen * blkcnt % 2 ^ 64 = rw (← q) at le in
            let lt : blklen * blkcnt % 2 ^ 64 < 2 ^ 64 = omega arith in absurd (ground arith)
      ],
      ground arith,
    )
  ]

  pub page_test :
      (page : ℕ) → page ≡ 2 ^ p → to_bool (bit_and blklen (pred64 page)) ≡ not (blklen % 2 ^ p == 0)
  page_test page e = rw (e, pred64-pow p (omega arith), bit_and_mask p blklen) refl

  started-IsPool : (page : ℕ) → IsPool page (started blklen blkcnt)
  unfolding accounted
  started-IsPool page = record { fit = fit_none; unit = bound; counted = refl }

  -- With a page size that is a power of two and at most 2 ^ 32 and a block length below 2 ^ 62,
  -- the set-up of a pool succeeds exactly when the block length is positive and a multiple of the
  -- page, the count is positive, and their product is below 2 ^ 64; then the pool is empty with
  -- that block length and the product as its limit. Else it returns false and ERANGE.
  pub init_lem :
      (page : ℕ) (old : Pool)
      → page ≡ 2 ^ p
      → (Usable page blklen blkcnt
          × (init page (some old) blklen blkcnt
              ≡ ok (record { result = true; errno = 0; pool = some (started blklen blkcnt) }))
          × IsPool page (started blklen blkcnt))
        ⊎ (¬ Usable page blklen blkcnt
            × ((pool : Pool) × (init page (some old) blklen blkcnt
                  ≡ ok (record { result = false; errno = erange; pool = some pool }))))
  unfolding init
  init_lem page old e = elim (Bool-cases ((blklen == 0) || (blkcnt == 0))) [
    | inl nothing ↦ inr (λ (a, b, c, d). absurd (ground arith), (zeroed, rw nothing refl))
    | inr something ↦
        let pos : 0 < blklen = ground arith in
        let cnt : 0 < blkcnt = ground arith in
        elim (Bool-cases (blklen % 2 ^ p == 0)) [
          | inr ragged ↦
              let t : to_bool (bit_and blklen (pred64 page)) ≡ true =
                page_test page e ∙ ap not ragged in
              inr (
                λ (a, b, c, d). absurd (let z : blklen % 2 ^ p ≡ 0 = rw (← e) c in ground arith),
                (zeroed, rw (something, t) refl),
              )
          | inl whole ↦
              let t : to_bool (bit_and blklen (pred64 page)) ≡ false =
                page_test page e ∙ ap not whole in
              let z : blklen % 2 ^ p ≡ 0 = (==_iff _ _).0 whole in
              let len : topalign blklen page ≡ ok blklen =
                ap (topalign blklen) e ∙ topalign_multiple z in
              elim (overflow_test pos) [
                | inl (test, fits) ↦
                    let wrap : blklen * blkcnt % 2 ^ 64 ≡ blklen * blkcnt = mod-eq_of_lt fits in
                    inl (
                      (pos, cnt, rw e z, fits),
                      rw (something, t, len, test, wrap) refl,
                      started-IsPool page,
                    )
                | inr (test, over) ↦ inr (
                  λ (a, b, c, d). absurd (omega (arith, d, over)),
                  (
                    record zeroed { blks = blklen; limit = blklen * blkcnt % 2 ^ 64 },
                    rw (something, t, len, test) refl,
                  ),
                )
              ]
        ]
  ]
