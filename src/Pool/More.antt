-- ===== src/Pool/More.antt =====
-- `mpool_morecore` of src/vmbumppool.c, and what a pool keeps.
use patricia_c.Base.{
  ℕ, ◌+◌, ◌-◌, ◌*◌, ◌/◌, ◌%◌, ◌^◌, ◌≤◌, ◌<◌, ◌≡◌, ◌⊎◌, inl, inr, refl, ap, sym, ◌∙◌, ◌==◌, false,
  true, arith, ltb, leb, ◌||◌, if◌then◌else◌, Bool-cases, List, [], ◌∷◌,
}
use native.Mathlib.Nat.{pow-le-pow_right}
use patricia_c.Heap.{Ptr, ok, ok_injective}
use patricia_c.Pool.{Block, Pool, Os, sub64, topalign, morecore, slag, header_size, enomem, erange}
use patricia_c.Pool.Align.{topalign_lem, topalign_up}

-- The bytes up to the page boundary behind `used`.
abbrev pub rounded : ℕ → ℕ → ℕ
rounded page used = (used + (page - 1)) / page * page

-- The size of a new block.
abbrev pub sized : ℕ → ℕ → ℕ
sized blks paged = if ltb paged blks then blks else paged

-- The bytes counted for the blocks behind the head, and for all of them.
unfoldable pub closed : ℕ → List Block → ℕ
closed page [] = 0
closed page (b ∷ blocks) = rounded page b.used + closed page blocks

unfoldable pub accounted : ℕ → List Block → ℕ
accounted page [] = 0
accounted page (b ∷ blocks) = b.used + closed page blocks

-- Each block has its header and its used part inside, and a size that leaves room to count.
abbrev pub Fit : Block → Type 0
Fit b = (header_size ≤ b.used) × (b.used ≤ b.size) × (b.size < 2 ^ 62)

pub data AllFit : List Block → Type 0 where
  fit_none : AllFit []
  fit_more : {b : Block} {blocks : List Block} → Fit b → AllFit blocks → AllFit (b ∷ blocks)

-- A pool whose blocks are in order and whose total counts what they hold, as a `size_t`.
pub record IsPool (page : ℕ) (pool : Pool) : Type 0 where
  pub fit : AllFit pool.blocks
  pub unit : pool.blks < 2 ^ 62
  pub counted : pool.total ≡ accounted page pool.blocks % 2 ^ 64

-- Where `mpool_morecore` adds a block: it has room for the request behind its aligned header.
pub record Grown (page : ℕ) (pool : Pool) (size k : ℕ) (pool1 : Pool) : Type 0 where
  pub block : Block
  pub base : ℕ
  pub valid : IsPool page pool1
  pub pushed : pool1.blocks ≡ block ∷ pool.blocks
  pub start : block.used ≡ header_size
  pub aligned : topalign header_size (2 ^ k) ≡ ok base
  pub multiple : base % 2 ^ k ≡ 0
  pub low : header_size ≤ base
  pub room : base + size ≤ block.size

pub power32 : (n : ℕ) → n ≤ 32 → 2 ^ n ≤ 2 ^ 32
power32 n l = pow-le-pow_right (omega arith) l

-- `topalign` at a page of at most `2 ^ 32` bytes.
pub page_up :
    (q p u : ℕ)
    → p ≤ 32
    → q ≡ 2 ^ p
    → u + 2 ^ 32 ≤ 2 ^ 64
    → (z : ℕ) × (topalign u q ≡ ok z) × (u ≤ z) × (z < u + 2 ^ 32) × (rounded q u ≡ z)
page_up q p u lp e room =
    let pp = power32 p lp in
    let (z, ez, lo, hi, al) = topalign_lem p u (omega arith) (omega arith) in
    let same = ok_injective (sym (topalign_up p u (omega arith) (omega arith)) ∙ ez) in
    (z, ap (topalign u) e ∙ ez, lo, omega arith, ap (λ x. rounded x u) e ∙ same)

module _ (os : Os) (k p : ℕ) (lk : k ≤ 32) (lp : p ≤ 32) (page : os.page ≡ 2 ^ p) where
  slag_lem :
      (blocks : List Block)
      → AllFit blocks
      → (m : ℕ) × (slag os.page blocks ≡ ok m)
        × (accounted os.page blocks + m ≡ closed os.page blocks)
        × (m < 2 ^ 32)
  unfolding slag closed accounted
  slag_lem [] f = (0, refl, refl, omega arith)
  slag_lem (b ∷ blocks) (fit_more (low, high, size) f) =
      let (z, ez, lo, hi, same) = page_up os.page p b.used lp page (omega arith) in
      let grown : sub64 z b.used ≡ z - b.used = omega arith in
      (z - b.used, rw (ez, grown) refl, rw same (omega arith), omega arith)

  -- The pool with a block more.
  pushed_pool : Pool → Ptr → ℕ → ℕ → Pool
  pushed_pool pool at msize m = record pool {
    blocks = record { at = at; size = msize; used = header_size } ∷ pool.blocks;
    total = (pool.total + (header_size + m)) % 2 ^ 64;
  }

  Grown-pushed :
      (pool : Pool) (at : Ptr) (size paged base m : ℕ)
      → IsPool os.page pool
      → header_size ≤ base
      → topalign header_size (2 ^ k) ≡ ok base
      → base % 2 ^ k ≡ 0
      → base + size ≤ paged
      → paged < 2 ^ 62
      → accounted os.page pool.blocks + m ≡ closed os.page pool.blocks
      → Grown os.page pool size k (pushed_pool pool at (sized pool.blks paged) m)
  unfolding pushed_pool accounted
  Grown-pushed pool at size paged base m s lo eb al fits small whole = record {
    block = record { at = at; size = sized pool.blks paged; used = header_size };
    base = base;
    valid = record {
      fit = fit_more (omega arith, ground arith, ground (arith, s.unit)) s.fit;
      unit = s.unit;
      counted = omega (arith, whole, s.counted);
    };
    pushed = refl;
    start = refl;
    aligned = eb;
    multiple = al;
    low = lo;
    room = ground arith;
  }

  -- What `mpool_morecore` returns.
  abbrev pub Extension : os.State → Pool → ℕ → Type 0
  Extension w pool size =
      (e : ℕ) × (pool1 : Pool) × (w1 : os.State) × (morecore os w pool size (2 ^ k)
        ≡ ok (e, pool1, w1))
      × (((e == 0) ≡ false × (pool1 ≡ pool)) ⊎ ((e == 0) ≡ true × Grown os.page pool size k pool1))

  -- The rest of it once the sizes are known.
  morecore-Extension :
      (w : os.State) (pool : Pool) (size base m paged : ℕ)
      → IsPool os.page pool
      → ltb 0x20000 size ≡ false
      → header_size ≤ base
      → topalign header_size (2 ^ k) ≡ ok base
      → base % 2 ^ k ≡ 0
      → (base + size) % 2 ^ 64 ≡ base + size
      → slag os.page pool.blocks ≡ ok m
      → accounted os.page pool.blocks + m ≡ closed os.page pool.blocks
      → topalign (base + size) os.page ≡ ok paged
      → base + size ≤ paged
      → paged < 2 ^ 62
      → Extension w pool size
  unfolding morecore pushed_pool
  morecore-Extension w pool size base m paged s small lo eb al wrap em whole ep fits short =
      elim (Bool-cases
        (leb pool.limit pool.total || ltb (pool.limit - pool.total) ((base + size + m) % 2 ^ 64))) [
          | inl over ↦ (enomem, pool, w, rw (small, eb, wrap, em, over) refl, inl (refl, refl))
          | inr under ↦
              let msize : ℕ = sized pool.blks paged in
              let got : ℕ × Ptr × os.State = os.reserve w msize in
              let done : ℕ × os.State = os.commit got.2 got.1 os.page in
              elim (Bool-cases (got.0 == 0)) [
                | inr failed ↦ (
                  got.0,
                  pool,
                  got.2,
                  rw (small, eb, wrap, em, under, ep, failed) refl,
                  inl (failed, refl),
                )
                | inl reserved ↦ elim (Bool-cases (done.0 == 0)) [
                  | inr failed ↦ (
                    done.0,
                    pool,
                    os.release done.1 got.1 msize,
                    rw (small, eb, wrap, em, under, ep, reserved, failed) refl,
                    inl (failed, refl),
                  )
                  | inl committed ↦ (
                    0,
                    pushed_pool pool got.1 msize m,
                    done.1,
                    rw (small, eb, wrap, em, under, ep, reserved, committed) refl,
                    inr (
                      refl,
                      Grown-pushed pool got.1 size paged base m s lo eb al fits short whole,
                    ),
                  )
                ]
              ]
        ]

  -- `mpool_morecore` on a pool: an error number and the pool as it was, or a block in front of it.
  pub morecore_lem :
      (w : os.State) (pool : Pool) (size : ℕ) → IsPool os.page pool → Extension w pool size
  unfolding morecore
  morecore_lem w pool size s = elim (Bool-cases (ltb 0x20000 size)) [
    | inl large ↦ (erange, pool, w, rw large refl, inl (refl, refl))
    | inr small ↦
        let pk = power32 k lk in
        let bound : size ≤ 0x20000 = ground (arith, small) in
        let (base, eb, lo, hi, al) = topalign_lem k header_size (omega arith) (omega arith) in
        let (m, em, whole, short) = slag_lem pool.blocks s.fit in
        let wrap : (base + size) % 2 ^ 64 ≡ base + size = omega arith in
        let (paged, ep, plo, phi, pal) = page_up os.page p (base + size) lp page (omega arith) in
        morecore-Extension w pool size base m paged s small lo eb al wrap em whole ep plo
          (omega arith)
  ]
