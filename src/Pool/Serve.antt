-- ===== src/Pool/Serve.antt =====
-- `vmBump_alloc` of src/vmbumppool.c on a pool whose head block has room.
use patricia_c.Base.{
  ℕ, suc, ◌+◌, ◌-◌, ◌%◌, ◌^◌, ◌≤◌, ◌<◌, ◌≡◌, ◌≢◌, ◌⊎◌, inl, inr, refl, ◌==◌, false, arith, ltb,
  Bool-cases, some, List, ◌∷◌,
}
use patricia_c.Heap.{Ptr, null, Run, ok}
use patricia_c.Pool.{Block, Pool, Os, Reply, sub64, topalign, carve, alloc}
use patricia_c.Pool.Align.{topalign_lem}

-- The pool after `bytes` were served at the offset `z` of its head block.
abbrev pub taken : Pool → Block → List Block → ℕ → Pool
taken pool b blocks end = record pool {
  blocks = record b { used = end } ∷ blocks;
  total = (pool.total + (end - b.used)) % 2 ^ 64;
}

-- The area at offset `z` of the head block, and a failure that leaves the pool as it was.
abbrev pub area : Pool → Block → List Block → ℕ → ℕ → Reply Ptr
area pool b blocks bytes z = record {
  result = b.at + z;
  errno = 0;
  pool = some (taken pool b blocks (z + bytes));
}

abbrev pub failure : Pool → ℕ → Reply Ptr
failure pool e = record { result = null; errno = e; pool = some pool }

-- The commit of the pages from offset `lo` up to `hi` of a block.
abbrev pub pages : (os : Os) → os.State → Block → ℕ → ℕ → ℕ × os.State
pages os w b lo hi = os.commit w (b.at + lo) (sub64 hi lo)

-- The outcomes of an allocation in the head block, whose pages are committed up to offset `lo` and
-- needed up to `hi`. Where these are the same the area is served and the system left alone; else
-- the pages between are committed, and by its answer the area is served or its error returned.
unfoldable pub Served :
    (os : Os)
    → os.State
    → Run (Reply Ptr × os.State)
    → Pool
    → Block
    → List Block
    → ℕ
    → ℕ
    → ℕ
    → ℕ
    → Type 0
Served os w run pool b blocks bytes z lo hi =
    ((hi ≡ lo) × (run ≡ ok (area pool b blocks bytes z, w)))
    ⊎ ((hi ≢ lo)
        × ((pages os w b lo hi).0 ≡ 0)
        × (run ≡ ok (area pool b blocks bytes z, (pages os w b lo hi).1)))
    ⊎ ((hi ≢ lo)
        × ((pages os w b lo hi).0 ≢ 0)
        × (run ≡ ok (failure pool ((pages os w b lo hi).0), (pages os w b lo hi).1)))

-- The rest of a round once the offsets are known.
pub carve-Served :
    (os : Os) (w : os.State) (pool : Pool) (b : Block) (blocks : List Block)
    (bytes k cplo z cphi rounds : ℕ)
    → pool.blocks ≡ b ∷ blocks
    → topalign b.used os.page ≡ ok cplo
    → topalign b.used (2 ^ k) ≡ ok z
    → topalign (z + bytes) os.page ≡ ok cphi
    → (z + bytes) % 2 ^ 64 ≡ z + bytes
    → sub64 (z + bytes) b.used ≡ z + bytes - b.used
    → ltb (sub64 b.size b.used) (z + bytes - b.used) ≡ false
    → Served os w (carve os (suc rounds) w pool bytes (2 ^ k)) pool b blocks bytes z cplo cphi
unfolding carve Served
carve-Served os w pool b blocks bytes k cplo z cphi rounds head elo ez ehi wrap grown enough =
    rw (head, elo, ez, wrap, ehi, grown, enough)
      (elim (Bool-cases (cphi == cplo)) [
        | inl same ↦ rw same (inl (ground arith, refl))
        | inr more ↦
            rw more (elim (Bool-cases ((os.commit w (b.at + cplo) (sub64 cphi cplo)).0 == 0)) [
              | inl done ↦ rw done (inr (inl (ground arith, ground arith, refl)))
              | inr failed ↦ rw failed (inr (inr (ground arith, ground arith, refl)))
            ])
      ])

-- `topalign` at a page.
at_page :
    (q p u : ℕ)
    → q ≡ 2 ^ p
    → p < 64
    → u + 2 ^ p ≤ 2 ^ 64
    → (z : ℕ) × (topalign u q ≡ ok z) × (u ≤ z) × (z < u + q) × (z % q ≡ 0)
at_page q p u e lp fits = rw e (topalign_lem p u lp fits)

-- For a page size and an alignment that are powers of two below 2 ^ 64, in a pool whose head block
-- has room for the request and the largest padding, and with sizes that do not overflow, an
-- allocation returns. There is an aligned offset, not below the used part and less than the
-- alignment above it, with the request inside the block. The pages of the used part end at the
-- next multiple of the page size, and those of the request likewise. When these are the same, the
-- area at the offset is returned and the system is left alone. Otherwise the pages between the two
-- are committed: if this succeeds, the area is returned with the state that the commit left, and
-- if it fails, then NULL, the error number of the commit and the pool as it was. With the area,
-- the used part ends behind the request and the total grows by as much.
pub alloc_room :
    (os : Os) (w : os.State) (b : Block) (blocks : List Block) (blks total limit bytes k p : ℕ)
    → k < 64
    → p < 64
    → os.page ≡ 2 ^ p
    → b.used + (2 ^ k - 1) + bytes ≤ b.size
    → b.size + 2 ^ k + 2 ^ p < 2 ^ 64
    → (z : ℕ) × (lo : ℕ) × (hi : ℕ) × (b.used ≤ z)
      × (z < b.used + 2 ^ k)
      × (z + bytes ≤ b.size)
      × (z % 2 ^ k ≡ 0)
      × ((b.used ≤ lo) × (lo < b.used + os.page) × (lo % os.page ≡ 0))
      × ((z + bytes ≤ hi) × (hi < z + bytes + os.page) × (hi % os.page ≡ 0))
      × Served os w
          (alloc os w
            (some (record { blocks = b ∷ blocks; blks = blks; total = total; limit = limit }))
            bytes
            (2 ^ k))
          (record { blocks = b ∷ blocks; blks = blks; total = total; limit = limit })
          b
          blocks
          bytes
          z
          lo
          hi
unfolding alloc
alloc_room os w b blocks blks total limit bytes k p lk lp page room fits =
    let (z, ez, lo, hi, aligned) = topalign_lem k b.used lk (omega arith) in
    let (cplo, elo, x1, x2, x3) = at_page os.page p b.used page lp (omega arith) in
    let (cphi, ehi, y1, y2, y3) = at_page os.page p (z + bytes) page lp (omega arith) in
    let wrap : (z + bytes) % 2 ^ 64 ≡ z + bytes = omega arith in
    let grown : sub64 (z + bytes) b.used ≡ z + bytes - b.used = omega arith in
    let enough : ltb (sub64 b.size b.used) (z + bytes - b.used) ≡ false = ground arith in
    (
      z,
      cplo,
      cphi,
      lo,
      hi,
      omega arith,
      aligned,
      (x1, x2, x3),
      (y1, y2, y3),
      carve-Served os w _ b blocks bytes k cplo z cphi 1 refl elo ez ehi wrap grown enough,
    )
