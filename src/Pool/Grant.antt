-- ===== src/Pool/Grant.antt =====
-- `vmBump_alloc` of src/vmbumppool.c on every pool.
use patricia_c.Base.{
  ℕ, suc, ◌+◌, ◌%◌, ◌^◌, ◌≤◌, ◌<◌, ◌≡◌, ◌≢◌, ◌⊎◌, inl, inr, refl, ap, ◌∙◌, ◌==◌, false, true, arith,
  ltb, Bool-cases, if◌then◌else◌, some, List, [], ◌∷◌,
}
use patricia_c.Heap.{Ptr, null, Run, ok, ◌>>=◌}
use patricia_c.Pool.{Block, Pool, Os, Reply, is_empty, sub64, topalign, carve, alloc, morecore}
use patricia_c.Pool.Align.{topalign_lem}
use patricia_c.Pool.Serve.{Served, area, taken, carve-Served}
use patricia_c.Pool.More.{
  AllFit, fit_more, Fit, IsPool, Grown, accounted, power32, page_up, morecore_lem,
}

-- The request was served from the head block: an aligned area behind its used part and inside it,
-- which the used part now covers.
pub record Granted (page : ℕ) (pool : Pool) (bytes k : ℕ) (r : Reply Ptr) (pool1 : Pool)
    : Type 0 where
  pub block : Block
  pub blocks : List Block
  pub base : ℕ
  pub was : pool.blocks ≡ block ∷ blocks
  pub now : pool1.blocks ≡ record block { used = base + bytes } ∷ blocks
  pub area : r.result ≡ block.at + base
  pub no_error : r.errno ≡ 0
  pub aligned : base % 2 ^ k ≡ 0
  pub behind : block.used ≤ base
  pub inside : base + bytes ≤ block.size

-- What an allocation in the head block answers.
abbrev pub Answer : ℕ → Pool → ℕ → ℕ → Reply Ptr → Type 0
Answer page pool bytes k r =
    (pool1 : Pool) × (r.pool ≡ some pool1)
    × IsPool page pool1
    × (Granted page pool bytes k r pool1
        ⊎ ((r.result ≡ null) × (r.errno ≢ 0) × (pool1.blocks ≡ pool.blocks)))

-- A run that returns such an answer.
abbrev pub Answered : (os : Os) → Run (Reply Ptr × os.State) → Pool → ℕ → ℕ → Type 0
Answered os run pool bytes k =
    (r : Reply Ptr) × (w : os.State) × (run ≡ ok (r, w)) × Answer os.page pool bytes k r

pub head-Fit : {b : Block} {blocks : List Block} → AllFit (b ∷ blocks) → Fit b × AllFit blocks
head-Fit (fit_more f rest) = (f, rest)

taken-IsPool :
    (page : ℕ) (pool : Pool) (b : Block) (blocks : List Block) (end : ℕ)
    → pool.blocks ≡ b ∷ blocks
    → IsPool page pool
    → b.used ≤ end
    → end ≤ b.size
    → IsPool page (taken pool b blocks end)
unfolding accounted
taken-IsPool page pool b blocks end head s lo hi =
    let f : AllFit (b ∷ blocks) = rw (← head) s.fit in
    let ((low, high, size), rest) = head-Fit f in
    let total : pool.total ≡ accounted page (b ∷ blocks) % 2 ^ 64 = s.counted ∙ rw head in
    record {
      fit = fit_more (omega arith, omega arith, omega arith) rest;
      unit = s.unit;
      counted = omega (arith, total);
    }

module _ (os : Os) (k p : ℕ) (lk : k ≤ 32) (lp : p ≤ 32) (page : os.page ≡ 2 ^ p) where
  area-Answered :
      (run : Run (Reply Ptr × os.State)) (pool : Pool) (b : Block) (blocks : List Block)
      (bytes z : ℕ) (w : os.State)
      → pool.blocks ≡ b ∷ blocks
      → IsPool os.page pool
      → z % 2 ^ k ≡ 0
      → b.used ≤ z
      → z + bytes ≤ b.size
      → run ≡ ok (area pool b blocks bytes z, w)
      → Answered os run pool bytes k
  area-Answered run pool b blocks bytes z w head s al lo room e = (
    _,
    w,
    e,
    (
      taken pool b blocks (z + bytes),
      refl,
      taken-IsPool os.page pool b blocks (z + bytes) head s (omega arith) room,
      inl (record {
        block = b;
        blocks = blocks;
        base = z;
        was = head;
        now = refl;
        area = refl;
        no_error = refl;
        aligned = al;
        behind = lo;
        inside = room;
      }),
    ),
  )

  Served-Answered :
      (run : Run (Reply Ptr × os.State)) (pool : Pool) (b : Block) (blocks : List Block)
      (bytes z lo hi : ℕ) (w : os.State)
      → pool.blocks ≡ b ∷ blocks
      → IsPool os.page pool
      → z % 2 ^ k ≡ 0
      → b.used ≤ z
      → z + bytes ≤ b.size
      → Served os w run pool b blocks bytes z lo hi
      → Answered os run pool bytes k
  unfolding Served
  Served-Answered run pool b blocks bytes z lo hi w head s al behind room (inl (same, e)) =
      area-Answered run pool b blocks bytes z w head s al behind room e
  Served-Answered run pool b blocks bytes z lo hi w head s al behind room
        (inr (inl (more, done, e))) =
      area-Answered run pool b blocks bytes z _ head s al behind room e
  Served-Answered run pool b blocks bytes z lo hi w head s al behind room
        (inr (inr (more, bad, e))) =
      (_, _, e, (pool, refl, s, inr (refl, bad, refl)))

  -- A round in a block with room.
  carve_room :
      (w : os.State) (pool : Pool) (b : Block) (blocks : List Block) (bytes z rounds : ℕ)
      → pool.blocks ≡ b ∷ blocks
      → IsPool os.page pool
      → topalign b.used (2 ^ k) ≡ ok z
      → z % 2 ^ k ≡ 0
      → b.used ≤ z
      → z + bytes ≤ b.size
      → Answered os (carve os (suc rounds) w pool bytes (2 ^ k)) pool bytes k
  carve_room w pool b blocks bytes z rounds head s ez al lo room =
      let f : AllFit (b ∷ blocks) = rw (← head) s.fit in
      let ((low, high, size), rest) = head-Fit f in
      let (cplo, elo, x1, x2, x3) = page_up os.page p b.used lp page (omega arith) in
      let (cphi, ehi, y1, y2, y3) = page_up os.page p (z + bytes) lp page (omega arith) in
      Served-Answered _ pool b blocks bytes z cplo cphi w head s al lo room (
        carve-Served os w pool b blocks bytes k cplo z cphi rounds head elo ez ehi (omega arith)
          (omega arith) (ground arith))

  -- A round in a block without room.
  carve_full :
      (w : os.State) (pool : Pool) (b : Block) (blocks : List Block) (bytes cplo z cphi rounds : ℕ)
      → pool.blocks ≡ b ∷ blocks
      → topalign b.used os.page ≡ ok cplo
      → topalign b.used (2 ^ k) ≡ ok z
      → topalign (z + bytes) os.page ≡ ok cphi
      → (z + bytes) % 2 ^ 64 ≡ z + bytes
      → ltb (sub64 b.size b.used) (sub64 (z + bytes) b.used) ≡ true
      → carve os (suc rounds) w pool bytes (2 ^ k) ≡ (do
        (failed, pool1, w1) ← morecore os w pool bytes (2 ^ k)
        if failed == 0
            then carve os rounds w1 pool1 bytes (2 ^ k)
            else ok (record { result = null; errno = failed; pool = some pool1 }, w1))
  unfolding carve
  carve_full w pool b blocks bytes cplo z cphi rounds head elo ez ehi wrap full =
      rw (head, elo, ez, wrap, ehi, full) refl

  -- What an allocation answers: from the head block, or from a new one in front.
  abbrev pub Allocated : Run (Reply Ptr × os.State) → Pool → ℕ → Type 0
  Allocated run pool bytes =
      (r : Reply Ptr) × (w : os.State) × (run ≡ ok (r, w))
      × (Answer os.page pool bytes k r
          ⊎ ((pool1 : Pool) × Grown os.page pool bytes k pool1 × Answer os.page pool1 bytes k r))

  -- What the error of `mpool_morecore` makes of an allocation.
  abbrev refusal : ℕ → Pool → os.State → Reply Ptr × os.State
  refusal e pool w = (record { result = null; errno = e; pool = some pool }, w)

  -- Behind a call of `mpool_morecore`: the error, or a round in the new block.
  grown-Allocated :
      (w : os.State) (pool : Pool) (bytes rounds : ℕ)
      (next : ℕ → Pool → os.State → Run (Reply Ptr × os.State))
      → IsPool os.page pool
      → ((e : ℕ) (pool1 : Pool) (w1 : os.State)
          → (e == 0) ≡ false
          → next e pool1 w1 ≡ ok (refusal e pool1 w1))
      → ((e : ℕ) (pool1 : Pool) (w1 : os.State)
          → (e == 0) ≡ true
          → next e pool1 w1 ≡ carve os (suc rounds) w1 pool1 bytes (2 ^ k))
      → Allocated (do (e, pool1, w1) ← morecore os w pool bytes (2 ^ k); next e pool1 w1) pool bytes
  grown-Allocated w pool bytes rounds next s on_error on_block =
      let (e, pool1, w1, run, cases) = morecore_lem os k p lk lp page w pool bytes s in
      elim cases [
        | inl (bad, same) ↦ (
          (refusal e pool1 w1).0,
          w1,
          rw run (on_error e pool1 w1 bad),
          inl (pool, ap some same, s, inr (refl, ground arith, refl)),
        )
        | inr (fine, g) ↦
            let (r, w2, carved, answer) =
              carve_room w1 pool1 g.block pool.blocks bytes g.base rounds g.pushed g.valid
                (rw g.start g.aligned) g.multiple (omega (arith, g.start, g.low)) g.room in
            (r, w2, rw run (on_block e pool1 w1 fine ∙ carved), inr (pool1, g, answer))
      ]

  -- A block or none in front.
  head_of : (l : List Block) → (l ≡ []) ⊎ ((b : Block) × (blocks : List Block) × (l ≡ b ∷ blocks))
  head_of [] = inl refl
  head_of (b ∷ blocks) = inr (b, blocks, refl)

  -- The rounds on a pool with a block.
  carve-Allocated :
      (w : os.State) (pool : Pool) (b : Block) (blocks : List Block) (bytes : ℕ)
      → pool.blocks ≡ b ∷ blocks
      → IsPool os.page pool
      → bytes < 2 ^ 62
      → Allocated (carve os 2 w pool bytes (2 ^ k)) pool bytes
  carve-Allocated w pool b blocks bytes head s bound =
      let f : AllFit (b ∷ blocks) = rw (← head) s.fit in
      let ((low, high, size), rest) = head-Fit f in
      let pk = power32 k lk in
      let (z, ez, lo, hi, al) = topalign_lem k b.used (omega arith) (omega arith) in
      elim (Bool-cases (ltb (sub64 b.size b.used) (sub64 (z + bytes) b.used))) [
        | inr enough ↦
            let (r, w1, run, answer) =
              carve_room w pool b blocks bytes z 1 head s ez al lo (ground arith) in
            (r, w1, run, inl answer)
        | inl full ↦
            let (cplo, elo, x1, x2, x3) = page_up os.page p b.used lp page (omega arith) in
            let (cphi, ehi, y1, y2, y3) = page_up os.page p (z + bytes) lp page (omega arith) in
            let (r, w1, run, cases) =
              grown-Allocated w pool bytes 0 _ s (λ e q v bad. rw bad refl)
                (λ e q v fine. rw fine refl) in
            (
              r,
              w1,
              carve_full w pool b blocks bytes cplo z cphi 1 head elo ez ehi (omega arith) full
                  ∙ run,
              cases,
            )
      ]

  -- With a page size and an alignment that are powers of two and at most 2 ^ 32, in a pool whose
  -- blocks have their used part inside and whose total counts them, an allocation of fewer than 2
  -- ^ 62 bytes returns. It is served at an aligned offset, behind the used part and inside the
  -- block, in the head block or in one new block in front of it, and the used part then ends
  -- behind the request; or the result is NULL with an error number, and no used part moves. The
  -- pool that is left has its used parts inside the blocks and a total that counts them.
  pub alloc-Allocated :
      (w : os.State) (pool : Pool) (bytes : ℕ)
      → IsPool os.page pool
      → bytes < 2 ^ 62
      → Allocated (alloc os w (some pool) bytes (2 ^ k)) pool bytes
  unfolding alloc
  alloc-Allocated w pool bytes s bound = elim (head_of pool.blocks) [
    | inr (b, blocks, head) ↦
        let e : is_empty pool.blocks ≡ false = ap is_empty head in
        rw e (carve-Allocated w pool b blocks bytes head s bound)
    | inl empty ↦
        let e : is_empty pool.blocks ≡ true = ap is_empty empty in
        rw e (
          grown-Allocated w pool bytes 1 _ s (λ e q v bad. rw bad refl)
            (λ e q v fine. rw fine refl))
  ]
