-- ===== src/Pool.antt =====
-- The bump allocator of src/vmbumppool.c: blocks of reserved address space of which pages are
-- committed on demand, for a `size_t` of 64 bits.
pub mod Align
pub mod Serve
pub mod More
pub mod Grant
pub mod Start
use patricia_c.Base.{
  ℕ, zero, suc, ◌+◌, ◌-◌, ◌*◌, ◌/◌, ◌%◌, ◌^◌, bit_and, Bool, true, false, not, ◌||◌, Option, none,
  some, List, [], ◌∷◌, ltb, leb, ◌==◌, if◌then◌else◌,
}
use patricia_c.Key.{to_bool}
use patricia_c.Heap.{Ptr, null, Run, ok, fault, out_of_fuel, ◌>>=◌, ◌>>◌, assert}

-- Error numbers of the operating system.
abbrev pub enomem : ℕ
enomem = 12

abbrev pub einval : ℕ
einval = 22

abbrev pub erange : ℕ
erange = 34

-- `VmBumpPoolBlkT` with its address, and `sizeof(VmBumpPoolBlkT)`.
pub record Block : Type 0 where
  pub at : Ptr
  pub size : ℕ
  pub used : ℕ

abbrev pub header_size : ℕ
header_size = 24

-- `VmBumpPoolT`; the blocks as a list, its head first.
pub record Pool : Type 0 where
  pub blocks : List Block
  pub blks : ℕ
  pub total : ℕ
  pub limit : ℕ

-- What the operating system offers: the page size, and `_arena_reserve`, `_arena_commit` and
-- `_arena_release` on its state. The first two return an error number, 0 for success.
pub record Os : Type 1 where
  pub State : Type 0
  pub page : ℕ
  pub reserve : State → ℕ → ℕ × Ptr × State
  pub commit : State → Ptr → ℕ → ℕ × State
  pub release : State → Ptr → ℕ → State

-- `x - 1u` and `~x` on a `size_t`
abbrev pub pred64 : ℕ → ℕ
pred64 x = (x + 2 ^ 64 - 1) % 2 ^ 64

abbrev pub not64 : ℕ → ℕ
not64 x = 2 ^ 64 - 1 - x

abbrev pub sub64 : ℕ → ℕ → ℕ
sub64 a b = (a + 2 ^ 64 - b) % 2 ^ 64

unfoldable pub topalign : ℕ → ℕ → Run ℕ
topalign base asize = do
  assert (bit_and asize (pred64 asize) == 0)
  ok (bit_and ((base + pred64 asize) % 2 ^ 64) (not64 (pred64 asize)))

-- The pool behind a call, none for a NULL pool, with the call's result and error number.
pub record Reply (A : Type 0) : Type 0 where
  pub result : A
  pub errno : ℕ
  pub pool : Option Pool

-- `vmBump_init`
unfoldable pub init : ℕ → Option Pool → ℕ → ℕ → Run (Reply Bool)
init page none blklen blkcnt = ok (record { result = false; errno = einval; pool = none })
init page (some old) blklen blkcnt =
    let zeroed : Pool = record { blocks = []; blks = 0; total = 0; limit = 0 } in
    if (blklen == 0) || (blkcnt == 0)
    then ok (record { result = false; errno = erange; pool = some zeroed })
    else if to_bool (bit_and blklen (pred64 page))
    then ok (record { result = false; errno = erange; pool = some zeroed })
    else do
      len ← topalign blklen page
      let limit = len * blkcnt % 2 ^ 64
      let pool : Pool = record zeroed { blks = len; limit = limit }
      ok (
          if not (blkcnt == limit / len)
          then record { result = false; errno = erange; pool = some pool }
          else record { result = true; errno = 0; pool = some pool })

-- `vmBump_fini`
unfoldable pub release_all : (os : Os) → os.State → List Block → os.State
release_all os w [] = w
release_all os w (b ∷ blocks) = release_all os (os.release w b.at b.size) blocks

unfoldable pub fini : (os : Os) → os.State → Option Pool → Reply (Unit {0}) × os.State
fini os w none = (record { result = tt; errno = einval; pool = none }, w)
fini os w (some pool) = (
  record { result = tt; errno = 0; pool = some (record pool { blocks = []; total = 0 }) },
  release_all os w pool.blocks,
)

-- The bytes behind the used part of the last block up to the page boundary.
unfoldable pub slag : ℕ → List Block → Run ℕ
slag page [] = ok 0
slag page (b ∷ blocks) = do u ← topalign b.used page; ok (sub64 u b.used)

-- `mpool_morecore`: the error number, the pool, and the state of the operating system.
unfoldable pub morecore : (os : Os) → os.State → Pool → ℕ → ℕ → Run (ℕ × Pool × os.State)
morecore os w pool size align = if ltb 0x20000 size then ok (erange, pool, w) else do
  header ← topalign header_size align
  let needed = (header + size) % 2 ^ 64
  mslag ← slag os.page pool.blocks
  if leb pool.limit pool.total || ltb (pool.limit - pool.total) ((needed + mslag) % 2 ^ 64)
      then ok (enomem, pool, w)
      else do
        paged ← topalign needed os.page
        let msize = if ltb paged pool.blks then pool.blks else paged
        let (failed, at, w1) = os.reserve w msize
        if not (failed == 0) then ok (failed, pool, w1) else do
          let (uncommitted, w2) = os.commit w1 at os.page
          ok (
              if not (uncommitted == 0) then (uncommitted, pool, os.release w2 at msize) else (
                0,
                record pool {
                  blocks = record { at = at; size = msize; used = header_size } ∷ pool.blocks;
                  total = (pool.total + (header_size + mslag)) % 2 ^ 64;
                },
                w2,
              ))

-- The part of `vmBump_alloc` behind `again`, with the number of rounds: a block that is too short
-- makes it come back once. The code reads the head of the pool, so a pool without one faults.
unfoldable pub carve : (os : Os) → ℕ → os.State → Pool → ℕ → ℕ → Run (Reply Ptr × os.State)
carve os zero w pool bytes align = out_of_fuel
carve os (suc rounds) w pool bytes align = elim pool.blocks [
  | [] ↦ fault
  | b ∷ blocks ↦ do
    cplo ← topalign b.used os.page
    base ← topalign b.used align
    let mend = (base + bytes) % 2 ^ 64
    cphi ← topalign mend os.page
    let taken : Pool = record pool {
      blocks = record b { used = mend } ∷ blocks;
      total = (pool.total + sub64 mend b.used) % 2 ^ 64;
    }
    let served : Reply Ptr = record { result = b.at + base; errno = 0; pool = some taken }
    if ltb (sub64 b.size b.used) (sub64 mend b.used)
        then (do
          (failed, pool1, w1) ← morecore os w pool bytes align
          if failed == 0
              then carve os rounds w1 pool1 bytes align
              else ok (record { result = null; errno = failed; pool = some pool1 }, w1))
        else if not (cphi == cplo)
        then (do
          let (failed, w1) = os.commit w (b.at + cplo) (sub64 cphi cplo)
          ok (
              if not (failed == 0)
              then (record { result = null; errno = failed; pool = some pool }, w1)
              else (served, w1)))
        else ok (served, w)
]

abbrev pub is_empty : List Block → Bool
is_empty [] = true
is_empty (b ∷ blocks) = false

-- `vmBump_alloc`
unfoldable pub alloc : (os : Os) → os.State → Option Pool → ℕ → ℕ → Run (Reply Ptr × os.State)
alloc os w none bytes align = ok (record { result = null; errno = einval; pool = none }, w)
alloc os w (some pool) bytes align =
    if is_empty pool.blocks
    then (do
      (failed, pool1, w1) ← morecore os w pool bytes align
      if not (failed == 0)
          then ok (record { result = null; errno = failed; pool = some pool1 }, w1)
          else carve os 2 w1 pool1 bytes align)
    else carve os 2 w pool bytes align

-- `vmBump_getattr`
unfoldable pub getattr : Pool → ℕ → ℕ
getattr pool what =
    if what == 1
    then pool.blks
    else if what == 2
    then pool.limit
    else if what == 3
    then pool.total
    else 2 ^ 64 - 1
