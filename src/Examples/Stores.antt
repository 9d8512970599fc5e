-- ===== src/Examples/Stores.antt =====
-- The theorems on maps, pools and pages at concrete inputs.
use patricia_c.Base.{
  Bool, some, [], ◌∷◌, ◌+◌, ◌-◌, ◌%◌, ◌≤◌, ◌&&◌, ℕ, ◌≡◌, ◌⊎◌, inl, ◌≢◌, refl, true, false, none,
  ◌==◌, ◌<◌, ◌^◌, if◌then◌else◌, arith,
}
use patricia_c.Key.{Key, equkey}
use patricia_c.Words.Ops.{fallback}
use patricia_c.Heap.{Ptr, null, write, Run, ok, fault, out_of_fuel}
use patricia_c.Map.{s2m, m2s, Store, MapInserted, patrimap_insert, patrimap_lookup, patrimap_remove}
use patricia_c.Map.Laws.{patrimap_lookup-insert}
use mathlib.Core.Bool.{true≢false}
use patricia_c.Pool.{
  Os, Block, Pool, Reply, alloc, carve, topalign, erange, enomem, init as start_pool,
}
use patricia_c.Pool.More.{IsPool, fit_none, fit_more, accounted, closed}
use patricia_c.Pool.Grant.{Allocated, alloc-Allocated}
use patricia_c.Pool.Start.{Usable, started, zeroed, init_lem}
use patricia_c.Map.Delete.{patrimap_lookup-remove}
use patricia_c.Map.Arena.{pool_wrap}
use patricia_c.Map.Arena.Lend.{pool_wrap_cases}
use patricia_c.System.{Linux, arena_commit, remap}
use patricia_c.System.Commit.{SetsErrno, Mapped, Populated, arena_commit-zero}
use patricia_c.Pool.Serve.{Served, alloc_room}
use patricia_c.Pool.Align.{topalign_lem}
use patricia_c.Tree.{init}
use patricia_c.Examples.{key_a, heap0, set_empty}

-- NULL has no set node in front of it, and stays NULL.
s2m-null : s2m null ≡ null
unfolding s2m
s2m-null = refl

abbrev store0 : Store
store0 = record { nodes = heap0; payload = λ p. 7 }

free_48 : store0.nodes (m2s 40) ≡ none
unfolding init write m2s
free_48 = refl

patrimap_lookup-insert_example :
    (r : MapInserted) × (patrimap_insert fallback true 40 store0 1 key_a ≡ ok r)
    × ((j : Key)
        → j.nbit < 2 ^ 16
        → patrimap_lookup r.store 1 j
          ≡ (if equkey j key_a then ok r.node else patrimap_lookup store0 1 j))
    × ((p : Ptr)
        → r.store.payload p ≡ (if r.inserted && (p == r.node) then 0 else store0.payload p))
patrimap_lookup-insert_example =
    patrimap_lookup-insert fallback true 40 store0 key_a set_empty free_48 (omega arith)
      (omega arith)

topalign_lem_example :
    (z : ℕ) × (topalign 24 (2 ^ 12) ≡ ok z) × (24 ≤ z) × (z < 24 + 2 ^ 12) × (z % 2 ^ 12 ≡ 0)
topalign_lem_example = topalign_lem 12 24 (omega arith) (omega arith)

-- An operating system with pages of 4096 bytes that commits what it is asked for.
abbrev willing : Os
willing = record {
  State = ℕ;
  page = 4096;
  reserve = λ w len. (0, 65536, w);
  commit = λ w at len. (0, w + len);
  release = λ w at len. w;
}

abbrev block : Block
block = record { at = 65536; size = 16384; used = 4090 }

alloc_room_example :
    (z : ℕ) × (lo : ℕ) × (hi : ℕ) × (4090 ≤ z)
    × (z < 4090 + 2 ^ 3)
    × (z + 100 ≤ 16384)
    × (z % 2 ^ 3 ≡ 0)
    × ((4090 ≤ lo) × (lo < 4090 + 4096) × (lo % 4096 ≡ 0))
    × ((z + 100 ≤ hi) × (hi < z + 100 + 4096) × (hi % 4096 ≡ 0))
    × Served willing 0
        (alloc willing 0
          (some (record { blocks = block ∷ []; blks = 16384; total = 4090; limit = 32768 }))
          100
          (2 ^ 3))
        (record { blocks = block ∷ []; blks = 16384; total = 4090; limit = 32768 })
        block
        []
        100
        z
        lo
        hi
alloc_room_example =
    alloc_room willing 0 block [] 16384 4090 32768 100 3 12 (omega arith) (omega arith) refl
      (omega arith) (omega arith)

-- A pool with the block alone, and requests to it.
abbrev one_block : Pool
one_block = record { blocks = block ∷ []; blks = 16384; total = 4090; limit = 32768 }

one_block-IsPool : IsPool 4096 one_block
unfolding accounted closed
one_block-IsPool = record {
  fit = fit_more (omega arith, omega arith, omega arith) fit_none;
  unit = omega arith;
  counted = refl;
}

alloc-Allocated_example :
    Allocated willing 3 12
      (omega arith)
      (omega arith)
      refl
      (alloc willing 0 (some one_block) 100 (2 ^ 3))
      one_block
      100
alloc-Allocated_example =
    alloc-Allocated willing 3 12 (omega arith) (omega arith) refl 0 one_block 100 one_block-IsPool
      (omega arith)

-- A request whose end passes the largest size is served with an end before its start.
abbrev served_at : Run (Reply Ptr × ℕ) → ℕ
served_at (ok (r, w)) = r.result
served_at fault = 0
served_at out_of_fuel = 0

alloc-wraps : served_at (alloc willing 0 (some one_block) (2 ^ 64 - 1) (2 ^ 3)) ≡ block.at + 4096
unfolding alloc carve topalign
alloc-wraps = refl

init_lem_example :
    (Usable 4096 16384 2
      × (start_pool 4096 (some one_block) 16384 2
          ≡ ok (record { result = true; errno = 0; pool = some (started 16384 2) }))
      × IsPool 4096 (started 16384 2))
    ⊎ (¬ Usable 4096 16384 2
        × ((pool : Pool) × (start_pool 4096 (some one_block) 16384 2
              ≡ ok (record { result = false; errno = erange; pool = some pool }))))
init_lem_example = init_lem 12 (omega arith) 16384 2 (omega arith) 4096 one_block refl

patrimap_lookup-remove_example :
    (q : Ptr) × (done : Bool) × (st' : Store) × (patrimap_lookup store0 1 key_a ≡ ok q)
    × (patrimap_remove store0 1 key_a ≡ ok (done, st'))
    × ((j : Key)
        → j.nbit < 2 ^ 16
        → patrimap_lookup st' 1 j
          ≡ (if done && equkey j key_a then ok null else patrimap_lookup store0 1 j))
    × ((p : Ptr) → p ≢ null → st'.payload p ≡ (if done && (p == q) then 0 else store0.payload p))
patrimap_lookup-remove_example = patrimap_lookup-remove store0 key_a set_empty (omega arith)

pool_wrap_cases_example :
    ((16 ≤ 14)
      × (pool_wrap (2 ^ 16) (some one_block) ≡ ok (some (started (2 ^ 14) 2)))
      × IsPool (2 ^ 16) (started (2 ^ 14) 2))
    ⊎ ((14 < 16)
        × (pool_wrap (2 ^ 16) (some one_block) ≡ ok (some zeroed))
        × ((os : Os) (w : os.State) (bytes : ℕ)
            → bytes ≤ 0x20000
            → alloc os w (some zeroed) bytes (2 ^ 3)
              ≡ ok (record { result = null; errno = enomem; pool = some zeroed }, w)))
pool_wrap_cases_example = pool_wrap_cases 16 one_block (omega arith)

-- A Linux that maps what it is asked for, but does not populate pages.
abbrev stubborn : Linux
stubborn = record {
  State = ℕ;
  page = 4096;
  mmap = λ w at len prot flags. (at, 22, w + 1);
  mprotect = λ w at len prot. (true, 0, w + 1);
  madvise = λ w at len how. (false, 22, w + 1);
  munmap = λ w at len. (true, 0, w);
}

stubborn-SetsErrno : SetsErrno stubborn
stubborn-SetsErrno = record {
  protect = λ w p l prot e. absurd (true≢false e);
  advise = λ w p l how e. omega arith;
  map = λ w p l prot flags failed. omega arith;
  fixed = λ w p l prot flags asked. inl refl;
}

committed : (arena_commit stubborn true 0 65536 4096).0 ≡ 0
unfolding arena_commit remap
committed = refl

arena_commit-zero_example :
    ((true ≡ true)
      × ((arena_commit stubborn true 0 65536 4096).1 ≡ true)
      × Populated stubborn 0 65536 4096)
    ⊎ (((arena_commit stubborn true 0 65536 4096).1 ≡ false)
        × ((w' : ℕ) × Mapped stubborn w' 65536 4096))
arena_commit-zero_example =
    arena_commit-zero stubborn true 0 65536 4096 stubborn-SetsErrno committed
