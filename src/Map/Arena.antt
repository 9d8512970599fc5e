-- ===== src/Map/Arena.antt =====
-- The map of src/cpatricia_map.c on the bump allocator of src/vmbumppool.c, as it is built with
-- PATRIMAP_USE_ARENA.
pub mod Lend
use patricia_c.Base.{
  ℕ, ◌+◌, ◌*◌, ◌%◌, ◌^◌, ◌≤◌, ◌<◌, ◌≡◌, ◌≢◌, ◌⊎◌, refl, Bool, true, false, not, ◌==◌, if◌then◌else◌,
  Option, none, some, arith, inl, inr,
}
use patricia_c.Heap.{Ptr, null, Run, ok, ◌>>=◌}
use patricia_c.Pool.{Pool, Os, Reply, alloc, init, fini}
use patricia_c.Map.{Store, node_offset, m2s}

-- What an allocation for the map leaves: the set node, the store, the pool and the system.
pub record Lent (State : Type 0) : Type 0 where
  pub node : Ptr
  pub store : Store
  pub errno : ℕ
  pub pool : Option Pool
  pub system : State

-- The payload of a map node is cleared where the arena gave one.
abbrev pub cleared : Store → Reply Ptr → Store
cleared st r =
    if not (r.result == null)
    then record st { payload = λ p. if p == r.result then 0 else st.payload p }
    else st

abbrev pub lent : {State : Type 0} → Store → Reply Ptr → State → Lent State
lent st r w = record {
  node = m2s r.result;
  store = cleared st r;
  errno = r.errno;
  pool = r.pool;
  system = w;
}

-- `alloc_wrap` on an arena
unfoldable pub arena_alloc : (os : Os) → os.State → Option Pool → Store → ℕ → Run (Lent os.State)
arena_alloc os w pool st bytes = do
  (r, w1) ← alloc os w pool ((bytes + node_offset) % 2 ^ 64) (2 ^ 3)
  ok (lent st r w1)

-- `kill_wrap` and `pool_wrap` on an arena
abbrev pub kill_wrap : (os : Os) → os.State → Option Pool → Reply (Unit {0}) × os.State
kill_wrap os w pool = fini os w pool

unfoldable pub pool_wrap : ℕ → Option Pool → Run (Option Pool)
pool_wrap page pool = do r ← init page pool (2 ^ 14) 2; ok r.pool
