-- ===== src/Map/Arena/Lend.antt =====
-- What the arena gives to the map.
use patricia_c.Base.{
  ℕ, ◌+◌, ◌%◌, ◌^◌, ◌≤◌, ◌<◌, ◌≡◌, ◌⊎◌, refl, ◌∙◌, Bool, true, false, bit_and, ◌==◌, ==_iff,
  if◌then◌else◌, some, arith, inl, inr, ltb, List, ◌∷◌, Bool-cases,
}
use native.Mathlib.Nat.{mod-eq_of_lt, pow-le-pow_right}
use patricia_c.Key.{to_bool}
use patricia_c.Base.Table.{holds_to, holds_at}
use patricia_c.Heap.{Ptr, null, ok}
use patricia_c.Pool.{
  Block, Pool, Os, alloc, init, morecore, enomem, header_size, pred64, topalign, slag,
}
use patricia_c.Pool.More.{IsPool, Grown}
use patricia_c.Pool.Start.{init_lem, page_test, started, zeroed}
use patricia_c.Map.{Store, s2m, node_offset}
use patricia_c.Map.Arena.{pool_wrap}

-- The map node lies with its set node of `bytes` bytes in the head block of the pool, behind its
-- used part, which then ends with the set node, and its payload alone is cleared; or there is none,
-- no used part has moved, and no payload is touched.
abbrev pub Fresh : Pool → Pool → Ptr → Store → ℕ → Store → Type 0
Fresh pool pool1 node st bytes st' =
    ((b : Block) × (blocks : List Block) × (base : ℕ) × (pool.blocks ≡ b ∷ blocks)
      × (pool1.blocks ≡ record b { used = base + node_offset + bytes } ∷ blocks)
      × (node ≡ b.at + base + node_offset)
      × (header_size ≤ base)
      × (b.used ≤ base)
      × (base + node_offset + bytes ≤ b.size)
      × (base % 2 ^ 3 ≡ 0)
      × ((p : Ptr) → st'.payload p ≡ (if p == s2m node then 0 else st.payload p)))
    ⊎ ((node ≡ null) × (pool1.blocks ≡ pool.blocks) × (st' ≡ st))

-- The head block is that of the pool, or a new one in front of its blocks.
abbrev pub FreshFrom : ℕ → Pool → Pool → Ptr → Store → ℕ → Store → Type 0
FreshFrom page pool pool1 node st bytes st' =
    Fresh pool pool1 node st bytes st'
    ⊎ ((grown : Pool) × Grown page pool (bytes + node_offset) 3 grown
        × Fresh grown pool1 node st bytes st')

abbrev divides : ℕ → Bool
divides p = 2 ^ 14 % 2 ^ p == 0

divides_to : holds_to divides 15 ≡ true
unfolding holds_to
divides_to = refl

-- A pool that may hold nothing refuses.
refused :
    (os : Os) (w : os.State) (bytes : ℕ)
    → bytes ≤ 0x20000
    → alloc os w (some zeroed) bytes (2 ^ 3)
      ≡ ok (record { result = null; errno = enomem; pool = some zeroed }, w)
unfolding alloc morecore slag topalign
refused os w bytes fits = let small : ltb 0x20000 bytes ≡ false = ground arith in rw small refl

-- For a page of at most 2 ^ 32 bytes that is a power of two, the set-up of the pool of a map makes
-- an empty pool with blocks of 16384 bytes when the page has at most that size. For a larger page
-- it leaves a pool without a limit, from which every allocation of at most 131072 bytes returns
-- NULL and ENOMEM.
pub pool_wrap_cases :
    (p : ℕ) (old : Pool)
    → p ≤ 32
    → ((p ≤ 14)
        × (pool_wrap (2 ^ p) (some old) ≡ ok (some (started (2 ^ 14) 2)))
        × IsPool (2 ^ p) (started (2 ^ 14) 2))
      ⊎ ((14 < p)
          × (pool_wrap (2 ^ p) (some old) ≡ ok (some zeroed))
          × ((os : Os) (w : os.State) (bytes : ℕ)
              → bytes ≤ 0x20000
              → alloc os w (some zeroed) bytes (2 ^ 3)
                ≡ ok (record { result = null; errno = enomem; pool = some zeroed }, w)))
unfolding pool_wrap init
pool_wrap_cases p old lp = elim (Bool-cases (ltb 14 p)) [
  | inr small ↦ elim (init_lem p lp (2 ^ 14) 2 (omega arith) (2 ^ p) old refl) [
    | inl (good, run, valid) ↦ inl (ground arith, rw run refl, valid)
    | inr (bad, e) ↦ absurd (
        bad (
          omega arith,
          omega arith,
          (==_iff _ _).0 (holds_at divides 15 p divides_to (ground arith)),
          omega arith,
        ))
  ]
  | inl large ↦
      let more : 2 ^ 15 ≤ 2 ^ p = pow-le-pow_right (omega arith) {i = 15} {j = p} (ground arith) in
      let rest : 2 ^ 14 % 2 ^ p ≡ 2 ^ 14 = mod-eq_of_lt (omega arith) in
      let page : to_bool (bit_and (2 ^ 14) (pred64 (2 ^ p))) ≡ true =
        page_test p lp (2 ^ 14) 2 (omega arith) (2 ^ p) refl ∙ rw rest refl in
      inr (ground arith, rw page refl, λ os w bytes fits. refused os w bytes fits)
]
