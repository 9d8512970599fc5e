-- ===== src/Examples.antt =====
-- The theorems at concrete inputs: the keys "a", "b" and "ab" in a set whose sentinel is at
-- address 1, on a heap that holds nothing else.
pub mod Stores
pub mod Teardown
pub mod Pair
pub mod Deletions
pub mod Walks
use patricia_c.Base.{
  Bool, Option, some, List, [], ◌∷◌, ◌+◌, ◌-◌, ◌%◌, ◌≤◌, ◌&&◌, ℕ, ◌≡◌, ◌↔◌, ◌⊎◌, ◌≢◌, inr, refl,
  true, false, none, ◌==◌, ◌<◌, ◌^◌, ltb, sym, ap, ◌∙◌, Bool-cases, inl, if◌then◌else◌, arith,
}
use patricia_c.Key.{Mem, Key, getbit, equkey, same_bytes}
use patricia_c.Key.Stream.{stream, getbit-stream}
use patricia_c.Key.Equal.{SameKey, equkey_iff, equkey-getbit_iff}
use patricia_c.Diff.{
  bitdiff, limb_loop, nextbits, load as load_word, load_little, partial_load, flush, clzz,
}
use patricia_c.Diff.First.{IsFirstDiff, bitdiff_first}
use patricia_c.Words.{patricia_bswap, patricia_clz, bswap_loop, clz_loop}
use patricia_c.Words.Swap.{patricia_bswap_bytes}
use patricia_c.Words.Zeros.{Counts, patricia_clz_top}
use patricia_c.Bits.Bytes.{byte_of}
use patricia_c.Words.Ops.{fallback}
use patricia_c.Heap.{Ptr, null, Node, Heap, write, load, store, Run, ok, fault, out_of_fuel, ◌>>=◌}
use patricia_c.Trie.{Trie, find, leaf, branch, leaves, inner}
use patricia_c.Evict.{
  remove, evict, pwalk, pwalk_loop, unlink, fini as fini_set, right_end, graft_right, funnel,
  free_list,
}
use patricia_c.Evict.Removed.{Removed}
use patricia_c.Evict.Laws.{Outcome, evict_lem, remove_lem, lookup-remove}
use patricia_c.Evict.RoundTrip.{Restored, remove-insert}
use patricia_c.Evict.Funnel.{nodes_of}
use patricia_c.Evict.Fini.{emptied, fini_lem}
use patricia_c.Session.{
  Dict, insert_call, remove_call, run_call, spec_call, only_root, Reach, set_up, call,
}
use patricia_c.Session.Refine.{
  Agree, Answers, init-Agree, run_call-Answers, Reach-Agree, entry-injective,
}
use patricia_c.Iter.{
  Iter, in_head, in_order, iter_init, iter_next, iter_prev, iter_step, step_loop, leave, iter_child,
  parent_push, parent_pop, pop_cached, refill, fwd_table, rev_table,
}
use patricia_c.Map.{s2m, m2s, Store, MapInserted, patrimap_insert, patrimap_lookup, patrimap_remove}
use patricia_c.Map.Laws.{patrimap_lookup-insert}
use patricia_c.Iter.Parents.{undone, parent_pop-push}
use patricia_c.Tree.NoMemory.{insert-null}
use mathlib.Core.Bool.{true≢false}
use patricia_c.Pool.{
  Os, Block, Pool, Reply, alloc, carve, topalign, erange, enomem, init as start_pool,
}
use patricia_c.Pool.More.{IsPool, fit_none, fit_more, accounted, closed}
use patricia_c.Pool.Grant.{Allocated, alloc-Allocated}
use patricia_c.Pool.Start.{Usable, started, zeroed, init_lem}
use patricia_c.Map.Delete.{patrimap_lookup-remove}
use patricia_c.Map.Arena.{Lent, arena_alloc, pool_wrap}
use patricia_c.Map.Arena.Lend.{Fresh, pool_wrap_cases}
use patricia_c.Print.{patriset_print}
use patricia_c.Print.Rows.{drawn, patriset_print-drawn}
use patricia_c.System.{Linux, arena_commit, remap}
use patricia_c.System.Commit.{SetsErrno, Mapped, Populated, arena_commit-zero}
use patricia_c.Pool.Serve.{Served, alloc_room}
use patricia_c.Tree.Prefix.{prefix-root}
use patricia_c.Pool.Align.{topalign_lem}
use patricia_c.Tree.{
  Inserted, init, prefix, prefix_walk, lookup, walk, insert, rounds, descend, seek, link, create,
  copy_key, insert_new,
}
use patricia_c.Tree.Rep.{IsNodeSet, bits_in}
use patricia_c.Tree.Lookup.{IsHit, lookup_lem}
use patricia_c.Tree.Fresh.{copy_key-SameKey, Kept, Created}
use patricia_c.Tree.Insert.{insert_lem}
use patricia_c.Tree.Laws.{init-IsNodeSet, lookup-insert, Extended, insert-IsNodeSet}

abbrev pub bytes_of : ℕ → ℕ → Mem
bytes_of x y i = if i == 0 then x else if i == 1 then y else 0

abbrev pub key_a : Key
key_a = record { mem = bytes_of 97 0; nbit = 8 }

abbrev pub key_b : Key
key_b = record { mem = bytes_of 98 0; nbit = 8 }

abbrev pub key_ab : Key
key_ab = record { mem = bytes_of 97 98; nbit = 16 }

bitdiff_a_b : bitdiff fallback true key_a key_b ≡ 7
unfolding bitdiff limb_loop nextbits clzz patricia_bswap bswap_loop patricia_clz clz_loop getbit
bitdiff_a_b = refl

abbrev pub is_none : Option Node → Bool
is_none none = true
is_none (some n) = false

abbrev pub empty : Heap
empty p = none

abbrev pub heap0 : Heap
heap0 = init 1 empty

-- What a run returns, with a fallback for a run that returns nothing.
abbrev pub result : Run Inserted → Inserted
result (ok r) = r
result fault = record { node = null; inserted = false; heap = empty }
result out_of_fuel = record { node = null; inserted = false; heap = empty }

abbrev pub insert_a : Run Inserted
insert_a = insert fallback true 2 heap0 1 key_a

pub insert_a-runs : insert_a ≡ ok (result insert_a)
unfolding insert insert_new descend seek link create copy_key init write load store rounds equkey
    same_bytes getbit bitdiff limb_loop nextbits load_word load_little partial_load flush clzz
    patricia_bswap bswap_loop patricia_clz clz_loop
insert_a-runs = refl

pub set_empty : IsNodeSet heap0 1 (leaf 1)
set_empty = init-IsNodeSet 1 empty (omega arith) refl

init-IsNodeSet_example : IsNodeSet heap0 1 (leaf 1)
init-IsNodeSet_example = init-IsNodeSet 1 empty (omega arith) refl

pub free_2 : heap0 2 ≡ none
unfolding init write
free_2 = refl

lookup-insert_example :
    lookup (result insert_a).heap 1 key_a
    ≡ (if equkey key_a key_a then ok (result insert_a).node else lookup heap0 1 key_a)
lookup-insert_example =
    lookup-insert fallback true 2 key_a (result insert_a) set_empty free_2 (omega arith)
      (omega arith) insert_a-runs key_a (omega arith)

insert-IsNodeSet_example : Extended 1 (leaf 1) (result insert_a)
insert-IsNodeSet_example =
    insert-IsNodeSet fallback true 2 key_a (result insert_a) set_empty free_2 (omega arith)
      (omega arith) insert_a-runs

insert_lem_example :
    (r : Inserted) × (insert fallback true 2 heap0 1 key_a ≡ ok r)
    × (Kept heap0 (leaf 1) key_a r ⊎ Created heap0 1 (leaf 1) key_a 2 r)
insert_lem_example = insert_lem fallback true 2 key_a set_empty free_2 (omega arith) (omega arith)

lookup_lem_example :
    ((q : Ptr) × IsHit heap0 (leaf 1) key_ab q × (lookup heap0 1 key_ab ≡ ok q))
    ⊎ (((q : Ptr) → ¬ IsHit heap0 (leaf 1) key_ab q) × (lookup heap0 1 key_ab ≡ ok null))
lookup_lem_example = lookup_lem set_empty key_ab (omega arith)

bitdiff_first_example :
    (SameKey key_a key_ab × (bitdiff fallback true key_a key_ab ≡ 0))
    ⊎ IsFirstDiff key_a key_ab (bitdiff fallback true key_a key_ab)
bitdiff_first_example = bitdiff_first fallback true key_a key_ab (omega arith) (omega arith)

getbit-stream_example : getbit key_ab 12 ≡ stream key_ab 12
getbit-stream_example = getbit-stream key_ab 12 (omega arith) (omega arith)

equkey_iff_example : (equkey key_a key_ab ≡ true) ↔ SameKey key_a key_ab
equkey_iff_example = equkey_iff key_a key_ab

equkey-getbit_iff_example :
    (equkey key_a key_ab ≡ true) ↔ ((i : ℕ) → i < 2 ^ 16 → getbit key_a i ≡ getbit key_ab i)
equkey-getbit_iff_example = equkey-getbit_iff key_a key_ab (omega arith) (omega arith)

copy_key-SameKey_example : SameKey key_ab (copy_key key_ab)
copy_key-SameKey_example = copy_key-SameKey key_ab

patricia_bswap_bytes_example :
    byte_of (patricia_bswap 0x0102030405060708) 1 ≡ byte_of 0x0102030405060708 6
patricia_bswap_bytes_example = patricia_bswap_bytes 0x0102030405060708 1 (omega arith)

patricia_clz_top_example : Counts 1000 (patricia_clz 1000)
patricia_clz_top_example = patricia_clz_top 1000 (omega arith) (omega arith)

-- The prefix walk for the two bits 11 in the set of the one bit 1 ends at the root, whose empty
-- key passes the last comparison, so the root is returned and the node of the bit 1 is not.
abbrev key_1 : Key
key_1 = record { mem = bytes_of 128 0; nbit = 1 }

abbrev pub key_11 : Key
key_11 = record { mem = bytes_of 192 0; nbit = 2 }

abbrev insert_1 : Run Inserted
insert_1 = insert fallback true 2 heap0 1 key_1

prefix-forgets_best : prefix (result insert_1).heap 1 key_11 ≡ ok 1
unfolding prefix prefix_walk insert insert_new descend seek link create copy_key init write load
    store rounds equkey same_bytes getbit bitdiff limb_loop nextbits load_word load_little
    partial_load flush clzz patricia_bswap bswap_loop patricia_clz clz_loop
prefix-forgets_best = refl

-- Two keys, then deletion of the first, the iterator over both and the destruction of the set.
abbrev insert_b : Run Inserted
insert_b = insert fallback true 3 (result insert_a).heap 1 key_b

abbrev pub heap_ab : Heap
heap_ab = (result insert_b).heap
