-- ===== src/Examples/Deletions.antt =====
-- Removals, evictions and sequences of calls on the sets of one and of two keys.
use patricia_c.Base.{Bool, ◌&&◌, ◌≡◌, ◌≢◌, inr, refl, true, ◌==◌, ◌<◌, if◌then◌else◌, arith}
use patricia_c.Key.{Key, getbit, equkey, same_bytes}
use patricia_c.Diff.{
  bitdiff, limb_loop, nextbits, load as load_word, load_little, partial_load, flush, clzz,
}
use patricia_c.Words.{patricia_bswap, patricia_clz, bswap_loop, clz_loop}
use patricia_c.Words.Ops.{fallback}
use patricia_c.Heap.{Ptr, null, Heap, write, load, store, Run, ok, fault, out_of_fuel, ◌>>=◌}
use patricia_c.Trie.{leaf, leaves}
use patricia_c.Evict.{remove, evict, pwalk, pwalk_loop, unlink}
use patricia_c.Evict.Removed.{Removed}
use patricia_c.Evict.Laws.{Outcome, evict_lem, remove_lem, lookup-remove}
use patricia_c.Evict.RoundTrip.{Restored, remove-insert}
use patricia_c.Session.{
  Dict, insert_call, remove_call, run_call, spec_call, only_root, Reach, set_up, call,
}
use patricia_c.Session.Refine.{
  Agree, Answers, init-Agree, run_call-Answers, Reach-Agree, entry-injective,
}
use patricia_c.Tree.{
  init, lookup, walk, insert, rounds, descend, seek, link, create, copy_key, insert_new,
}
use patricia_c.Tree.Laws.{Extended, insert-IsNodeSet}
use patricia_c.Examples.{
  key_a, key_b, empty, heap0, result, insert_a, insert_a-runs, set_empty, free_2, heap_ab,
}

abbrev bind_lookup : Run (Bool × Heap) → Key → Run Ptr
bind_lookup r k = do (done, h) ← r; lookup h 1 k

-- The removal from the set of one key.
abbrev remove_a : Run (Bool × Heap)
remove_a = remove (result insert_a).heap 1 key_a

abbrev heap_of : Run (Bool × Heap) → Heap
heap_of (ok (done, h)) = h
heap_of fault = empty
heap_of out_of_fuel = empty

remove_a-runs : remove_a ≡ ok (true, heap_of remove_a)
unfolding lookup walk insert insert_new descend seek link create copy_key init write load store
    rounds equkey same_bytes getbit bitdiff limb_loop nextbits load_word load_little partial_load
    flush clzz patricia_bswap bswap_loop patricia_clz clz_loop remove evict pwalk pwalk_loop unlink
remove_a-runs = refl

set_a : Extended 1 (leaf 1) (result insert_a)
set_a =
    insert-IsNodeSet fallback true 2 key_a (result insert_a) set_empty free_2 (omega arith)
      (omega arith) insert_a-runs

lookup-remove_example :
    lookup (heap_of remove_a) 1 key_b
    ≡ (if true && equkey key_b key_a then ok null else lookup (result insert_a).heap 1 key_b)
lookup-remove_example =
    lookup-remove key_a true set_a.1 (omega arith) remove_a-runs key_b (omega arith)

remove_lem_example : Outcome (result insert_a).heap 1 set_a.0 key_a
remove_lem_example = remove_lem set_a.1 key_a (omega arith)

in_set : 0 < leaves set_a.0 2
unfolding insert insert_new descend seek link create copy_key init write load store rounds equkey
    same_bytes getbit bitdiff limb_loop nextbits load_word load_little partial_load flush clzz
    patricia_bswap bswap_loop patricia_clz clz_loop
in_set = (set_a.2 2).1 (inr refl)

evict_lem_example :
    (h' : Heap) × (evict (result insert_a).heap 1 2 ≡ ok (true, h'))
    × Removed (result insert_a).heap 1 set_a.0 2 h'
evict_lem_example = evict_lem set_a.1 2 in_set (omega arith)

empty_missing : lookup heap0 1 key_a ≡ ok null
unfolding lookup walk init write load rounds equkey same_bytes getbit
empty_missing = refl

remove-insert_example :
    (h' : Heap) × ((do r ← insert fallback true 2 heap0 1 key_a; remove r.heap 1 key_a)
      ≡ ok (true, h'))
    × Restored heap0 1 (leaf 1) h'
remove-insert_example =
    remove-insert fallback true 2 key_a set_empty free_2 (omega arith) (omega arith) empty_missing

run_call-Answers_example : Answers fallback true 1 heap0 (only_root 1) (insert_call 2 key_a)
run_call-Answers_example =
    run_call-Answers fallback true (insert_call 2 key_a) (init-Agree 1 empty (omega arith) refl)
      (free_2, omega arith)

run_insert :
    run_call fallback true 1 heap0 (insert_call 2 key_a) ≡ ok (true, (result insert_a).heap)
unfolding run_call insert insert_new descend seek link create copy_key init write load store rounds
    equkey same_bytes getbit bitdiff limb_loop nextbits load_word load_little partial_load flush
    clzz patricia_bswap bswap_loop patricia_clz clz_loop
run_insert = refl

run_remove :
    run_call fallback true 1 (result insert_a).heap (remove_call key_a)
    ≡ ok (true, heap_of remove_a)
unfolding run_call
run_remove = remove_a-runs

-- The dictionary after the insertion, and after the removal.
abbrev dict_a : Dict
dict_a = (spec_call 1 (only_root 1) (insert_call 2 key_a)).1

reached_a : Reach fallback true 1 (result insert_a).heap dict_a
reached_a =
    call (insert_call 2 key_a) true (set_up empty (omega arith) refl) (free_2, omega arith)
      run_insert

reached : Reach fallback true 1 (heap_of remove_a) (spec_call 1 dict_a (remove_call key_a)).1
reached = call (remove_call key_a) true reached_a (omega arith) run_remove

Reach-Agree_example : Agree 1 (heap_of remove_a) (spec_call 1 dict_a (remove_call key_a)).1
Reach-Agree_example = Reach-Agree fallback true reached

entry_real : dict_a key_a ≢ null
unfolding spec_call equkey same_bytes getbit
entry_real = omega arith

entry-injective_example : (dict_a key_b == dict_a key_a) ≡ equkey key_b key_a
entry-injective_example =
    entry-injective fallback true key_b key_a reached_a (omega arith) (omega arith) entry_real

remove_a-lookup : bind_lookup (remove heap_ab 1 key_a) key_a ≡ ok null
unfolding lookup walk insert insert_new descend seek link create copy_key init write load store
    rounds equkey same_bytes getbit bitdiff limb_loop nextbits load_word load_little partial_load
    flush clzz patricia_bswap bswap_loop patricia_clz clz_loop remove evict pwalk pwalk_loop unlink
remove_a-lookup = refl

remove_a-keeps_b : bind_lookup (remove heap_ab 1 key_a) key_b ≡ ok 3
unfolding lookup walk insert insert_new descend seek link create copy_key init write load store
    rounds equkey same_bytes getbit bitdiff limb_loop nextbits load_word load_little partial_load
    flush clzz patricia_bswap bswap_loop patricia_clz clz_loop remove evict pwalk pwalk_loop unlink
remove_a-keeps_b = refl
