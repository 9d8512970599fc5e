-- ===== src/Examples/Walks.antt =====
-- Iterations, the destruction, prefixes and the printing of small sets.
use patricia_c.Base.{
  Bool, some, List, [], ◌∷◌, ℕ, ◌≡◌, refl, true, false, none, ◌*◌, ◌==◌, if◌then◌else◌, arith,
}
use patricia_c.Key.{Key, getbit, equkey, same_bytes}
use patricia_c.Diff.{
  bitdiff, limb_loop, nextbits, load as load_word, load_little, partial_load, flush, clzz,
}
use patricia_c.Words.{patricia_bswap, patricia_clz, bswap_loop, clz_loop}
use patricia_c.Words.Ops.{fallback}
use patricia_c.Heap.{Ptr, null, Node, Heap, write, load, store, Run, ok, ◌>>=◌}
use patricia_c.Trie.{find, leaf}
use patricia_c.Evict.{fini as fini_set, right_end, graft_right, funnel, free_list}
use patricia_c.Iter.{
  Iter, in_head, in_order, iter_init, iter_next, iter_prev, iter_step, step_loop, leave, iter_child,
  parent_push, parent_pop, pop_cached, refill, fwd_table, rev_table,
}
use patricia_c.Iter.Parents.{undone, parent_pop-push}
use patricia_c.Tree.NoMemory.{insert-null}
use patricia_c.Print.{patriset_print}
use patricia_c.Print.Rows.{drawn, patriset_print-drawn}
use patricia_c.Tree.Prefix.{prefix-root}
use patricia_c.Tree.{
  init, prefix, prefix_walk, lookup, walk, insert, rounds, descend, seek, link, create, copy_key,
  insert_new,
}
use patricia_c.Examples.{bytes_of, result, key_a, key_b, is_none, heap0, set_empty, key_11, heap_ab}

-- The nodes that three steps forward return.
abbrev three_steps : Run (List Ptr)
three_steps = do
  it ← iter_init heap_ab 1 null true in_order
  (p, it1) ← iter_next heap_ab 20 it
  (q, it2) ← iter_next heap_ab 20 it1
  (r, it3) ← iter_next heap_ab 20 it2
  (s, it4) ← iter_prev heap_ab 20 it3
  ok (p ∷ q ∷ r ∷ s ∷ [])

three_steps-list : three_steps ≡ ok (3 ∷ 2 ∷ 0 ∷ 2 ∷ [])
unfolding lookup walk insert insert_new descend seek link create copy_key init write load store
    rounds equkey same_bytes getbit bitdiff limb_loop nextbits load_word load_little partial_load
    flush clzz patricia_bswap bswap_loop patricia_clz clz_loop iter_init iter_next iter_prev
    iter_step step_loop leave iter_child parent_push parent_pop pop_cached refill fwd_table
    rev_table
three_steps-list = refl

abbrev freed : Run (ℕ × Heap) → Run (ℕ × Bool × Bool)
freed r = do (count, h) ← r; ok (count, is_none (h 2), is_none (h 3))

fini_ab-count : freed (fini_set heap_ab 10 1) ≡ ok (2, true, true)
unfolding lookup walk insert insert_new descend seek link create copy_key init write load store
    rounds equkey same_bytes getbit bitdiff limb_loop nextbits load_word load_little partial_load
    flush clzz patricia_bswap bswap_loop patricia_clz clz_loop fini_set right_end graft_right funnel
    free_list
fini_ab-count = refl

ends_at_root : find (getbit key_11) (leaf 1) ≡ 1
unfolding find
ends_at_root = refl

prefix-root_example : prefix heap0 1 key_11 ≡ ok 1
prefix-root_example = prefix-root set_empty key_11 ends_at_root

insert-null_example :
    insert fallback true null heap0 1 key_a
    ≡ (do q ← lookup heap0 1 key_a; ok (record { node = q; inserted = false; heap = heap0 }))
insert-null_example = insert-null fallback true key_a set_empty (omega arith)

-- A parent at address 2 whose left child is the node at address 3.
abbrev parent_node : Node
parent_node = record { left = 3; right = 2; bpos = 1; key = key_a }

abbrev child_node : Node
child_node = record { left = 2; right = 3; bpos = 7; key = key_b }

abbrev two_nodes : Heap
two_nodes a = if a == 2 then some parent_node else if a == 3 then some child_node else none

abbrev fresh_iter : Iter
fresh_iter = record {
  root = 2;
  nodep = null;
  pstk = λ i. null;
  stk_len = 0;
  stk_top = 0;
  state = in_head;
  mode = in_order;
  dir = true;
}

parent_pop-push_example :
    parent_pop two_nodes (parent_push fresh_iter 2) 3 ≡ ok (undone fresh_iter 2, 2)
parent_pop-push_example =
    parent_pop-push two_nodes fresh_iter 2 3 parent_node child_node (omega arith) (omega arith) refl
      refl refl (omega arith)

patriset_print-drawn_example : patriset_print heap0 1 ≡ ok (drawn heap0 1 (leaf 1))
patriset_print-drawn_example = patriset_print-drawn (leaf 1) set_empty

-- The keys 10001, 10011 and 1, in the order of their insertion.
abbrev bits5 : ℕ → Key
bits5 n = record { mem = bytes_of (n * 8) 0; nbit = 5 }

abbrev single_bit : Key
single_bit = record { mem = bytes_of 128 0; nbit = 1 }

abbrev three_keys : Heap
three_keys =
    let h1 = (result (insert fallback true 2 heap0 1 (bits5 17))).heap in
    let h2 = (result (insert fallback true 3 h1 1 (bits5 19))).heap in
    (result (insert fallback true 4 h2 1 single_bit)).heap

-- The key 1 is found, but not as a prefix of 10010, since its branch is not on the way.
single_bit-stored : lookup three_keys 1 single_bit ≡ ok 4
unfolding lookup walk insert insert_new descend seek link create copy_key init write load store
    rounds equkey same_bytes getbit bitdiff limb_loop nextbits load_word load_little partial_load
    flush clzz patricia_bswap bswap_loop patricia_clz clz_loop
single_bit-stored = refl

prefix-misses_single_bit : prefix three_keys 1 (bits5 18) ≡ ok null
unfolding prefix prefix_walk insert insert_new descend seek link create copy_key init write load
    store rounds equkey same_bytes getbit bitdiff limb_loop nextbits load_word load_little
    partial_load flush clzz patricia_bswap bswap_loop patricia_clz clz_loop
prefix-misses_single_bit = refl
