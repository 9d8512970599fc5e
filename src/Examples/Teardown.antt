-- ===== src/Examples/Teardown.antt =====
-- A set of one key that is written out: its destruction, and its graph.
use patricia_c.Base.{
  some, [], ◌∷◌, true, ◌-◌, ◌≡◌, ◌⊎◌, inr, refl, false, none, ◌==◌, ◌<◌, ◌^◌, ltb, sym, ap, ◌∙◌,
  Bool-cases, inl, if◌then◌else◌, arith,
}
use patricia_c.Key.{getbit}
use patricia_c.Heap.{Ptr, Node, Heap, ok, load}
use patricia_c.Iter.{
  iter_init, iter_next, iter_step, step_loop, leave, iter_child, parent_push, parent_pop,
  pop_cached, refill, fwd_table, rev_table,
}
use patricia_c.Trie.{Trie, leaf, branch, leaves, inner}
use patricia_c.Evict.{fini as fini_set}
use patricia_c.Evict.Funnel.{nodes_of}
use patricia_c.Print.Dot.{
  root_part, node_part, down_edge, self_edge, up_edge, plain_glyph, patriset_todot, dot_nodes,
  dot_edges, node2label, label_glyphs,
}
use patricia_c.Evict.Fini.{emptied, fini_lem}
use patricia_c.Tree.Rep.{IsNodeSet, bits_in}
use patricia_c.Examples.{key_a}

-- A set of the key "a" written out: its node at address 2 points left to itself, right to the root.
abbrev pub root_node : Node
root_node = record { left = 2; right = 1; bpos = 0; key = record { mem = λ i. 0; nbit = 0 } }

abbrev a_node : Node
a_node = record { left = 2; right = 1; bpos = 1; key = key_a }

abbrev a_heap : Heap
a_heap a = if a == 1 then some root_node else if a == 2 then some a_node else none

abbrev a_trie : Trie
a_trie = branch 2 1 (leaf 2) (leaf 1)

two_nodes_only : (q : Ptr) → 0 < leaves a_trie q → (2 ≡ q) ⊎ (1 ≡ q)
unfolding leaves
two_nodes_only q m = elim (Bool-cases (2 == q)) [
  | inl here ↦ inl (ground arith)
  | inr there ↦ inr (ground (arith, m))
]

no_first : (q : Ptr) → 0 < leaves a_trie q → bits_in a_heap q 0 ≡ false
unfolding getbit
no_first q m = elim (two_nodes_only q m) [ inl at ↦ rw (← at) refl | inr at ↦ rw (← at) refl ]

short_keys : (q : Ptr) (n : Node) → (2 ≡ q) ⊎ (1 ≡ q) → a_heap q ≡ some n → n.key.nbit < 2 ^ 16 - 1
short_keys q n (inl at) e =
    let f : some a_node ≡ some n = ap a_heap at ∙ e in
    let g : a_node ≡ n = ground arith in rw (← g) (omega arith)
short_keys q n (inr at) e =
    let f : some root_node ≡ some n = ap a_heap at ∙ e in
    let g : root_node ≡ n = ground arith in rw (← g) (omega arith)

a_set : IsNodeSet a_heap 1 a_trie
unfolding leaves inner getbit
a_set = record {
  anchor = root_node;
  at_root = refl;
  top = refl;
  self = refl;
  start = refl;
  empty_key = refl;
  rep = (
    a_node,
    refl,
    refl,
    refl,
    refl,
    omega arith,
    omega arith,
    (record { bpos = 1; key = key_a }, refl, omega arith),
    (record { bpos = 0; key = root_node.key }, refl, omega arith),
  );
  sorted = (
    λ q m. let at : 2 ≡ q = ground (arith, m) in rw (← at) refl,
    λ q m. let at : 1 ≡ q = ground (arith, m) in rw (← at) refl,
    λ q s i m n l.
        let first : 0 ≡ i = omega (arith, l) in rw (← first) (no_first q m ∙ sym (no_first s n)),
    tt,
    tt,
  );
  up = (inl refl, inr refl);
  two_links = λ q. ground arith;
  once = λ q. ground arith;
  no_null = refl;
  short = λ q n m e. short_keys q n (two_nodes_only q m) e;
}

one_node : nodes_of a_trie < 5
unfolding nodes_of
one_node = omega arith

fini_lem_example :
    (h' : Heap) × (fini_set a_heap 5 1 ≡ ok (nodes_of a_trie, h'))
    × ((q : Ptr)
        → h' q ≡ (
            if ltb 0 (inner a_trie q)
            then none
            else if q == 1
            then some (emptied a_set.anchor 1)
            else a_heap q))
fini_lem_example = fini_lem a_trie 5 a_set one_node

a_heap-graph :
    patriset_todot a_heap 20 20 1
    ≡ ok (
        root_part 1
        ∷ down_edge 1 false 2
        ∷ self_edge 1 true 1
        ∷ node_part 2 1 (plain_glyph 97 ∷ [])
        ∷ self_edge 2 false 2
        ∷ up_edge 2 true 1
        ∷ [])
unfolding patriset_todot dot_nodes dot_edges node2label label_glyphs iter_init iter_next iter_step
    step_loop leave iter_child parent_push parent_pop pop_cached refill fwd_table rev_table getbit
    load
a_heap-graph = refl
