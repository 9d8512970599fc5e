-- ===== src/Examples/Pair.antt =====
-- A set of two keys that is written out, and its iterations.
use patricia_c.Base.{
  ℕ, some, none, List, [], ◌∷◌, true, false, ◌-◌, ◌+◌, ◌*◌, ◌≡◌, ◌≢◌, ◌⊎◌, inl, inr, refl, sym, ap,
  ◌∙◌, ◌==◌, ◌<◌, ◌≤◌, ◌^◌, Bool-cases, if◌then◌else◌, arith,
}
use mathlib.Core.List.{reverse}
use patricia_c.Key.{Key, getbit, equkey, same_bytes}
use patricia_c.Heap.{Ptr, null, Node, Heap, Run, ok, ◌>>=◌, load}
use patricia_c.Trie.{Trie, leaf, branch, find, leaves, inner}
use patricia_c.Tree.Rep.{IsNodeSet, bits_in}
use patricia_c.Tree.{lookup, prefix, prefix_walk, rounds}
use patricia_c.Tree.Lookup.{IsHit}
use patricia_c.Evict.Dead.{occurs, length}
use patricia_c.Evict.Funnel.{nodes_of}
use patricia_c.Iter.{
  Iter, in_head, in_down, pre_order, post_order, iter_init, iter_next, iter_prev, iter_reset,
  iter_step, step_loop, leave, iter_child, parent_push, parent_pop, pop_cached, refill, fwd_table,
  rev_table,
}
use patricia_c.Iter.Order.{order}
use patricia_c.Iter.Rounds.{iter_dir, iter_all}
use patricia_c.Iter.Placed.{Valid}
use patricia_c.Iter.Whole.{iter_all-order}
use patricia_c.Iter.Visits.{iter_all-lookup}
use patricia_c.Iter.Steps.{Calls, set_up, stepped, iter_dir-Valid, iter_all-iter_reset}
use patricia_c.Print.Dot.{
  patriset_todot, root_part, node_part, down_edge, up_edge, self_edge, plain_glyph,
}
use patricia_c.Print.Picture.{picture, edge_to, Spells}
use patricia_c.Print.Graph.{patriset_todot-order}
use patricia_c.Tree.Candidate.{Matches, LastPrefix}
use patricia_c.Tree.Prefix.{prefix_lem}
use patricia_c.Examples.{key_a, key_b, key_ab}
use patricia_c.Examples.Teardown.{root_node}

-- The key "a" at node 2 and the key "b" at node 3.
abbrev a_node : Node
a_node = record { left = 3; right = 1; bpos = 1; key = key_a }

abbrev b_node : Node
b_node = record { left = 2; right = 3; bpos = 7; key = key_b }

abbrev pair : Heap
pair p =
    if p == 1
    then some root_node
    else if p == 2
    then some a_node
    else if p == 3
    then some b_node
    else none

abbrev low_trie : Trie
low_trie = branch 3 7 (leaf 2) (leaf 3)

abbrev pair_trie : Trie
pair_trie = branch 2 1 low_trie (leaf 1)

low_nodes : (q : Ptr) → 0 < leaves low_trie q → (2 ≡ q) ⊎ (3 ≡ q)
unfolding leaves
low_nodes q m = elim (Bool-cases (2 == q)) [
  | inl here ↦ inl (ground arith)
  | inr there ↦ inr (ground (arith, m))
]

all_nodes : (q : Ptr) → 0 < leaves pair_trie q → (1 ≡ q) ⊎ (0 < leaves low_trie q)
unfolding leaves
all_nodes q m = elim (Bool-cases (1 == q)) [
  | inl here ↦ inl (ground arith)
  | inr there ↦ inr (ground (arith, m))
]

-- The bits of the two keys agree before position 7.
seven : (i : ℕ) → i < 7 → (0 ≡ i) ⊎ (1 ≡ i) ⊎ (2 ≡ i) ⊎ (3 ≡ i) ⊎ (4 ≡ i) ⊎ (5 ≡ i) ⊎ (6 ≡ i)
seven i l = ground arith

bits_agree : (i : ℕ) → i < 7 → bits_in pair 2 i ≡ bits_in pair 3 i
unfolding getbit
bits_agree i l = elim (seven i l) [
  | inl at ↦ rw (← at) refl
  | inr (inl at) ↦ rw (← at) refl
  | inr (inr (inl at)) ↦ rw (← at) refl
  | inr (inr (inr (inl at))) ↦ rw (← at) refl
  | inr (inr (inr (inr (inl at)))) ↦ rw (← at) refl
  | inr (inr (inr (inr (inr (inl at))))) ↦ rw (← at) refl
  | inr (inr (inr (inr (inr (inr at))))) ↦ rw (← at) refl
]

same_low : (q : Ptr) (i : ℕ) → i < 7 → 0 < leaves low_trie q → bits_in pair q i ≡ bits_in pair 2 i
same_low q i l m = elim (low_nodes q m) [
  | inl at ↦ ap (λ z. bits_in pair z i) (sym at)
  | inr at ↦ ap (λ z. bits_in pair z i) (sym at) ∙ sym (bits_agree i l)
]

no_first : (q : Ptr) → 0 < leaves pair_trie q → bits_in pair q 0 ≡ false
unfolding getbit
no_first q m = elim (all_nodes q m) [
  | inl at ↦ rw (← at) refl
  | inr low ↦ same_low q 0 (omega arith) low
]

short_keys :
    (q : Ptr) (n : Node) → (1 ≡ q) ⊎ (2 ≡ q) ⊎ (3 ≡ q) → pair q ≡ some n → n.key.nbit < 2 ^ 16 - 1
short_keys q n (inl at) e =
    let f : some root_node ≡ some n = ap pair at ∙ e in
    let g : root_node ≡ n = ground arith in rw (← g) (omega arith)
short_keys q n (inr (inl at)) e =
    let f : some a_node ≡ some n = ap pair at ∙ e in
    let g : a_node ≡ n = ground arith in rw (← g) (omega arith)
short_keys q n (inr (inr at)) e =
    let f : some b_node ≡ some n = ap pair at ∙ e in
    let g : b_node ≡ n = ground arith in rw (← g) (omega arith)

pair_set : IsNodeSet pair 1 pair_trie
unfolding leaves inner getbit
pair_set = record {
  anchor = root_node;
  at_root = refl;
  top = refl;
  self = refl;
  start = refl;
  empty_key = refl;
  rep = (
    a_node,
    refl,
    refl,
    refl,
    refl,
    omega arith,
    omega arith,
    (
      b_node,
      refl,
      refl,
      refl,
      refl,
      omega arith,
      omega arith,
      (record { bpos = 1; key = key_a }, refl, omega arith),
      (record { bpos = 7; key = key_b }, refl, omega arith),
    ),
    (record { bpos = 0; key = root_node.key }, refl, omega arith),
  );
  sorted = (
    λ q m. same_low q 1 (omega arith) m,
    λ q m. let at : 1 ≡ q = ground (arith, m) in rw (← at) refl,
    λ q s i m n l.
        let first : 0 ≡ i = omega (arith, l) in rw (← first) (no_first q m ∙ sym (no_first s n)),
    (
      λ q m. let at : 2 ≡ q = ground (arith, m) in rw (← at) refl,
      λ q m. let at : 3 ≡ q = ground (arith, m) in rw (← at) refl,
      λ q s i m n l. same_low q i l m ∙ sym (same_low s i l n),
      tt,
      tt,
    ),
    tt,
  );
  up = ((inr (inl refl), inl refl), inr refl);
  two_links = λ q. ground arith;
  once = λ q. ground arith;
  no_null = refl;
  short = λ q n m e. short_keys q n (placed q m) e;
}
  where
    placed : (q : Ptr) → 0 < leaves pair_trie q → (1 ≡ q) ⊎ (2 ≡ q) ⊎ (3 ≡ q)
    placed q m = elim (all_nodes q m) [ inl at ↦ inl at | inr low ↦ inr (low_nodes q low) ]

few : 3 * nodes_of pair_trie + 1 < 10
unfolding nodes_of
few = omega arith

fewer : nodes_of pair_trie < 10
unfolding nodes_of
fewer = omega arith

few_low : 3 * nodes_of low_trie + 1 < 10
unfolding nodes_of
few_low = omega arith

fewer_low : nodes_of low_trie < 10
unfolding nodes_of
fewer_low = omega arith

iter_all-order_example :
    (it0 : Iter) × (it1 : Iter) × (it2 : Iter) × (iter_init pair 1 3 true post_order ≡ ok it0)
    × (iter_all true pair 10 10 it0 ≡ ok (order post_order true low_trie, it1))
    × (iter_all false pair 10 10 it1 ≡ ok (reverse (order post_order true low_trie), it2))
iter_all-order_example =
    iter_all-order pair_trie low_trie 3 true post_order 10 10 pair_set
      (inr (refl, inr (inl (inl refl)))) (omega arith) few_low fewer_low

iter_all-lookup_example :
    (it0 : Iter) × (it1 : Iter) × (nodes : List Ptr) × (iter_init pair 1 null true pre_order
      ≡ ok it0)
    × (iter_all true pair 10 10 it0 ≡ ok (nodes, it1))
    × ((k : Key) (q : Ptr)
        → k.nbit < 2 ^ 16
        → lookup pair 1 k ≡ ok q
        → q ≢ null
        → q ≢ 1
        → occurs nodes q ≡ 1)
    × ((q : Ptr)
        → 0 < occurs nodes q
        → (x : Node) × (pair q ≡ some x) × (lookup pair 1 x.key ≡ ok q))
iter_all-lookup_example =
    iter_all-lookup pair_trie true pre_order 10 10 pair_set (omega arith) few fewer

-- The keys of the pair are strings.
abbrev pair_strings : Ptr → List ℕ
pair_strings p = if p == 2 then 97 ∷ [] else 98 ∷ []

pair_branches : (p : Ptr) → 0 < inner pair_trie p → (2 ≡ p) ⊎ (3 ≡ p)
unfolding inner
pair_branches p m = elim (Bool-cases (2 == p)) [
  | inl here ↦ inl (ground arith)
  | inr there ↦ inr (ground (arith, m))
]

strings_at :
    (p : Ptr) (n : Node)
    → (2 ≡ p) ⊎ (3 ≡ p)
    → pair p ≡ some n
    → Spells n.key.mem 0 (pair_strings p) × (length (pair_strings p) ≤ 2 ^ 13)
unfolding length
strings_at p n (inl at) e =
    let f : some a_node ≡ some n = ap pair at ∙ e in
    let g : a_node ≡ n = ground arith in rw (← g, ← at) ((refl, omega arith, refl), omega arith)
strings_at p n (inr at) e =
    let f : some b_node ≡ some n = ap pair at ∙ e in
    let g : b_node ≡ n = ground arith in rw (← g, ← at) ((refl, omega arith, refl), omega arith)

patriset_todot-order_example :
    patriset_todot pair 10 10 1
    ≡ ok (
        root_part 1
        ∷ edge_to 1 false pair_trie
        ∷ self_edge 1 true 1
        ∷ picture pair_strings pair_trie)
patriset_todot-order_example =
    patriset_todot-order pair_trie 10 10 pair_strings pair_set few fewer
      (λ p n m e. strings_at p n (pair_branches p m) e)

pair-picture :
    picture pair_strings pair_trie
    ≡ node_part 2 1 (plain_glyph 97 ∷ [])
      ∷ down_edge 2 false 3
      ∷ up_edge 2 true 1
      ∷ node_part 3 7 (plain_glyph 98 ∷ [])
      ∷ up_edge 3 false 2
      ∷ self_edge 3 true 3
      ∷ []
unfolding picture
pair-picture = refl

prefix_lem_example :
    (q : Ptr) × (prefix pair 1 key_ab ≡ ok q)
    × (((q ≡ find (getbit key_ab) pair_trie) × ((n : Node) × Matches pair key_ab q n))
        ⊎ (LastPrefix pair key_ab pair_trie null q
            × ¬ ((n : Node) × Matches pair key_ab (find (getbit key_ab) pair_trie) n)))
    × ((p : Ptr) → key_ab.nbit < 2 ^ 16 → IsHit pair pair_trie key_ab p → q ≡ p)
prefix_lem_example = prefix_lem pair_set key_ab

-- The longest prefix of "ab" is "a".
prefix_ab : prefix pair 1 key_ab ≡ ok 2
unfolding prefix prefix_walk load rounds equkey same_bytes getbit
prefix_ab = refl

-- The iterator over the whole set after its set-up and one step forward.
abbrev set_up_iter : Iter
set_up_iter = record {
  root = 2;
  nodep = null;
  pstk = λ i. null;
  stk_len = 0;
  stk_top = 0;
  state = in_head;
  mode = pre_order;
  dir = true;
}

abbrev stepped_iter : Iter
stepped_iter = record {
  root = 2;
  nodep = 3;
  pstk = λ i. if i == 0 then 2 else null;
  stk_len = 1;
  stk_top = 1;
  state = in_down;
  mode = pre_order;
  dir = true;
}

set_up_pair : iter_init pair 1 null true pre_order ≡ ok set_up_iter
unfolding iter_init iter_child load
set_up_pair = refl

step_pair : iter_dir true pair 10 set_up_iter ≡ ok (2, stepped_iter)
unfolding iter_dir iter_next iter_step step_loop leave iter_child parent_push fwd_table load
step_pair = refl

pair-Calls : Calls pair 1 null true pre_order 10 stepped_iter
pair-Calls = stepped true (set_up set_up_pair) step_pair

iter_dir-Valid_example :
    (p : Ptr) × (it1 : Iter) × (iter_dir false pair 10 stepped_iter ≡ ok (p, it1))
    × Valid pair_trie p
iter_dir-Valid_example =
    iter_dir-Valid pair_trie pair_trie null true false pre_order 10 stepped_iter pair_set
      (inl (refl, refl)) (omega arith) few pair-Calls

iter_all-iter_reset_example :
    (it1 : Iter) × (iter_all true pair 10 10 (iter_reset stepped_iter)
      ≡ ok (order pre_order true pair_trie, it1))
iter_all-iter_reset_example =
    iter_all-iter_reset pair_trie pair_trie null true pre_order 10 10 stepped_iter pair_set
      (inl (refl, refl)) (omega arith) few fewer pair-Calls

-- The first step forward returns node 2, and a step back from there node 3, which is behind it.
abbrev back_first : Run (List Ptr)
back_first = do
  it ← iter_init pair 1 null true pre_order
  (p, it1) ← iter_next pair 10 it
  (q, it2) ← iter_prev pair 10 it1
  ok (p ∷ q ∷ [])

back_first-list : back_first ≡ ok (2 ∷ 3 ∷ [])
unfolding iter_init iter_next iter_prev iter_step step_loop leave iter_child parent_push parent_pop
    pop_cached refill fwd_table rev_table getbit load
back_first-list = refl

-- After a reset a step back returns the node at which the iterator stood, not NULL.
abbrev back_reset : Run (List Ptr)
back_reset = do
  it ← iter_init pair 1 null true pre_order
  (p, it1) ← iter_next pair 10 it
  (q, it2) ← iter_prev pair 10 (iter_reset it1)
  ok (p ∷ q ∷ [])

back_reset-list : back_reset ≡ ok (2 ∷ 3 ∷ [])
unfolding iter_init iter_next iter_prev iter_step step_loop leave iter_child parent_push parent_pop
    pop_cached refill fwd_table rev_table getbit load iter_reset
back_reset-list = refl
