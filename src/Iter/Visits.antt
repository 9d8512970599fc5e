-- ===== src/Iter/Visits.antt =====
-- The iterators of src/cpatricia_set.c return the nodes that the look-up finds.
use patricia_c.Base.{
  ℕ, ◌+◌, ◌*◌, ◌^◌, ◌<◌, ◌≡◌, ◌≢◌, inl, inr, refl, sym, ◌∙◌, Bool, true, some, arith, List, ◌==◌,
}
use patricia_c.Key.{Key, equkey}
use patricia_c.Key.Equal.{equkey_iff}
use patricia_c.Heap.{Ptr, null, Node, Heap, ok, ok_injective}
use patricia_c.Trie.{Trie, leaves, inner, one_if}
use patricia_c.Tree.{lookup}
use patricia_c.Tree.Rep.{IsNodeSet, leaf_node}
use patricia_c.Tree.Lookup.{lookup_lem, lookup-hit}
use patricia_c.Evict.Dead.{occurs}
use patricia_c.Evict.Funnel.{nodes_of}
use patricia_c.Iter.{Iter, iter_init}
use patricia_c.Iter.Order.{order, occurs-order}
use patricia_c.Iter.Rounds.{iter_all}
use patricia_c.Iter.Whole.{iter_all-order}

equkey_self : (k : Key) → equkey k k ≡ true
equkey_self k = (equkey_iff k k).1 (refl, λ z l. refl)

module _ {h : Heap} {root : Ptr} (t : Trie) (s : IsNodeSet h root t) where
  found-inner :
      (k : Key) (q : Ptr)
      → k.nbit < 2 ^ 16
      → lookup h root k ≡ ok q
      → q ≢ null
      → q ≢ root
      → inner t q ≡ 1
  found-inner k q w e real other = elim (lookup_lem s k w) [
    | inl (p, hit, found) ↦
        let same : q ≡ p = ok_injective (sym e ∙ found) in
        let m : 0 < leaves t q = rw same hit.present in
        let apart : one_if (root == q) ≡ 0 = ground arith in omega (arith, s.two_links q, s.once q)
    | inr (no_hit, found) ↦ absurd (real (ok_injective (sym e ∙ found)))
  ]

  inner-found :
      (q : Ptr) → 0 < inner t q → (n : Node) × (h q ≡ some n) × (lookup h root n.key ≡ ok q)
  inner-found q i =
      let m : 0 < leaves t q = omega (arith, s.two_links q) in
      let (n, e) = leaf_node h 0 t q s.rep m in
      (
        n,
        e,
        lookup-hit s n.key q (omega (arith, s.short q n m e))
            (record { node = n; holds = e; present = m; same = equkey_self n.key }),
      )

-- On a set, the steps forward of an iterator over the whole set, with one of the three modes and
-- either direction, more rounds for each step than three for each node and one more, and more
-- steps than there are nodes, end with NULL after a list of nodes in which every node other than
-- the root that the look-up of a key of fewer than 65536 bits returns occurs once, and of which
-- every node is the one that the look-up of its own key returns.
pub iter_all-lookup :
    {h : Heap} {root : Ptr} (t : Trie) (dir : Bool) (mode fuel n : ℕ)
    → IsNodeSet h root t
    → mode < 3
    → 3 * nodes_of t + 1 < fuel
    → nodes_of t < n
    → (it0 : Iter) × (it1 : Iter) × (nodes : List Ptr) × (iter_init h root null dir mode ≡ ok it0)
      × (iter_all true h fuel n it0 ≡ ok (nodes, it1))
      × ((k : Key) (q : Ptr)
          → k.nbit < 2 ^ 16
          → lookup h root k ≡ ok q
          → q ≢ null
          → q ≢ root
          → occurs nodes q ≡ 1)
      × ((q : Ptr)
          → 0 < occurs nodes q
          → (x : Node) × (h q ≡ some x) × (lookup h root x.key ≡ ok q))
iter_all-lookup t dir mode fuel n s w f m =
    let (it0, it1, it2, set_up, run, back) =
      iter_all-order t t null dir mode fuel n s (inl (refl, refl)) w f m in
    (
      it0,
      it1,
      order mode dir t,
      set_up,
      run,
      λ k q short e real other. occurs-order mode dir t q ∙ found-inner t s k q short e real other,
      λ q i. inner-found t s q (omega (arith, occurs-order mode dir t q)),
    )
