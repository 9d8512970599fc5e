-- ===== src/Iter/Climb.antt =====
-- The search for the parent in `iter_parentPop` of src/cpatricia_set.c: in the stack, and if it is
-- not there by a walk from the root.
use patricia_c.Base.{
  ℕ, ◌+◌, ◌^◌, ◌≤◌, ◌<◌, ◌≡◌, inl, inr, refl, sym, ap, ◌∙◌, Bool, true, false, Option, none, some,
  ◌==◌, leb, ==_iff, arith, Bool-cases,
}
use patricia_c.Key.{getbit}
use patricia_c.Heap.{Ptr, null, Node, child, Heap, ok, load-ok}
use patricia_c.Tree.{rounds}
use patricia_c.Trie.{Trie, branch, inner}
use patricia_c.Trie.Up.{past}
use patricia_c.Tree.Insert.{rounds_lem}
use patricia_c.Iter.{Iter, parent_pop, pop_cached, refill}
use patricia_c.Iter.Parents.{parent_pop-cached}
use patricia_c.Iter.Hang.{Walkable, whole, Hangs-left, Hangs-right}
use patricia_c.Iter.Stack.{Steady, Found, Reached, cached-Under, refill-Under}
use patricia_c.Iter.Under.{Under, IsHead-inner, Under-IsHead, below-inner, Under-unique, inner_node}

module _ (root : Ptr) (c : ℕ) (l r : Trie) (mode : ℕ) (dir : Bool) (h : Heap) (b : ℕ)
    (walk : Walkable h b (branch root c l r)) where
  abbrev whole_trie : Trie
  whole_trie = branch root c l r

  abbrev Sound : Iter → Type 0
  Sound it = Steady root whole_trie mode dir it

  -- The walk from the root to another branch.
  refill_root :
      (it : Iter) (x : Ptr) (xn : Node)
      → Sound it
      → h x ≡ some xn
      → 0 < inner whole_trie x
      → (x == root) ≡ false
      → Reached root whole_trie mode dir h b walk
          (refill h xn.key rounds it x root (child (walk.rep.0) (getbit xn.key (walk.rep.0.bpos))))
          x
  refill_root it x xn s ex i other =
      let (n, e, pos, lft, rgt, d, cw, rl, rr) = walk.rep in
      let way = walk.way x xn i ex in
      let refilled = refill-Under root whole_trie mode dir h b walk xn.key rounds it root n x in
      let enough : 2 ^ 16 ≤ rounds + n.bpos = omega (arith, rounds_lem) in
      elim (Bool-cases (getbit xn.key c)) [
        | inl up ↦
            rw (pos, up, rgt)
              (refilled r s (Hangs-right h whole_trie b root c l r (whole whole_trie) walk.rep)
                enough (past x root other (rw up at way)))
        | inr down ↦
            rw (pos, down, lft)
              (refilled l s (Hangs-left h whole_trie b root c l r (whole whole_trie) walk.rep)
                enough (past x root other (rw down at way)))
      ]

  abbrev Finds : Iter → Ptr → Ptr → Type 0
  Finds it x q = (it1 : Iter) × (parent_pop h it x ≡ ok (it1, q)) × Sound it1

  parent_refilled :
      (it it1 : Iter) (x : Ptr) (xn : Node)
      → pop_cached h it.stk_len it x ≡ ok (it1, none)
      → Sound it1
      → h x ≡ some xn
      → (x == root) ≡ false
      → (found : Reached root whole_trie mode dir h b walk
          (refill h xn.key rounds it1 x root (child (walk.rep.0) (getbit xn.key (walk.rep.0.bpos))))
          x)
      → parent_pop h it x ≡ ok (found.iter, found.parent)
  unfolding parent_pop
  parent_refilled it it1 x xn run s ex other found =
      let r = walk.rep.0 in
      let at : h it1.root ≡ some r = ap h s.root_is ∙ walk.rep.1 in
      let apart : (x == it1.root) ≡ false = ap (λ z. x == z) s.root_is ∙ other in
      let next = child r (getbit xn.key r.bpos) in
      let filled : refill h xn.key rounds it1 x it1.root next ≡ ok (found.iter, found.parent, x) =
        ap (λ z. refill h xn.key rounds it1 x z next) s.root_is ∙ found.runs in
      let same : (x == x) ≡ true = ground arith in
      let below : leb found.node.bpos found.parent_node.bpos ≡ false = ground (arith, found.less) in
      rw
        (
          run,
          apart,
          load-ok h x xn ex,
          load-ok h it1.root r at,
          filled,
          load-ok h found.parent found.parent_node found.at_parent,
          load-ok h x found.node found.at_node,
          same,
          below,
        )
        refl

  -- The parent of a branch is found.
  pub parent_pop-Under : (it : Iter) (x q : Ptr) → Sound it → Under whole_trie q x → Finds it x q
  parent_pop-Under it x q s u =
      let i = below-inner whole_trie q x u in
      let (it1, o, run, found) =
        cached-Under root whole_trie mode dir h b walk it.stk_len it x s refl i in
      settle it1 o run found
    where
      other : (x == root) ≡ false
      other = elim (Bool-cases (x == root)) [
        | inr apart ↦ apart
        | inl here ↦ absurd (Under-IsHead whole_trie q x walk.once u (sym ((==_iff x root).0 here)))
      ]

      settle :
          (it1 : Iter) (o : Option Ptr)
          → pop_cached h it.stk_len it x ≡ ok (it1, o)
          → Found root whole_trie mode dir h b walk it1 o x
          → Finds it x q
      settle it1 (some q') run (s1, u') =
          let eq : q' ≡ q = Under-unique whole_trie q' q x walk.once u' u in
          (it1, parent_pop-cached h it x it1 q' run ∙ ap (λ z. ok (it1, z)) eq, s1)
      settle it1 none run s1 =
          let i = below-inner whole_trie q x u in
          let (xn, ex) = inner_node h b whole_trie x walk.rep i in
          let found = refill_root it1 x xn s1 ex i other in
          let eq : found.parent ≡ q =
            Under-unique whole_trie found.parent q x walk.once found.under u in
          (
            found.iter,
            parent_refilled it it1 x xn run s1 ex other found ∙ ap (λ z. ok (found.iter, z)) eq,
            found.steady,
          )

  parent_root :
      (it it1 : Iter)
      → pop_cached h it.stk_len it root ≡ ok (it1, none)
      → Sound it1
      → parent_pop h it root ≡ ok (it1, null)
  unfolding parent_pop
  parent_root it it1 run s =
      let same : (root == root) ≡ true = ground arith in rw (run, s.root_is, same) refl

  -- The root has none.
  pub parent_pop-root : (it : Iter) → Sound it → Finds it root null
  parent_pop-root it s =
      let (it1, o, run, found) =
        cached-Under root whole_trie mode dir h b walk it.stk_len it root s refl root_inner in
      settle it1 o run found
    where
      root_inner : 0 < inner whole_trie root
      root_inner = IsHead-inner whole_trie root refl

      settle :
          (it1 : Iter) (o : Option Ptr)
          → pop_cached h it.stk_len it root ≡ ok (it1, o)
          → Found root whole_trie mode dir h b walk it1 o root
          → Finds it root null
      settle it1 (some q) run (s1, u) = absurd (Under-IsHead whole_trie q root walk.once u refl)
      settle it1 none run s1 = (it1, parent_root it it1 run s1, s1)
