-- ===== src/Tree/Lookup.antt =====
-- `patriset_lookup` finds the node with the key, or tells that there is none.
use mathlib.Core.Bool.{false≢true}
use patricia_c.Base.{
  ℕ, zero, suc, ◌+◌, ◌^◌, ◌≤◌, ◌<◌, ◌≡◌, ◌⊎◌, inl, inr, sym, ◌∙◌, true, false, some, arith,
  Bool-cases, ltb, if◌then◌else◌,
}
use patricia_c.Key.{Key, getbit, equkey}
use patricia_c.Key.Equal.{getbit-equkey}
use patricia_c.Heap.{Ptr, null, Node, Heap, ok, load-ok}
use patricia_c.Trie.{Trie, leaf, branch, addr, find, leaves}
use patricia_c.Trie.Find.{find-mem, find_self}
use patricia_c.Tree.{walk, lookup, rounds}
use patricia_c.Tree.Rep.{Rep, IsNodeSet, bits_in, leaf_node, label_node}

-- The walk ends where the key's bits lead, without a fault and within the rounds.
walk-find :
    (h : Heap) (k : Key) (fuel b : ℕ) (t : Trie)
    → Rep h b t
    → b < 2 ^ 16
    → 2 ^ 16 ≤ fuel + b
    → walk h k fuel b (addr t) ≡ ok (find (getbit k) t)
unfolding walk find
walk-find h k zero b t r l f = absurd (omega arith)
walk-find h k (suc fuel) b (leaf p) (n, e, d) l f =
    let node = label_node (h p) n e in
    let stop : ltb b node.0.bpos ≡ false = ground (arith, node.2) in
    rw (load-ok h p node.0 node.1, stop)
walk-find h k (suc fuel) b (branch p c lt rt) (n, e, pos, el, er, d, w, rl, rr) l f =
    let go : ltb b n.bpos ≡ true = ground arith in
    rw (load-ok h p n e, go, pos)
      (elim (Bool-cases (getbit k c)) [
        | inl up ↦ rw (up, er) (walk-find h k fuel c rt rr w (omega arith))
        | inr down ↦ rw (down, el) (walk-find h k fuel c lt rl w (omega arith))
      ])

-- The node whose key is the one looked for, if there is one.
pub record IsHit (h : Heap) (t : Trie) (k : Key) (q : Ptr) : Type 0 where
  pub node : Node
  pub holds : h q ≡ some node
  pub present : 0 < leaves t q
  pub same : equkey k node.key ≡ true

module _ {h : Heap} {root : Ptr} {t : Trie} (s : IsNodeSet h root t) where
  root-start : 0 < 2 ^ 16
  root-start = omega arith

  -- The loop of the look-up on the whole set.
  walk_set : (k : Key) (b : ℕ) → b ≡ 0 → walk h k rounds b (addr t) ≡ ok (find (getbit k) t)
  unfolding rounds
  walk_set k b e = rw e (walk-find h k (2 ^ 16) 0 t s.rep (omega arith) (omega arith))

  -- A key of the set is the one at which its bits end.
  -- The bits of a key lead to the node with that key.
  pub hit-find : (k : Key) (q : Ptr) → k.nbit < 2 ^ 16 → IsHit h t k q → find (getbit k) t ≡ q
  hit-find k q w hit = find_self (bits_in h) (getbit k) q t bits s.sorted hit.present
    where
      bits : (i : ℕ) → getbit k i ≡ bits_in h q i
      bits i = rw hit.holds (getbit-equkey k hit.node.key i w hit.same)

  -- The result of `patriset_lookup` by the leaf at which the walk ends.
  pub lookup-find :
      (k : Key) (n : Node)
      → h (find (getbit k) t) ≡ some n
      → lookup h root k ≡ ok (if equkey k n.key then find (getbit k) t else null)
  unfolding lookup
  lookup-find k n e =
      rw (
        load-ok h root s.anchor s.at_root,
        s.top,
        walk_set k s.anchor.bpos s.start,
        load-ok h _ n e,
      )

  -- On a set the look-up of a key of fewer than 65536 bits returns a node of the set with that
  -- key, or, when no node of the set has the key, NULL; it neither faults nor runs out of fuel.
  pub lookup_lem :
      (k : Key)
      → k.nbit < 2 ^ 16
      → ((q : Ptr) × IsHit h t k q × (lookup h root k ≡ ok q))
        ⊎ (((q : Ptr) → ¬ IsHit h t k q) × (lookup h root k ≡ ok null))
  lookup_lem k w =
      let q : Ptr = find (getbit k) t in
      let m : 0 < leaves t q = find-mem (getbit k) t in
      let (n, e) = leaf_node h 0 t q s.rep m in
      elim (Bool-cases (equkey k n.key)) [
        | inl same ↦ inl (
          q,
          record { node = n; holds = e; present = m; same = same },
          lookup-find k n e ∙ rw same,
        )
        | inr other ↦ inr (
          λ o hit.
              let at : q ≡ o = hit-find k o w hit in
              let eq : some n ≡ some hit.node = sym e ∙ rw at hit.holds in
              false≢true (sym other ∙ ground (arith, eq, hit.same)),
          lookup-find k n e ∙ rw other,
        )
      ]

  -- A node with the key is the one that `patriset_lookup` returns.
  pub lookup-hit : (k : Key) (q : Ptr) → k.nbit < 2 ^ 16 → IsHit h t k q → lookup h root k ≡ ok q
  lookup-hit k q w hit =
      let at : find (getbit k) t ≡ q = hit-find k q w hit in
      lookup-find k hit.node (rw at hit.holds) ∙ rw (hit.same, at)

  pub lookup-miss :
      (k : Key) → k.nbit < 2 ^ 16 → ((q : Ptr) → ¬ IsHit h t k q) → lookup h root k ≡ ok null
  lookup-miss k w none_has = elim (lookup_lem k w) [
    | inl (q, hit, e) ↦ absurd (none_has q hit)
    | inr (no_hit, e) ↦ e
  ]
