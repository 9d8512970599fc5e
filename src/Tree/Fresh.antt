-- ===== src/Tree/Fresh.antt =====
-- The first walk of `patriset_insert`, and the heap with the created node before it is linked.
use patricia_c.Base.{
  ℕ, zero, suc, ◌+◌, ◌-◌, ◌/◌, ◌^◌, ◌≤◌, ◌<◌, ◌≡◌, ◌≢◌, refl, sym, ◌∙◌, ap, true, false, none, some,
  arith, ◌==◌, Bool-cases, ltb, if◌then◌else◌, inl, inr,
}
use patricia_c.Key.{Key, getbit}
use patricia_c.Key.Equal.{SameKey}
use patricia_c.Heap.{Ptr, null, Node, Heap, ok, load-ok}
use patricia_c.Trie.{Trie, leaf, branch, addr, find, leaves, inner, one_if, Sorted}
use patricia_c.Trie.Find.{Sorted-ext}
use patricia_c.Tree.{Inserted, descend, copy_key}
use patricia_c.Tree.Rep.{Rep, IsNodeSet, label_of, label_node, leaf_node, bits_in}
use patricia_c.Tree.Link.{Rep-frame}
use patricia_c.Tree.Lookup.{IsHit}

-- The key that a created node stores has the length and the bits of the given key.
pub copy_key-SameKey : (k : Key) → SameKey k (copy_key k)
unfolding copy_key
copy_key-SameKey k =
    (refl, λ z l. let e : ltb (z / 8) ((k.nbit + 8 - 1) / 8) ≡ true = ground arith in rw e)

-- The first loop of `patriset_insert` ends where the look-up does.
pub descend-find :
    (h : Heap) (k : Key) (fuel b : ℕ) (par : Ptr) (m : Node) (t : Trie)
    → h par ≡ some m
    → m.bpos ≡ b
    → Rep h b t
    → b < 2 ^ 16
    → 2 ^ 16 ≤ fuel + b
    → descend h k fuel par (addr t) ≡ ok (find (getbit k) t)
unfolding descend find
descend-find h k zero b par m t em mb r l f = absurd (omega arith)
descend-find h k (suc fuel) b par m (leaf p) em mb (n, e, d) l f =
    let node = label_node (h p) n e in
    let stop : ltb m.bpos node.0.bpos ≡ false = ground (arith, node.2) in
    rw (load-ok h par m em, load-ok h p node.0 node.1, stop)
descend-find h k (suc fuel) b par m (branch p c lt rt) em mb (n, e, pos, el, er, d, w, rl, rr) l f =
    let go : ltb m.bpos n.bpos ≡ true = ground arith in
    rw (load-ok h par m em, load-ok h p n e, go, pos)
      (elim (Bool-cases (getbit k c)) [
        | inl up ↦ rw (up, er) (descend-find h k fuel c p n rt e pos rr w (omega arith))
        | inr down ↦ rw (down, el) (descend-find h k fuel c p n lt e pos rl w (omega arith))
      ])

-- The created node before it is linked.
abbrev pub unlinked : Key → ℕ → Node
unlinked k c = record { left = null; right = null; bpos = c; key = copy_key k }

-- What an insertion that creates a node leaves behind.
pub record Created (h : Heap) (root : Ptr) (t : Trie) (k : Key) (fresh : Ptr) (r : Inserted)
    : Type 0 where
  pub flag : r.inserted ≡ true
  pub at : r.node ≡ fresh
  pub trie : Trie
  pub valid : IsNodeSet r.heap root trie
  pub members : (q : Ptr) → leaves trie q ≡ leaves t q + one_if (fresh == q)
  pub new_key : (n : Node) × (r.heap fresh ≡ some n) × SameKey k n.key
  pub others : (q : Ptr) → q ≢ fresh → label_of (r.heap q) ≡ label_of (h q)

abbrev pub Kept : Heap → Trie → Key → Inserted → Type 0
Kept h t k r = (r.inserted ≡ false) × (r.heap ≡ h) × IsHit h t k r.node

module _ {h : Heap} {root : Ptr} {t : Trie} (s : IsNodeSet h root t) (fresh : Ptr)
    (unused : h fresh ≡ none) where
  pub fresh-leaves : leaves t fresh ≡ 0
  fresh-leaves = elim (Bool-cases (ltb 0 (leaves t fresh))) [
    | inl some_leaf ↦
        let (n, e) = leaf_node h 0 t fresh s.rep (ground arith) in
        absurd (none-some (sym unused ∙ e))
    | inr no_leaf ↦ ground arith
  ]
    where
      none-some : {n : Node} → none ≡ some n → ⊥
      none-some e = cc

  pub fresh-ne-root : root ≢ fresh
  fresh-ne-root e = none-some (sym unused ∙ rw (← e) s.at_root)
    where
      none-some : none ≡ some s.anchor → ⊥
      none-some e = cc

  pub fresh-inner : inner t fresh ≡ 0
  fresh-inner = omega (arith, s.two_links fresh, fresh-leaves)

  pub root-inner : inner t root ≡ 0
  root-inner = ground (arith, s.once root)

  -- The heap with the created node, before the link.
  module _ (k : Key) (c : ℕ) (h2 : Heap)
      (cells : (a : Ptr) → h2 a ≡ (if a == fresh then some (unlinked k c) else h a)) where
    pub at_fresh : h2 fresh ≡ some (unlinked k c)
    at_fresh = ground (arith, cells fresh)

    pub elsewhere : (a : Ptr) → a ≢ fresh → h2 a ≡ h a
    elsewhere a ne = ground (arith, cells a)

    pub leaf-ne-fresh : (a : Ptr) → 0 < leaves t a → a ≢ fresh
    leaf-ne-fresh a m e = absurd (omega (arith, ap (leaves t) e, fresh-leaves))

    pub leaf-cell : (a : Ptr) → 0 < leaves t a → h2 a ≡ h a
    leaf-cell a m = elsewhere a (leaf-ne-fresh a m)

    pub rep2 : Rep h2 0 t
    rep2 =
        Rep-frame h h2 0 t (λ a i. leaf-cell a (omega (arith, s.two_links a)))
          (λ a m. ap label_of (leaf-cell a m)) s.rep

    pub sorted2 : Sorted (bits_in h2) t
    sorted2 = Sorted-ext (bits_in h) (bits_in h2) t (λ q i m. rw (leaf-cell q m)) s.sorted
