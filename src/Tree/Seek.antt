-- ===== src/Tree/Seek.antt =====
-- The second walk of `patriset_insert` finds the place at which the link grafts the new leaf.
use patricia_c.Base.{
  ℕ, zero, suc, ◌+◌, ◌^◌, ◌≤◌, ◌<◌, ◌≡◌, ◌≢◌, refl, sym, ◌∙◌, ap, Bool, true, false, ◌&&◌, some,
  arith, ◌==◌, Bool-cases, ltb, inl, inr,
}
use patricia_c.Key.{Key, getbit}
use patricia_c.Heap.{Ptr, Node, child, set_child, Heap, ok, load-ok}
use patricia_c.Trie.{Trie, leaf, branch, addr, find, inner, one_if, Sorted, join, graft}
use patricia_c.Trie.Graft.{Parts, position-ne}
use patricia_c.Tree.{Place, seek}
use patricia_c.Tree.Rep.{Rep, label_of, label_node, bits_in}
use patricia_c.Tree.Link.{joined, IsLinked, IsLinked-label, Rep-frame}

self-one : (p : Ptr) → one_if (p == p) ≡ 1
self-one p = ground arith

-- Nodes with different counts are different.
ne-inner : (t : Trie) (a p : Ptr) → 0 < inner t a → inner t p ≡ 0 → a ≢ p
ne-inner t a p i j e = absurd (omega (arith, ap (inner t) e))

abbrev place : Ptr → Bool → Ptr → Place
place p d q = record { last = p; pdir = d; next = q }

set_child_same : (m : Node) (d : Bool) (p : Ptr) → child m d ≡ p → set_child m d p ≡ m
set_child_same m true p e = ground arith
set_child_same m false p e = ground arith

-- One round of the walk, and its end.
module _ (h : Heap) (k : Key) (c fuel : ℕ) (par : Ptr) (m : Node) (d : Bool) (p : Ptr) (n : Node)
    (em : h par ≡ some m) (en : h p ≡ some n) where
  seek_round :
      (dir : Bool) (next : Ptr) (at : Place)
      → (ltb m.bpos n.bpos && ltb n.bpos c) ≡ true
      → getbit k n.bpos ≡ dir
      → child n dir ≡ next
      → seek h k c fuel p dir next ≡ ok at
      → seek h k c (suc fuel) par d p ≡ ok at
  unfolding seek
  seek_round dir next at test bit down rest =
      rw (load-ok h par m em, load-ok h p n en, test, bit, down) rest

  seek_end :
      (ltb m.bpos n.bpos && ltb n.bpos c) ≡ false
      → seek h k c (suc fuel) par d p ≡ ok (place par d p)
  unfolding seek
  seek_end test = rw (load-ok h par m em, load-ok h p n en, test)

module _ (h : Heap) (k : Key) (c : ℕ) (node : Ptr) (new : Node) where
  -- The heap after the link, below the parent `par` with node `m`, has the trie `t'` for `t`.
  pub record Spliced (par : Ptr) (m : Node) (d : Bool) (b : ℕ) (t t' : Trie) (h' : Heap)
      : Type 0 where
    pub rep : Rep h' b t'
    pub parent : h' par ≡ some (set_child m d (addr t'))
    pub same : (a : Ptr) → inner t a ≡ 0 → a ≢ par → a ≢ node → h' a ≡ h a

  pub record Found (par : Ptr) (m : Node) (d : Bool) (b fuel : ℕ) (t : Trie) : Type 0 where
    pub at : Place
    pub runs : seek h k c fuel par d (addr t) ≡ ok at
    pub last : Node
    pub at_last : h at.last ≡ some last
    pub apart : at.last ≢ node
    pub splices :
        (h' : Heap)
        → IsLinked h k c node at h'
        → Spliced par m d b t (graft node c (bits_in h node) t) h'

  module _ (here : h node ≡ some new) (pos : new.bpos ≡ c)
      (bits : (i : ℕ) → getbit k i ≡ bits_in h node i) (fits : c < 2 ^ 16) where
    -- What the created node holds after the link.
    joined_here :
        (par : Ptr) (d dir : Bool) (next : Ptr) (h' : Heap)
        → par ≢ node
        → getbit k c ≡ dir
        → IsLinked h k c node (place par d next) h'
        → h' node ≡ some (joined new dir node next)
    joined_here par d dir next h' ne e l =
        let f : (node == par) ≡ false = ground arith in
        let g : (node == node) ≡ true = ground arith in
        let eq : l.created ≡ new = ground (arith, l.at_node) in l.cells node ∙ rw (f, g, e, eq)

    Rep-join :
        (b : ℕ) (t : Trie) (dir : Bool) (h' : Heap)
        → b < c
        → h' node ≡ some (joined new dir node (addr t))
        → Rep h' c t
        → Rep h' b (join node c dir t)
    unfolding join
    Rep-join b t true h' bc e r = (
      joined new true node (addr t),
      e,
      pos,
      refl,
      refl,
      bc,
      fits,
      r,
      (record { bpos = new.bpos; key = new.key }, ap label_of e, omega arith),
    )
    Rep-join b t false h' bc e r = (
      joined new false node (addr t),
      e,
      pos,
      refl,
      refl,
      bc,
      fits,
      (record { bpos = new.bpos; key = new.key }, ap label_of e, omega arith),
      r,
    )

    addr-join : (t : Trie) (dir : Bool) → addr (join node c dir t) ≡ node
    unfolding join
    addr-join t true = refl
    addr-join t false = refl

    -- Where the walk stops, the parent's link is turned to the new node.
    stop_here :
        (par : Ptr) (m : Node) (d : Bool) (b : ℕ) (t : Trie)
        → h par ≡ some m
        → par ≢ node
        → b < c
        → inner t par ≡ 0
        → inner t node ≡ 0
        → Rep h c t
        → (h' : Heap) → IsLinked h k c node (place par d (addr t)) h'
        → Spliced par m d b t (join node c (bits_in h node c) t) h'
    stop_here par m d b t em ne bc out free r h' l = record {
      rep =
          Rep-join b t (bits_in h node c) h' bc
            (joined_here par d (bits_in h node c) (addr t) h' ne (bits c) l)
            (Rep-frame h h' c t untouched (λ a i. IsLinked-label l a) r);
      parent =
          let f : (par == par) ≡ true = ground arith in
          let eq : l.parent ≡ m = ground (arith, l.at_last) in
          l.cells par ∙ rw (f, eq, addr-join t (bits_in h node c));
      same = λ a i np nn. ground (arith, l.cells a);
    }
      where
        untouched : (a : Ptr) → 0 < inner t a → h' a ≡ h a
        untouched a i =
            let np : a ≢ par = ne-inner t a par i out in
            let nn : a ≢ node = ne-inner t a node i free in ground (arith, l.cells a)

    -- The same place, seen from the node above.
    module _ (par : Ptr) (m : Node) (d : Bool) (b : ℕ) (p : Ptr) (c' : ℕ) (lt rt : Trie) (n : Node)
        (em : h par ≡ some m) (down : child m d ≡ p) (ne : par ≢ node) (bc : b < c')
        (w : c' < 2 ^ 16) (en : h p ≡ some n) (np : n.bpos ≡ c') (el : n.left ≡ addr lt)
        (er : n.right ≡ addr rt) (rl : Rep h c' lt) (rr : Rep h c' rt)
        (once : (q : Ptr) → inner (branch p c' lt rt) q ≤ 1)
        (out : inner (branch p c' lt rt) par ≡ 0) (free : inner (branch p c' lt rt) node ≡ 0)
        (h' : Heap) (linked : (a : Ptr) → label_of (h' a) ≡ label_of (h a)) where
      par_ne : par ≢ p
      unfolding inner
      par_ne e = absurd (omega (arith, ap (λ x. one_if (p == x)) e, self-one p))

      parent_same : h' par ≡ h par → h' par ≡ some (set_child m d p)
      parent_same e = e ∙ em ∙ ap some (sym (set_child_same m d p down))

      up_right :
          (rt' : Trie)
          → Spliced p n true c' rt rt' h'
          → Spliced par m d b (branch p c' lt rt) (branch p c' lt rt') h'
      unfolding inner
      up_right rt' s = record {
        rep = (
          set_child n true (addr rt'),
          s.parent,
          np,
          el,
          refl,
          bc,
          w,
          Rep-frame h h' c' lt
              (λ a i.
                s.same a (omega (arith, once a))
                  (ne-inner lt a p i (omega (arith, once p, self-one p)))
                  (ne-inner lt a node i (omega arith)))
              (λ a i. linked a) rl,
          s.rep,
        );
        parent = parent_same (s.same par (omega arith) par_ne ne);
        same = λ a i na nn.
            s.same a (omega arith)
              (λ e. absurd (omega (arith, ap (λ x. one_if (p == x)) e, self-one p))) nn;
      }

      up_left :
          (lt' : Trie)
          → Spliced p n false c' lt lt' h'
          → Spliced par m d b (branch p c' lt rt) (branch p c' lt' rt) h'
      unfolding inner
      up_left lt' s = record {
        rep = (
          set_child n false (addr lt'),
          s.parent,
          np,
          refl,
          er,
          bc,
          w,
          s.rep,
          Rep-frame h h' c' rt
              (λ a i.
                s.same a (omega (arith, once a))
                  (ne-inner rt a p i (omega (arith, once p, self-one p)))
                  (ne-inner rt a node i (omega arith)))
              (λ a i. linked a) rr,
        );
        parent = parent_same (s.same par (omega arith) par_ne ne);
        same = λ a i na nn.
            s.same a (omega arith)
              (λ e. absurd (omega (arith, ap (λ x. one_if (p == x)) e, self-one p))) nn;
      }

    -- The walk finds the place from a parent before the new branch position.
    pub seek_lem :
        (fuel : ℕ) (par : Ptr) (m : Node) (d : Bool) (b : ℕ) (t : Trie)
        → h par ≡ some m
        → m.bpos ≡ b
        → child m d ≡ addr t
        → par ≢ node
        → b < c
        → 2 ^ 16 ≤ fuel + b
        → ((q : Ptr) → inner t q ≤ 1)
        → inner t par ≡ 0
        → inner t node ≡ 0
        → Sorted (bits_in h) t
        → Parts (bits_in h) node c t
        → Rep h b t
        → Found par m d b fuel t
    unfolding graft inner find
    seek_lem zero par m d b t em mb down ne bc f once out free s ps r = absurd (omega arith)
    seek_lem (suc fuel) par m d b (leaf p) em mb down ne bc f once out free s ps (n, e, l) =
        let at_p = label_node (h p) n e in
        let test : (ltb m.bpos at_p.0.bpos && ltb at_p.0.bpos c) ≡ false = ground (arith, at_p.2) in
        record {
          at = place par d p;
          runs = seek_end h k c fuel par m d p at_p.0 em at_p.1 test;
          last = m;
          at_last = em;
          apart = ne;
          splices = stop_here par m d b (leaf p) em ne bc out free (n, e, omega arith);
        }
    seek_lem (suc fuel) par m d b (branch p c' lt rt) em mb down ne bc f once out free s ps
          (n, e, np, el, er, bc', w, rl, rr) =
        elim (Bool-cases (ltb c' c)) [
          | inl go ↦
              let test : (ltb m.bpos n.bpos && ltb n.bpos c) ≡ true = ground arith in
              let pn : p ≢ node =
                λ x. absurd (omega (arith, ap (λ y. one_if (p == y)) x, self-one p)) in
              elim (Bool-cases (bits_in h node c')) [
                | inl up ↦
                    let rest =
                      seek_lem fuel p n true c' rt e np er pn (ground arith) (omega arith)
                        (λ q. omega (arith, once q)) (omega (arith, once p, self-one p))
                        (omega arith) s.4 (rw up at ps) rr in
                    record {
                      at = rest.at;
                      runs =
                          seek_round h k c fuel par m d p n em e true (addr rt) rest.at test
                            (rw np (bits c' ∙ up)) er rest.runs;
                      last = rest.last;
                      at_last = rest.at_last;
                      apart = rest.apart;
                      splices = λ h' l.
                          rw (go, up)
                            (up_right par m d b p c' lt rt n em down ne bc' w e np el er rl rr once
                              out free h' (IsLinked-label l) _ (rest.splices h' l));
                    }
                | inr dn ↦
                    let rest =
                      seek_lem fuel p n false c' lt e np el pn (ground arith) (omega arith)
                        (λ q. omega (arith, once q)) (omega (arith, once p, self-one p))
                        (omega arith) s.3 (rw dn at ps) rl in
                    record {
                      at = rest.at;
                      runs =
                          seek_round h k c fuel par m d p n em e false (addr lt) rest.at test
                            (rw np (bits c' ∙ dn)) el rest.runs;
                      last = rest.last;
                      at_last = rest.at_last;
                      apart = rest.apart;
                      splices = λ h' l.
                          rw (go, dn)
                            (up_left par m d b p c' lt rt n em down ne bc' w e np el er rl rr once
                              out free h' (IsLinked-label l) _ (rest.splices h' l));
                    }
              ]
          | inr stop ↦
              let ne' : c' ≢ c = position-ne (bits_in h) node c p c' lt rt s ps in
              let test : (ltb m.bpos n.bpos && ltb n.bpos c) ≡ false = ground arith in
              record {
                at = place par d p;
                runs = seek_end h k c fuel par m d p n em e test;
                last = m;
                at_last = em;
                apart = ne;
                splices = rw stop (
                    stop_here par m d b (branch p c' lt rt) em ne bc out free
                      (n, e, np, el, er, ground arith, w, rl, rr));
              }
        ]
