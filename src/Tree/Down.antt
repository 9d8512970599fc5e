-- ===== src/Tree/Down.antt =====
-- The downlinks of a set alone, and a change below a node seen from the node above it.
use patricia_c.Base.{
  ℕ, ◌^◌, ◌≤◌, ◌<◌, ◌≡◌, ◌≢◌, refl, sym, ◌∙◌, ap, Bool, true, false, some, arith, ◌==◌, inl, inr,
}
use patricia_c.Heap.{Ptr, Node, child, set_child, Heap}
use patricia_c.Trie.{Trie, leaf, branch, addr, leaves, inner, one_if}
use patricia_c.Trie.Up.{PointsUp, And}
use patricia_c.Tree.Rep.{Rep, Label, label_of}

-- The downlinks as `Rep` has them, with nothing said of the uplinks.
abbrev pub Down : Heap → ℕ → Trie → Type 0
Down h b (leaf p) = Unit {0}
Down h b (branch p c l r) =
    (n : Node) × (h p ≡ some n)
    × (n.bpos ≡ c)
    × (n.left ≡ addr l)
    × (n.right ≡ addr r)
    × (b < c)
    × (c < 2 ^ 16)
    × Down h c l
    × Down h c r

pub Rep-Down : (h : Heap) (b : ℕ) (t : Trie) → Rep h b t → Down h b t
Rep-Down h b (leaf p) r = tt
Rep-Down h b (branch p c l r) (n, e, pos, el, er, d, w, rl, rr) =
    (n, e, pos, el, er, d, w, Rep-Down h c l rl, Rep-Down h c r rr)

-- The uplinks follow, since they lead to branches above.
pub Down-Rep :
    (h : Heap) (b : ℕ) (above : Ptr → Type 0) (t : Trie)
    → ((q : Ptr) → above q → (n : Label) × (label_of (h q) ≡ some n) × (n.bpos ≤ b))
    → PointsUp above t
    → Down h b t
    → Rep h b t
Down-Rep h b above (leaf p) labels u r = labels p u
Down-Rep h b above (branch p c l r) labels (ul, ur) (n, e, pos, el, er, d, w, rl, rr) = (
  n,
  e,
  pos,
  el,
  er,
  d,
  w,
  Down-Rep h c (And above p) l labels' ul rl,
  Down-Rep h c (And above p) r labels' ur rr,
)
  where
    labels' : (q : Ptr) → And above p q → (n : Label) × (label_of (h q) ≡ some n) × (n.bpos ≤ c)
    labels' q (inl here) =
        (record { bpos = n.bpos; key = n.key }, rw here (ap label_of e), omega (arith, pos))
    labels' q (inr a) = let (m, em, l) = labels q a in (m, em, omega (arith, l, d))

pub Down-frame :
    (h h' : Heap) (b : ℕ) (t : Trie)
    → ((a : Ptr) → 0 < inner t a → h' a ≡ h a)
    → Down h b t
    → Down h' b t
unfolding inner
Down-frame h h' b (leaf p) same r = tt
Down-frame h h' b (branch p c l r) same (n, e, pos, el, er, d, w, rl, rr) = (
  n,
  same p (ground arith) ∙ e,
  pos,
  el,
  er,
  d,
  w,
  Down-frame h h' c l (λ a m. same a (omega arith)) rl,
  Down-frame h h' c r (λ a m. same a (omega arith)) rr,
)

pub Down-le : (h : Heap) (b b' : ℕ) (t : Trie) → b' ≤ b → Down h b t → Down h b' t
Down-le h b b' (leaf p) le r = tt
Down-le h b b' (branch p c l r) le (n, e, pos, el, er, d, w, rl, rr) =
    (n, e, pos, el, er, omega (arith, d, le), w, rl, rr)

-- A pointer that leads to a trie leads to one of its nodes.
pub addr-ne : (t : Trie) (q : Ptr) → leaves t q ≡ 0 → inner t q ≡ 0 → addr t ≢ q
unfolding leaves inner
addr-ne (leaf p) q none_up none_down e = ground arith
addr-ne (branch p c l r) q none_up none_down e = ground arith

pub self-one : (p : Ptr) → one_if (p == p) ≡ 1
self-one p = ground arith

-- Nodes with different counts are different.
pub ne-inner : (t : Trie) (a p : Ptr) → 0 < inner t a → inner t p ≡ 0 → a ≢ p
ne-inner t a p i j e = absurd (omega (arith, ap (inner t) e))

pub set_child_same : (m : Node) (d : Bool) (p : Ptr) → child m d ≡ p → set_child m d p ≡ m
set_child_same m true p e = ground arith
set_child_same m false p e = ground arith

-- Below the parent `par`, the child `d` of its node `m`, the trie `t` of the heap `h` has become
-- `t'` in `h'`; nodes outside that are `Out` of the change are as before.
pub record Turned (h : Heap) (Out : Ptr → Type 0) (par : Ptr) (m : Node) (d : Bool) (b : ℕ)
    (t t' : Trie) (h' : Heap) : Type 0 where
  pub down : Down h' b t'
  pub parent : h' par ≡ some (set_child m d (addr t'))
  pub same : (a : Ptr) → inner t a ≡ 0 → a ≢ par → Out a → h' a ≡ h a

-- The same change, seen from the node above the parent.
module _ (h : Heap) (Out : Ptr → Type 0) (par : Ptr) (m : Node) (d : Bool) (b : ℕ) (p : Ptr) (c : ℕ)
    (lt rt : Trie) (n : Node) (em : h par ≡ some m) (at : child m d ≡ p) (bc : b < c)
    (w : c < 2 ^ 16) (en : h p ≡ some n) (np : n.bpos ≡ c) (el : n.left ≡ addr lt)
    (er : n.right ≡ addr rt) (dl : Down h c lt) (dr : Down h c rt)
    (once : (q : Ptr) → inner (branch p c lt rt) q ≤ 1) (apart : inner (branch p c lt rt) par ≡ 0)
    (outs : (a : Ptr) → 0 < inner (branch p c lt rt) a → Out a) (out_par : Out par)
    (h' : Heap) where
  par_ne : par ≢ p
  unfolding inner
  par_ne e = absurd (omega (arith, ap (λ x. one_if (p == x)) e, self-one p))

  parent_same : h' par ≡ h par → h' par ≡ some (set_child m d p)
  parent_same e = e ∙ em ∙ ap some (sym (set_child_same m d p at))

  pub Turned-right :
      (rt' : Trie)
      → Turned h Out p n true c rt rt' h'
      → Turned h Out par m d b (branch p c lt rt) (branch p c lt rt') h'
  unfolding inner
  Turned-right rt' s = record {
    down = (
      set_child n true (addr rt'),
      s.parent,
      np,
      el,
      refl,
      bc,
      w,
      Down-frame h h' c lt
          (λ a i.
            s.same a (omega (arith, once a)) (ne-inner lt a p i (omega (arith, once p, self-one p)))
              (outs a (omega arith)))
          dl,
      s.down,
    );
    parent = parent_same (s.same par (omega arith) par_ne out_par);
    same = λ a i na o.
        s.same a (omega arith)
          (λ e. absurd (omega (arith, ap (λ x. one_if (p == x)) e, self-one p))) o;
  }

  pub Turned-left :
      (lt' : Trie)
      → Turned h Out p n false c lt lt' h'
      → Turned h Out par m d b (branch p c lt rt) (branch p c lt' rt) h'
  unfolding inner
  Turned-left lt' s = record {
    down = (
      set_child n false (addr lt'),
      s.parent,
      np,
      refl,
      er,
      bc,
      w,
      s.down,
      Down-frame h h' c rt
          (λ a i.
            s.same a (omega (arith, once a)) (ne-inner rt a p i (omega (arith, once p, self-one p)))
              (outs a (omega arith)))
          dr,
    );
    parent = parent_same (s.same par (omega arith) par_ne out_par);
    same = λ a i na o.
        s.same a (omega arith)
          (λ e. absurd (omega (arith, ap (λ x. one_if (p == x)) e, self-one p))) o;
  }
