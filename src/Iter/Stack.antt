-- ===== src/Iter/Stack.antt =====
-- The stack of parents of src/cpatricia_set.c during an iteration: it holds nodes of the trie only,
-- so that `iter_parentPop` finds the parent, in the stack or by the walk from the root.
use mathlib.Core.Path.{subst}
use patricia_c.Base.{
  ℕ, zero, suc, ◌+◌, ◌-◌, ◌%◌, ◌^◌, ◌≤◌, ◌<◌, ◌≡◌, inl, inr, refl, sym, ap, ◌∙◌, Bool, true, false,
  Option, none, some, ◌==◌, ltb, ◌&&◌, ==_iff, arith, Bool-cases, bit_and,
}
use patricia_c.Bits.{bit_and_mask}
use patricia_c.Key.{Key, getbit}
use patricia_c.Heap.{Ptr, Node, Heap, Run, ok, load-ok}
use patricia_c.Trie.{Trie, leaf, branch, addr, inner}
use patricia_c.Trie.Up.{OnWay, past}
use patricia_c.Evict.{is_parent_of}
use patricia_c.Iter.{Iter, WayIn, parent_push, pop_cached, refill}
use patricia_c.Iter.Hang.{Walkable, Hangs, Hangs-left, Hangs-right}
use patricia_c.Iter.Under.{Under, inner_node, is_parent_of-Under}

-- The address in the ring of the entry pushed `j` pushes before the newest.
abbrev pub slot : ℕ → ℕ → ℕ
slot top j = (top + 7 - j) % 8

-- An iterator during an iteration over a trie from the node `root`.
pub record Steady (root : Ptr) (t : Trie) (mode : ℕ) (dir : Bool) (it : Iter) : Type 0 where
  pub root_is : it.root ≡ root
  pub mode_is : it.mode ≡ mode
  pub dir_is : it.dir ≡ dir
  pub in_ring : it.stk_top < 8
  pub in_len : it.stk_len ≤ 8
  pub holds : (j : ℕ) → j < it.stk_len → 0 < inner t (it.pstk (slot it.stk_top j))

slot_zero : (top : ℕ) → top < 8 → slot ((top + 1) % 8) 0 ≡ top
slot_zero top l = omega arith

slot-suc : (top j : ℕ) → top < 8 → j < 7 → slot ((top + 1) % 8) (suc j) ≡ slot top j
slot-suc top j l m = omega arith

slot_apart : (top j : ℕ) → top < 8 → j < 7 → (slot top j == top) ≡ false
slot_apart top j l m = ground arith

slot_down : (top j : ℕ) → top < 8 → j < 7 → slot ((top + 7) % 8) j ≡ slot top (suc j)
slot_down top j l m = omega arith

ring_up : (top : ℕ) → bit_and (top + 1) 7 ≡ (top + 1) % 8
ring_up top = bit_and_mask 3 (top + 1)

ring_down : (top : ℕ) → top < 8 → bit_and (top + 2 ^ 32 - 1) 7 ≡ (top + 7) % 8
ring_down top l = bit_and_mask 3 (top + 2 ^ 32 - 1) ∙ omega arith

module _ (root : Ptr) (t : Trie) (mode : ℕ) (dir : Bool) where
  abbrev Keeps : Iter → Type 0
  Keeps it = Steady root t mode dir it

  -- The position of the iterator is free.
  pub placed-Steady :
      (it : Iter) (p : Ptr) (s : WayIn) → Keeps it → Keeps (record it { nodep = p; state = s })
  placed-Steady it p s st = record {
    root_is = st.root_is;
    mode_is = st.mode_is;
    dir_is = st.dir_is;
    in_ring = st.in_ring;
    in_len = st.in_len;
    holds = st.holds;
  }

  push_holds :
      (it : Iter) (p : Ptr) (j : ℕ)
      → Keeps it
      → 0 < inner t p
      → j < (parent_push it p).stk_len
      → 0 < inner t ((parent_push it p).pstk (slot (parent_push it p).stk_top j))
  unfolding parent_push
  push_holds it p zero s i l =
      let here : (it.stk_top == it.stk_top) ≡ true = ground arith in
      rw (ring_up it.stk_top, slot_zero it.stk_top s.in_ring, here) i
  push_holds it p (suc j) s i l =
      let old : j < it.stk_len = ground (arith, s.in_len) in
      let low : j < 7 = ground (arith, s.in_len) in
      rw
        (
          ring_up it.stk_top,
          slot-suc it.stk_top j s.in_ring low,
          slot_apart it.stk_top j s.in_ring low,
        )
        (s.holds j old)

  pub push-Steady : (it : Iter) (p : Ptr) → Keeps it → 0 < inner t p → Keeps (parent_push it p)
  unfolding parent_push
  push-Steady it p s i = record {
    root_is = s.root_is;
    mode_is = s.mode_is;
    dir_is = s.dir_is;
    in_ring = omega (arith, ring_up it.stk_top);
    in_len = ground (arith, s.in_len);
    holds = λ j l. push_holds it p j s i l;
  }

  -- The newest entry is taken off.
  abbrev popped : ℕ → Iter → Iter
  popped len it = record it { stk_len = len; stk_top = bit_and (it.stk_top + 2 ^ 32 - 1) 7 }

  popped-Steady : (it : Iter) (len : ℕ) → Keeps it → it.stk_len ≡ suc len → Keeps (popped len it)
  popped-Steady it len s e = record {
    root_is = s.root_is;
    mode_is = s.mode_is;
    dir_is = s.dir_is;
    in_ring = omega (arith, ring_down it.stk_top s.in_ring);
    in_len = omega (arith, s.in_len);
    holds = λ j l.
        rw
          (
            ring_down it.stk_top s.in_ring,
            slot_down it.stk_top j s.in_ring (omega (arith, s.in_len)),
          )
          (s.holds (suc j) (omega arith));
  }

  pub reset-Steady : (it : Iter) → Keeps it → Keeps (record it { stk_len = 0 })
  reset-Steady it s = record {
    root_is = s.root_is;
    mode_is = s.mode_is;
    dir_is = s.dir_is;
    in_ring = s.in_ring;
    in_len = omega arith;
    holds = λ j l. absurd (omega arith);
  }

  module _ (h : Heap) (b : ℕ) (walk : Walkable h b t) where
    -- What a look into the stack gives.
    abbrev pub Found : Iter → Option Ptr → Ptr → Type 0
    Found it none x = Keeps it
    Found it (some q) x = Keeps it × Under t q x

    abbrev newest : Iter → Ptr
    newest it = it.pstk (bit_and (it.stk_top + 2 ^ 32 - 1) 7)

    newest-inner : (it : Iter) → Keeps it → 0 < it.stk_len → 0 < inner t (newest it)
    newest-inner it s l =
        let at : bit_and (it.stk_top + 2 ^ 32 - 1) 7 ≡ slot it.stk_top 0 =
          ring_down it.stk_top s.in_ring ∙ omega arith in
        subst (λ z. 0 < inner t (it.pstk z)) (sym at) (s.holds 0 l)

    pub cached-Under :
        (len : ℕ) (it : Iter) (x : Ptr)
        → Keeps it
        → it.stk_len ≡ len
        → 0 < inner t x
        → (it1 : Iter) × (o : Option Ptr) × (pop_cached h len it x ≡ ok (it1, o)) × Found it1 o x
    unfolding pop_cached
    cached-Under zero it x s e i = (record it { stk_len = 0 }, none, refl, reset-Steady it s)
    cached-Under (suc len) it x s e i =
        let next = newest it in
        let held = newest-inner it s (omega arith) in
        let (qn, eq) = inner_node h b t next walk.rep held in
        let (xn, ex) = inner_node h b t x walk.rep i in
        let fewer = popped-Steady it len s e in
        let (it1, o, run, found) = cached-Under len (popped len it) x fewer refl i in
        elim (Bool-cases (is_parent_of qn x && ltb qn.bpos xn.bpos)) [
          | inl hit ↦ (
            popped len it,
            some next,
            rw (load-ok h next qn eq, load-ok h x xn ex, hit) refl,
            (
              fewer,
              is_parent_of-Under h b t next x qn xn walk.rep held eq ex (ground arith)
                  (ground arith),
            ),
          )
          | inr miss ↦ (it1, o, rw (load-ok h next qn eq, load-ok h x xn ex, miss) run, found)
        ]

    -- A walk that ends at the branch `x`, below its parent.
    pub record Reached (run : Run (Iter × Ptr × Ptr)) (x : Ptr) : Type 0 where
      pub iter : Iter
      pub parent : Ptr
      pub parent_node : Node
      pub node : Node
      pub runs : run ≡ ok (iter, parent, x)
      pub at_parent : h parent ≡ some parent_node
      pub at_node : h x ≡ some node
      pub less : parent_node.bpos < node.bpos
      pub under : Under t parent x
      pub steady : Keeps iter

    pub refill-Under :
        (k : Key) (fuel : ℕ) (it : Iter) (last : Ptr) (ln : Node) (x : Ptr) (s : Trie)
        → Keeps it
        → Hangs h t s last ln
        → 2 ^ 16 ≤ fuel + ln.bpos
        → OnWay (getbit k) x s
        → Reached (refill h k fuel it x last (addr s)) x
    unfolding refill
    refill-Under k fuel it last ln x (leaf q) st g f way = absurd way
    refill-Under k zero it last ln x (branch p c l r) st g f way = absurd (omega (arith, g.low))
    refill-Under k (suc fuel) it last ln x (branch p c l r) st g f way =
        let (n, e, pos, lft, rgt, d, cw, rl, rr) = g.rep in
        let less : ltb ln.bpos n.bpos ≡ true = ground arith in
        elim (Bool-cases (p == x)) [
          | inl here ↦
              let at : p ≡ x = (==_iff p x).0 here in
              record {
                iter = it;
                parent = last;
                parent_node = ln;
                node = n;
                runs =
                    rw (load-ok h last ln g.at, load-ok h p n e, here)
                      (ap (λ z. ok (it, last, z)) at);
                at_parent = g.at;
                at_node = ap h (sym at) ∙ e;
                less = omega arith;
                under = g.at_head x at;
                steady = st;
              }
          | inr apart ↦
              let other : (x == p) ≡ false = ground arith in
              let st1 = push-Steady it last st g.inside in
              elim (Bool-cases (getbit k c)) [
                | inl up ↦
                    rw (load-ok h last ln g.at, load-ok h p n e, apart, less, pos, up, rgt)
                      (refill-Under k fuel (parent_push it last) p n x r st1
                        (Hangs-right h t ln.bpos p c l r g.part g.rep) (omega arith)
                        (past x p other (rw up at way)))
                | inr down ↦
                    rw (load-ok h last ln g.at, load-ok h p n e, apart, less, pos, down, lft)
                      (refill-Under k fuel (parent_push it last) p n x l st1
                        (Hangs-left h t ln.bpos p c l r g.part g.rep) (omega arith)
                        (past x p other (rw down at way)))
              ]
        ]
