-- ===== src/Evict/Walk.antt =====
-- The walk of `_pwalk` in the trie.
use patricia_c.Base.{
  ℕ, zero, suc, ◌+◌, ◌^◌, ◌≤◌, ◌<◌, ◌≡◌, refl, true, false, some, arith, ◌==◌, Bool-cases, ltb, inl,
  inr, if◌then◌else◌,
}
use patricia_c.Key.{Key, getbit}
use patricia_c.Heap.{Ptr, Node, child, Heap, ok, load-ok}
use patricia_c.Trie.{Trie, leaf, branch, addr, find, inner, one_if}
use patricia_c.Trie.Cut.{last_of, over_of, npar_of}
use patricia_c.Tree.Rep.{Rep, label_node}
use patricia_c.Evict.{NodeLinks, pwalk_loop}

abbrev pub links : Ptr → Ptr → Ptr → Ptr → NodeLinks
links np over last node = record { npar = np; over = over; last = last; node = node }

module _ (h : Heap) (k : Key) (x : Ptr) where
  -- One round of the loop at a branch.
  pwalk_round :
      (fuel : ℕ) (np np' over par p next : Ptr) (m n : Node) (at : NodeLinks)
      → h par ≡ some m
      → h p ≡ some n
      → m.bpos < n.bpos
      → (if x == p then par else np) ≡ np'
      → child n (getbit k n.bpos) ≡ next
      → pwalk_loop h k x fuel (links np' par p next) ≡ ok at
      → pwalk_loop h k x (suc fuel) (links np over par p) ≡ ok at
  unfolding pwalk_loop
  pwalk_round fuel np np' over par p next m n at em en less parent down rest =
      let test : ltb m.bpos n.bpos ≡ true = ground arith in
      rw (load-ok h par m em, load-ok h p n en, test, parent, down) rest

  pwalk_end :
      (fuel : ℕ) (np over par p : Ptr) (m n : Node)
      → h par ≡ some m
      → h p ≡ some n
      → n.bpos ≤ m.bpos
      → pwalk_loop h k x (suc fuel) (links np over par p) ≡ ok (links np over par p)
  unfolding pwalk_loop
  pwalk_end fuel np over par p m n em en le =
      let test : ltb m.bpos n.bpos ≡ false = ground arith in
      rw (load-ok h par m em, load-ok h p n en, test) refl

  -- Below the node looked for its parent is kept.
  pwalk_below :
      (fuel b : ℕ) (np over par : Ptr) (m : Node) (t : Trie)
      → h par ≡ some m
      → m.bpos ≡ b
      → Rep h b t
      → b < 2 ^ 16
      → 2 ^ 16 ≤ fuel + b
      → inner t x ≡ 0
      → pwalk_loop h k x fuel (links np over par (addr t))
        ≡ ok (
            links np (over_of (getbit k) over par t) (last_of (getbit k) par t) (find (getbit k) t))
  unfolding over_of last_of find inner
  pwalk_below zero b np over par m t em mb r l f out = absurd (omega arith)
  pwalk_below (suc fuel) b np over par m (leaf p) em mb (n, e, d) l f out =
      let node = label_node (h p) n e in
      pwalk_end fuel np over par p m node.0 em node.1 (omega (arith, node.2))
  pwalk_below (suc fuel) b np over par m (branch p c lt rt) em mb (n, e, pos, el, er, d, w, rl, rr)
        l f out =
      let other : (if x == p then par else np) ≡ np = ground arith in
      elim (Bool-cases (getbit k c)) [
        | inl up ↦ rw up (
            pwalk_round fuel np np over par p (addr rt) m n _ em e (omega arith) other
              (rw (pos, up) er)
              (pwalk_below fuel c np par p n rt e pos rr w (omega arith) (omega arith)))
        | inr down ↦ rw down (
            pwalk_round fuel np np over par p (addr lt) m n _ em e (omega arith) other
              (rw (pos, down) el)
              (pwalk_below fuel c np par p n lt e pos rl w (omega arith) (omega arith)))
      ]

  -- The whole walk.
  pub pwalk_loop-find :
      (fuel b : ℕ) (np over par : Ptr) (m : Node) (t : Trie)
      → h par ≡ some m
      → m.bpos ≡ b
      → Rep h b t
      → b < 2 ^ 16
      → 2 ^ 16 ≤ fuel + b
      → inner t x ≤ 1
      → pwalk_loop h k x fuel (links np over par (addr t))
        ≡ ok (
            links
              (npar_of (getbit k) x np par t)
              (over_of (getbit k) over par t)
              (last_of (getbit k) par t)
              (find (getbit k) t))
  unfolding over_of last_of find inner npar_of
  pwalk_loop-find zero b np over par m t em mb r l f once = absurd (omega arith)
  pwalk_loop-find (suc fuel) b np over par m (leaf p) em mb (n, e, d) l f once =
      let node = label_node (h p) n e in
      pwalk_end fuel np over par p m node.0 em node.1 (omega (arith, node.2))
  pwalk_loop-find (suc fuel) b np over par m (branch p c lt rt) em mb
        (n, e, pos, el, er, d, w, rl, rr) l f once =
      elim (Bool-cases (x == p)) [
        | inl here ↦
            let found : (if x == p then par else np) ≡ par = rw here refl in
            let gone : one_if (p == x) ≡ 1 = ground arith in
            elim (Bool-cases (getbit k c)) [
              | inl up ↦
                  rw (here, up)
                    (pwalk_round fuel np par over par p (addr rt) m n _ em e (omega arith) found
                      (rw (pos, up) er)
                      (pwalk_below fuel c par par p n rt e pos rr w (omega arith) (omega arith)))
              | inr down ↦
                  rw (here, down)
                    (pwalk_round fuel np par over par p (addr lt) m n _ em e (omega arith) found
                      (rw (pos, down) el)
                      (pwalk_below fuel c par par p n lt e pos rl w (omega arith) (omega arith)))
            ]
        | inr below ↦
            let other : (if x == p then par else np) ≡ np = rw below refl in
            elim (Bool-cases (getbit k c)) [
              | inl up ↦
                  rw (below, up)
                    (pwalk_round fuel np np over par p (addr rt) m n _ em e (omega arith) other
                      (rw (pos, up) er)
                      (pwalk_loop-find fuel c np par p n rt e pos rr w (omega arith) (omega arith)))
              | inr down ↦
                  rw (below, down)
                    (pwalk_round fuel np np over par p (addr lt) m n _ em e (omega arith) other
                      (rw (pos, down) el)
                      (pwalk_loop-find fuel c np par p n lt e pos rl w (omega arith) (omega arith)))
            ]
      ]
