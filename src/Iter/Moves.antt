-- ===== src/Iter/Moves.antt =====
-- The single moves of the iterators of src/cpatricia_set.c: down to a child or on at an uplink, and
-- up to the parent.
use patricia_c.Base.{
  ℕ, ◌≡◌, inl, inr, refl, sym, ap, ◌∙◌, Bool, true, false, not, none, some, ◌==◌, ltb, ==_iff,
  arith, Bool-cases, if◌then◌else◌,
}
use patricia_c.Heap.{Ptr, null, Node, child, Heap, Run, ok, ◌>>=◌, load-ok}
use patricia_c.Trie.{Trie, leaf, branch, addr}
use patricia_c.Tree.Rep.{label_node}
use patricia_c.Iter.{
  WayIn, in_down, in_up1, in_up2, fwd_table, rev_table, Iter, iter_child, parent_push, parent_pop,
  leave,
}
use patricia_c.Iter.Tour.{Event, event, table_of, mid, last, start, final, lead}
use patricia_c.Iter.Under.{IsHead}
use patricia_c.Iter.Hang.{Walkable, Hangs}
use patricia_c.Iter.Stack.{Steady, push-Steady}
use patricia_c.Iter.Climb.{parent_pop-Under, parent_pop-root}

-- A node in the heap is not at NULL.
pub real_node : (h : Heap) (p : Ptr) (n : Node) → h null ≡ none → h p ≡ some n → (p == null) ≡ false
real_node h p n no_null e = elim (Bool-cases (p == null)) [
  | inr apart ↦ apart
  | inl here ↦ absurd (clash n (sym no_null ∙ ap h (sym ((==_iff p null).0 here)) ∙ e))
]
  where
    clash : (n : Node) → none ≡ some n → ⊥
    clash n e = cc

-- The child of a node: NULL for an uplink.
abbrev down_of : Trie → Ptr
down_of (leaf q) = null
down_of (branch p c l r) = p

iter_child-down :
    (h : Heap) (t s : Trie) (p : Ptr) (n : Node) (d : Bool)
    → Hangs h t s p n
    → h null ≡ none
    → child n d ≡ addr s
    → iter_child h p d ≡ ok (down_of s)
unfolding iter_child
iter_child-down h t (leaf q) p n d g no_null e =
    let (lab, el, le) = g.rep in
    let (m, em, pos, key) = label_node (h q) lab el in
    let stop : ltb n.bpos m.bpos ≡ false = ground (arith, pos, le) in
    rw (real_node h p n no_null g.at, load-ok h p n g.at, e, load-ok h q m em, stop) refl
iter_child-down h t (branch x c l r) p n d g no_null e =
    let (m, em, pos, el, er, less, w, rl, rr) = g.rep in
    let go : ltb n.bpos m.bpos ≡ true = ground (arith, pos, less) in
    rw (real_node h p n no_null g.at, load-ok h p n g.at, e, load-ok h x m em, go) refl

-- A step down to the child on a side, or on with the state `idir`.
go_down : Heap → Iter → Bool → WayIn → Ptr → Run (Iter × Ptr × WayIn)
go_down h it side idir p = do
  next ← iter_child h p side
  ok (if not (next == null) then (parent_push it p, next, in_down) else (it, p, idir))

go_down-null :
    (h : Heap) (it : Iter) (d : Bool) (idir : WayIn) (p : Ptr)
    → iter_child h p d ≡ ok null
    → go_down h it d idir p ≡ ok (it, p, idir)
unfolding go_down
go_down-null h it d idir p run = rw run refl

go_down-child :
    (h : Heap) (it : Iter) (d : Bool) (idir : WayIn) (p x : Ptr)
    → iter_child h p d ≡ ok x
    → (x == null) ≡ false
    → go_down h it d idir p ≡ ok (parent_push it p, x, in_down)
unfolding go_down
go_down-child h it d idir p x run real = rw (run, real) refl

-- The side to which the node is left, and the state behind this side.
abbrev pub side_of : Bool → Bool → Bool → Bool
side_of fwd first dir = if first then lead fwd dir else not (lead fwd dir)

abbrev pub before : Bool → Bool → WayIn
before fwd first = if first then in_down else mid fwd

abbrev pub behind : Bool → Bool → WayIn
behind fwd first = if first then mid fwd else last fwd

not-not : (d : Bool) → not (not d) ≡ d
not-not true = refl
not-not false = refl

leave-down :
    (h : Heap) (it : Iter) (fwd first : Bool) (p : Ptr)
    → leave h it (table_of fwd (before fwd first)).odir (table_of fwd (before fwd first)).idir p
      ≡ go_down h it (side_of fwd first it.dir) (behind fwd first) p
unfolding leave go_down fwd_table rev_table
leave-down h it true true p = refl
leave-down h it true false p = ap (λ d. go_down h it d in_up2 p) (sym (not-not it.dir))
leave-down h it false true p = refl
leave-down h it false false p = refl

leave-up :
    (h : Heap) (it it1 : Iter) (fwd : Bool) (x p : Ptr) (n : Node)
    → parent_pop h it x ≡ ok (it1, p)
    → (p == null) ≡ false
    → h p ≡ some n
    → leave h it (table_of fwd (last fwd)).odir (table_of fwd (last fwd)).idir x
      ≡ ok (it1, p, if x == child n it1.dir then in_up2 else in_up1)
unfolding leave fwd_table rev_table
leave-up h it it1 true x p n run real e = rw (run, real, load-ok h p n e) refl
leave-up h it it1 false x p n run real e = rw (run, real, load-ok h p n e) refl

leave-null :
    (h : Heap) (it it1 : Iter) (fwd : Bool) (x : Ptr)
    → parent_pop h it x ≡ ok (it1, null)
    → leave h it (table_of fwd (last fwd)).odir (table_of fwd (last fwd)).idir x
      ≡ ok (it1, null, final fwd)
unfolding leave fwd_table rev_table
leave-null h it it1 true x run = rw run refl
leave-null h it it1 false x run = rw run refl

leave-root :
    (h : Heap) (it : Iter) (fwd : Bool) (q : Ptr)
    → (it.root == null) ≡ false
    → leave h it (table_of fwd (start fwd)).odir (table_of fwd (start fwd)).idir q
      ≡ ok (record it { stk_len = 0; stk_top = 0 }, it.root, in_down)
unfolding leave fwd_table rev_table
leave-root h it true q real = rw real refl
leave-root h it false q real = rw real refl

-- What comes first: the tour of a trie, or what follows it.
abbrev pub entered : Trie → Event → Event
entered (leaf q) e = e
entered (branch p c l r) e = event in_down p

module _ (root : Ptr) (c : ℕ) (l r : Trie) (mode : ℕ) (dir : Bool) (h : Heap) (b : ℕ)
    (walk : Walkable h b (branch root c l r)) (no_null : h null ≡ none) (fwd : Bool) where
  abbrev pub whole_trie : Trie
  whole_trie = branch root c l r

  abbrev pub Sound : Iter → Type 0
  Sound it = Steady root whole_trie mode dir it

  -- An event is followed by another, whatever the stack of an iteration holds.
  abbrev pub Moves : Event → Event → Type 0
  Moves e e' =
      (it : Iter)
      → Sound it
      → (it1 : Iter) × (leave h it (table_of fwd e.way).odir (table_of fwd e.way).idir e.at
          ≡ ok (it1, e'.at, e'.way))
        × Sound it1

  pub begin : (q : Ptr) → Moves (event (start fwd) q) (event in_down root)
  begin q it s =
      let n = walk.rep.0 in
      let real : (it.root == null) ≡ false =
        ap (λ z. z == null) s.root_is ∙ real_node h root n no_null (walk.rep.1) in
      (
        record it { stk_len = 0; stk_top = 0 },
        leave-root h it fwd q real
            ∙ ap (λ z. ok (record it { stk_len = 0; stk_top = 0 }, z, in_down)) s.root_is,
        record {
          root_is = s.root_is;
          mode_is = s.mode_is;
          dir_is = s.dir_is;
          in_ring = omega arith;
          in_len = omega arith;
          holds = λ j less. absurd (omega arith);
        },
      )

  pub finish : Moves (event (last fwd) root) (event (final fwd) null)
  finish it s =
      let (it1, run, s1) = parent_pop-root root c l r mode dir h b walk it s in
      (it1, leave-null h it it1 fwd root run, s1)

  pub ascend :
      (s : Trie) (x p : Ptr) (n : Node) (second : Bool)
      → Hangs h whole_trie s p n
      → IsHead s x
      → (x == child n dir) ≡ second
      → Moves (event (last fwd) x) (event (if second then in_up2 else in_up1) p)
  ascend s x p n second g at e it st =
      let (it1, run, st1) =
        parent_pop-Under root c l r mode dir h b walk it x p st (g.at_head x at) in
      let side : (x == child n it1.dir) ≡ second = ap (λ d. x == child n d) st1.dir_is ∙ e in
      (
        it1,
        leave-up h it it1 fwd x p n run (real_node h p n no_null g.at) g.at
            ∙ ap (λ d. ok (it1, p, if d then in_up2 else in_up1)) side,
        st1,
      )

  down_entered :
      (it : Iter) (s : Trie) (p : Ptr) (n : Node) (d : Bool) (idir : WayIn)
      → Sound it
      → Hangs h whole_trie s p n
      → child n d ≡ addr s
      → (it1 : Iter) × (go_down h it d idir p
          ≡ ok (it1, (entered s (event idir p)).at, (entered s (event idir p)).way))
        × Sound it1
  down_entered it (leaf q) p n d idir st g e =
      let run = iter_child-down h whole_trie (leaf q) p n d g no_null e in
      (it, go_down-null h it d idir p run, st)
  down_entered it (branch x a m o) p n d idir st g e =
      let run = iter_child-down h whole_trie (branch x a m o) p n d g no_null e in
      (
        parent_push it p,
        go_down-child h it d idir p x run (real_node h x (g.rep.0) no_null (g.rep.1)),
        push-Steady root whole_trie mode dir it p st g.inside,
      )

  pub descend :
      (s : Trie) (p : Ptr) (n : Node) (first : Bool)
      → Hangs h whole_trie s p n
      → child n (side_of fwd first dir) ≡ addr s
      → Moves (event (before fwd first) p) (entered s (event (behind fwd first) p))
  descend s p n first g e it st =
      let at : child n (side_of fwd first it.dir) ≡ addr s =
        ap (λ d. child n (side_of fwd first d)) st.dir_is ∙ e in
      let (it1, run, st1) =
        down_entered it s p n (side_of fwd first it.dir) (behind fwd first) st g at in
      (it1, leave-down h it fwd first p ∙ run, st1)
