-- ===== src/Iter/Setup.antt =====
-- Iterators of src/cpatricia_set.c between two iterations: set up, or behind the last node.
use patricia_c.Base.{
  ℕ, ◌%◌, ◌^◌, ◌<◌, ◌≡◌, inl, inr, refl, sym, ap, ◌∙◌, Bool, true, false, not, ◌==◌, arith,
  if◌then◌else◌, ltb,
}
use patricia_c.Heap.{Ptr, null, Heap, ok, load-ok}
use patricia_c.Trie.{Trie, leaf, branch}
use patricia_c.Tree.Rep.{IsNodeSet}
use patricia_c.Iter.{Iter, in_head, in_tail, fwd_table, rev_table, leave, iter_init, iter_child}
use patricia_c.Iter.Tour.{table_of, start, final}
use patricia_c.Iter.Under.{IsHead}
use patricia_c.Iter.Hang.{Walkable}
use patricia_c.Iter.Stack.{Steady}
use patricia_c.Iter.Moves.{real_node}
use patricia_c.Iter.Sides.{head_real}
use patricia_c.Iter.Range.{Range, Lies-Walkable, set-Walkable}

-- The iterator that `psetiter_init` sets up over the trie that hangs below `top`.
abbrev pub fresh_iter : Ptr → Bool → ℕ → Iter
fresh_iter top dir mode = record {
  root = top;
  nodep = null;
  pstk = λ i. null;
  stk_len = 0;
  stk_top = 0;
  state = in_head;
  mode = mode;
  dir = dir;
}

-- The address that is gone over from: NULL for a set without nodes.
abbrev pub top_of : Trie → Ptr
top_of (leaf q) = null
top_of (branch p c l r) = p

top_child :
    {h : Heap} {root : Ptr} (t : Trie)
    → IsNodeSet h root t
    → iter_child h root false ≡ ok (top_of t)
unfolding iter_child
top_child {h} {root} (leaf p) s =
    let real = real_node h root s.anchor s.no_null s.at_root in
    let at : s.anchor.left ≡ root = s.top ∙ s.up in
    let stop : ltb s.anchor.bpos s.anchor.bpos ≡ false = ground arith in
    rw (real, load-ok h root s.anchor s.at_root, at, load-ok h root s.anchor s.at_root, stop) refl
top_child {h} {root} (branch p c l r) s =
    let real = real_node h root s.anchor s.no_null s.at_root in
    let n = s.rep.0 in
    let go : ltb s.anchor.bpos n.bpos ≡ true = ground (arith, s.start, s.rep.2, s.rep.5) in
    rw (real, load-ok h root s.anchor s.at_root, s.top, load-ok h p n (s.rep.1), go) refl

iter_init-run :
    (h : Heap) (root from top : Ptr) (dir : Bool) (mode : ℕ)
    → iter_child h root false ≡ ok top
    → mode < 3
    → iter_init h root from dir mode
      ≡ ok (fresh_iter (if not (from == null) then from else top) dir mode)
unfolding iter_init
iter_init-run h root from top dir mode run w =
    let low : mode % 2 ^ 2 ≡ mode = omega arith in rw (run, low) refl

head_top : (s : Trie) (x : Ptr) → IsHead s x → top_of s ≡ x
head_top (leaf q) x at = absurd at
head_top (branch p c l r) x at = at

Range-top :
    {h : Heap} {root : Ptr} (t s : Trie) (from : Ptr)
    → IsNodeSet h root t
    → Range t from s
    → (if not (from == null) then from else top_of t) ≡ top_of s
Range-top t s from set (inl (e, same)) =
    let none_given : (from == null) ≡ true = ground arith in rw none_given (ap top_of (sym same))
Range-top {h} t s from set (inr (head, lies)) =
    let (low, walk) = Lies-Walkable h 0 s t (set-Walkable t set) lies in
    let given : (from == null) ≡ false = head_real h low s from set.no_null walk.rep head in
    rw given (sym (head_top s from head))

pub iter_init-top :
    {h : Heap} {root : Ptr} (t s : Trie) (from : Ptr) (dir : Bool) (mode : ℕ)
    → IsNodeSet h root t
    → Range t from s
    → mode < 3
    → iter_init h root from dir mode ≡ ok (fresh_iter (top_of s) dir mode)
iter_init-top {h} {root} t s from dir mode set range w =
    iter_init-run h root from (top_of t) dir mode (top_child t set) w
    ∙ ap (λ z. ok (fresh_iter z dir mode)) (Range-top t s from set range)

-- An iterator between two iterations, before the first node or behind the last one.
pub record Rests (fwd : Bool) (s : Trie) (mode : ℕ) (dir : Bool) (it : Iter) : Type 0 where
  pub steady : Steady (top_of s) s mode dir it
  pub state_is : it.state ≡ start fwd

pub turned : (fwd : Bool) → final fwd ≡ start (not fwd)
turned true = refl
turned false = refl

pub fresh-Rests :
    (s : Trie) (dir : Bool) (mode : ℕ) → Rests true s mode dir (fresh_iter (top_of s) dir mode)
fresh-Rests s dir mode = record {
  steady = record {
    root_is = refl;
    mode_is = refl;
    dir_is = refl;
    in_ring = omega arith;
    in_len = omega arith;
    holds = λ j l. absurd (omega arith);
  };
  state_is = refl;
}

pub leave_empty :
    (h : Heap) (it : Iter) (fwd : Bool) (q : Ptr)
    → it.root ≡ null
    → leave h it (table_of fwd (start fwd)).odir (table_of fwd (start fwd)).idir q
      ≡ ok (it, null, final fwd)
unfolding leave fwd_table rev_table
leave_empty h it true q e =
    let empty : (it.root == null) ≡ true = ground arith in
    rw empty (ap (λ z. ok (it, z, in_tail)) e)
leave_empty h it false q e =
    let empty : (it.root == null) ≡ true = ground arith in
    rw empty (ap (λ z. ok (it, z, in_head)) e)

-- What is gone over can be gone over.
pub Range-Walkable :
    {h : Heap} {root : Ptr} (t s : Trie) (from : Ptr)
    → IsNodeSet h root t
    → Range t from s
    → (b : ℕ) × Walkable h b s
Range-Walkable t s from set (inl (e, same)) = (0, rw same (set-Walkable t set))
Range-Walkable {h} t s from set (inr (head, lies)) = Lies-Walkable h 0 s t (set-Walkable t set) lies
