-- ===== src/Iter/Sides.antt =====
-- The two sides of a node in the tours of the iterators of src/cpatricia_set.c.
use patricia_c.Base.{
  ℕ, ◌+◌, ◌≤◌, ◌<◌, ◌≡◌, ◌≢◌, refl, sym, ap, ◌∙◌, Bool, true, false, not, none, ◌==◌, arith,
  if◌then◌else◌, List, [], ◌∷◌, ◌++◌,
}
use patricia_c.Heap.{Ptr, null, Node, child, Heap}
use patricia_c.Trie.{Trie, leaf, branch, addr, inner}
use patricia_c.Tree.Rep.{Rep}
use patricia_c.Iter.{in_up1, in_up2, is_null, fwd_table, rev_table}
use patricia_c.Iter.Tour.{Event, event, table_of, mid, last, start, lead, opening, tour}
use patricia_c.Iter.Under.{IsHead, IsHead-inner, further_IsHead}
use patricia_c.Iter.Moves.{real_node, side_of, before, entered}

-- The heads of two subtries below a node are apart.
pub heads_apart :
    (h : Heap) (b : ℕ) (f g : Trie) (x : Ptr)
    → Rep h b f
    → Rep h b g
    → ((a : Ptr) → inner f a + inner g a ≤ 1)
    → IsHead f x
    → addr g ≢ x
heads_apart h b (leaf q) g x rf rg once at e = at
heads_apart h b (branch p c l r) g x rf rg once at e =
    let (n, en, pos, el, er, d, w, rl, rr) = rf in
    let other = further_IsHead h b g x n rg (ap h (sym at) ∙ en) (omega arith) e in
    omega (arith, IsHead-inner (branch p c l r) x at, IsHead-inner g x other, once x)

-- Whether a child is the one at the index `dir`.
pub first_side :
    (fwd dir : Bool) (n : Node) (x : Ptr)
    → child n (side_of fwd true dir) ≡ x
    → child n (side_of fwd false dir) ≢ x
    → (x == child n dir) ≡ not fwd
first_side true true n x e ne = ground arith
first_side true false n x e ne = ground arith
first_side false true n x e ne = ground arith
first_side false false n x e ne = ground arith

pub second_side :
    (fwd dir : Bool) (n : Node) (x : Ptr)
    → child n (side_of fwd false dir) ≡ x
    → child n (side_of fwd true dir) ≢ x
    → (x == child n dir) ≡ fwd
second_side true true n x e ne = ground arith
second_side true false n x e ne = ground arith
second_side false true n x e ne = ground arith
second_side false false n x e ne = ground arith

pub up_first :
    (fwd : Bool) (p : Ptr) → event (if not fwd then in_up2 else in_up1) p ≡ event (mid fwd) p
up_first true p = refl
up_first false p = refl

pub head_addr : (s : Trie) (x : Ptr) → IsHead s x → addr s ≡ x
head_addr (leaf q) x at = absurd at
head_addr (branch p c l r) x at = at

pub head_real :
    (h : Heap) (b : ℕ) (s : Trie) (x : Ptr)
    → h null ≡ none
    → Rep h b s
    → IsHead s x
    → (x == null) ≡ false
head_real h b (leaf q) x no_null rep at = absurd at
head_real h b (branch p c l r) x no_null rep at =
    real_node h x (rep.0) no_null (ap h (sym at) ∙ rep.1)

pub goes_down : (fwd first : Bool) → is_null (table_of fwd (before fwd first)).odir ≡ false
unfolding fwd_table rev_table
goes_down true true = refl
goes_down true false = refl
goes_down false true = refl
goes_down false false = refl

pub goes_up : (fwd : Bool) → is_null (table_of fwd (last fwd)).odir ≡ false
unfolding fwd_table rev_table
goes_up true = refl
goes_up false = refl

pub goes_in : (fwd : Bool) → is_null (table_of fwd (start fwd)).odir ≡ false
unfolding fwd_table rev_table
goes_in true = refl
goes_in false = refl

pub hidden_start :
    (fwd : Bool) (mode : ℕ) → mode < 3 → ((table_of fwd (start fwd)).mode == mode) ≡ false
unfolding fwd_table rev_table
hidden_start true mode w = ground arith
hidden_start false mode w = ground arith

-- What comes first, a list of events or what follows it.
abbrev pub next : List Event → Event → Event
next [] e = e
next (x ∷ xs) e = x

pub next-append : (xs ys : List Event) (e : Event) → next (xs ++ ys) e ≡ next xs (next ys e)
next-append [] ys e = refl
next-append (x ∷ xs) ys e = refl

pub next-tour : (fwd dir : Bool) (s : Trie) (e : Event) → next (tour fwd dir s) e ≡ entered s e
unfolding tour
next-tour fwd dir (leaf q) e = refl
next-tour fwd dir (branch p c l r) e = refl

pub tour_right :
    (fwd dir : Bool) (p : Ptr) (c : ℕ) (l r : Trie)
    → lead fwd dir ≡ true
    → tour fwd dir (branch p c l r)
      ≡ opening fwd p (tour fwd dir r) (tour fwd dir l) ++ (event (last fwd) p ∷ [])
unfolding tour
tour_right fwd dir p c l r e =
    let a = tour fwd dir l in
    let b = tour fwd dir r in
    ap (λ x. opening fwd p (if x then b else a) (if x then a else b) ++ (event (last fwd) p ∷ [])) e

pub tour_left :
    (fwd dir : Bool) (p : Ptr) (c : ℕ) (l r : Trie)
    → lead fwd dir ≡ false
    → tour fwd dir (branch p c l r)
      ≡ opening fwd p (tour fwd dir l) (tour fwd dir r) ++ (event (last fwd) p ∷ [])
unfolding tour
tour_left fwd dir p c l r e =
    let a = tour fwd dir l in
    let b = tour fwd dir r in
    ap (λ x. opening fwd p (if x then b else a) (if x then a else b) ++ (event (last fwd) p ∷ [])) e
