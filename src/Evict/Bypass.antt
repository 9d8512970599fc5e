-- ===== src/Evict/Bypass.antt =====
-- The first step of `_evict`: the last node of the walk is bypassed.
use mathlib.Core.Path.{subst}
use patricia_c.Base.{
  ℕ, ◌≤◌, ◌<◌, ◌≡◌, ◌≢◌, ◌⊎◌, refl, sym, ap, ◌∙◌, Bool, true, false, not, some, arith, ◌==◌,
  Bool-cases, ltb, inl, inr, if◌then◌else◌,
}
use patricia_c.Heap.{Ptr, Node, child, set_child, Heap}
use patricia_c.Trie.{Trie, leaf, branch, addr, find, leaves, inner, one_if}
use patricia_c.Trie.Find.{find-mem}
use patricia_c.Trie.Up.{PointsUp, And, PointsUp-leaf}
use patricia_c.Trie.Cut.{last_of, over_of, cut, IsBranch}
use patricia_c.Trie.Evicted.{cut-right, cut-left}
use patricia_c.Tree.Down.{
  Down, Down-frame, Down-le, addr-ne, ne-inner, Turned, Turned-left, Turned-right, self-one,
}
use patricia_c.Evict.{is_parent_of, child_idx, other_idx}
use patricia_c.Evict.Index.{is_parent_of-child, child_idx_dir, other_idx_dir}

abbrev pub Anywhere : Ptr → Type 0
Anywhere a = Unit {0}

pub branch-inner : (t : Trie) → IsBranch t → 0 < inner t (addr t)
unfolding inner
branch-inner (leaf q) br = absurd br
branch-inner (branch p c l r) br = omega (arith, self-one p)

pub shape : (t : Trie) → IsBranch t ⊎ ((q : Ptr) × (t ≡ leaf q))
shape (leaf q) = inr (q, refl)
shape (branch p c l r) = inl tt

module _ (h : Heap) (f : ℕ → Bool) (x : Ptr) where
  -- The heap after the write of the first step.
  abbrev pub IsBypassed : Ptr → Ptr → Node → Node → Heap → Type 0
  IsBypassed g p over last h1 =
      (a : Ptr)
      → h1 a ≡ (
          if a == g
          then some (set_child over (child_idx over p) (child last (other_idx last x)))
          else h a)

  -- What the step finds at the end of the walk, and what it comes to below the parent `par`.
  pub record Bypass (ov par : Ptr) (m : Node) (d : Bool) (b : ℕ) (t : Trie) : Type 0 where
    pub over : Node
    pub last : Node
    pub at_over : h (over_of f ov par t) ≡ some over
    pub at_last : h (last_of f par t) ≡ some last
    pub over_last : is_parent_of over (last_of f par t) ≡ true
    pub last_node : is_parent_of last x ≡ true
    pub apart : over_of f ov par t ≢ last_of f par t
    pub turns :
        (h1 : Heap)
        → IsBypassed (over_of f ov par t) (last_of f par t) over last h1
        → Turned h Anywhere par m d b t (cut f t) h1

  -- The parent's link is turned to the other child of the branch at `p`.
  turn_here :
      (par : Ptr) (m : Node) (d : Bool) (b : ℕ) (p : Ptr) (n : Node) (dir : Bool) (c : ℕ) (s : Trie)
      → child m d ≡ p
      → child m (not d) ≢ p
      → child n dir ≡ x
      → child n (not dir) ≢ x
      → child n (not dir) ≡ addr s
      → b < c
      → inner s par ≡ 0
      → Down h c s
      → (h1 : Heap) → IsBypassed par p m n h1
      → ((a : Ptr) → a ≢ par → h1 a ≡ h a) × Down h1 b s × (h1 par ≡ some (set_child m d (addr s)))
  turn_here par m d b p n dir c s at side way other to_s bc out r h1 cells =
      let e : child_idx m p ≡ d = child_idx_dir m d p at side in
      let g : other_idx n x ≡ not dir = other_idx_dir n dir x way other in
      let here : (par == par) ≡ true = ground arith in
      (
        λ a ne. ground (arith, cells a),
        Down-frame h h1 b s
            (λ a i. let ne : a ≢ par = ne-inner s a par i out in ground (arith, cells a))
            (Down-le h c b s (omega arith) r),
        cells par ∙ rw (here, e, g, to_s) refl,
      )

  -- A node below is no uplink of the other subtrie and not in it.
  side_ne :
      (above : Ptr → Type 0) (s : Trie) (q : Ptr)
      → PointsUp above s
      → inner s q ≡ 0
      → (above q → ⊥)
      → addr s ≢ q
  side_ne above s q u out hidden =
      addr-ne s q
        (elim (Bool-cases (ltb 0 (leaves s q))) [
          | inl some_leaf ↦ absurd (refuse (PointsUp-leaf above s q u (ground arith)))
          | inr no_leaf ↦ ground arith
        ])
        out
    where
      refuse : (0 < inner s q) ⊎ above q → ⊥
      refuse (inl i) = omega (arith, out, i)
      refuse (inr a) = hidden a

  -- A subtrie on the way, below the parent `par`, and what is known of the set there.
  pub record Spot (above : Ptr → Type 0) (par : Ptr) (m : Node) (d : Bool) (b : ℕ) (t : Trie)
      : Type 0 where
    pub at_par : h par ≡ some m
    pub way : child m d ≡ addr t
    pub side : child m (not d) ≢ addr t
    pub apart : inner t par ≡ 0
    pub once : (q : Ptr) → inner t q ≤ 1
    pub leaf_once : leaves t x ≤ 1
    pub ends : find f t ≡ x
    pub up : PointsUp above t
    pub out : (q : Ptr) → above q → inner t q ≡ 0
    pub down : Down h b t

  -- At a branch on the way.
  module _ (above : Ptr → Type 0) (ov par : Ptr) (m : Node) (d : Bool) (b : ℕ) (p : Ptr) (c : ℕ)
      (l r : Trie) (s : Spot above par m d b (branch p c l r)) where
    abbrev n : Node
    n = s.down.0

    p_one : one_if (p == p) ≡ 1
    p_one = self-one p

    par_ne_p : par ≢ p
    unfolding inner
    par_ne_p e = absurd (omega (arith, ap (λ z. one_if (p == z)) e, p_one))

    above_left : (q : Ptr) → And above p q → inner l q ≡ 0
    unfolding inner
    above_left q (inl here) = rw here (omega (arith, s.once p, p_one))
    above_left q (inr a) = omega (arith, s.out q a)

    above_right : (q : Ptr) → And above p q → inner r q ≡ 0
    unfolding inner
    above_right q (inl here) = rw here (omega (arith, s.once p, p_one))
    above_right q (inr a) = omega (arith, s.out q a)

    -- The leaf that goes is a node above.
    ends_above : (q : Ptr) → q ≡ x → And above p q → (inner l x ≡ 0) × (inner r x ≡ 0)
    ends_above q e a = (rw (← e) (above_left q a), rw (← e) (above_right q a))

    -- The last branch of the way.
    last_here :
        (dir : Bool) (o : Trie)
        → over_of f ov par (branch p c l r) ≡ par
        → last_of f par (branch p c l r) ≡ p
        → cut f (branch p c l r) ≡ o
        → child n dir ≡ x
        → child n (not dir) ≢ x
        → child n (not dir) ≡ addr o
        → inner o par ≡ 0
        → Down h c o
        → Bypass ov par m d b (branch p c l r)
    last_here dir o eo el' ec way other to_s sp ds = record {
      over = m;
      last = n;
      at_over = rw eo s.at_par;
      at_last = rw el' s.down.1;
      over_last = rw el' (is_parent_of-child m d p s.way);
      last_node = is_parent_of-child n dir x way;
      apart = rw (eo, el') par_ne_p;
      turns = λ h1 cells.
          let turned =
            turn_here par m d b p n dir c o s.way s.side way other to_s s.down.5 sp ds h1
              (λ a. cells a ∙ rw (eo, el') refl) in
          rw ec (record { down = turned.1; parent = turned.2; same = λ a i ne o. turned.0 a ne });
    }

    -- Further down.
    pass_on :
        (dir : Bool) (z : Trie)
        → (rest : Bypass par p n dir c z) → over_of f ov par (branch p c l r) ≡ over_of f par p z
        → last_of f par (branch p c l r) ≡ last_of f p z
        → ((h1 : Heap)
            → Turned h Anywhere p n dir c z (cut f z) h1
            → Turned h Anywhere par m d b (branch p c l r) (cut f (branch p c l r)) h1)
        → Bypass ov par m d b (branch p c l r)
    pass_on dir z rest eo el' widen = record {
      over = rest.over;
      last = rest.last;
      at_over = rw eo rest.at_over;
      at_last = rw el' rest.at_last;
      over_last = rw el' rest.over_last;
      last_node = rest.last_node;
      apart = rw (eo, el') rest.apart;
      turns = λ h1 cells. widen h1 (rest.turns h1 (λ a. cells a ∙ rw (eo, el') refl));
    }

    -- Where the way goes on.
    end_right : f c ≡ true → find f r ≡ x
    unfolding find
    end_right up = rw up at s.ends

    end_left : f c ≡ false → find f l ≡ x
    unfolding find
    end_left down = rw down at s.ends

    mem_right : f c ≡ true → 0 < leaves r x
    mem_right up = subst (λ q. 0 < leaves r q) (end_right up) (find-mem f r)

    mem_left : f c ≡ false → 0 < leaves l x
    mem_left down = subst (λ q. 0 < leaves l q) (end_left down) (find-mem f l)

    Spot-right : f c ≡ true → IsBranch r → Spot (And above p) p n true c r
    unfolding inner leaves
    Spot-right up br =
        let m : 0 < inner r (addr r) = branch-inner r br in
        record {
          at_par = s.down.1;
          way = s.down.4;
          side = λ e.
              side_ne (And above p) l (addr r) s.up.0 (omega (arith, s.once (addr r)))
                (λ a. absurd (omega (arith, above_right (addr r) a))) (sym s.down.3 ∙ e);
          apart = omega (arith, s.once p, p_one);
          once = λ q. omega (arith, s.once q);
          leaf_once = omega (arith, s.leaf_once);
          ends = end_right up;
          up = s.up.1;
          out = above_right;
          down = s.down.8;
        }

    Spot-left : f c ≡ false → IsBranch l → Spot (And above p) p n false c l
    unfolding inner leaves
    Spot-left down br =
        let m : 0 < inner l (addr l) = branch-inner l br in
        record {
          at_par = s.down.1;
          way = s.down.3;
          side = λ e.
              side_ne (And above p) r (addr l) s.up.1 (omega (arith, s.once (addr l)))
                (λ a. absurd (omega (arith, above_left (addr l) a))) (sym s.down.4 ∙ e);
          apart = omega (arith, s.once p, p_one);
          once = λ q. omega (arith, s.once q);
          leaf_once = omega (arith, s.leaf_once);
          ends = end_left down;
          up = s.up.0;
          out = above_left;
          down = s.down.7;
        }

    right_leaf : f c ≡ true → (q : Ptr) → r ≡ leaf q → Bypass ov par m d b (branch p c l r)
    unfolding over_of last_of cut find leaves inner
    right_leaf up q e =
        let qx : q ≡ x = sym (ap (find f) e) ∙ end_right up in
        let none_in : inner r x ≡ 0 = ap (λ z. inner z x) e in
        let hidden : inner l x ≡ 0 = elim (PointsUp-leaf (And above p) r x s.up.1 (mem_right up)) [
          | inl i ↦ absurd (omega (arith, i, none_in))
          | inr a ↦ above_left x a
        ] in
        let once_in : leaves l x ≡ 0 = omega (arith, s.leaf_once, mem_right up) in
        last_here true l (rw (up, e) refl) (rw (up, e) refl) (rw (up, e) refl)
          (s.down.4 ∙ ap addr e ∙ qx) (λ z. addr-ne l x once_in hidden (sym s.down.3 ∙ z)) s.down.3
          (omega (arith, s.apart)) s.down.7

    left_leaf : f c ≡ false → (q : Ptr) → l ≡ leaf q → Bypass ov par m d b (branch p c l r)
    unfolding over_of last_of cut find leaves inner
    left_leaf down q e =
        let qx : q ≡ x = sym (ap (find f) e) ∙ end_left down in
        let none_in : inner l x ≡ 0 = ap (λ z. inner z x) e in
        let hidden : inner r x ≡ 0 = elim (PointsUp-leaf (And above p) l x s.up.0 (mem_left down)) [
          | inl i ↦ absurd (omega (arith, i, none_in))
          | inr a ↦ above_right x a
        ] in
        let once_in : leaves r x ≡ 0 = omega (arith, s.leaf_once, mem_left down) in
        last_here false r (rw (down, e) refl) (rw (down, e) refl) (rw (down, e) refl)
          (s.down.3 ∙ ap addr e ∙ qx) (λ z. addr-ne r x once_in hidden (sym s.down.4 ∙ z)) s.down.4
          (omega (arith, s.apart)) s.down.8

    right_on :
        f c ≡ true → IsBranch r → Bypass par p n true c r → Bypass ov par m d b (branch p c l r)
    unfolding over_of last_of
    right_on up br rest = pass_on true r rest (rw up refl) (rw up refl) (λ h1 turned.
        rw (cut-right f p c l r up br) (
          Turned-right h Anywhere par m d b p c l r n s.at_par s.way s.down.5 s.down.6 s.down.1
            s.down.2 s.down.3 s.down.4 s.down.7 s.down.8 s.once s.apart (λ a i. tt) tt h1 (cut f r)
            turned))

    left_on :
        f c ≡ false → IsBranch l → Bypass par p n false c l → Bypass ov par m d b (branch p c l r)
    unfolding over_of last_of
    left_on down br rest = pass_on false l rest (rw down refl) (rw down refl) (λ h1 turned.
        rw (cut-left f p c l r down br) (
          Turned-left h Anywhere par m d b p c l r n s.at_par s.way s.down.5 s.down.6 s.down.1
            s.down.2 s.down.3 s.down.4 s.down.7 s.down.8 s.once s.apart (λ a i. tt) tt h1 (cut f l)
            turned))

  -- The walk to a leaf ends with the two nodes that the first step of `_evict` needs, and the step
  -- cuts the last one out.
  pub bypass_lem :
      (above : Ptr → Type 0) (ov par : Ptr) (m : Node) (d : Bool) (b : ℕ) (t : Trie)
      → IsBranch t
      → Spot above par m d b t
      → Bypass ov par m d b t
  bypass_lem above ov par m d b (leaf q) br s = absurd br
  bypass_lem above ov par m d b (branch p c l r) br s = elim (Bool-cases (f c)) [
    | inl up ↦ elim (shape r) [
      | inl on ↦ right_on above ov par m d b p c l r s up on (
          bypass_lem (And above p) par p s.down.0 true c r on
            (Spot-right above ov par m d b p c l r s up on))
      | inr (q, e) ↦ right_leaf above ov par m d b p c l r s up q e
    ]
    | inr down ↦ elim (shape l) [
      | inl on ↦ left_on above ov par m d b p c l r s down on (
          bypass_lem (And above p) par p s.down.0 false c l on
            (Spot-left above ov par m d b p c l r s down on))
      | inr (q, e) ↦ left_leaf above ov par m d b p c l r s down q e
    ]
  ]
