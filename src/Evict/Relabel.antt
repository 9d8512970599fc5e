-- ===== src/Evict/Relabel.antt =====
-- The second step of `_evict`: the node that was bypassed takes the place of the deleted one.
use patricia_c.Base.{
  ℕ, ◌≤◌, ◌<◌, ◌≡◌, ◌≢◌, refl, sym, ap, ◌∙◌, Bool, true, false, not, some, arith, ◌==◌, Bool-cases,
  inl, inr, if◌then◌else◌, ==_iff,
}
use patricia_c.Heap.{Ptr, Node, child, set_child, Heap}
use patricia_c.Trie.{Trie, leaf, branch, addr, leaves, inner, one_if}
use patricia_c.Trie.Up.{OnWay, past}
use patricia_c.Trie.Cut.{npar_of, rename}
use patricia_c.Tree.Down.{
  Down, Down-frame, addr-ne, ne-inner, Turned, Turned-left, Turned-right, self-one,
}
use patricia_c.Evict.{is_parent_of, child_idx}
use patricia_c.Evict.Index.{is_parent_of-child, child_idx_dir}

-- The node `q` with the links and the position of `n`.
abbrev pub in_place_of : Node → Node → Node
in_place_of n q = record q { left = n.left; right = n.right; bpos = n.bpos }

top_inner : (f : ℕ → Bool) (t : Trie) (x : Ptr) → addr t ≡ x → OnWay f x t → 0 < inner t x
unfolding inner
top_inner f (leaf q) x e w = absurd w
top_inner f (branch a c l r) x e w = ground arith

module _ (h : Heap) (f : ℕ → Bool) (x p : Ptr) (q : Node) where
  -- The heap after the writes of the second step.
  abbrev pub IsRelabelled : Ptr → Node → Node → Heap → Type 0
  IsRelabelled z parent node h2 =
      (a : Ptr)
      → h2 a ≡ (
          if a == p
          then some (in_place_of node q)
          else if a == z
          then some (set_child parent (child_idx parent x) p)
          else h a)

  abbrev pub Elsewhere : Ptr → Type 0
  Elsewhere a = a ≢ p

  pub record Relabel (np par : Ptr) (m : Node) (d : Bool) (b : ℕ) (t : Trie) : Type 0 where
    pub parent : Node
    pub node : Node
    pub at_parent : h (npar_of f x np par t) ≡ some parent
    pub at_node : h x ≡ some node
    pub parent_node : is_parent_of parent x ≡ true
    pub parent_ne : npar_of f x np par t ≢ p
    pub parent_apart : npar_of f x np par t ≢ x
    pub turns :
        (h2 : Heap)
        → IsRelabelled (npar_of f x np par t) parent node h2
        → Turned h Elsewhere par m d b t (rename f x p t) h2

  -- A subtrie that the way to `x` goes through, below the parent `par`.
  pub record Seat (par : Ptr) (m : Node) (d : Bool) (b : ℕ) (t : Trie) : Type 0 where
    pub at_par : h par ≡ some m
    pub way : child m d ≡ addr t
    pub side : addr t ≡ x → child m (not d) ≢ x
    pub apart : inner t par ≡ 0
    pub par_ne : par ≢ p
    pub once : (a : Ptr) → inner t a ≤ 1
    pub no_leaf : leaves t x ≡ 0
    pub on_way : OnWay f x t
    pub unused : inner t p ≡ 0
    pub down : Down h b t

  module _ (np par : Ptr) (m : Node) (d : Bool) (b : ℕ) (a : Ptr) (c : ℕ) (l r : Trie)
      (s : Seat par m d b (branch a c l r)) where
    abbrev n : Node
    n = s.down.0

    a_one : one_if (a == a) ≡ 1
    a_one = self-one a

    outside : (z : Ptr) → 0 < inner (branch a c l r) z → z ≢ p
    outside z i = ne-inner (branch a c l r) z p i s.unused

    a_ne_p : a ≢ p
    unfolding inner
    a_ne_p = outside a (omega (arith, a_one))

    -- The deleted node itself.
    relabel_here : x ≡ a → Relabel np par m d b (branch a c l r)
    unfolding npar_of rename inner
    relabel_here e =
        let here : (x == a) ≡ true = ground arith in
        let way_x : child m d ≡ x = s.way ∙ sym e in
        let side_x : child m (not d) ≢ x = s.side (sym e) in
        let apart_x : par ≢ x =
          λ z. absurd (omega (arith, s.apart, ap (λ y. one_if (a == y)) (z ∙ e), a_one)) in
        record {
          parent = m;
          node = n;
          at_parent = rw here s.at_par;
          at_node = rw e s.down.1;
          parent_node = is_parent_of-child m d x way_x;
          parent_ne = rw here s.par_ne;
          parent_apart = rw here apart_x;
          turns = λ h2 cells0.
              let cells : IsRelabelled par m n h2 = λ z. cells0 z ∙ rw here refl in
              let frame = λ (z : Ptr) (i : 0 < inner (branch a c l r) z).
                let np' : z ≢ p = outside z i in
                let nz : z ≢ par = ne-inner (branch a c l r) z par i s.apart in
                let same : h2 z ≡ h z = ground (arith, cells z) in same in
              let at_p : h2 p ≡ some (in_place_of n q) = ground (arith, cells p) in
              let at_z : h2 par ≡ some (set_child m (child_idx m x) p) =
                let ne = s.par_ne in ground (arith, cells par) in
              rw here (record {
                down = (
                  in_place_of n q,
                  at_p,
                  s.down.2,
                  s.down.3,
                  s.down.4,
                  s.down.5,
                  s.down.6,
                  Down-frame h h2 c l (λ z i. frame z (omega (arith, i))) s.down.7,
                  Down-frame h h2 c r (λ z i. frame z (omega (arith, i))) s.down.8,
                );
                parent = at_z ∙ rw (child_idx_dir m d x way_x side_x) refl;
                same = λ z i nz o. ground (arith, cells z);
              });
        }

    Seat-right : (x == a) ≡ false → f c ≡ true → Seat a n true c r
    unfolding inner leaves
    Seat-right below up = record {
      at_par = s.down.1;
      way = s.down.4;
      side = λ e z.
          addr-ne l x (omega (arith, s.no_leaf))
            (omega (arith, s.once x, top_inner f r x e (past x a below (rw up at s.on_way))))
            (sym s.down.3 ∙ z);
      apart = omega (arith, s.once a, a_one);
      par_ne = a_ne_p;
      once = λ z. omega (arith, s.once z);
      no_leaf = omega (arith, s.no_leaf);
      on_way = past x a below (rw up at s.on_way);
      unused = omega (arith, s.unused);
      down = s.down.8;
    }

    Seat-left : (x == a) ≡ false → f c ≡ false → Seat a n false c l
    unfolding inner leaves
    Seat-left below down = record {
      at_par = s.down.1;
      way = s.down.3;
      side = λ e z.
          addr-ne r x (omega (arith, s.no_leaf))
            (omega (arith, s.once x, top_inner f l x e (past x a below (rw down at s.on_way))))
            (sym s.down.4 ∙ z);
      apart = omega (arith, s.once a, a_one);
      par_ne = a_ne_p;
      once = λ z. omega (arith, s.once z);
      no_leaf = omega (arith, s.no_leaf);
      on_way = past x a below (rw down at s.on_way);
      unused = omega (arith, s.unused);
      down = s.down.7;
    }

    relabel_on :
        (dir : Bool) (z : Trie) (rest : Relabel np a n dir c z)
        → npar_of f x np par (branch a c l r) ≡ npar_of f x np a z
        → ((h2 : Heap)
            → Turned h Elsewhere a n dir c z (rename f x p z) h2
            → Turned h Elsewhere par m d b (branch a c l r) (rename f x p (branch a c l r)) h2)
        → Relabel np par m d b (branch a c l r)
    relabel_on dir z rest e widen = record {
      parent = rest.parent;
      node = rest.node;
      at_parent = rw e rest.at_parent;
      at_node = rest.at_node;
      parent_node = rest.parent_node;
      parent_ne = rw e rest.parent_ne;
      parent_apart = rw e rest.parent_apart;
      turns = λ h2 cells. widen h2 (rest.turns h2 (λ y. cells y ∙ rw e refl));
    }

    relabel_right :
        (x == a) ≡ false
        → f c ≡ true
        → Relabel np a n true c r
        → Relabel np par m d b (branch a c l r)
    unfolding npar_of rename
    relabel_right below up rest = relabel_on true r rest (rw (below, up) refl) (λ h2 turned.
        rw (below, up)
          (Turned-right h Elsewhere par m d b a c l r n s.at_par s.way s.down.5 s.down.6 s.down.1
            s.down.2 s.down.3 s.down.4 s.down.7 s.down.8 s.once s.apart outside s.par_ne h2 _
            turned))

    relabel_left :
        (x == a) ≡ false
        → f c ≡ false
        → Relabel np a n false c l
        → Relabel np par m d b (branch a c l r)
    unfolding npar_of rename
    relabel_left below down rest = relabel_on false l rest (rw (below, down) refl) (λ h2 turned.
        rw (below, down)
          (Turned-left h Elsewhere par m d b a c l r n s.at_par s.way s.down.5 s.down.6 s.down.1
            s.down.2 s.down.3 s.down.4 s.down.7 s.down.8 s.once s.apart outside s.par_ne h2 _
            turned))

  -- On the way to the deleted node its parent is found, and the second step gives its place away.
  pub relabel_lem :
      (np par : Ptr) (m : Node) (d : Bool) (b : ℕ) (t : Trie)
      → Seat par m d b t
      → Relabel np par m d b t
  relabel_lem np par m d b (leaf z) s = absurd s.on_way
  relabel_lem np par m d b (branch a c l r) s = elim (Bool-cases (x == a)) [
    | inl here ↦ relabel_here np par m d b a c l r s ((==_iff x a).0 here)
    | inr below ↦ elim (Bool-cases (f c)) [
      | inl up ↦
          relabel_right np par m d b a c l r s below up
            (relabel_lem np a s.down.0 true c r (Seat-right np par m d b a c l r s below up))
      | inr down ↦
          relabel_left np par m d b a c l r s below down
            (relabel_lem np a s.down.0 false c l (Seat-left np par m d b a c l r s below down))
    ]
  ]
