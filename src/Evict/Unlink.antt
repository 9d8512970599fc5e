-- ===== src/Evict/Unlink.antt =====
-- `_pwalk` and `_evict` on a set.
use mathlib.Core.Path.{subst}
use patricia_c.Base.{
  ℕ, ◌+◌, ◌^◌, ◌≤◌, ◌<◌, ◌≡◌, ◌≢◌, ◌⊎◌, refl, sym, ap, ◌∙◌, Bool, true, false, none, some, arith,
  ◌==◌, ◌||◌, Bool-cases, inl, inr, if◌then◌else◌, ==_iff,
}
use patricia_c.Key.{getbit}
use patricia_c.Heap.{
  Ptr, null, Node, child, set_child, Heap, write, write_lem, ok, load-ok, store-ok,
}
use patricia_c.Trie.{Trie, leaf, addr, find, leaves, inner, one_if, Sorted}
use patricia_c.Trie.Find.{find_self}
use patricia_c.Trie.Up.{OnWay, PointsUp, PointsUp-find, PointsUp-map}
use patricia_c.Trie.Cut.{
  last_of, over_of, npar_of, cut, rename, IsBranch, leaves-cut, inner-cut, leaves-rename,
  inner-rename, cut-Sorted, rename-Sorted,
}
use patricia_c.Trie.Evicted.{cut-PointsUp, OnWay-cut, npar-cut, rename-PointsUp}
use patricia_c.Tree.Rep.{IsNodeSet, leaf_node, bits_in}
use patricia_c.Tree.Insert.{rounds_lem}
use patricia_c.Tree.Down.{Rep-Down, Turned}
use patricia_c.Evict.{NodeLinks, child_idx, other_idx, pwalk, unlink}
use patricia_c.Evict.Walk.{links, pwalk_loop-find}
use patricia_c.Evict.Bypass.{Spot, Bypass, Anywhere, bypass_lem, branch-inner, shape}
use patricia_c.Evict.Relabel.{Seat, Relabel, in_place_of, relabel_lem}
use patricia_c.Evict.Removed.{key_of, key_of-write, Removed, removed_lem}

module _ {h : Heap} {root : Ptr} {t : Trie} (s : IsNodeSet h root t) (x : Ptr)
    (present : 0 < leaves t x) (away : x ≢ root) where
  pub x_node : Node
  x_node = (leaf_node h 0 t x s.rep present).0

  at_x : h x ≡ some x_node
  unfolding x_node
  at_x = (leaf_node h 0 t x s.rep present).1

  pub bits : ℕ → Bool
  bits = getbit x_node.key

  ends : find bits t ≡ x
  unfolding bits
  ends = find_self (bits_in h) (getbit x_node.key) x t (λ i. rw at_x refl) s.sorted present

  abbrev Root : Ptr → Type 0
  Root q = q ≡ root

  is_branch : IsBranch t
  is_branch = elim (shape t) [
    | inl br ↦ br
    | inr (q, e) ↦
        let at_root : q ≡ root = subst (PointsUp Root) e s.up in
        absurd (away (sym ends ∙ ap (find bits) e ∙ leaf_end q ∙ at_root))
  ]
    where
      leaf_end : (q : Ptr) → find bits (leaf q) ≡ q
      leaf_end q = unfold find in refl

  leaf_once : (q : Ptr) → leaves t q ≤ 1
  leaf_once q = omega (arith, s.two_links q, s.once q)

  root_in : inner t root ≡ 0
  root_in = ground (arith, s.once root)

  spot : Spot h bits x Root root s.anchor false 0 t
  spot = record {
    at_par = s.at_root;
    way = s.top;
    side = λ e.
        let i : inner t root ≡ inner t (addr t) = ap (inner t) (sym s.self ∙ e) in
        absurd (omega (arith, i, root_in, branch-inner t is_branch));
    apart = root_in;
    once = λ q. omega (arith, s.once q);
    leaf_once = leaf_once x;
    ends = ends;
    up = s.up;
    out = λ q e. rw e root_in;
    down = Rep-Down h 0 t s.rep;
  }

  bypassed : Bypass h bits x root root s.anchor false 0 t
  bypassed = bypass_lem h bits x Root root root s.anchor false 0 t is_branch spot

  abbrev over : Ptr
  over = over_of bits root root t

  abbrev last : Ptr
  last = last_of bits root t

  abbrev walked : NodeLinks
  walked = links (npar_of bits x null root t) over last x

  x_real : x ≢ null
  x_real e = not-none (sym s.no_null ∙ ap h (sym e) ∙ at_x)
    where
      not-none : none ≡ some x_node → ⊥
      not-none e = cc

  pub pwalk-walked : pwalk h root x ≡ ok (some walked)
  unfolding pwalk bits
  pwalk-walked =
      let guards : ((x == null) || (root == x)) ≡ false =
        let r = x_real in let a = away in ground arith in
      let self : (x == x) ≡ true = ground arith in
      let run =
        pwalk_loop-find h x_node.key x (2 ^ 16) 0 null root root s.anchor t s.at_root s.start s.rep
          (omega arith) (omega arith) (omega (arith, s.once x)) in
      rw
        (
          guards,
          load-ok h root s.anchor s.at_root,
          load-ok h x x_node at_x,
          s.top,
          rounds_lem,
          run,
          ends,
          load-ok h over bypassed.over bypassed.at_over,
          bypassed.over_last,
          load-ok h last bypassed.last bypassed.at_last,
          bypassed.last_node,
          self,
        )
        refl

  -- The first step.
  abbrev turned_over : Node
  turned_over =
      set_child bypassed.over (child_idx bypassed.over last)
        (child bypassed.last (other_idx bypassed.last x))

  abbrev h1 : Heap
  h1 = write h over (some turned_over)

  abbrev fewer : Trie
  fewer = cut bits t

  cut_here : Turned h Anywhere root s.anchor false 0 t fewer h1
  cut_here = bypassed.turns h1 (λ a. write_lem h over (some turned_over) a)

  key_of-set_child : (n : Node) (d : Bool) (p : Ptr) → key_of (some (set_child n d p)) ≡ some n.key
  key_of-set_child n true p = refl
  key_of-set_child n false p = refl

  keys1 : (a : Ptr) → key_of (h1 a) ≡ key_of (h a)
  keys1 = key_of-write h over turned_over (
      ap key_of bypassed.at_over
      ∙ sym (
          key_of-set_child bypassed.over (child_idx bypassed.over last)
            (child bypassed.last (other_idx bypassed.last x))))

  leaves1 : (q : Ptr) → leaves fewer q + one_if (x == q) ≡ leaves t q
  leaves1 q =
      subst (λ z. leaves fewer q + one_if (z == q) ≡ leaves t q) ends
        (leaves-cut bits t q is_branch)

  inner1 : (q : Ptr) → inner fewer q + one_if (last == q) ≡ inner t q
  inner1 q = inner-cut bits root t q is_branch

  sorted1 : Sorted (bits_in h) fewer
  sorted1 = cut-Sorted (bits_in h) bits t s.sorted

  no_leaf : leaves fewer x ≡ 0
  no_leaf = let e : one_if (x == x) ≡ 1 = ground arith in omega (arith, leaves1 x, leaf_once x, e)

  at_last1 : h1 last ≡ some bypassed.last
  at_last1 =
      let ne = bypassed.apart in
      ground (arith, write_lem h over (some turned_over) last, bypassed.at_last)

  -- The node that goes is its own predecessor.
  module _ (same : x ≡ last) where
    unlink_self : unlink h walked ≡ ok (write h1 x none)
    unfolding unlink
    unlink_self =
        let e : (x == last) ≡ true = ground arith in
        let at : h1 x ≡ some bypassed.last = ap h1 same ∙ at_last1 in
        rw
          (
            load-ok h last bypassed.last bypassed.at_last,
            bypassed.last_node,
            load-ok h over bypassed.over bypassed.at_over,
            bypassed.over_last,
            store-ok h over bypassed.over turned_over bypassed.at_over,
            e,
            load-ok h1 x bypassed.last at,
          )
          refl

    Removed-self : Removed h root t x (write h1 x none)
    Removed-self =
        removed_lem s x away fewer h1 cut_here.down cut_here.parent
          (PointsUp-map (λ q. (q ≡ last) ⊎ Root q) Root fewer
            (λ q m e. elim e [
              | inl here ↦ absurd (omega (arith, ap (leaves fewer) (here ∙ sym same), no_leaf))
              | inr a ↦ a
            ])
            (cut-PointsUp Root bits root t is_branch s.up))
          leaves1
          (λ q. subst (λ z. inner fewer q + one_if (z == q) ≡ inner t q) (sym same) (inner1 q))
          sorted1 keys1

  -- Another node takes its place.
  module _ (other : last ≢ x) where
    on_way : OnWay bits x t
    on_way = elim (PointsUp-find Root bits t x ends s.up) [ inl w ↦ w | inr r ↦ absurd (away r) ]

    last_in : 0 < inner t last
    last_in = let e : one_if (last == last) ≡ 1 = ground arith in omega (arith, inner1 last, e)

    last_out : inner fewer last ≡ 0
    last_out =
        let e : one_if (last == last) ≡ 1 = ground arith in
        omega (arith, inner1 last, e, s.once last)

    abbrev anchor1 : Node
    anchor1 = set_child s.anchor false (addr fewer)

    place : Seat h1 bits x last bypassed.last root anchor1 false 0 fewer
    place = record {
      at_par = cut_here.parent;
      way = refl;
      side = λ e z. away (sym z ∙ s.self);
      apart = omega (arith, inner1 root, root_in);
      par_ne = λ e. absurd (omega (arith, ap (inner t) e, root_in, last_in));
      once = λ q. omega (arith, inner1 q, s.once q);
      no_leaf = no_leaf;
      on_way = OnWay-cut bits x root t on_way other;
      unused = last_out;
      down = cut_here.down;
    }

    relabelled : Relabel h1 bits x last bypassed.last null root anchor1 false 0 fewer
    relabelled = relabel_lem h1 bits x last bypassed.last null root anchor1 false 0 fewer place

    abbrev npar : Ptr
    npar = npar_of bits x null root t

    same_npar : npar_of bits x null root fewer ≡ npar
    same_npar = npar-cut bits x null root t on_way other

    abbrev turned_parent : Node
    turned_parent = set_child relabelled.parent (child_idx relabelled.parent x) last

    abbrev moved : Node
    moved = in_place_of relabelled.node bypassed.last

    abbrev hz : Heap
    hz = write h1 npar (some turned_parent)

    abbrev h2 : Heap
    h2 = write hz last (some moved)

    at_npar1 : h1 npar ≡ some relabelled.parent
    at_npar1 = sym (ap h1 same_npar) ∙ relabelled.at_parent

    npar_ne_last : npar ≢ last
    npar_ne_last e = relabelled.parent_ne (same_npar ∙ e)

    npar_ne_x : npar ≢ x
    npar_ne_x e = relabelled.parent_apart (same_npar ∙ e)

    at_x_z : hz x ≡ some relabelled.node
    at_x_z =
        let ne = npar_ne_x in
        ground (arith, write_lem h1 npar (some turned_parent) x, relabelled.at_node)

    at_last_z : hz last ≡ some bypassed.last
    at_last_z =
        let ne = npar_ne_last in
        ground (arith, write_lem h1 npar (some turned_parent) last, at_last1)

    at_x2 : h2 x ≡ some relabelled.node
    at_x2 = let ne = other in ground (arith, write_lem hz last (some moved) x, at_x_z)

    cells2 :
        (a : Ptr)
        → h2 a ≡ (
            if a == last
            then some moved
            else if a == npar_of bits x null root fewer
            then some turned_parent
            else h1 a)
    cells2 a =
        rw same_npar
          (write_lem hz last (some moved) a ∙ rw (write_lem h1 npar (some turned_parent) a) refl)

    abbrev renamed : Trie
    renamed = rename bits x last fewer

    moved_here : Turned h1 (λ a. a ≢ last) root anchor1 false 0 fewer renamed h2
    moved_here = relabelled.turns h2 cells2

    unlink_other : unlink h walked ≡ ok (write h2 x none)
    unfolding unlink
    unlink_other =
        let e : (x == last) ≡ false = let ne = other in ground arith in
        rw
          (
            load-ok h last bypassed.last bypassed.at_last,
            bypassed.last_node,
            load-ok h over bypassed.over bypassed.at_over,
            bypassed.over_last,
            store-ok h over bypassed.over turned_over bypassed.at_over,
            e,
            load-ok h1 npar relabelled.parent at_npar1,
            relabelled.parent_node,
            store-ok h1 npar relabelled.parent turned_parent at_npar1,
            load-ok hz x relabelled.node at_x_z,
            load-ok hz last bypassed.last at_last_z,
            store-ok hz last bypassed.last moved at_last_z,
            load-ok h2 x relabelled.node at_x2,
          )
          refl

    keys2 : (a : Ptr) → key_of (h2 a) ≡ key_of (h a)
    keys2 a =
        key_of-write hz last moved (ap key_of at_last_z) a
        ∙ key_of-write h1 npar turned_parent
            (ap key_of at_npar1
              ∙ sym (key_of-set_child relabelled.parent (child_idx relabelled.parent x) last))
            a
        ∙ keys1 a

    Removed-other : Removed h root t x (write h2 x none)
    Removed-other =
        removed_lem s x away renamed h2 moved_here.down moved_here.parent
          (rename-PointsUp bits x Root last root t on_way refl other no_leaf s.up)
          (λ q. ap (λ n. n + one_if (x == q)) (leaves-rename bits x last fewer q) ∙ leaves1 q)
          (λ q. inner-rename bits x last fewer q (OnWay-cut bits x root t on_way other) ∙ inner1 q)
          (rename-Sorted (bits_in h) bits x last fewer sorted1) keys2

  -- Taking the links of the walk to a node of the set, the code removes that node and no other.
  pub unlink_lem : (h' : Heap) × (unlink h walked ≡ ok h') × Removed h root t x h'
  unlink_lem = elim (Bool-cases (x == last)) [
    | inl same ↦ let e : x ≡ last = (==_iff x last).0 same in (_, unlink_self e, Removed-self e)
    | inr apart ↦ let ne : last ≢ x = ground arith in (_, unlink_other ne, Removed-other ne)
  ]
