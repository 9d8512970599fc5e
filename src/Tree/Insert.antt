-- ===== src/Tree/Insert.antt =====
-- `patriset_insert` keeps the set well formed and adds the key.
use mathlib.Core.Path.{fun_ext}
use mathlib.Core.Bool.{true≢false}
use patricia_c.Base.{
  ℕ, ◌+◌, ◌-◌, ◌^◌, ◌≤◌, ◌<◌, ◌≡◌, ◌≢◌, ◌⊎◌, refl, sym, ◌∙◌, ap, Bool, true, false, Option, none,
  some, arith, ◌==◌, Bool-cases, if◌then◌else◌, ==_iff, inl, inr,
}
use patricia_c.Key.{Key, getbit, equkey}
use patricia_c.Key.Stream.{getbit-stream}
use patricia_c.Key.Equal.{equkey_iff, getbit-equkey}
use patricia_c.Diff.{WordOps, bitdiff}
use patricia_c.Diff.First.{IsFirstDiff, bitdiff_first, FirstDiff-le}
use patricia_c.Heap.{Ptr, null, Node, set_child, Heap, write, write_lem, ok, load-ok, store-ok}
use patricia_c.Trie.{Trie, addr, find, leaves, inner, one_if, graft}
use patricia_c.Trie.Find.{find-mem, Sorted-ext}
use patricia_c.Trie.Up.{graft-PointsUp}
use patricia_c.Trie.Graft.{Parts, graft-Sorted, leaves-graft, inner-graft}
use patricia_c.Tree.{Inserted, rounds, descend, create, copy_key, insert_new, insert}
use patricia_c.Tree.Rep.{IsNodeSet, label_of, label_node, leaf_node, bits_in, bit_of}
use patricia_c.Tree.Link.{IsLinked, IsLinked-label, link-IsLinked}
use patricia_c.Tree.Seek.{Found, seek_lem}
use patricia_c.Tree.Fresh.{
  copy_key-SameKey, descend-find, unlinked, Created, Kept, fresh-ne-root, fresh-inner, root-inner,
  at_fresh, elsewhere, leaf-cell, rep2, sorted2,
}

set_child-label :
    (m : Node) (d : Bool) (p : Ptr) → label_of (some (set_child m d p)) ≡ label_of (some m)
set_child-label m true p = refl
set_child-label m false p = refl

none_of_label : (o : Option Node) → label_of o ≡ none → o ≡ none
none_of_label none e = refl
none_of_label (some n) e = cc

bits_of_label : (o o' : Option Node) (i : ℕ) → label_of o ≡ label_of o' → bit_of o i ≡ bit_of o' i
bits_of_label none none i e = refl
bits_of_label none (some n) i e = cc
bits_of_label (some n) none i e = cc
bits_of_label (some n) (some m) i e = let f : n.key ≡ m.key = ground arith in rw f

module _ {h : Heap} {root : Ptr} {t : Trie} (s : IsNodeSet h root t) (fresh : Ptr)
    (unused : h fresh ≡ none) (real : fresh ≢ null) (k : Key) (short : k.nbit < 2 ^ 16 - 1) (c : ℕ)
    (h2 : Heap) (cells : (a : Ptr) → h2 a ≡ (if a == fresh then some (unlinked k c) else h a))
    (n : Node) (en : h (find (getbit k) t) ≡ some n) (first : IsFirstDiff k n.key c) where
  fits : c < 2 ^ 16
  fits =
      let w = s.short (find (getbit k) t) n (find-mem (getbit k) t) en in
      omega (arith, FirstDiff-le k n.key c first)

  fresh_bits : (i : ℕ) → getbit k i ≡ bits_in h2 fresh i
  fresh_bits i = rw (at_fresh s fresh unused k c h2 cells) (
      getbit-equkey k (copy_key k) i (omega arith)
        ((equkey_iff k (copy_key k)).1 (copy_key-SameKey k)))

  parts : Parts (bits_in h2) fresh c t
  parts =
      let e : bits_in h2 fresh ≡ getbit k = sym (fun_ext fresh_bits) in
      let m : 0 < leaves t (find (getbit k) t) = find-mem (getbit k) t in
      let w = s.short (find (getbit k) t) n m en in
      let f : h2 (find (getbit k) t) ≡ some n =
        leaf-cell s fresh unused k c h2 cells (find (getbit k) t) m ∙ en in
      rw (e, f)
        (
          λ i l.
              getbit-stream k i (omega arith) (omega (arith, fits))
              ∙ first.agree i l
              ∙ sym (getbit-stream n.key i (omega arith) (omega (arith, fits))),
          λ x. first.differ (
              sym (getbit-stream k c (omega arith) fits)
              ∙ x
              ∙ getbit-stream n.key c (omega arith) fits),
        )

  place-Found : Found h2 k c fresh (unlinked k c) root s.anchor false 0 (2 ^ 16) t
  place-Found =
      seek_lem h2 k c fresh (unlinked k c) (at_fresh s fresh unused k c h2 cells) refl fresh_bits
        fits (2 ^ 16) root s.anchor false 0 t
        (elsewhere s fresh unused k c h2 cells root (fresh-ne-root s fresh unused) ∙ s.at_root)
        s.start s.top (fresh-ne-root s fresh unused) first.pos (omega arith)
        (λ q. omega (arith, s.once q)) (root-inner s fresh unused) (fresh-inner s fresh unused)
        (sorted2 s fresh unused k c h2 cells) parts (rep2 s fresh unused k c h2 cells)

  abbrev grafted : Trie
  grafted = graft fresh c (bits_in h2 fresh) t

  module _ (h3 : Heap) (l : IsLinked h2 k c fresh place-Found.at h3) where
    old_label : (a : Ptr) → a ≢ fresh → label_of (h3 a) ≡ label_of (h a)
    old_label a ne = IsLinked-label l a ∙ ap label_of (elsewhere s fresh unused k c h2 cells a ne)

    -- The created node has the copied key.
    new_node : (m : Node) × (h3 fresh ≡ some m) × (m.key ≡ copy_key k)
    new_node =
        let e : label_of (h3 fresh) ≡ some (record { bpos = c; key = copy_key k }) =
          IsLinked-label l fresh ∙ ap label_of (at_fresh s fresh unused k c h2 cells) in
        let m = label_node (h3 fresh) (record { bpos = c; key = copy_key k }) e in (m.0, m.1, m.3)

    short_keys :
        (q : Ptr) (m : Node)
        → 0 < leaves t q + one_if (fresh == q)
        → h3 q ≡ some m
        → m.key.nbit < 2 ^ 16 - 1
    short_keys q m i e = elim (Bool-cases (fresh == q)) [
      | inl new ↦
          let eq : fresh ≡ q = (==_iff fresh q).0 new in
          let f : some m ≡ some new_node.0 = sym e ∙ rw (← eq) new_node.1 in
          let g : m ≡ new_node.0 = ground arith in rw (g, new_node.2) (unfold copy_key in short)
      | inr old ↦
          let ne : q ≢ fresh = ground arith in
          let f : label_of (h q) ≡ some (record { bpos = m.bpos; key = m.key }) =
            sym (old_label q ne) ∙ ap label_of e in
          let o = label_node (h q) (record { bpos = m.bpos; key = m.key }) f in
          rw (← o.3) (s.short q o.0 (ground arith) o.1)
    ]

    once3 : (q : Ptr) → inner t q + one_if (fresh == q) + one_if (root == q) ≤ 1
    once3 q = elim (Bool-cases (fresh == q)) [
      | inl new ↦
          let eq : fresh ≡ q = (==_iff fresh q).0 new in
          let ne : (root == fresh) ≡ false = let r = fresh-ne-root s fresh unused in ground arith in
          rw (← eq) (ground (arith, fresh-inner s fresh unused, ne))
      | inr old ↦ ground (arith, s.once q)
    ]

    valid3 : IsNodeSet h3 root grafted
    valid3 =
        let spliced = place-Found.splices h3 l in
        record {
          anchor = set_child s.anchor false (addr grafted);
          at_root = spliced.parent;
          top = refl;
          self = s.self;
          start = s.start;
          empty_key = s.empty_key;
          rep = spliced.rep;
          sorted =
              Sorted-ext (bits_in h2) (bits_in h3) grafted
                (λ q i m. bits_of_label (h3 q) (h2 q) i (IsLinked-label l q))
                (graft-Sorted (bits_in h2) fresh c t (sorted2 s fresh unused k c h2 cells) parts);
          up = graft-PointsUp (λ q. q ≡ root) fresh c (bits_in h2 fresh) t s.up;
          two_links = λ q. omega (
            arith,
            leaves-graft fresh c (bits_in h2 fresh) t q,
            inner-graft fresh c (bits_in h2 fresh) t q,
            s.two_links q,
          );
          once = λ q. omega (arith, inner-graft fresh c (bits_in h2 fresh) t q, once3 q);
          no_null =
              none_of_label (h3 null) (old_label null (λ e. real (sym e)) ∙ ap label_of s.no_null);
          short = λ q m i e.
              short_keys q m (omega (arith, leaves-graft fresh c (bits_in h2 fresh) t q)) e;
        }

    -- The heap after the link is a set with the new leaf.
    linked-Created : Created h root t k fresh (record { node = fresh; inserted = true; heap = h3 })
    linked-Created = record {
      flag = refl;
      at = refl;
      trie = grafted;
      valid = valid3;
      members = leaves-graft fresh c (bits_in h2 fresh) t;
      new_key = (new_node.0, new_node.1, rw new_node.2 (copy_key-SameKey k));
      others = old_label;
    }

pub rounds_lem : rounds ≡ 2 ^ 16
unfolding rounds
rounds_lem = refl

create_fresh :
    (fresh : Ptr) (k : Key) (h : Heap)
    → fresh ≢ null
    → create fresh k h ≡ (
      fresh,
      write h fresh (some (record { left = null; right = null; bpos = 0; key = copy_key k })),
    )
unfolding create
create_fresh fresh k h real = let e : (fresh == null) ≡ false = ground arith in rw e

-- The part of `patriset_insert` that creates the node, given the first difference.
insert_new-Created :
    (w : WordOps) (little : Bool) {h : Heap} {root : Ptr} {t : Trie} (s : IsNodeSet h root t)
    (fresh : Ptr) (unused : h fresh ≡ none) (real : fresh ≢ null) (k : Key)
    (short : k.nbit < 2 ^ 16 - 1) (n : Node) (en : h (find (getbit k) t) ≡ some n)
    (first : IsFirstDiff k n.key (bitdiff w little k n.key))
    → (r : Inserted) × (insert_new w little fresh h root k n ≡ ok r) × Created h root t k fresh r
unfolding insert_new
insert_new-Created w little {h} {root} {t} s fresh unused real k short n en first =
    let c : ℕ = bitdiff w little k n.key in
    let zeroed : Node = record { left = null; right = null; bpos = 0; key = copy_key k } in
    let h1 : Heap = write h fresh (some zeroed) in
    let h2 : Heap = write h1 fresh (some (unlinked k c)) in
    let cells : (a : Ptr) → h2 a ≡ (if a == fresh then some (unlinked k c) else h a) = λ a.
      ground
        (arith, write_lem h fresh (some zeroed) a, write_lem h1 fresh (some (unlinked k c)) a) in
    let e1 : h1 fresh ≡ some zeroed = ground (arith, write_lem h fresh (some zeroed) fresh) in
    let er : h2 root ≡ some s.anchor =
      elsewhere s fresh unused k c h2 cells root (fresh-ne-root s fresh unused) ∙ s.at_root in
    let place = place-Found s fresh unused real k short c h2 cells n en first in
    let linked =
      link-IsLinked h2 k c fresh place.at (unlinked k c) place.last
        (at_fresh s fresh unused k c h2 cells) place.at_last place.apart in
    let nonzero : (c == 0) ≡ false = ground (arith, first.pos) in
    let nonnull : (fresh == null) ≡ false = ground arith in
    (
      record { node = fresh; inserted = true; heap = linked.0 },
      rw (
        nonzero,
        create_fresh fresh k h real,
        nonnull,
        load-ok h1 fresh zeroed e1,
        store-ok h1 fresh zeroed (unlinked k c) e1,
        load-ok h2 root s.anchor er,
        s.top,
        rounds_lem,
        place.runs,
        linked.1,
      ),
      linked-Created s fresh unused real k short c h2 cells n en first linked.0 linked.2,
    )

pub first_of :
    (w : WordOps) (little : Bool) (a b : Key)
    → a.nbit < 2 ^ 16 - 1
    → b.nbit < 2 ^ 16 - 1
    → equkey a b ≡ false
    → IsFirstDiff a b (bitdiff w little a b)
first_of w little a b ha hb e = elim (bitdiff_first w little a b ha hb) [
  | inl (same, z) ↦ absurd (true≢false (sym ((equkey_iff a b).1 same) ∙ e))
  | inr first ↦ first
]

-- On a set and with an unused address from the allocator, the insertion of a key of fewer than
-- 65535 bits returns; it neither faults nor runs out of fuel. Either it returns a node of the set
-- that has the key and leaves the heap as it is, or it returns the unused address, where now a
-- node with an equal key stands, in a heap that is a set with exactly this node more and in which
-- every other node keeps its key and branch position.
pub insert_lem :
    (w : WordOps) (little : Bool) {h : Heap} {root : Ptr} {t : Trie} (fresh : Ptr) (k : Key)
    → IsNodeSet h root t
    → h fresh ≡ none
    → fresh ≢ null
    → k.nbit < 2 ^ 16 - 1
    → (r : Inserted) × (insert w little fresh h root k ≡ ok r)
      × (Kept h t k r ⊎ Created h root t k fresh r)
unfolding insert
insert_lem w little {h} {root} {t} fresh k s unused real short =
    let found : Ptr = find (getbit k) t in
    let present : 0 < leaves t found = find-mem (getbit k) t in
    let (n, en) = leaf_node h 0 t found s.rep present in
    let walked : descend h k rounds root s.anchor.left ≡ ok found =
      rw (rounds_lem, s.top)
        (descend-find h k (2 ^ 16) 0 root s.anchor t s.at_root s.start s.rep (omega arith)
          (omega arith)) in
    elim (Bool-cases (equkey k n.key)) [
      | inl same ↦ (
        record { node = found; inserted = false; heap = h },
        rw (load-ok h root s.anchor s.at_root, walked, load-ok h found n en, same),
        inl (refl, refl, record { node = n; holds = en; present = present; same = same }),
      )
      | inr other ↦
          let created =
            insert_new-Created w little s fresh unused real k short n en
              (first_of w little k n.key short (s.short found n present en) other) in
          (
            created.0,
            rw (load-ok h root s.anchor s.at_root, walked, load-ok h found n en, other) created.1,
            inr created.2,
          )
    ]
