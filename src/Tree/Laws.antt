-- ===== src/Tree/Laws.antt =====
-- Set-up, look-up and insertion together.
use mathlib.Core.Bool.{true≢false}
use mathlib.Core.Path.{subst}
use patricia_c.Base.{
  ◌-◌, ◌↔◌, ◌⊎◌, ◌^◌, ◌<◌, ◌≡◌, ◌≢◌, refl, sym, ◌∙◌, ap, Bool, true, false, Option, none, some,
  arith, ◌==◌, Bool-cases, if◌then◌else◌, ==_iff, inl, inr,
}
use patricia_c.Key.{Key, equkey}
use patricia_c.Key.Equal.{equkey_iff}
use patricia_c.Diff.{WordOps}
use patricia_c.Heap.{Ptr, null, Node, Heap, write, write_lem, ok, ok_injective}
use patricia_c.Trie.{Trie, leaf, leaves, inner}
use patricia_c.Tree.{Inserted, init, lookup, insert}
use patricia_c.Tree.Rep.{IsNodeSet, label_of, label_node}
use patricia_c.Tree.Lookup.{IsHit, lookup_lem, lookup-hit, lookup-miss}
use patricia_c.Tree.Fresh.{Created, Kept}
use patricia_c.Tree.Insert.{insert_lem}

-- In a heap that holds nothing at NULL, the set-up of a root that is not NULL makes a set whose
-- trie is the single uplink to the root.
pub init-IsNodeSet :
    (root : Ptr) (h : Heap) → root ≢ null → h null ≡ none → IsNodeSet (init root h) root (leaf root)
unfolding init leaves inner
init-IsNodeSet root h real no_null =
    let cell : (c : Option Node) → write h root c root ≡ c =
      λ c. ground (arith, write_lem h root c root) in
    record {
      anchor = record {
        left = root;
        right = root;
        bpos = 0;
        key = record { mem = λ i. 0; nbit = 0 };
      };
      at_root = cell _;
      top = refl;
      self = refl;
      start = refl;
      empty_key = refl;
      rep = (
        record { bpos = 0; key = record { mem = λ i. 0; nbit = 0 } },
        ap label_of (cell _),
        omega arith,
      );
      sorted = tt;
      up = refl;
      two_links = λ q. omega arith;
      once = λ q. ground arith;
      no_null = ground (arith, write_lem h root (some _) null);
      short = λ q n i e. let at : root ≡ q = ground arith in short_root q n at e;
    }
  where
    short_root : (q : Ptr) (n : Node) → root ≡ q → init root h q ≡ some n → n.key.nbit < 2 ^ 16 - 1
    short_root q n at e = ground (arith, write_lem h root (some _) q)

pub equkey_trans : (a b c : Key) → equkey a b ≡ true → equkey b c ≡ true → equkey a c ≡ true
equkey_trans a b c e f =
    let p = (equkey_iff a b).0 e in
    let q = (equkey_iff b c).0 f in
    (equkey_iff a c).1 (p.0 ∙ q.0, λ z l. p.1 z l ∙ q.1 z (omega (arith, p.0)))

pub equkey_sym : (a b : Key) → equkey a b ≡ true → equkey b a ≡ true
equkey_sym a b e =
    let p = (equkey_iff a b).0 e in
    (equkey_iff b a).1 (sym p.0, λ z l. sym (p.1 z (omega (arith, p.0))))

-- A node with another label-preserving heap is a hit there too.
pub IsHit-move :
    {h h' : Heap} {t t' : Trie} (k : Key) (q : Ptr)
    → label_of (h' q) ≡ label_of (h q)
    → 0 < leaves t' q
    → IsHit h t k q
    → IsHit h' t' k q
IsHit-move {h} {h'} k q e present hit =
    let node =
      label_node (h' q) (record { bpos = hit.node.bpos; key = hit.node.key })
        (e ∙ ap label_of hit.holds) in
    record { node = node.0; holds = node.1; present = present; same = rw node.3 hit.same }

module _ {h : Heap} {root : Ptr} {t : Trie} (s : IsNodeSet h root t) (fresh : Ptr)
    (unused : h fresh ≡ none) (k : Key) (r : Inserted) where
  pub lookup-Kept :
      Kept h t k r
      → (j : Key) → j.nbit < 2 ^ 16
      → lookup r.heap root j ≡ (if equkey j k then ok r.node else lookup h root j)
  lookup-Kept (flag, same_heap, hit) j wj = elim (Bool-cases (equkey j k)) [
    | inl same ↦
        rw (same, same_heap)
          (lookup-hit s j r.node wj (record {
            node = hit.node;
            holds = hit.holds;
            present = hit.present;
            same = equkey_trans j k hit.node.key same hit.same;
          }))
    | inr other ↦ rw (other, same_heap)
  ]

  pub lookup-Created :
      Created h root t k fresh r
      → (j : Key) → j.nbit < 2 ^ 16
      → lookup r.heap root j ≡ (if equkey j k then ok r.node else lookup h root j)
  lookup-Created c j wj = elim (Bool-cases (equkey j k)) [
    | inl same ↦
        rw (same, c.at)
          (lookup-hit c.valid j fresh wj (record {
            node = c.new_key.0;
            holds = c.new_key.1;
            present = ground (arith, c.members fresh);
            same =
                equkey_trans j k c.new_key.0.key same
                  ((equkey_iff k c.new_key.0.key).1 c.new_key.2);
          }))
    | inr other ↦ rw other (elim (lookup_lem s j wj) [
      | inl (q, hit, e) ↦ rw e (
          lookup-hit c.valid j q wj (
            IsHit-move j q (c.others q (not_fresh q hit)) (omega (arith, c.members q, hit.present))
              hit))
      | inr (no_hit, e) ↦ rw e (lookup-miss c.valid j wj (no_more other no_hit))
    ])
  ]
    where
      not_fresh : (q : Ptr) → IsHit h t j q → q ≢ fresh
      not_fresh q hit x = no_node (sym hit.holds ∙ rw x unused)
        where
          no_node : some hit.node ≡ none → ⊥
          no_node e = cc

      no_more :
          equkey j k ≡ false → ((q : Ptr) → ¬ IsHit h t j q) → (q : Ptr) → ¬ IsHit r.heap c.trie j q
      no_more other no_hit q hit = elim (Bool-cases (fresh == q)) [
        | inl new ↦
            let eq : fresh ≡ q = (==_iff fresh q).0 new in
            let f : some c.new_key.0 ≡ some hit.node = sym c.new_key.1 ∙ rw eq hit.holds in
            let g : hit.node ≡ c.new_key.0 = ground arith in
            let key : equkey c.new_key.0.key k ≡ true =
              equkey_sym k c.new_key.0.key ((equkey_iff k c.new_key.0.key).1 c.new_key.2) in
            true≢false (sym (equkey_trans j c.new_key.0.key k (rw (← g) hit.same) key) ∙ other)
        | inr old ↦
            let ne : q ≢ fresh = ground arith in
            no_hit q
              (IsHit-move j q (sym (c.others q ne)) (ground (arith, c.members q, hit.present)) hit)
      ]

-- After an insertion of a key of fewer than 65535 bits into a set, with memory for a node, the
-- look-up of every key of fewer than 65536 bits returns the node of the insertion if the keys are
-- equal, and else what it returned in the old heap.
pub lookup-insert :
    (w : WordOps) (little : Bool) {h : Heap} {root : Ptr} {t : Trie} (fresh : Ptr) (k : Key)
    (r : Inserted)
    → IsNodeSet h root t
    → h fresh ≡ none
    → fresh ≢ null
    → k.nbit < 2 ^ 16 - 1
    → insert w little fresh h root k ≡ ok r
    → (j : Key) → j.nbit < 2 ^ 16
    → lookup r.heap root j ≡ (if equkey j k then ok r.node else lookup h root j)
lookup-insert w little {h} {root} fresh k r s unused real short run j wj =
    let (r', run', cases) = insert_lem w little fresh k s unused real short in
    let eq : r' ≡ r = ok_injective (sym run' ∙ run) in
    rw (← eq) (elim cases [
      | inl kept ↦ lookup-Kept s fresh unused k r' kept j wj
      | inr created ↦ lookup-Created s fresh unused k r' created j wj
    ])

-- The set in the heap of `r` has the nodes of the trie and the node that `r` returns.
abbrev pub Extended : Ptr → Trie → Inserted → Type 0
Extended root t r =
    (t' : Trie) × IsNodeSet r.heap root t'
    × ((q : Ptr) → (0 < leaves t' q) ↔ ((0 < leaves t q) ⊎ (q ≡ r.node)))

Kept-Extended :
    {h : Heap} {root : Ptr} {t : Trie} (k : Key) (r : Inserted)
    → IsNodeSet h root t
    → Kept h t k r
    → Extended root t r
Kept-Extended {h} {root} {t} k r s (flag, same, hit) = (
  t,
  subst (λ x. IsNodeSet x root t) (sym same) s,
  λ q. (λ m. inl m, λ m. elim m [ inl x ↦ x | inr e ↦ rw e hit.present ]),
)

Created-Extended :
    {h : Heap} {root : Ptr} {t : Trie} (fresh : Ptr) (k : Key) (r : Inserted)
    → Created h root t k fresh r
    → Extended root t r
Created-Extended {h} {root} {t} fresh k r c = (
  c.trie,
  c.valid,
  λ q. (
    λ m. elim (Bool-cases (fresh == q)) [
      | inl new ↦ inr (ground (arith, c.at))
      | inr old ↦ inl (ground (arith, c.members q))
    ],
    λ m. elim m [
      | inl x ↦ ground (arith, c.members q)
      | inr e ↦ ground (arith, e, c.at, c.members q)
    ],
  ),
)

-- When the insertion of a key of fewer than 65535 bits into a set, with an unused address from the
-- allocator, returns, then its heap holds a set again, with the nodes of the old set and the
-- returned node and no other.
pub insert-IsNodeSet :
    (w : WordOps) (little : Bool) {h : Heap} {root : Ptr} {t : Trie} (fresh : Ptr) (k : Key)
    (r : Inserted)
    → IsNodeSet h root t
    → h fresh ≡ none
    → fresh ≢ null
    → k.nbit < 2 ^ 16 - 1
    → insert w little fresh h root k ≡ ok r
    → Extended root t r
insert-IsNodeSet w little {h} {root} {t} fresh k r s unused real short run =
    let (r', run', cases) = insert_lem w little fresh k s unused real short in
    subst (Extended root t) (ok_injective (sym run' ∙ run)) (elim cases [
      | inl kept ↦ Kept-Extended k r' s kept
      | inr created ↦ Created-Extended fresh k r' created
    ])
