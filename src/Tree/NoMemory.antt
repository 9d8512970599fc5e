-- ===== src/Tree/NoMemory.antt =====
-- `patriset_insert` when the allocator returns NULL.
use patricia_c.Base.{◌-◌, ◌^◌, ◌<◌, ◌≡◌, refl, Bool, false, arith, inl, inr, Bool-cases, ◌==◌}
use patricia_c.Key.{Key, getbit, equkey}
use patricia_c.Diff.{WordOps, bitdiff}
use patricia_c.Diff.First.{IsFirstDiff}
use patricia_c.Heap.{Ptr, null, Node, Heap, ok, ◌>>=◌, load-ok}
use patricia_c.Trie.{Trie, find, leaves}
use patricia_c.Trie.Find.{find-mem}
use patricia_c.Tree.{lookup, insert, insert_new, create, descend, rounds}
use patricia_c.Tree.Rep.{IsNodeSet, leaf_node}
use patricia_c.Tree.Lookup.{lookup-find}
use patricia_c.Tree.Fresh.{descend-find}
use patricia_c.Tree.Insert.{first_of, rounds_lem}

insert_new-null :
    (w : WordOps) (little : Bool) (h : Heap) (root : Ptr) (k : Key) (n : Node)
    → IsFirstDiff k n.key (bitdiff w little k n.key)
    → insert_new w little null h root k n ≡ ok (record { node = null; inserted = false; heap = h })
unfolding insert_new create
insert_new-null w little h root k n first =
    let nonzero : (bitdiff w little k n.key == 0) ≡ false = ground (arith, first.pos) in
    rw nonzero refl

-- On a set, when the allocator returns NULL, the insertion of a key of fewer than 65535 bits
-- returns what the look-up of the key returns, with the flag for a new node cleared and the heap
-- as it is.
pub insert-null :
    (w : WordOps) (little : Bool) {h : Heap} {root : Ptr} {t : Trie} (k : Key)
    → IsNodeSet h root t
    → k.nbit < 2 ^ 16 - 1
    → insert w little null h root k
      ≡ (do q ← lookup h root k; ok (record { node = q; inserted = false; heap = h }))
unfolding insert
insert-null w little {h} {root} {t} k s short =
    let found : Ptr = find (getbit k) t in
    let present : 0 < leaves t found = find-mem (getbit k) t in
    let (n, en) = leaf_node h 0 t found s.rep present in
    let walked : descend h k rounds root s.anchor.left ≡ ok found =
      rw (rounds_lem, s.top)
        (descend-find h k (2 ^ 16) 0 root s.anchor t s.at_root s.start s.rep (omega arith)
          (omega arith)) in
    elim (Bool-cases (equkey k n.key)) [
      | inl same ↦
          rw
            (
              lookup-find s k n en,
              load-ok h root s.anchor s.at_root,
              walked,
              load-ok h found n en,
              same,
            )
            refl
      | inr other ↦
          rw
            (
              lookup-find s k n en,
              load-ok h root s.anchor s.at_root,
              walked,
              load-ok h found n en,
              other,
            )
            (insert_new-null w little h root k n
              (first_of w little k n.key short (s.short found n present en) other))
    ]
