-- ===== src/Evict/Fini.antt =====
-- `patriset_fini` on a set.
use patricia_c.Base.{
  ℕ, suc, ◌^◌, ◌≤◌, ◌<◌, ◌≡◌, ◌≢◌, refl, sym, ap, ◌∙◌, false, none, some, arith, ◌==◌, ltb,
  Bool-cases, inl, inr, if◌then◌else◌, List, [],
}
use patricia_c.Heap.{Ptr, null, Node, Heap, write, write_lem, ok, load-ok, store-ok, ◌>>=◌}
use patricia_c.Trie.{Trie, leaf, branch, inner}
use patricia_c.Tree.Insert.{rounds_lem}
use patricia_c.Tree.Rep.{Rep, IsNodeSet}
use patricia_c.Evict.{right_end, graft_right, funnel, free_list, fini}
use patricia_c.Evict.Funnel.{
  Item, spine, front, held, nodes_of, weight, held-spine, weight-spine, Lower-write, Rep-Lower,
  Chain, rightmost, rightmost-in, right_end-rightmost, write-other, Chain-graft,
}
use patricia_c.Evict.Dead.{occurs, length, Dead, free_list-Dead}
use patricia_c.Evict.Freed.{branch_node, funnel-Drained}

-- The funnel and the freeing together, on a chain that has the nodes of the trie.
finish :
    (h : Heap) (root : Ptr) (nodes : ℕ) (xs : List Item) (t : Trie)
    → Chain h xs root
    → ((q : Ptr) → held xs q ≡ inner t q)
    → weight xs ≡ nodes_of t
    → ((q : Ptr) → inner t q ≤ 1)
    → inner t root ≡ 0
    → inner t null ≡ 0
    → h null ≡ none
    → nodes_of t < nodes
    → (h' : Heap) × ((do
      (list, h3) ← funnel h root nodes null (front root xs)
      free_list h3 nodes list)
        ≡ ok (nodes_of t, h'))
      × ((q : Ptr) → h' q ≡ (if ltb 0 (inner t q) then none else h q))
unfolding Dead occurs length
finish h root nodes xs t chain all many once out no_node no_null enough =
    let (list, h3, ds, run, dead, count, len, kept) =
      funnel-Drained root nodes h null xs [] chain refl (λ q. omega (arith, all q, once q))
        (omega (arith, all root, out)) (omega (arith, many, enough)) in
    let size : length ds ≡ nodes_of t = omega (arith, len, many) in
    let (h', freed, cells) =
      free_list-Dead h3 nodes list ds dead (kept null (omega (arith, all null, no_node)) ∙ no_null)
        (λ q. omega (arith, count q, all q, once q)) (omega (arith, size, enough)) in
    let same : (q : Ptr) → occurs ds q ≡ inner t q = λ q. omega (arith, count q, all q) in
    (
      h',
      rw (run, freed, size) refl,
      λ q.
          cells q
          ∙ rw (same q) (elim (Bool-cases (ltb 0 (inner t q))) [
            | inl gone ↦ rw gone refl
            | inr stays ↦
                let z : inner t q ≡ 0 = ground arith in rw stays (kept q (omega (arith, all q, z)))
          ]),
    )

right_end_self :
    (h : Heap) (p : Ptr) (n : Node) (fuel : ℕ)
    → h p ≡ some n
    → n.right ≡ p
    → right_end h (suc fuel) p ≡ ok p
unfolding right_end
right_end_self h p n fuel e er =
    let stop : ltb n.bpos n.bpos ≡ false = ground arith in
    rw (load-ok h p n e, er, load-ok h p n e, stop) refl

-- NULL is no node of a set, and not its root.
null_out : {h : Heap} {root : Ptr} {t : Trie} → IsNodeSet h root t → inner t null ≡ 0
null_out {h} {root} {t} s = elim (Bool-cases (ltb 0 (inner t null))) [
  | inr outside ↦ ground arith
  | inl inside ↦
      let (n, e) = branch_node h 0 t null s.rep (ground arith) in
      absurd (none-some n (sym s.no_null ∙ e))
]
  where
    none-some : (n : Node) → none ≡ some n → ⊥
    none-some n e = cc

root_real : {h : Heap} {root : Ptr} {t : Trie} → IsNodeSet h root t → root ≢ null
root_real {h} s e = none-some (sym s.no_null ∙ ap h (sym e) ∙ s.at_root)
  where
    none-some : none ≡ some s.anchor → ⊥
    none-some e = cc

-- The root with no node below it.
abbrev pub emptied : Node → Ptr → Node
emptied n root = record n { left = root; right = root }

-- The writes before the funnel.
fini-funnel :
    (h : Heap) (root : Ptr) (nodes : ℕ) (n : Node) (hold scan : Ptr) (z : Node)
    → h root ≡ some n
    → n.left ≡ hold
    → right_end (write h root (some (emptied n root))) (2 ^ 16) hold ≡ ok scan
    → write h root (some (emptied n root)) scan ≡ some z
    → fini h nodes root ≡ (do
      (list, h3) ←
          funnel
            (write (write h root (some (emptied n root))) scan (some (record z { right = root })))
            root
            nodes
            null
            hold
      free_list h3 nodes list)
unfolding fini graft_right
fini-funnel h root nodes n hold scan z at left end there =
    let h1 = write h root (some (emptied n root)) in
    rw
      (
        load-ok h root n at,
        left,
        store-ok h root n (emptied n root) at,
        rounds_lem,
        end,
        load-ok h1 scan z there,
        store-ok h1 scan z (record z { right = root }) there,
      )
      refl

-- On a set, given more rounds than the trie has branches, the destruction returns without a fault.
-- It frees as many nodes as the trie has branches, and leaves a heap in which every node of the
-- set but the root is gone, the root points at itself with both children, and every other address
-- holds what it held.
pub fini_lem :
    {h : Heap} {root : Ptr} (t : Trie) (nodes : ℕ)
    → (s : IsNodeSet h root t) → nodes_of t < nodes
    → (h' : Heap) × (fini h nodes root ≡ ok (nodes_of t, h'))
      × ((q : Ptr)
          → h' q ≡ (
              if ltb 0 (inner t q)
              then none
              else if q == root
              then some (emptied s.anchor root)
              else h q))
unfolding spine front Chain held weight nodes_of inner
fini_lem {h} {root} (leaf p) nodes s enough =
    let bare = emptied s.anchor root in
    let h1 = write h root (some bare) in
    let at1 : h1 root ≡ some bare = ground (arith, write_lem h root (some bare) root) in
    let h2 = write h1 root (some bare) in
    let real = root_real s in
    let still : h2 null ≡ none =
      write-other h1 root (some bare) null (λ z. real (sym z))
      ∙ write-other h root (some bare) null (λ z. real (sym z))
      ∙ s.no_null in
    let (h', run, cells) =
      finish h2 root nodes [] (leaf p) tt (λ q. refl) refl (λ q. omega arith) refl refl still
        enough in
    (
      h',
      fini-funnel h root nodes s.anchor root root bare s.at_root (s.top ∙ s.up)
            (right_end_self h1 root bare 65535 at1 refl) at1
          ∙ run,
      λ q. cells q ∙ write_lem h1 root (some bare) q ∙ (elim (Bool-cases (q == root)) [
        | inl here ↦ rw here refl
        | inr there ↦ rw (there, write_lem h root (some bare) q, there) refl
      ]),
    )
fini_lem {h} {root} (branch p c l r) nodes s enough =
    let t = branch p c l r in
    let last = rightmost p r in
    let inside = rightmost-in p c l r in
    let root_out : inner t root ≡ 0 = ground (arith, s.once root) in
    let once : (q : Ptr) → inner t q ≤ 1 = λ q. omega (arith, s.once q) in
    let h1 = write h root (some (emptied s.anchor root)) in
    let rep1 : Rep h1 0 t =
      Rep-Lower h h1 0 t
        (Lower-write h root s.anchor (emptied s.anchor root) s.at_root (omega arith))
        (λ a i. write-other h root _ a (λ z. absurd (omega (arith, ap (inner t) z, root_out))))
        s.rep in
    let (z, ez) = branch_node h1 0 t last rep1 inside in
    let graft = record z { right = root } in
    let h2 = write h1 last (some graft) in
    let chain : Chain h2 (spine t) root = Chain-graft h1 0 p c l r z root rep1 once ez in
    let bare = emptied s.anchor root in
    let real = root_real s in
    let no_node = null_out s in
    let still : h2 null ≡ none =
      write-other h1 last (some graft) null
        (λ z. absurd (omega (arith, ap (inner t) z, inside, no_node)))
      ∙ write-other h root (some bare) null (λ z. real (sym z))
      ∙ s.no_null in
    let (h', run, cells) =
      finish h2 root nodes (spine t) t chain (λ q. held-spine t q) (weight-spine t) once root_out
        no_node still enough in
    (
      h',
      fini-funnel h root nodes s.anchor p last z s.at_root s.top
            (right_end-rightmost h1 (2 ^ 16) 0 p c l r rep1 (omega arith)) ez
          ∙ run,
      λ q. cells q ∙ (elim (Bool-cases (ltb 0 (inner t q))) [
        | inl gone ↦ rw gone refl
        | inr stays ↦
            let z : inner t q ≡ 0 = ground arith in
            rw stays (
              write-other h1 last (some graft) q
                (λ y. absurd (omega (arith, ap (inner t) y, inside, z)))
              ∙ write_lem h root (some bare) q)
      ]),
    )
