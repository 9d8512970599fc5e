-- ===== src/Print/Graph.antt =====
-- The graph that `patriset_todot` of src/cpatricia_set.c writes, beside the picture of its trie.
use patricia_c.Base.{
  ℕ, zero, suc, ◌+◌, ◌*◌, ◌<◌, ◌≡◌, inl, inr, refl, sym, ap, ◌∙◌, true, false, ltb, ◌==◌, arith,
  Bool-cases, List, [], ◌∷◌,
}
use patricia_c.Heap.{Ptr, null, Heap, Run, ok, ok_injective, fault, out_of_fuel, ◌>>=◌, load-ok}
use patricia_c.Trie.{Trie}
use patricia_c.Tree.Rep.{IsNodeSet}
use patricia_c.Evict.Funnel.{nodes_of}
use patricia_c.Iter.{Iter, iter_next, pre_order}
use patricia_c.Iter.Order.{order}
use patricia_c.Iter.Rounds.{iter_dir, iter_all}
use patricia_c.Iter.Whole.{iter_all-order}
use patricia_c.Print.Dot.{root_part, self_edge, dot_edges, dot_nodes, patriset_todot}
use patricia_c.Print.Picture.{parts, picture, edge_to, AreStrings, parts-picture, dot_edge-edge_to}
use mathlib.Core.List.{append-nil}

-- A node with those behind it, and what an iteration has returned behind its first node.
abbrev after_node : Ptr → List Ptr × Iter → Run (List Ptr × Iter)
after_node node r = ok (node ∷ r.0, r.1)

rest_of :
    (node : Ptr) (nodes : List Ptr) (it : Iter) (run : Run (List Ptr × Iter))
    → (run >>= after_node node) ≡ ok (nodes, it)
    → (more : List Ptr) × (run ≡ ok (more, it)) × (nodes ≡ node ∷ more)
rest_of node nodes it (ok (more, it1)) e =
    let pair : (node ∷ more, it1) ≡ (nodes, it) = ok_injective e in
    (more, ap (λ z. ok (more, z)) (ap (λ z. z.1) pair), sym (ap (λ z. z.0) pair))
rest_of node nodes it fault e = cc
rest_of node nodes it out_of_fuel e = cc

abbrev no_more : Iter → List Ptr × Iter
no_more it = ([], it)

nodes_of_end : (it : Iter) (r : List Ptr × Iter) → ok (no_more it) ≡ ok r → [] ≡ r.0
nodes_of_end it r e = ap (λ z. z.0) (ok_injective e)

dot_end :
    (h : Heap) (steps fuel : ℕ) (it it2 : Iter) (node : Ptr) (r : List Ptr × Iter)
    → iter_next h steps it ≡ ok (node, it2)
    → (node == null) ≡ true
    → iter_all true h steps (suc fuel) it ≡ ok r
    → dot_nodes h steps (suc fuel) it ≡ parts h (r.0)
unfolding iter_all iter_dir dot_nodes parts
dot_end h steps fuel it it2 node r run end e =
    let only : ok (no_more it2) ≡ ok r = rw (run, end) at e in
    rw (run, end, ← nodes_of_end it2 r only) refl

fault_ok : {A : Type 0} {a : A} → fault ≡ ok a → ⊥
fault_ok e = cc

out_of_fuel_ok : {A : Type 0} {a : A} → out_of_fuel ≡ ok a → ⊥
out_of_fuel_ok e = cc

dot_round :
    (h : Heap) (steps fuel : ℕ) (it it1 : Iter) (nodes : List Ptr) (run : Run (Ptr × Iter))
    → ((it2 : Iter) (more : List Ptr)
        → iter_all true h steps fuel it2 ≡ ok (more, it1)
        → dot_nodes h steps fuel it2 ≡ parts h more)
    → iter_next h steps it ≡ run
    → iter_all true h steps (suc fuel) it ≡ ok (nodes, it1)
    → dot_nodes h steps (suc fuel) it ≡ parts h nodes
unfolding iter_all iter_dir dot_nodes parts
dot_round h steps fuel it it1 nodes fault ih run e = absurd (fault_ok (rw run at e))
dot_round h steps fuel it it1 nodes out_of_fuel ih run e = absurd (out_of_fuel_ok (rw run at e))
dot_round h steps fuel it it1 nodes (ok (node, it2)) ih run e = elim (Bool-cases (node == null)) [
  | inl end ↦ dot_end h steps fuel it it2 node (nodes, it1) run end e
  | inr real ↦
      let (more, rest, eq) =
        rest_of node nodes it1 (iter_all true h steps fuel it2) (rw (run, real) at e) in
      rw (run, real, eq, ih it2 more rest) refl
]

dot_nodes-parts :
    (h : Heap) (steps fuel : ℕ) (it it1 : Iter) (nodes : List Ptr)
    → iter_all true h steps fuel it ≡ ok (nodes, it1)
    → dot_nodes h steps fuel it ≡ parts h nodes
unfolding iter_all
dot_nodes-parts h steps zero it it1 nodes e = cc
dot_nodes-parts h steps (suc fuel) it it1 nodes e =
    dot_round h steps fuel it it1 nodes (iter_next h steps it)
      (λ it2 more run. dot_nodes-parts h steps fuel it2 it1 more run) refl e

parts_none : (h : Heap) → parts h [] ≡ ok []
unfolding parts
parts_none h = refl

-- On a set, when each step of the iterator is given more rounds than three for each node and one
-- more, more steps may be made than there are nodes, and the keys of the nodes below the root are
-- strings that end with a NUL and have at most 8192 bytes, the writing of the graph returns. It
-- writes the root, the edge from its left child to the head of the trie and the edge of its right
-- child to itself, and then the picture of the trie, in which each branch, from above and from
-- left to right, has a label with its position and the bytes of its string and its left and its
-- right edge, each down to a branch, to the node itself or back to another node as the trie has
-- it.
pub patriset_todot-order :
    {h : Heap} {root : Ptr} (t : Trie) (steps fuel : ℕ) (strings : Ptr → List ℕ)
    → IsNodeSet h root t
    → 3 * nodes_of t + 1 < steps
    → nodes_of t < fuel
    → AreStrings h t strings
    → patriset_todot h steps fuel root
      ≡ ok (root_part root ∷ edge_to root false t ∷ self_edge root true root ∷ picture strings t)
unfolding patriset_todot dot_edges
patriset_todot-order {h} {root} t steps fuel strings s f m texts =
    let (it0, it1, it2, set_up, run, back) =
      iter_all-order t t null true pre_order steps fuel s (inl (refl, refl)) (omega arith) f m in
    let same = dot_nodes-parts h steps fuel it0 it1 (order pre_order true t) run in
    let nodes = parts-picture h strings 0 t [] [] s.rep texts (parts_none h) in
    let drawn =
      same ∙ rw (append-nil (order pre_order true t), append-nil (picture strings t)) at nodes in
    let west = dot_edge-edge_to h root s.anchor false t s.top (rw s.start s.rep) in
    let self : (root == root) ≡ true = ground arith in
    let flat : ltb s.anchor.bpos s.anchor.bpos ≡ false = ground arith in
    rw
      (
        set_up,
        load-ok h root s.anchor s.at_root,
        west,
        s.self,
        load-ok h root s.anchor s.at_root,
        flat,
        self,
        drawn,
      )
      refl
