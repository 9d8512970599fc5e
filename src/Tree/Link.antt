-- ===== src/Tree/Link.antt =====
-- The writes that put a created node into the tree, and what they leave alone.
use patricia_c.Base.{
  ℕ, ◌<◌, ◌≡◌, ◌≢◌, inl, inr, refl, ◌∙◌, Bool, true, false, not, some, arith, ◌==◌, Bool-cases,
  if◌then◌else◌, ==_iff,
}
use patricia_c.Key.{Key, getbit}
use patricia_c.Heap.{Ptr, Node, set_child, Heap, write, write_lem, ok, load-ok, store-ok}
use patricia_c.Trie.{Trie, leaf, branch, leaves, inner}
use patricia_c.Tree.{Place, link}
use patricia_c.Tree.Rep.{Rep, label_of}

-- The created node with one link to itself and the other to what it displaces.
abbrev pub joined : Node → Bool → Ptr → Ptr → Node
joined n d node next = set_child (set_child n d node) (not d) next

-- The heap after the link: two cells are written.
pub record IsLinked (h : Heap) (k : Key) (bpos : ℕ) (node : Ptr) (at : Place) (h' : Heap)
    : Type 0 where
  pub created : Node
  pub at_node : h node ≡ some created
  pub parent : Node
  pub at_last : h at.last ≡ some parent
  pub cells :
      (a : Ptr)
      → h' a ≡ (
          if a == at.last
          then some (set_child parent at.pdir node)
          else if a == node
          then some (joined created (getbit k bpos) node at.next)
          else h a)

pub link-IsLinked :
    (h : Heap) (k : Key) (bpos : ℕ) (node : Ptr) (at : Place) (n p : Node)
    → h node ≡ some n
    → h at.last ≡ some p
    → at.last ≢ node
    → (h' : Heap) × (link h k bpos node at ≡ ok h') × IsLinked h k bpos node at h'
unfolding link
link-IsLinked h k bpos node at n p en ep ne =
    let d : Bool = getbit k bpos in
    let n1 : Node = set_child n d node in
    let n2 : Node = set_child n1 (not d) at.next in
    let h1 : Heap = write h node (some n1) in
    let h2 : Heap = write h1 node (some n2) in
    let e1 : h1 node ≡ some n1 = ground (arith, write_lem h node (some n1) node) in
    let e2 : h2 at.last ≡ some p =
      ground (arith, write_lem h node (some n1) at.last, write_lem h1 node (some n2) at.last) in
    (
      write h2 at.last (some (set_child p at.pdir node)),
      rw (
        load-ok h node n en,
        store-ok h node n n1 en,
        load-ok h1 node n1 e1,
        store-ok h1 node n1 n2 e1,
        load-ok h2 at.last p e2,
        store-ok h2 at.last p (set_child p at.pdir node) e2,
      ),
      record {
        created = n;
        at_node = en;
        parent = p;
        at_last = ep;
        cells = λ a. ground (
          arith,
          write_lem h node (some n1) a,
          write_lem h1 node (some n2) a,
          write_lem h2 at.last (some (set_child p at.pdir node)) a,
        );
      },
    )

set_child-label :
    (n : Node) (d : Bool) (p : Ptr) → label_of (some (set_child n d p)) ≡ label_of (some n)
set_child-label n true p = refl
set_child-label n false p = refl

-- Branch positions and keys stay.
pub IsLinked-label :
    {h : Heap} {k : Key} {bpos : ℕ} {node : Ptr} {at : Place} {h' : Heap}
    → IsLinked h k bpos node at h'
    → (a : Ptr) → label_of (h' a) ≡ label_of (h a)
IsLinked-label {h} {k} {bpos} {node} {at} {h'} l a = elim (Bool-cases (a == at.last)) [
  | inl here ↦
      let e : a ≡ at.last = (==_iff a at.last).0 here in
      rw (l.cells a, here, e, l.at_last) (set_child-label l.parent at.pdir node)
  | inr other ↦ elim (Bool-cases (a == node)) [
    | inl new ↦
        let e : a ≡ node = (==_iff a node).0 new in
        rw (l.cells a, other, new, e, l.at_node)
          (set_child-label (set_child l.created (getbit k bpos) node) (not (getbit k bpos)) at.next
            ∙ set_child-label l.created (getbit k bpos) node)
    | inr old ↦ rw (l.cells a, other, old)
  ]
]

-- A trie survives a change that keeps its branches and the labels of its leaves.
pub Rep-frame :
    (h h' : Heap) (b : ℕ) (t : Trie)
    → ((a : Ptr) → 0 < inner t a → h' a ≡ h a)
    → ((a : Ptr) → 0 < leaves t a → label_of (h' a) ≡ label_of (h a))
    → Rep h b t
    → Rep h' b t
unfolding inner leaves
Rep-frame h h' b (leaf p) same labels (n, e, l) = (n, labels p (ground arith) ∙ e, l)
Rep-frame h h' b (branch p c l r) same labels (n, e, pos, el, er, d, w, rl, rr) = (
  n,
  same p (ground arith) ∙ e,
  pos,
  el,
  er,
  d,
  w,
  Rep-frame h h' c l (λ a m. same a (omega arith)) (λ a m. labels a (omega arith)) rl,
  Rep-frame h h' c r (λ a m. same a (omega arith)) (λ a m. labels a (omega arith)) rr,
)
