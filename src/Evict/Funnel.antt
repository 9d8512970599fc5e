-- ===== src/Evict/Funnel.antt =====
-- What the funnel of `patriset_fini` works on: the nodes of a right spine, each with its left
-- subtrie, linked by their right children.
use mathlib.Core.Path.{subst}
use patricia_c.Base.{
  Option, ℕ, zero, suc, ◌+◌, ◌^◌, ◌≤◌, ◌<◌, ◌≡◌, ◌≢◌, refl, sym, ap, ◌∙◌, true, false, some, arith,
  ◌==◌, ltb, ==_iff, Bool-cases, inl, inr, List, [], ◌∷◌, ◌++◌,
}
use patricia_c.Heap.{Ptr, Node, Heap, write, write_lem, ok, load-ok}
use patricia_c.Trie.{Trie, leaf, branch, addr, inner, one_if}
use patricia_c.Tree.Rep.{Rep, label_of, label_node}
use patricia_c.Evict.{right_end}

-- A node with its left subtrie.
pub record Item : Type 0 where
  pub node : Ptr
  pub below : Trie

unfoldable pub spine : Trie → List Item
spine (leaf q) = []
spine (branch p c l r) = record { node = p; below = l } ∷ spine r

-- The first node of a list of them, or what follows it.
unfoldable pub front : Ptr → List Item → Ptr
front e [] = e
front e (x ∷ xs) = x.node

-- How often a node occurs in the list, and how many nodes there are.
unfoldable pub held : List Item → Ptr → ℕ
held [] q = 0
held (x ∷ xs) q = one_if (x.node == q) + inner x.below q + held xs q

unfoldable pub nodes_of : Trie → ℕ
nodes_of (leaf q) = 0
nodes_of (branch p c l r) = suc (nodes_of l + nodes_of r)

unfoldable pub weight : List Item → ℕ
weight [] = 0
weight (x ∷ xs) = suc (nodes_of x.below + weight xs)

pub held-spine : (t : Trie) (q : Ptr) → held (spine t) q ≡ inner t q
unfolding held spine inner
held-spine (leaf p) q = refl
held-spine (branch p c l r) q = rw (held-spine r q) refl

pub held-append : (xs ys : List Item) (q : Ptr) → held (xs ++ ys) q ≡ held xs q + held ys q
unfolding held
held-append [] ys q = omega arith
held-append (x ∷ xs) ys q = omega (arith, held-append xs ys q)

pub weight-spine : (t : Trie) → weight (spine t) ≡ nodes_of t
unfolding weight spine nodes_of
weight-spine (leaf p) = refl
weight-spine (branch p c l r) = rw (weight-spine r) refl

pub weight-append : (xs ys : List Item) → weight (xs ++ ys) ≡ weight xs + weight ys
unfolding weight
weight-append [] ys = omega arith
weight-append (x ∷ xs) ys = omega (arith, weight-append xs ys)

pub front-append : (e : Ptr) (xs ys : List Item) → front e (xs ++ ys) ≡ front (front e ys) xs
unfolding front
front-append e [] ys = refl
front-append e (x ∷ xs) ys = refl

-- No node moves further down from one heap to the other.
abbrev pub Lower : Heap → Heap → Type 0
Lower h h' = (a : Ptr) (n : Node) → h a ≡ some n → (m : Node) × (h' a ≡ some m) × (m.bpos ≤ n.bpos)

pub Lower-write :
    (h : Heap) (p : Ptr) (n m : Node)
    → h p ≡ some n
    → m.bpos ≤ n.bpos
    → Lower h (write h p (some m))
Lower-write h p n m e le a n' e' = elim (Bool-cases (a == p)) [
  | inl here ↦
      let at : a ≡ p = (==_iff a p).0 here in
      let same : some n ≡ some n' = sym e ∙ ap h (sym at) ∙ e' in
      let eq : n ≡ n' = ground arith in (m, ground (arith, write_lem h p (some m) a), rw (← eq) le)
  | inr other ↦ (n', ground (arith, write_lem h p (some m) a), omega arith)
]

-- What keeps the nodes of a trie and moves none further down keeps the trie.
pub Rep-Lower :
    (h h' : Heap) (b : ℕ) (t : Trie)
    → Lower h h'
    → ((a : Ptr) → 0 < inner t a → h' a ≡ h a)
    → Rep h b t
    → Rep h' b t
unfolding inner
Rep-Lower h h' b (leaf p) low same (l, e, d) =
    let (n, en, pos, key) = label_node (h p) l e in
    let (m, em, le) = low p n en in
    (record { bpos = m.bpos; key = m.key }, ap label_of em, omega arith)
Rep-Lower h h' b (branch p c l r) low same (n, e, pos, el, er, d, w, rl, rr) = (
  n,
  same p (ground arith) ∙ e,
  pos,
  el,
  er,
  d,
  w,
  Rep-Lower h h' c l low (λ a i. same a (omega arith)) rl,
  Rep-Lower h h' c r low (λ a i. same a (omega arith)) rr,
)

-- The list is linked in the heap and ends at `e`.
unfoldable pub Chain : Heap → List Item → Ptr → Type 0
Chain h [] e = Unit {0}
Chain h (x ∷ xs) e =
    (n : Node) × (h x.node ≡ some n)
    × (n.right ≡ front e xs)
    × (n.left ≡ addr x.below)
    × (n.bpos < 2 ^ 16)
    × Rep h n.bpos x.below
    × Chain h xs e

pub Chain-Lower :
    (h h' : Heap) (xs : List Item) (e : Ptr)
    → Lower h h'
    → ((a : Ptr) → 0 < held xs a → h' a ≡ h a)
    → Chain h xs e
    → Chain h' xs e
unfolding Chain held
Chain-Lower h h' [] e low same c = tt
Chain-Lower h h' (x ∷ xs) e low same (n, at, er, el, w, rep, rest) = (
  n,
  same x.node (ground arith) ∙ at,
  er,
  el,
  w,
  Rep-Lower h h' n.bpos x.below low (λ a i. same a (omega arith)) rep,
  Chain-Lower h h' xs e low (λ a i. same a (omega arith)) rest,
)

pub Chain-append :
    (h : Heap) (xs ys : List Item) (e : Ptr)
    → Chain h xs (front e ys)
    → Chain h ys e
    → Chain h (xs ++ ys) e
unfolding Chain
Chain-append h [] ys e c d = d
Chain-append h (x ∷ xs) ys e (n, at, er, el, w, rep, rest) d =
    (n, at, er ∙ sym (front-append e xs ys), el, w, rep, Chain-append h xs ys e rest d)

-- The last node of the right spine below the node `p`.
unfoldable pub rightmost : Ptr → Trie → Ptr
rightmost p (leaf q) = p
rightmost p (branch s c l r) = rightmost s r

pub rightmost-in : (p : Ptr) (c : ℕ) (l r : Trie) → 0 < inner (branch p c l r) (rightmost p r)
unfolding inner rightmost
rightmost-in p c l (leaf q) = ground arith
rightmost-in p c l (branch s d m r) = omega (arith, rightmost-in s d m r)

-- The inner loop of `patriset_fini`.
pub right_end-rightmost :
    (h : Heap) (fuel b : ℕ) (p : Ptr) (c : ℕ) (l r : Trie)
    → Rep h b (branch p c l r)
    → 2 ^ 16 ≤ fuel + b
    → right_end h fuel p ≡ ok (rightmost p r)
unfolding right_end rightmost
right_end-rightmost h zero b p c l r (n, e, pos, el, er, d, w, rl, rr) f = absurd (omega arith)
right_end-rightmost h (suc fuel) b p c l (leaf q) (n, e, pos, el, er, d, w, rl, (x, ex, le)) f =
    let (m, em, mpos, key) = label_node (h q) x ex in
    let stop : ltb n.bpos m.bpos ≡ false = ground (arith, pos, mpos, le) in
    rw (load-ok h p n e, er, load-ok h q m em, stop) refl
right_end-rightmost h (suc fuel) b p c l (branch s a u v) (n, e, pos, el, er, d, w, rl, rr) f =
    let go : ltb n.bpos rr.0.bpos ≡ true = ground (arith, pos, rr.2, rr.5) in
    rw (load-ok h p n e, er, load-ok h s rr.0 rr.1, go)
      (right_end-rightmost h fuel c s a u v rr (omega arith))

pub write-other : (h : Heap) (p : Ptr) (c : Option Node) (a : Ptr) → a ≢ p → write h p c a ≡ h a
write-other h p c a ne = ground (arith, write_lem h p c a)

pub one_self : (p : Ptr) → one_if (p == p) ≡ 1
one_self p = ground arith

-- The graft makes a chain of the spine, with another end.
pub Chain-graft :
    (h : Heap) (b : ℕ) (p : Ptr) (c : ℕ) (l r : Trie) (n : Node) (e : Ptr)
    → Rep h b (branch p c l r)
    → ((q : Ptr) → inner (branch p c l r) q ≤ 1)
    → h (rightmost p r) ≡ some n
    → Chain (write h (rightmost p r) (some (record n { right = e }))) (spine (branch p c l r)) e
unfolding Chain spine rightmost inner front
Chain-graft h b p c l (leaf q) n e (m, at, pos, el, er, d, w, rl, rr) once here =
    let eq : some m ≡ some n = sym at ∙ here in
    let same : m ≡ n = ground arith in
    let graft = record n { right = e } in
    (
      graft,
      ground (arith, write_lem h p (some graft) p),
      refl,
      rw (← same) el,
      rw (← same, pos) w,
      Rep-Lower h (write h p (some graft)) n.bpos l (Lower-write h p n graft here (omega arith))
          (λ a i.
            write-other h p (some graft) a
              (λ z. absurd (omega (arith, ap (inner l) z, once p, one_self p))))
          (subst (λ x. Rep h x l) (sym pos ∙ ap (λ x. x.bpos) same) rl),
      tt,
    )
Chain-graft h b p c l (branch s a u v) n e (m, at, pos, el, er, d, w, rl, rr) once here =
    let last = rightmost s v in
    let graft = record n { right = e } in
    let inside = rightmost-in s a u v in
    let apart : p ≢ last =
      λ z. absurd (omega (arith, ap (inner (branch s a u v)) z, inside, once p, one_self p)) in
    (
      m,
      write-other h last (some graft) p apart ∙ at,
      er,
      el,
      rw pos w,
      Rep-Lower h (write h last (some graft)) m.bpos l
          (Lower-write h last n graft here (omega arith))
          (λ q i.
            write-other h last (some graft) q
              (λ z. absurd (omega (arith, ap (inner l) z, inside, once last))))
          (subst (λ x. Rep h x l) (sym pos) rl),
      Chain-graft h c s a u v n e rr (λ q. omega (arith, once q)) here,
    )
