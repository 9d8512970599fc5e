-- ===== src/Iter/Under.antt =====
-- Which node of a trie is the parent of which by a downlink, for `iter_parentPop` of
-- src/cpatricia_set.c.
use patricia_c.Base.{
  ℕ, ◌+◌, ◌≤◌, ◌<◌, ◌≡◌, ◌⊎◌, inl, inr, sym, ap, ◌∙◌, true, some, ◌==◌, ltb, ==_iff, arith,
  Bool-cases,
}
use patricia_c.Heap.{Ptr, Node, Heap}
use patricia_c.Trie.{Trie, leaf, branch, addr, inner, one_if}
use patricia_c.Tree.Rep.{Rep, label_node}
use patricia_c.Evict.{is_parent_of}
use patricia_c.Evict.Funnel.{one_self}

-- The trie has the node at its head.
abbrev pub IsHead : Trie → Ptr → Type 0
IsHead (leaf p) x = ⊥
IsHead (branch p c l r) x = p ≡ x

-- The downlink of the branch `q` leads to the branch `x`.
abbrev pub Under : Trie → Ptr → Ptr → Type 0
Under (leaf p) q x = ⊥
Under (branch p c l r) q x = ((p ≡ q) × (IsHead l x ⊎ IsHead r x)) ⊎ Under l q x ⊎ Under r q x

pub IsHead-inner : (t : Trie) (x : Ptr) → IsHead t x → 0 < inner t x
unfolding inner
IsHead-inner (leaf p) x e = absurd e
IsHead-inner (branch p c l r) x e = ground arith

-- Both are branches.
pub Under-inner : (t : Trie) (q x : Ptr) → Under t q x → 0 < inner t q
unfolding inner
Under-inner (leaf p) q x u = absurd u
Under-inner (branch p c l r) q x (inl (e, at)) = ground arith
Under-inner (branch p c l r) q x (inr (inl u)) = omega (arith, Under-inner l q x u)
Under-inner (branch p c l r) q x (inr (inr u)) = omega (arith, Under-inner r q x u)

pub below-inner : (t : Trie) (q x : Ptr) → Under t q x → 0 < inner t x
unfolding inner
below-inner (leaf p) q x u = absurd u
below-inner (branch p c l r) q x (inl (e, inl at)) = omega (arith, IsHead-inner l x at)
below-inner (branch p c l r) q x (inl (e, inr at)) = omega (arith, IsHead-inner r x at)
below-inner (branch p c l r) q x (inr (inl u)) = omega (arith, below-inner l q x u)
below-inner (branch p c l r) q x (inr (inr u)) = omega (arith, below-inner r q x u)

-- A node below the head is in one of the subtries.
below-parts :
    (p : Ptr) (c : ℕ) (l r : Trie) (q x : Ptr)
    → Under (branch p c l r) q x
    → 0 < inner l x + inner r x
below-parts p c l r q x (inl (e, inl at)) = omega (arith, IsHead-inner l x at)
below-parts p c l r q x (inl (e, inr at)) = omega (arith, IsHead-inner r x at)
below-parts p c l r q x (inr (inl u)) = omega (arith, below-inner l q x u)
below-parts p c l r q x (inr (inr u)) = omega (arith, below-inner r q x u)

-- The head has no parent, when no node occurs twice.
pub Under-IsHead :
    (t : Trie) (q x : Ptr) → ((a : Ptr) → inner t a ≤ 1) → Under t q x → IsHead t x → ⊥
unfolding inner
Under-IsHead (leaf p) q x once u at = at
Under-IsHead (branch p c l r) q x once u at =
    omega (arith, below-parts p c l r q x u, once x, ap (λ z. one_if (z == x)) at, one_self x)

-- And a node has one parent only.
pub Under-unique :
    (t : Trie) (q q' x : Ptr) → ((a : Ptr) → inner t a ≤ 1) → Under t q x → Under t q' x → q ≡ q'
unfolding inner
Under-unique (leaf p) q q' x once u v = absurd u
Under-unique (branch p c l r) q q' x once (inl (e, at)) (inl (f, to)) = sym e ∙ f
Under-unique (branch p c l r) q q' x once (inr (inl u)) (inr (inl v)) =
    Under-unique l q q' x (λ a. omega (arith, once a)) u v
Under-unique (branch p c l r) q q' x once (inr (inr u)) (inr (inr v)) =
    Under-unique r q q' x (λ a. omega (arith, once a)) u v
Under-unique (branch p c l r) q q' x once (inr (inl u)) (inr (inr v)) =
    absurd (omega (arith, below-inner l q x u, below-inner r q' x v, once x))
Under-unique (branch p c l r) q q' x once (inr (inr u)) (inr (inl v)) =
    absurd (omega (arith, below-inner r q x u, below-inner l q' x v, once x))
Under-unique (branch p c l r) q q' x once (inl (e, inl at)) (inr (inl v)) =
    absurd (Under-IsHead l q' x (λ a. omega (arith, once a)) v at)
Under-unique (branch p c l r) q q' x once (inl (e, inl at)) (inr (inr v)) =
    absurd (omega (arith, IsHead-inner l x at, below-inner r q' x v, once x))
Under-unique (branch p c l r) q q' x once (inl (e, inr at)) (inr (inl v)) =
    absurd (omega (arith, IsHead-inner r x at, below-inner l q' x v, once x))
Under-unique (branch p c l r) q q' x once (inl (e, inr at)) (inr (inr v)) =
    absurd (Under-IsHead r q' x (λ a. omega (arith, once a)) v at)
Under-unique (branch p c l r) q q' x once (inr (inl u)) (inl (e, inl at)) =
    absurd (Under-IsHead l q x (λ a. omega (arith, once a)) u at)
Under-unique (branch p c l r) q q' x once (inr (inr u)) (inl (e, inl at)) =
    absurd (omega (arith, IsHead-inner l x at, below-inner r q x u, once x))
Under-unique (branch p c l r) q q' x once (inr (inl u)) (inl (e, inr at)) =
    absurd (omega (arith, IsHead-inner r x at, below-inner l q x u, once x))
Under-unique (branch p c l r) q q' x once (inr (inr u)) (inl (e, inr at)) =
    absurd (Under-IsHead r q x (λ a. omega (arith, once a)) u at)

-- A branch of a trie in the heap is a node.
pub inner_node :
    (h : Heap) (b : ℕ) (t : Trie) (q : Ptr)
    → Rep h b t
    → 0 < inner t q
    → (n : Node) × (h q ≡ some n)
unfolding inner
inner_node h b (leaf p) q rep i = absurd (omega arith)
inner_node h b (branch p c l r) q (n, e, pos, el, er, d, w, rl, rr) i = elim (Bool-cases (p == q)) [
  | inl here ↦ (n, ap h (sym ((==_iff p q).0 here)) ∙ e)
  | inr apart ↦ elim (Bool-cases (ltb 0 (inner l q))) [
    | inl left ↦ inner_node h c l q rl (ground arith)
    | inr right ↦ inner_node h c r q rr (ground arith)
  ]
]

-- The child at the address of a subtrie that is further down is the head of this subtrie.
pub further_IsHead :
    (h : Heap) (b : ℕ) (t : Trie) (x : Ptr) (n : Node)
    → Rep h b t
    → h x ≡ some n
    → b < n.bpos
    → addr t ≡ x
    → IsHead t x
further_IsHead h b (leaf p) x n (lab, el, le) e less at =
    let (m, em, pos, key) = label_node (h p) lab el in
    let eq : some m ≡ some n = sym em ∙ ap h at ∙ e in
    let same : m ≡ n = ground arith in absurd (omega (arith, ap (λ y. y.bpos) same, pos, le))
further_IsHead h b (branch p c l r) x n rep e less at = at

-- What `iter_parentPop` tests of an entry of the stack says that it is the parent.
pub is_parent_of-Under :
    (h : Heap) (b : ℕ) (t : Trie) (q x : Ptr) (qn xn : Node)
    → Rep h b t
    → 0 < inner t q
    → h q ≡ some qn
    → h x ≡ some xn
    → is_parent_of qn x ≡ true
    → qn.bpos < xn.bpos
    → Under t q x
unfolding inner
is_parent_of-Under h b (leaf p) q x qn xn rep i eq ex par less = absurd (omega arith)
is_parent_of-Under h b (branch p c l r) q x qn xn (n, e, pos, el, er, d, w, rl, rr) i eq ex par
      less =
    elim (Bool-cases (p == q)) [
      | inl here ↦
          let at : p ≡ q = (==_iff p q).0 here in
          let both : some n ≡ some qn = sym e ∙ ap h at ∙ eq in
          let same : n ≡ qn = ground arith in
          let low : c < xn.bpos = omega (arith, ap (λ y. y.bpos) same, pos) in
          elim (Bool-cases (qn.left == x)) [
            | inl left ↦ inl (
              at,
              inl (
                  further_IsHead h c l x xn rl ex low
                    (sym el ∙ ap (λ y. y.left) same ∙ (==_iff qn.left x).0 left)),
            )
            | inr not_left ↦
                let right : (qn.right == x) ≡ true = ground arith in
                inl (
                  at,
                  inr (
                      further_IsHead h c r x xn rr ex low
                        (sym er ∙ ap (λ y. y.right) same ∙ (==_iff qn.right x).0 right)),
                )
          ]
      | inr apart ↦ elim (Bool-cases (ltb 0 (inner l q))) [
        | inl left ↦ inr (inl (is_parent_of-Under h c l q x qn xn rl (ground arith) eq ex par less))
        | inr right ↦
            inr (inr (is_parent_of-Under h c r q x qn xn rr (ground arith) eq ex par less))
      ]
    ]
