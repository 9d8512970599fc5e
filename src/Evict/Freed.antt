-- ===== src/Evict/Freed.antt =====
-- The funnel of `patriset_fini` on a chain.
use mathlib.Core.Path.{subst}
use patricia_c.Base.{
  ℕ, zero, suc, ◌+◌, ◌^◌, ◌≤◌, ◌<◌, ◌≡◌, ◌≢◌, ◌⊎◌, refl, ap, ◌∙◌, true, false, some, arith, ◌==◌,
  ltb, leb, ==_iff, Bool-cases, inl, inr, List, [], ◌∷◌, ◌++◌,
}
use patricia_c.Heap.{Ptr, Node, Heap, write, write_lem, ok, load-ok, store-ok}
use patricia_c.Trie.{Trie, leaf, branch, inner, one_if}
use patricia_c.Tree.Insert.{rounds_lem}
use patricia_c.Tree.Rep.{Rep, label_node}
use patricia_c.Evict.{graft_right, funnel}
use patricia_c.Evict.Funnel.{
  Item, spine, front, held, nodes_of, weight, held-spine, held-append, weight-spine, weight-append,
  Lower-write, Chain, Chain-Lower, Chain-append, rightmost, rightmost-in, right_end-rightmost,
  write-other, one_self, Chain-graft,
}
use patricia_c.Evict.Dead.{occurs, length, Dead, Dead-frame}

-- Every branch of a trie is a node.
pub branch_node :
    (h : Heap) (b : ℕ) (t : Trie) (q : Ptr)
    → Rep h b t
    → 0 < inner t q
    → (n : Node) × (h q ≡ some n)
unfolding inner
branch_node h b (leaf p) q rep i = absurd (omega arith)
branch_node h b (branch p c l r) q (n, e, pos, el, er, d, w, rl, rr) i =
    elim (Bool-cases (p == q)) [
      | inl here ↦ (n, rw (← (==_iff p q).0 here) e)
      | inr other ↦ elim (Bool-cases (ltb 0 (inner l q))) [
        | inl left ↦ branch_node h c l q rl (ground arith)
        | inr right ↦ branch_node h c r q rr (ground arith)
      ]
    ]

-- What the funnel does: every node of the list joins the dead ones, and no other is touched.
abbrev pub Drained : Heap → Ptr → List Item → List Ptr → ℕ → Ptr → Ptr → Type 0
Drained h root xs ds fuel list hold =
    (list' : Ptr) × (h' : Heap) × (ds' : List Ptr) × (funnel h root fuel list hold ≡ ok (list', h'))
    × Dead h' list' ds'
    × ((q : Ptr) → occurs ds' q ≡ occurs ds q + held xs q)
    × (length ds' ≡ length ds + weight xs)
    × ((q : Ptr) → occurs ds q + held xs q ≡ 0 → h' q ≡ h q)

-- The node that a round puts on the dead list.
abbrev buried : Node → Ptr → Node
buried n list = record n { bpos = 0; left = list }

module _ (root : Ptr) where
  -- The heap after a round, from the one before its last writes.
  after_round :
      (h1 : Heap) (p : Ptr) (n : Node) (list : Ptr) (xs : List Item) (ds : List Ptr)
      → h1 p ≡ some n
      → Chain h1 xs root
      → Dead h1 list ds
      → held xs p ≡ 0
      → occurs ds p ≡ 0
      → Chain (write h1 p (some (buried n list))) xs root
        × Dead (write h1 p (some (buried n list))) p (p ∷ ds)
  unfolding Dead
  after_round h1 p n list xs ds at chain dead out gone =
      let h2 = write h1 p (some (buried n list)) in
      (
        Chain-Lower h1 h2 xs root (Lower-write h1 p n (buried n list) at (omega arith))
            (λ a i.
              write-other h1 p (some (buried n list)) a
                (λ z. absurd (omega (arith, ap (held xs) z, out))))
            chain,
        (
          refl,
          buried n list,
          ground (arith, write_lem h1 p (some (buried n list)) p),
          Dead-frame h1 h2 list ds
              (λ a i.
                write-other h1 p (some (buried n list)) a
                  (λ z. absurd (omega (arith, ap (occurs ds) z, gone))))
              dead,
        ),
      )

  -- A round in front of the others.
  before_rounds :
      (h h1 : Heap) (p : Ptr) (n : Node) (l : Trie) (list : Ptr) (rest xs : List Item)
      (ds : List Ptr) (fuel : ℕ)
      → ((q : Ptr) → held xs q ≡ inner l q + held rest q)
      → weight xs ≡ nodes_of l + weight rest
      → ((q : Ptr) → 0 < one_if (p == q) + inner l q ⊎ (h1 q ≡ h q))
      → funnel h root (suc fuel) list p
        ≡ funnel (write h1 p (some (buried n list))) root fuel p (front root xs)
      → Drained (write h1 p (some (buried n list))) root xs (p ∷ ds) fuel p (front root xs)
      → Drained h root (record { node = p; below = l } ∷ rest) ds (suc fuel) list p
  unfolding held weight occurs length
  before_rounds h h1 p n l list rest xs ds fuel same_held same_weight same step
        (list', h', ds', run, dead, count, len, kept) =
      (
        list',
        h',
        ds',
        step ∙ run,
        dead,
        λ q. omega (arith, count q, same_held q),
        omega (arith, len, same_weight),
        λ q z. elim (same q) [
          | inl i ↦ absurd (omega (arith, z, i))
          | inr e ↦
              kept q (omega (arith, z, same_held q))
              ∙ write-other h1 p (some (buried n list)) q
                  (λ y. absurd (omega (arith, z, ap (λ x. one_if (p == x)) y, one_self p)))
              ∙ e
        ],
      )

  -- What is known of the rounds that follow.
  abbrev pub Further : ℕ → Type 0
  Further fuel =
      (h : Heap) (list : Ptr) (xs : List Item) (ds : List Ptr)
      → Chain h xs root
      → Dead h list ds
      → ((q : Ptr) → occurs ds q + held xs q ≤ 1)
      → held xs root ≡ 0
      → weight xs < fuel
      → Drained h root xs ds fuel list (front root xs)

  -- A round: the left child is an uplink, or its subtrie is put in front of the rest.
  front_round :
      (h : Heap) (fuel : ℕ) (list : Ptr) (rest : List Item) (ds : List Ptr) (p : Ptr) (below : Trie)
      → Further fuel
      → Dead h list ds
      → Chain h (record { node = p; below = below } ∷ rest) root
      → ((q : Ptr) → occurs ds q + held (record { node = p; below = below } ∷ rest) q ≤ 1)
      → held (record { node = p; below = below } ∷ rest) root ≡ 0
      → weight (record { node = p; below = below } ∷ rest) < suc fuel
      → Drained h root (record { node = p; below = below } ∷ rest) ds (suc fuel) list p
  unfolding inner nodes_of funnel Chain held weight occurs front graft_right spine
  front_round h fuel list rest ds p (leaf q) further dead (n, at, er, el, w, (l, e, d), tail) once
        out f =
      let (m, em, pos, key) = label_node (h q) l e in
      let up : leb m.bpos n.bpos ≡ true = ground (arith, pos, d) in
      let apart : (root == p) ≡ false = ground (arith, out) in
      let self = one_self p in
      let (tail2, dead2) =
        after_round h p n list rest ds at tail dead (omega (arith, once p, self))
          (omega (arith, once p, self)) in
      before_rounds h h p n (leaf q) list rest rest ds fuel (λ a. omega arith) (omega arith)
        (λ a. inr refl)
        (rw
          (
            apart,
            load-ok h p n at,
            el,
            load-ok h q m em,
            up,
            load-ok h p n at,
            store-ok h p n (buried n list) at,
            er,
          )
          refl)
        (further (write h p (some (buried n list))) p rest (p ∷ ds) tail2 dead2
          (λ a. omega (arith, once a)) (omega (arith, out)) (omega (arith, f)))
  front_round h fuel list rest ds p (branch s c u v) further dead (n, at, er, el, w, rep, tail) once
        out f =
      let last = rightmost s v in
      let below = branch s c u v in
      let inside = rightmost-in s c u v in
      let self = one_self p in
      let (z, ez) = branch_node h n.bpos below last rep inside in
      let down : leb rep.0.bpos n.bpos ≡ false = ground (arith, rep.2, rep.5) in
      let apart : (root == p) ≡ false = ground (arith, out) in
      let ne : p ≢ last = λ y. absurd (omega (arith, ap (inner below) y, inside, once p, self)) in
      let h1 = write h last (some (record z { right = n.right })) in
      let xs = spine below ++ rest in
      let grafted : Chain h1 (spine below) (front root rest) =
        subst (λ a. Chain h1 (spine below) a) er
          (Chain-graft h n.bpos s c u v z n.right rep (λ a. omega (arith, once a)) ez) in
      let tail1 : Chain h1 rest root =
        Chain-Lower h h1 rest root
          (Lower-write h last z (record z { right = n.right }) ez (omega arith))
          (λ a i.
            write-other h last _ a
              (λ y. absurd (omega (arith, ap (held rest) y, once last, inside))))
          tail in
      let dead1 : Dead h1 list ds =
        Dead-frame h h1 list ds
          (λ a i.
            write-other h last _ a
              (λ y. absurd (omega (arith, ap (occurs ds) y, once last, inside))))
          dead in
      let all : (a : Ptr) → held xs a ≡ inner below a + held rest a =
        λ a. held-append (spine below) rest a ∙ ap (λ k. k + held rest a) (held-spine below a) in
      let many : weight xs ≡ nodes_of below + weight rest =
        weight-append (spine below) rest ∙ ap (λ k. k + weight rest) (weight-spine below) in
      let at1 : h1 p ≡ some n = write-other h last _ p ne ∙ at in
      let (chain2, dead2) =
        after_round h1 p n list xs ds at1 (Chain-append h1 (spine below) rest root grafted tail1)
          dead1 (omega (arith, all p, once p, self)) (omega (arith, once p, self)) in
      before_rounds h h1 p n below list rest xs ds fuel all many
        (λ a. elim (Bool-cases (a == last)) [
          | inl here ↦
              let y : a ≡ last = (==_iff a last).0 here in
              inl (omega (arith, ap (inner below) y, inside))
          | inr there ↦ inr (write-other h last _ a (ground arith))
        ])
        (rw
          (
            apart,
            load-ok h p n at,
            el,
            load-ok h s rep.0 rep.1,
            down,
            rounds_lem,
            right_end-rightmost h (2 ^ 16) n.bpos s c u v rep (omega arith),
            load-ok h last z ez,
            store-ok h last z (record z { right = n.right }) ez,
            load-ok h1 p n at1,
            store-ok h1 p n (buried n list) at1,
          )
          refl)
        (further (write h1 p (some (buried n list))) p xs (p ∷ ds) chain2 dead2
          (λ a. omega (arith, once a, all a)) (omega (arith, out, all root))
          (omega (arith, f, many)))

  -- The funnel on a chain, given a round for each of its nodes.
  pub funnel-Drained : (fuel : ℕ) → Further fuel
  unfolding funnel held weight front
  funnel-Drained zero h list xs ds chain dead once out f = absurd (omega arith)
  funnel-Drained (suc fuel) h list [] ds chain dead once out f =
      let stop : (root == root) ≡ true = ground arith in
      (list, h, ds, rw stop refl, dead, λ q. omega arith, omega arith, λ q z. refl)
  funnel-Drained (suc fuel) h list (x ∷ rest) ds chain dead once out f =
      front_round h fuel list rest ds x.node x.below (funnel-Drained fuel) dead chain once out f
