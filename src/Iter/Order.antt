-- ===== src/Iter/Order.antt =====
-- The order in which the iterators of src/cpatricia_set.c return the nodes of a trie.
use mathlib.Core.List.{reverse, reverse-cons, reverse-append, append_assoc, append-nil}
use patricia_c.Base.{
  ℕ, suc, ◌+◌, ◌<◌, ◌≡◌, ◌⊎◌, inl, inr, refl, sym, ap, ◌∙◌, Bool, true, false, ◌==◌, if◌then◌else◌,
  List, [], ◌∷◌, ◌++◌, arith, Bool-cases,
}
use patricia_c.Heap.{Ptr}
use patricia_c.Trie.{Trie, leaf, branch, inner, one_if}
use patricia_c.Evict.Dead.{occurs, length}
use patricia_c.Evict.Funnel.{nodes_of}
use patricia_c.Iter.{fwd_table, rev_table, pre_order, in_order, post_order}
use patricia_c.Iter.Tour.{Event, event, table_of, last, opening, tour, yields, yields-append}

-- A node with what is before and behind it, in the order of a mode.
abbrev pub arranged : ℕ → Ptr → List Ptr → List Ptr → List Ptr
arranged mode p a b =
    if mode == pre_order
    then p ∷ (a ++ b)
    else if mode == in_order
    then a ++ (p ∷ b)
    else a ++ (b ++ (p ∷ []))

-- The nodes of a trie in the order of a mode, from left to right or from right to left.
unfoldable pub order : ℕ → Bool → Trie → List Ptr
order mode dir (leaf q) = []
order mode dir (branch p c l r) =
    let a = order mode dir l in
    let b = order mode dir r in arranged mode p (if dir then a else b) (if dir then b else a)

-- Whether a mode shows a node at an event of the mode `want`.
abbrev shows : ℕ → ℕ → Ptr → List Ptr
shows want mode p = if want == mode then p ∷ [] else []

abbrev early : Bool → ℕ
early fwd = if fwd then pre_order else post_order

abbrev late : Bool → ℕ
late fwd = if fwd then post_order else pre_order

yields-cons :
    (fwd : Bool) (mode : ℕ) (e : Event) (es : List Event)
    → yields fwd mode (e ∷ es) ≡ shows (table_of fwd e.way).mode mode e.at ++ yields fwd mode es
unfolding yields
yields-cons fwd mode e es = elim (Bool-cases ((table_of fwd e.way).mode == mode)) [
  | inl shown ↦ rw shown refl
  | inr hidden ↦ rw hidden refl
]

pub yields-nil : (fwd : Bool) (mode : ℕ) → yields fwd mode [] ≡ []
unfolding yields
yields-nil fwd mode = refl

yields-opening :
    (fwd : Bool) (mode p : ℕ) (a b : List Event)
    → yields fwd mode (opening fwd p a b ++ (event (last fwd) p ∷ []))
      ≡ shows (early fwd) mode p
        ++ (yields fwd mode a
            ++ (shows in_order mode p ++ (yields fwd mode b ++ shows (late fwd) mode p)))
unfolding fwd_table rev_table
yields-opening true mode p a b =
    simp (yields-cons, yields-append, yields-nil, append_assoc, append-nil)
yields-opening false mode p a b =
    simp (yields-cons, yields-append, yields-nil, append_assoc, append-nil)

mode_cases : (mode : ℕ) → mode < 3 → (mode ≡ 0) ⊎ (mode ≡ 1) ⊎ (mode ≡ 2)
mode_cases mode l = ground arith

arranged-forward :
    (mode p : ℕ) (a b : List Ptr)
    → mode < 3
    → shows pre_order mode p ++ (a ++ (shows in_order mode p ++ (b ++ shows post_order mode p)))
      ≡ arranged mode p a b
arranged-forward mode p a b l = elim (mode_cases mode l) [
  | inl e ↦ rw e (ap (λ x. p ∷ (a ++ x)) (append-nil b))
  | inr (inl e) ↦ rw e (ap (λ x. a ++ (p ∷ x)) (append-nil b))
  | inr (inr e) ↦ rw e refl
]

arranged-reverse :
    (mode p : ℕ) (a b : List Ptr)
    → mode < 3
    → shows post_order mode p
        ++ (reverse b ++ (shows in_order mode p ++ (reverse a ++ shows pre_order mode p)))
      ≡ reverse (arranged mode p a b)
arranged-reverse mode p a b l = elim (mode_cases mode l) [
  | inl e ↦ rw e (
      sym (
        reverse-cons p (a ++ b)
        ∙ ap (λ x. x ++ (p ∷ [])) (reverse-append a b)
        ∙ append_assoc (reverse b) (reverse a) (p ∷ [])))
  | inr (inl e) ↦ rw e (
      ap (λ x. reverse b ++ (p ∷ x)) (append-nil (reverse a))
      ∙ sym (
          reverse-append a (p ∷ b)
          ∙ ap (λ x. x ++ reverse a) (reverse-cons p b)
          ∙ append_assoc (reverse b) (p ∷ []) (reverse a)))
  | inr (inr e) ↦ rw e (
      ap (λ x. p ∷ (reverse b ++ x)) (append-nil (reverse a))
      ∙ sym
          (reverse-append a (b ++ (p ∷ [])) ∙ ap (λ x. x ++ reverse a) (reverse-append b (p ∷ []))))
]

-- The nodes that are returned of a node with the tours of its subtries.
forward-opening :
    (mode p : ℕ) (a b : List Event) (xs ys : List Ptr)
    → mode < 3
    → yields true mode a ≡ xs
    → yields true mode b ≡ ys
    → yields true mode (opening true p a b ++ (event (last true) p ∷ [])) ≡ arranged mode p xs ys
forward-opening mode p a b xs ys w ea eb =
    yields-opening true mode p a b ∙ rw (ea, eb) (arranged-forward mode p xs ys w)

backward-opening :
    (mode p : ℕ) (a b : List Event) (xs ys : List Ptr)
    → mode < 3
    → yields false mode a ≡ reverse ys
    → yields false mode b ≡ reverse xs
    → yields false mode (opening false p a b ++ (event (last false) p ∷ []))
      ≡ reverse (arranged mode p xs ys)
backward-opening mode p a b xs ys w ea eb =
    yields-opening false mode p a b ∙ rw (ea, eb) (arranged-reverse mode p xs ys w)

-- A tour forward returns the nodes in their order, one backward in the reverse order.
pub yields-tour_forward :
    (mode : ℕ) (dir : Bool) (t : Trie)
    → mode < 3
    → yields true mode (tour true dir t) ≡ order mode dir t
unfolding tour order
yields-tour_forward mode dir (leaf q) w = yields-nil true mode
yields-tour_forward mode true (branch p c l r) w =
    forward-opening mode p _ _ _ _ w (yields-tour_forward mode true l w)
      (yields-tour_forward mode true r w)
yields-tour_forward mode false (branch p c l r) w =
    forward-opening mode p _ _ _ _ w (yields-tour_forward mode false r w)
      (yields-tour_forward mode false l w)

pub yields-tour_backward :
    (mode : ℕ) (dir : Bool) (t : Trie)
    → mode < 3
    → yields false mode (tour false dir t) ≡ reverse (order mode dir t)
unfolding tour order
yields-tour_backward mode dir (leaf q) w = yields-nil false mode
yields-tour_backward mode true (branch p c l r) w =
    backward-opening mode p (tour false true r) (tour false true l) (order mode true l)
      (order mode true r) w (yields-tour_backward mode true r w)
      (yields-tour_backward mode true l w)
yields-tour_backward mode false (branch p c l r) w =
    backward-opening mode p (tour false false l) (tour false false r) (order mode false r)
      (order mode false l) w (yields-tour_backward mode false l w)
      (yields-tour_backward mode false r w)

occurs-append : (xs ys : List Ptr) (q : Ptr) → occurs (xs ++ ys) q ≡ occurs xs q + occurs ys q
unfolding occurs
occurs-append [] ys q = omega arith
occurs-append (x ∷ xs) ys q = omega (arith, occurs-append xs ys q)

occurs-arranged :
    (mode p : ℕ) (a b : List Ptr) (q : Ptr)
    → occurs (arranged mode p a b) q ≡ one_if (p == q) + occurs a q + occurs b q
unfolding occurs
occurs-arranged mode p a b q = elim (Bool-cases (mode == pre_order)) [
  | inl e ↦ rw e (omega (arith, occurs-append a b q))
  | inr e ↦ elim (Bool-cases (mode == in_order)) [
    | inl f ↦ rw (e, f) (omega (arith, occurs-append a (p ∷ b) q))
    | inr f ↦
        rw (e, f) (omega (arith, occurs-append a (b ++ (p ∷ [])) q, occurs-append b (p ∷ []) q))
  ]
]

-- The order has each node of the trie as often as the trie.
pub occurs-order :
    (mode : ℕ) (dir : Bool) (t : Trie) (q : Ptr) → occurs (order mode dir t) q ≡ inner t q
unfolding order occurs inner
occurs-order mode dir (leaf p) q = refl
occurs-order mode true (branch p c l r) q =
    occurs-arranged mode p (order mode true l) (order mode true r) q
    ∙ rw (occurs-order mode true l q, occurs-order mode true r q) refl
occurs-order mode false (branch p c l r) q =
    occurs-arranged mode p (order mode false r) (order mode false l) q
    ∙ omega (arith, occurs-order mode false l q, occurs-order mode false r q)

-- The order has the length of the trie, in both directions.
length-both : (xs ys : List Ptr) → length (xs ++ ys) ≡ length xs + length ys
unfolding length
length-both [] ys = omega arith
length-both (x ∷ xs) ys = omega (arith, length-both xs ys)

pub length-reverse : (xs : List Ptr) → length (reverse xs) ≡ length xs
unfolding length
length-reverse [] = refl
length-reverse (x ∷ xs) =
    ap length (reverse-cons x xs)
    ∙ omega (arith, length-both (reverse xs) (x ∷ []), length-reverse xs)

length-arranged :
    (mode p : ℕ) (a b : List Ptr) → length (arranged mode p a b) ≡ suc (length a + length b)
unfolding length
length-arranged mode p a b = elim (Bool-cases (mode == pre_order)) [
  | inl e ↦ rw e (omega (arith, length-both a b))
  | inr e ↦ elim (Bool-cases (mode == in_order)) [
    | inl f ↦ rw (e, f) (omega (arith, length-both a (p ∷ b)))
    | inr f ↦ rw (e, f) (omega (arith, length-both a (b ++ (p ∷ [])), length-both b (p ∷ [])))
  ]
]

pub length-order : (mode : ℕ) (dir : Bool) (t : Trie) → length (order mode dir t) ≡ nodes_of t
unfolding order nodes_of length
length-order mode dir (leaf p) = refl
length-order mode true (branch p c l r) =
    length-arranged mode p (order mode true l) (order mode true r)
    ∙ rw (length-order mode true l, length-order mode true r) refl
length-order mode false (branch p c l r) =
    length-arranged mode p (order mode false r) (order mode false l)
    ∙ omega (arith, length-order mode false l, length-order mode false r)

pub length-yields :
    (fwd : Bool) (mode : ℕ) (dir : Bool) (t : Trie)
    → mode < 3
    → length (yields fwd mode (tour fwd dir t)) ≡ nodes_of t
length-yields true mode dir t w =
    ap length (yields-tour_forward mode dir t w) ∙ length-order mode dir t
length-yields false mode dir t w =
    ap length (yields-tour_backward mode dir t w)
    ∙ length-reverse (order mode dir t)
    ∙ length-order mode dir t
