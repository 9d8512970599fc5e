-- ===== src/Iter/Events.antt =====
-- Every position of an iterator of src/cpatricia_set.c at a node is an event of the tours forward
-- and backward.
use patricia_c.Base.{
  ℕ, ◌+◌, ◌<◌, ◌≡◌, inl, inr, refl, sym, ap, Bool, true, false, ltb, ◌==◌, ==_iff, arith,
  Bool-cases, List, [], ◌∷◌, ◌++◌,
}
use mathlib.Core.Path.{subst}
use patricia_c.Heap.{Ptr}
use patricia_c.Trie.{Trie, leaf, branch, inner, one_if}
use patricia_c.Iter.{WayIn, in_head, in_down, in_up1, in_up2, in_tail}
use patricia_c.Iter.Tour.{Event, event, mid, last, lead, opening, tour}
use patricia_c.Iter.Sides.{tour_left, tour_right}
use patricia_c.Iter.Rounds.{Suffix}

-- The states at a node.
abbrev pub Busy : WayIn → Type 0
Busy in_head = ⊥
Busy in_down = Unit {0}
Busy in_up1 = Unit {0}
Busy in_up2 = Unit {0}
Busy in_tail = ⊥

-- An event occurs in a list, with what follows it.
abbrev pub At : Event → List Event → Type 0
At e es = (left : List Event) × Suffix (e ∷ left) es

Suffix-append :
    (left xs ys : List Event) (e : Event)
    → Suffix (e ∷ left) xs
    → Suffix (e ∷ (left ++ ys)) (xs ++ ys)
Suffix-append left [] ys e s = absurd (no_event s)
  where
    no_event : (e ∷ left) ≡ [] → ⊥
    no_event z = cc
Suffix-append left (x ∷ xs) ys e (inl same) = inl (ap (λ z. z ++ ys) same)
Suffix-append left (x ∷ xs) ys e (inr s) = inr (Suffix-append left xs ys e s)

At-append : (e : Event) (xs ys : List Event) → At e xs → At e (xs ++ ys)
At-append e xs ys (left, s) = (left ++ ys, Suffix-append left xs ys e s)

Suffix-skip : (left xs ys : List Event) → Suffix left ys → Suffix left (xs ++ ys)
Suffix-skip left [] ys s = s
Suffix-skip left (x ∷ xs) ys s = inr (Suffix-skip left xs ys s)

At-skip : (e : Event) (xs ys : List Event) → At e ys → At e (xs ++ ys)
At-skip e xs ys (left, s) = (left, Suffix-skip (e ∷ left) xs ys s)

middle :
    (fwd : Bool) (p : Ptr) (a b : List Event)
    → At (event (mid fwd) p) (opening fwd p a b ++ (event (last fwd) p ∷ []))
middle fwd p a b =
    let e = event (mid fwd) p in
    At-append e (opening fwd p a b) (event (last fwd) p ∷ [])
      (At-skip e (event in_down p ∷ []) (a ++ (e ∷ b)) (At-skip e a (e ∷ b) (b, inl refl)))

end :
    (fwd : Bool) (p : Ptr) (a b : List Event)
    → At (event (last fwd) p) (opening fwd p a b ++ (event (last fwd) p ∷ []))
end fwd p a b =
    At-skip (event (last fwd) p) (opening fwd p a b) (event (last fwd) p ∷ []) ([], inl refl)

-- A node is left in each of the three states, and in the tours of both its subtries.
At-node :
    (fwd : Bool) (way : WayIn) (p : Ptr) (a b : List Event)
    → Busy way
    → At (event way p) (opening fwd p a b ++ (event (last fwd) p ∷ []))
At-node fwd in_head p a b busy = absurd busy
At-node fwd in_tail p a b busy = absurd busy
At-node fwd in_down p a b busy = (_, inl refl)
At-node true in_up1 p a b busy = middle true p a b
At-node false in_up1 p a b busy = end false p a b
At-node true in_up2 p a b busy = end true p a b
At-node false in_up2 p a b busy = middle false p a b

At-first :
    (fwd : Bool) (e : Event) (p : Ptr) (a b : List Event)
    → At e a
    → At e (opening fwd p a b ++ (event (last fwd) p ∷ []))
At-first fwd e p a b at = At-append e (opening fwd p a b) (event (last fwd) p ∷ []) (
    At-skip e (event in_down p ∷ []) (a ++ (event (mid fwd) p ∷ b))
      (At-append e a (event (mid fwd) p ∷ b) at))

At-second :
    (fwd : Bool) (e : Event) (p : Ptr) (a b : List Event)
    → At e b
    → At e (opening fwd p a b ++ (event (last fwd) p ∷ []))
At-second fwd e p a b at = At-append e (opening fwd p a b) (event (last fwd) p ∷ []) (
    At-skip e (event in_down p ∷ []) (a ++ (event (mid fwd) p ∷ b))
      (At-skip e a (event (mid fwd) p ∷ b) (At-skip e (event (mid fwd) p ∷ []) b at)))

pub At-tour :
    (fwd dir : Bool) (way : WayIn) (q : Ptr) (t : Trie)
    → Busy way
    → 0 < inner t q
    → At (event way q) (tour fwd dir t)
unfolding inner
At-tour fwd dir way q (leaf p) busy i = absurd (omega arith)
At-tour fwd dir way q (branch p c l r) busy i =
    let e = event way q in
    let a = tour fwd dir l in
    let b = tour fwd dir r in
    elim (Bool-cases (lead fwd dir)) [
      | inl right ↦
          subst (λ z. At e z) (sym (tour_right fwd dir p c l r right))
            (settle b a (λ j. At-tour fwd dir way q r busy j) (λ j. At-tour fwd dir way q l busy j)
              (omega arith))
      | inr left ↦
          subst (λ z. At e z) (sym (tour_left fwd dir p c l r left))
            (settle a b (λ j. At-tour fwd dir way q l busy j) (λ j. At-tour fwd dir way q r busy j)
              i)
    ]
  where
    settle :
        (a b : List Event) {m n : ℕ}
        → (0 < m → At (event way q) a)
        → (0 < n → At (event way q) b)
        → 0 < one_if (p == q) + m + n
        → At (event way q) (opening fwd p a b ++ (event (last fwd) p ∷ []))
    settle a b {m} {n} in_a in_b i = elim (Bool-cases (p == q)) [
      | inl here ↦
          subst (λ z. At (event way z) (opening fwd p a b ++ (event (last fwd) p ∷ [])))
            ((==_iff p q).0 here) (At-node fwd way p a b busy)
      | inr other ↦ elim (Bool-cases (ltb 0 m)) [
        | inl first ↦ At-first fwd (event way q) p a b (in_a (ground arith))
        | inr not_first ↦ At-second fwd (event way q) p a b (in_b (ground arith))
      ]
    ]
