-- ===== src/Iter/Placed.antt =====
-- The places where an iterator of src/cpatricia_set.c can stand, and the nodes that it returns.
use mathlib.Core.Path.{subst}
use patricia_c.Base.{
  ℕ, ◌<◌, ◌≡◌, ◌⊎◌, inl, inr, refl, sym, ◌∙◌, Bool, true, false, ◌==◌, arith, Bool-cases, List, [],
  ◌∷◌, ◌++◌,
}
use patricia_c.Heap.{Ptr, null}
use patricia_c.Trie.{Trie, leaf, branch, inner}
use patricia_c.Iter.{WayIn, in_head, in_down, in_up1, in_up2, in_tail}
use patricia_c.Iter.Tour.{Event, event, table_of, final, mid, last, lead, opening, tour, yields}
use patricia_c.Iter.Sides.{tour_left, tour_right}
use patricia_c.Iter.Rounds.{Suffix, yields-shown, yields-hidden}

-- Where an iterator over a trie stands: at a node, or before the first one or behind the last.
-- After a reset it stands before the first node while its field still has another.
abbrev pub Place : Trie → WayIn → Ptr → Type 0
Place s in_head p = (p ≡ null) ⊎ (0 < inner s p)
Place s in_down p = 0 < inner s p
Place s in_up1 p = 0 < inner s p
Place s in_up2 p = 0 < inner s p
Place s in_tail p = p ≡ null

-- NULL or a node of the trie.
abbrev pub Valid : Trie → Ptr → Type 0
Valid s p = (p ≡ null) ⊎ (0 < inner s p)

pub Place-Valid : (s : Trie) (way : WayIn) (p : Ptr) → Place s way p → Valid s p
Place-Valid s in_head p at = at
Place-Valid s in_down p at = inr at
Place-Valid s in_up1 p at = inr at
Place-Valid s in_up2 p at = inr at
Place-Valid s in_tail p at = inl at

-- All events of a list are at places.
abbrev pub Placed : Trie → List Event → Type 0
Placed s [] = Unit {0}
Placed s (e ∷ es) = Place s e.way e.at × Placed s es

Placed-append : (s : Trie) (xs ys : List Event) → Placed s xs → Placed s ys → Placed s (xs ++ ys)
Placed-append s [] ys px py = py
Placed-append s (x ∷ xs) ys (at, px) py = (at, Placed-append s xs ys px py)

pub Placed-suffix : (s : Trie) (left es : List Event) → Suffix left es → Placed s es → Placed s left
Placed-suffix s left [] e p = rw e tt
Placed-suffix s left (x ∷ es) (inl e) p = rw e p
Placed-suffix s left (x ∷ es) (inr suffix) (at, p) = Placed-suffix s left es suffix p

Place_mid : (s : Trie) (fwd : Bool) (p : Ptr) → 0 < inner s p → Place s (mid fwd) p
Place_mid s true p i = i
Place_mid s false p i = i

Place_last : (s : Trie) (fwd : Bool) (p : Ptr) → 0 < inner s p → Place s (last fwd) p
Place_last s true p i = i
Place_last s false p i = i

pub Place_final : (s : Trie) (fwd : Bool) → Place s (final fwd) null
Place_final s true = refl
Place_final s false = inl refl

Placed-opening :
    (s : Trie) (fwd : Bool) (p : Ptr) (a b : List Event)
    → 0 < inner s p
    → Placed s a
    → Placed s b
    → Placed s (opening fwd p a b ++ (event (last fwd) p ∷ []))
Placed-opening s fwd p a b i pa pb =
    Placed-append s (opening fwd p a b) (event (last fwd) p ∷ [])
      (i, Placed-append s a (event (mid fwd) p ∷ b) pa (Place_mid s fwd p i, pb))
      (Place_last s fwd p i, tt)

pub Placed-tour :
    (s : Trie) (fwd dir : Bool) (t : Trie)
    → ((q : Ptr) → 0 < inner t q → 0 < inner s q)
    → Placed s (tour fwd dir t)
unfolding tour inner
Placed-tour s fwd dir (leaf q) within = tt
Placed-tour s fwd dir (branch p c l r) within =
    let pl = Placed-tour s fwd dir l (λ q i. within q (omega arith)) in
    let pr = Placed-tour s fwd dir r (λ q i. within q (omega arith)) in
    let i : 0 < inner s p = within p (ground arith) in
    elim (Bool-cases (lead fwd dir)) [
      | inl right ↦
          subst (λ z. Placed s z) (sym (tour_right fwd dir p c l r right))
            (Placed-opening s fwd p (tour fwd dir r) (tour fwd dir l) i pr pl)
      | inr left ↦
          subst (λ z. Placed s z) (sym (tour_left fwd dir p c l r left))
            (Placed-opening s fwd p (tour fwd dir l) (tour fwd dir r) i pl pr)
    ]

head_same : (p q : Ptr) (ps qs : List Ptr) → (p ∷ ps) ≡ (q ∷ qs) → p ≡ q
head_same p q ps qs e = ground arith

-- What is returned is the node of an event.
pub returned-Valid :
    (s : Trie) (fwd : Bool) (mode : ℕ) (es : List Event) (p : Ptr) (ps : List Ptr)
    → Placed s es
    → yields fwd mode es ≡ p ∷ ps
    → Valid s p
unfolding yields
returned-Valid s fwd mode [] p ps placed e = absurd (empty e)
  where
    empty : [] ≡ p ∷ ps → ⊥
    empty e = cc
returned-Valid s fwd mode (x ∷ es) p ps (at, placed) e =
    elim (Bool-cases ((table_of fwd x.way).mode == mode)) [
      | inl shown ↦
          let same : x.at ≡ p =
            head_same x.at p (yields fwd mode es) ps (sym (yields-shown fwd mode x es shown) ∙ e) in
          subst (λ z. Valid s z) same (Place-Valid s x.way x.at at)
      | inr hidden ↦
          returned-Valid s fwd mode es p ps placed (sym (yields-hidden fwd mode x es hidden) ∙ e)
    ]
