-- ===== src/Iter/Tour.antt =====
-- The tour of the iterators of src/cpatricia_set.c through a trie: each node is left three times,
-- and the modes tell at which of them it is returned.
use patricia_c.Base.{
  ℕ, suc, ◌+◌, ◌*◌, ◌≡◌, inl, inr, refl, ◌∙◌, Bool, not, ◌==◌, if◌then◌else◌, List, [], ◌∷◌, ◌++◌,
  arith, Bool-cases,
}
use patricia_c.Heap.{Ptr}
use patricia_c.Trie.{Trie, leaf, branch}
use patricia_c.Evict.Funnel.{nodes_of}
use patricia_c.Iter.{WayIn, in_head, in_down, in_up1, in_up2, in_tail, Trans, fwd_table, rev_table}

-- The tables of the two kinds of steps, `true` for forward.
abbrev pub table_of : Bool → WayIn → Trans
table_of fwd s = if fwd then fwd_table s else rev_table s

-- The states between the two subtries, behind both, before the tour and behind it.
abbrev pub mid : Bool → WayIn
mid fwd = if fwd then in_up1 else in_up2

abbrev pub last : Bool → WayIn
last fwd = if fwd then in_up2 else in_up1

abbrev pub start : Bool → WayIn
start fwd = if fwd then in_head else in_tail

abbrev pub final : Bool → WayIn
final fwd = if fwd then in_tail else in_head

-- The index of the child that is visited first.
abbrev pub lead : Bool → Bool → Bool
lead fwd dir = if fwd then not dir else dir

-- A node that is left in a state.
pub record Event : Type 0 where
  pub way : WayIn
  pub at : Ptr

abbrev pub event : WayIn → Ptr → Event
event s p = record { way = s; at = p }

-- The events at a node before the last of them, around the tours of its subtries.
abbrev pub opening : Bool → Ptr → List Event → List Event → List Event
opening fwd p a b = event in_down p ∷ (a ++ (event (mid fwd) p ∷ b))

unfoldable pub tour : Bool → Bool → Trie → List Event
tour fwd dir (leaf q) = []
tour fwd dir (branch p c l r) =
    let a = tour fwd dir l in
    let b = tour fwd dir r in
    opening fwd p (if lead fwd dir then b else a) (if lead fwd dir then a else b)
    ++ (event (last fwd) p ∷ [])

-- The nodes that a tour returns in a mode.
unfoldable pub yields : Bool → ℕ → List Event → List Ptr
yields fwd mode [] = []
yields fwd mode (e ∷ es) =
    let rest = yields fwd mode es in if (table_of fwd e.way).mode == mode then e.at ∷ rest else rest

pub yields-append :
    (fwd : Bool) (mode : ℕ) (xs ys : List Event)
    → yields fwd mode (xs ++ ys) ≡ yields fwd mode xs ++ yields fwd mode ys
unfolding yields
yields-append fwd mode [] ys = refl
yields-append fwd mode (x ∷ xs) ys = elim (Bool-cases ((table_of fwd x.way).mode == mode)) [
  | inl shown ↦ rw (shown, yields-append fwd mode xs ys) refl
  | inr hidden ↦ rw (hidden, yields-append fwd mode xs ys) refl
]

unfoldable pub length_events : List Event → ℕ
length_events [] = 0
length_events (e ∷ es) = suc (length_events es)

pub length-append :
    (xs ys : List Event) → length_events (xs ++ ys) ≡ length_events xs + length_events ys
unfolding length_events
length-append [] ys = omega arith
length-append (x ∷ xs) ys = omega (arith, length-append xs ys)

-- A tour has three events for each node.
length-opening :
    (fwd : Bool) (p : Ptr) (a b : List Event) (m n : ℕ)
    → length_events a ≡ 3 * m
    → length_events b ≡ 3 * n
    → length_events (opening fwd p a b ++ (event (last fwd) p ∷ [])) ≡ 3 * suc (m + n)
unfolding length_events
length-opening fwd p a b m n ea eb = omega (
  arith,
  length-append (a ++ (event (mid fwd) p ∷ b)) (event (last fwd) p ∷ []),
  length-append a (event (mid fwd) p ∷ b),
  ea,
  eb,
)

pub length-tour : (fwd dir : Bool) (t : Trie) → length_events (tour fwd dir t) ≡ 3 * nodes_of t
unfolding length_events tour nodes_of
length-tour fwd dir (leaf q) = refl
length-tour fwd dir (branch p c l r) =
    let la = length-tour fwd dir l in
    let lb = length-tour fwd dir r in
    elim (Bool-cases (lead fwd dir)) [
      | inl e ↦ rw e (
          length-opening fwd p (tour fwd dir r) (tour fwd dir l) (nodes_of r) (nodes_of l) lb la
          ∙ omega arith)
      | inr e ↦
          rw e
            (length-opening fwd p (tour fwd dir l) (tour fwd dir r) (nodes_of l) (nodes_of r) la lb)
    ]
