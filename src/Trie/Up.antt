-- ===== src/Trie/Up.antt =====
-- Where an uplink leads: to a branch above it, or to the root.
use patricia_c.Base.{
  ℕ, ◌+◌, ◌<◌, ◌≡◌, ◌⊎◌, inl, inr, refl, true, false, Bool, ltb, ◌==◌, arith, Bool-cases,
  if◌then◌else◌,
}
use patricia_c.Heap.{Ptr}
use patricia_c.Trie.{Trie, leaf, branch, find, leaves, inner, one_if, join, graft}

abbrev pub And : (Ptr → Type 0) → Ptr → Ptr → Type 0
And above p q = (q ≡ p) ⊎ above q

-- Every leaf is the node of a branch above it, or one of the nodes `above`.
abbrev pub PointsUp : (Ptr → Type 0) → Trie → Type 0
PointsUp above (leaf q) = above q
PointsUp above (branch p c l r) = PointsUp (And above p) l × PointsUp (And above p) r

-- Only the nodes that occur as leaves matter.
pub PointsUp-map :
    (above above' : Ptr → Type 0) (t : Trie)
    → ((q : Ptr) → 0 < leaves t q → above q → above' q)
    → PointsUp above t
    → PointsUp above' t
unfolding leaves
PointsUp-map above above' (leaf q) f u = f q (ground arith) u
PointsUp-map above above' (branch p c l r) f (ul, ur) = (
  PointsUp-map (And above p) (And above' p) l
      (λ q m e. elim e [ inl here ↦ inl here | inr a ↦ inr (f q (omega arith) a) ]) ul,
  PointsUp-map (And above p) (And above' p) r
      (λ q m e. elim e [ inl here ↦ inl here | inr a ↦ inr (f q (omega arith) a) ]) ur,
)

-- A leaf is one of the branches, or one of the nodes above.
pub PointsUp-leaf :
    (above : Ptr → Type 0) (t : Trie) (q : Ptr)
    → PointsUp above t
    → 0 < leaves t q
    → (0 < inner t q) ⊎ above q
unfolding leaves inner
PointsUp-leaf above (leaf p) q u m = let e : p ≡ q = ground arith in inr (rw (← e) u)
PointsUp-leaf above (branch p c l r) q (ul, ur) m = elim (Bool-cases (ltb 0 (leaves l q))) [
  | inl inside ↦ widen l (PointsUp-leaf (And above p) l q ul (ground arith)) (omega arith)
  | inr outside ↦ widen r (PointsUp-leaf (And above p) r q ur (ground arith)) (omega arith)
]
  where
    widen :
        (s : Trie)
        → (0 < inner s q) ⊎ And above p q
        → inner s q < one_if (p == q) + inner l q + inner r q + 1
        → (0 < one_if (p == q) + inner l q + inner r q) ⊎ above q
    widen s (inl deep) le = inl (omega arith)
    widen s (inr (inl here)) le = inl (ground arith)
    widen s (inr (inr a)) le = inr a

-- The branches on the way of the bits `f`.
abbrev pub OnWay : (ℕ → Bool) → Ptr → Trie → Type 0
OnWay f x (leaf p) = ⊥
OnWay f x (branch p c l r) = (x ≡ p) ⊎ (if f c then OnWay f x r else OnWay f x l)

pub past : {W : Type 0} (x a : Ptr) → (x == a) ≡ false → (x ≡ a) ⊎ W → W
past x a ne (inl e) = absurd (ground arith)
past x a ne (inr w) = w

-- The leaf at which a walk ends is a branch on its way, or one of the nodes above.
pub PointsUp-find :
    (above : Ptr → Type 0) (f : ℕ → Bool) (t : Trie) (x : Ptr)
    → find f t ≡ x
    → PointsUp above t
    → OnWay f x t ⊎ above x
unfolding find
PointsUp-find above f (leaf p) x e u = inr (rw (← e) u)
PointsUp-find above f (branch p c l r) x e (ul, ur) = elim (Bool-cases (f c)) [
  | inl up ↦ rw up (settle r (PointsUp-find (And above p) f r x (rw up at e) ur))
  | inr down ↦ rw down (settle l (PointsUp-find (And above p) f l x (rw down at e) ul))
]
  where
    settle : (s : Trie) → OnWay f x s ⊎ And above p x → ((x ≡ p) ⊎ OnWay f x s) ⊎ above x
    settle s (inl way) = inl (inr way)
    settle s (inr (inl here)) = inl (inl here)
    settle s (inr (inr a)) = inr a

join-PointsUp :
    (above : Ptr → Type 0) (p : Ptr) (c : ℕ) (d : Bool) (t : Trie)
    → PointsUp above t
    → PointsUp above (join p c d t)
unfolding join
join-PointsUp above p c d t u = elim d as (λ d. PointsUp above (join p c d t)) [
  | true ↦ (PointsUp-map above (And above p) t (λ q m a. inr a) u, inl refl)
  | false ↦ (inl refl, PointsUp-map above (And above p) t (λ q m a. inr a) u)
]

-- A new leaf is below its own branch.
pub graft-PointsUp :
    (above : Ptr → Type 0) (p : Ptr) (c : ℕ) (f : ℕ → Bool) (t : Trie)
    → PointsUp above t
    → PointsUp above (graft p c f t)
unfolding graft
graft-PointsUp above p c f (leaf q) u = join-PointsUp above p c (f c) (leaf q) u
graft-PointsUp above p c f (branch q d l r) (ul, ur) = elim (Bool-cases (ltb d c)) [
  | inl before ↦ elim (Bool-cases (f d)) [
    | inl up ↦ rw (before, up) (ul, graft-PointsUp (And above q) p c f r ur)
    | inr down ↦ rw (before, down) (graft-PointsUp (And above q) p c f l ul, ur)
  ]
  | inr behind ↦ rw behind (join-PointsUp above p c (f c) (branch q d l r) (ul, ur))
]
