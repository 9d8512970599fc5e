-- ===== src/Iter/Range.antt =====
-- The trie that an iterator of src/cpatricia_set.c goes over: the whole set or what hangs below a
-- node of it.
use patricia_c.Base.{ℕ, ◌+◌, ◌≤◌, ◌<◌, ◌≡◌, ◌⊎◌, inl, inr, refl, ap, Bool, ◌==◌, arith, Bool-cases}
use patricia_c.Key.{getbit}
use patricia_c.Heap.{Ptr, null, Heap}
use patricia_c.Trie.{Trie, leaf, branch, find, leaves, inner, one_if}
use patricia_c.Trie.Find.{find_self}
use patricia_c.Trie.Up.{OnWay, PointsUp-find}
use patricia_c.Tree.Rep.{IsNodeSet, bits_in}
use patricia_c.Evict.Funnel.{one_self}
use patricia_c.Iter.Under.{IsHead}
use patricia_c.Iter.Hang.{Walkable}

-- The trie of a set can be gone over.
pub set-Walkable : {h : Heap} {root : Ptr} (t : Trie) → IsNodeSet h root t → Walkable h 0 t
set-Walkable {h} {root} t s = record {
  rep = s.rep;
  low = omega arith;
  once = λ q. omega (arith, s.once q);
  way = λ x n i e.
      let m : 0 < leaves t x = omega (arith, s.two_links x) in
      let found : find (getbit n.key) t ≡ x =
        find_self (bits_in h) (getbit n.key) x t (λ j. rw e refl) s.sorted m in
      below x i (PointsUp-find (λ q. q ≡ root) (getbit n.key) t x found s.up);
}
  where
    below : {W : Type 0} (x : Ptr) → 0 < inner t x → W ⊎ (x ≡ root) → W
    below x i (inl w) = w
    below x i (inr e) =
        absurd (omega (arith, s.once x, one_self root, ap (λ z. one_if (root == z)) e))

OnWay-inner : (f : ℕ → Bool) (x : Ptr) (t : Trie) → OnWay f x t → 0 < inner t x
unfolding inner
OnWay-inner f x (leaf q) w = absurd w
OnWay-inner f x (branch p c l r) (inl e) = ground arith
OnWay-inner f x (branch p c l r) (inr w) = elim (Bool-cases (f c)) [
  | inl up ↦ omega (arith, OnWay-inner f x r (rw up at w))
  | inr down ↦ omega (arith, OnWay-inner f x l (rw down at w))
]

way_left :
    (f : ℕ → Bool) (x p : Ptr) (c : ℕ) (l r : Trie)
    → one_if (p == x) + inner l x + inner r x ≤ 1
    → 0 < inner l x
    → OnWay f x (branch p c l r)
    → OnWay f x l
way_left f x p c l r once i (inl e) =
    absurd (omega (arith, one_self p, ap (λ z. one_if (p == z)) e))
way_left f x p c l r once i (inr w) = elim (Bool-cases (f c)) [
  | inl up ↦ absurd (omega (arith, OnWay-inner f x r (rw up at w)))
  | inr down ↦ rw down at w
]

way_right :
    (f : ℕ → Bool) (x p : Ptr) (c : ℕ) (l r : Trie)
    → one_if (p == x) + inner l x + inner r x ≤ 1
    → 0 < inner r x
    → OnWay f x (branch p c l r)
    → OnWay f x r
way_right f x p c l r once i (inl e) =
    absurd (omega (arith, one_self p, ap (λ z. one_if (p == z)) e))
way_right f x p c l r once i (inr w) = elim (Bool-cases (f c)) [
  | inl up ↦ rw up at w
  | inr down ↦ absurd (omega (arith, OnWay-inner f x l (rw down at w)))
]

-- And its subtries.
left-Walkable :
    (h : Heap) (b : ℕ) (p : Ptr) (c : ℕ) (l r : Trie)
    → Walkable h b (branch p c l r)
    → Walkable h c l
unfolding inner
left-Walkable h b p c l r walk = record {
  rep = walk.rep.7;
  low = walk.rep.6;
  once = λ q. omega (arith, walk.once q);
  way = λ x n i e. way_left (getbit n.key) x p c l r (walk.once x) i (walk.way x n (omega arith) e);
}

right-Walkable :
    (h : Heap) (b : ℕ) (p : Ptr) (c : ℕ) (l r : Trie)
    → Walkable h b (branch p c l r)
    → Walkable h c r
unfolding inner
right-Walkable h b p c l r walk = record {
  rep = walk.rep.8;
  low = walk.rep.6;
  once = λ q. omega (arith, walk.once q);
  way =
      λ x n i e. way_right (getbit n.key) x p c l r (walk.once x) i (walk.way x n (omega arith) e);
}

-- One trie is found below the other, or is the same.
abbrev pub Lies : Trie → Trie → Type 0
Lies s (leaf q) = s ≡ leaf q
Lies s (branch p c l r) = (s ≡ branch p c l r) ⊎ Lies s l ⊎ Lies s r

pub Lies-Walkable :
    (h : Heap) (b : ℕ) (s t : Trie) → Walkable h b t → Lies s t → (low : ℕ) × Walkable h low s
Lies-Walkable h b s (leaf q) walk e = (b, rw e walk)
Lies-Walkable h b s (branch p c l r) walk (inl e) = (b, rw e walk)
Lies-Walkable h b s (branch p c l r) walk (inr (inl w)) =
    Lies-Walkable h c s l (left-Walkable h b p c l r walk) w
Lies-Walkable h b s (branch p c l r) walk (inr (inr w)) =
    Lies-Walkable h c s r (right-Walkable h b p c l r walk) w

-- The trie `s` that is gone over from the node `from` of a set: all of it for NULL.
abbrev pub Range : Trie → Ptr → Trie → Type 0
Range t from s = ((from ≡ null) × (s ≡ t)) ⊎ (IsHead s from × Lies s t)
