-- ===== src/Trie/Evicted.antt =====
-- The trie after a deletion: the last branch on the way is cut out, and takes the place of the
-- deleted one.
use mathlib.Core.Path.{subst}
use patricia_c.Base.{
  ℕ, ◌+◌, ◌≡◌, ◌≢◌, ◌∙◌, sym, ap, inl, inr, refl, true, false, Bool, ◌==◌, arith, Bool-cases,
  ==_iff,
}
use patricia_c.Heap.{Ptr}
use patricia_c.Trie.{Trie, leaf, branch, leaves}
use patricia_c.Trie.Up.{OnWay, past, PointsUp, And, PointsUp-map}
use patricia_c.Trie.Cut.{last_of, npar_of, bypass, cut, rename, IsBranch}

And-swap : (above : Ptr → Type 0) (p a q : Ptr) → And (And above p) a q → And (And above a) p q
And-swap above p a q (inl e) = inr (inl e)
And-swap above p a q (inr (inl e)) = inl e
And-swap above p a q (inr (inr u)) = inr (inr u)

And-more : (above : Ptr → Type 0) (p a q : Ptr) → And above a q → And (And above p) a q
And-more above p a q (inl e) = inl e
And-more above p a q (inr u) = inr (inr u)

pub cut-PointsUp :
    (above : Ptr → Type 0) (f : ℕ → Bool) (par : Ptr) (t : Trie)
    → IsBranch t
    → PointsUp above t
    → PointsUp (And above (last_of f par t)) (cut f t)
unfolding cut last_of
cut-PointsUp above f par (leaf q) b u = absurd b
cut-PointsUp above f par (branch a c l r) b (ul, ur) = elim (Bool-cases (f c)) [
  | inl up ↦ rw up (right r ur (λ b. cut-PointsUp (And above a) f a r b ur))
  | inr down ↦ rw down (left l ul (λ b. cut-PointsUp (And above a) f a l b ul))
]
  where
    right :
        (z : Trie)
        → PointsUp (And above a) z
        → (IsBranch z → PointsUp (And (And above a) (last_of f a z)) (cut f z))
        → PointsUp (And above (last_of f a z)) (bypass a c true z l (cut f z))
    right (leaf q) uz ih = ul
    right (branch q d ll lr) uz ih = (
      PointsUp-map (And above a) (And (And above (last_of f a (branch q d ll lr))) a) l
          (λ s m. And-more above (last_of f a (branch q d ll lr)) a s) ul,
      PointsUp-map (And (And above a) (last_of f a (branch q d ll lr)))
          (And (And above (last_of f a (branch q d ll lr))) a) (cut f (branch q d ll lr))
          (λ s m. And-swap above a (last_of f a (branch q d ll lr)) s) (ih tt),
    )

    left :
        (z : Trie)
        → PointsUp (And above a) z
        → (IsBranch z → PointsUp (And (And above a) (last_of f a z)) (cut f z))
        → PointsUp (And above (last_of f a z)) (bypass a c false z (cut f z) r)
    left (leaf q) uz ih = ur
    left (branch q d ll lr) uz ih = (
      PointsUp-map (And (And above a) (last_of f a (branch q d ll lr)))
          (And (And above (last_of f a (branch q d ll lr))) a) (cut f (branch q d ll lr))
          (λ s m. And-swap above a (last_of f a (branch q d ll lr)) s) (ih tt),
      PointsUp-map (And above a) (And (And above (last_of f a (branch q d ll lr))) a) r
          (λ s m. And-more above (last_of f a (branch q d ll lr)) a s) ur,
    )

-- Without a leaf for it, a node above is of no use.
drop_above :
    (above : Ptr → Type 0) (x p : Ptr) (t : Trie)
    → leaves t x ≡ 0
    → PointsUp (And (And above p) x) t
    → PointsUp (And above p) t
drop_above above x p t gone u =
    PointsUp-map (And (And above p) x) (And above p) t
      (λ q m e. elim e [ inl here ↦ absurd (omega (arith, ap (leaves t) here)) | inr a ↦ a ]) u

-- Above the last branch the cut is made further down.
pub cut-right :
    (f : ℕ → Bool) (a : Ptr) (c : ℕ) (l r : Trie)
    → f c ≡ true
    → IsBranch r
    → cut f (branch a c l r) ≡ branch a c l (cut f r)
unfolding cut
cut-right f a c l (leaf q) e b = absurd b
cut-right f a c l (branch q d ll lr) e b = rw e refl

pub cut-left :
    (f : ℕ → Bool) (a : Ptr) (c : ℕ) (l r : Trie)
    → f c ≡ false
    → IsBranch l
    → cut f (branch a c l r) ≡ branch a c (cut f l) r
unfolding cut
cut-left f a c (leaf q) r e b = absurd b
cut-left f a c (branch q d ll lr) r e b = rw e refl

pub OnWay-IsBranch : (f : ℕ → Bool) (x : Ptr) (t : Trie) → OnWay f x t → IsBranch t
OnWay-IsBranch f x (leaf q) w = absurd w
OnWay-IsBranch f x (branch p c l r) w = tt

-- A trie is a leaf or a branch; at a leaf the last branch is the one above.
pub last_leaf : (f : ℕ → Bool) (par : Ptr) (t : Trie) → last_of f par t ≢ par → IsBranch t
unfolding last_of
last_leaf f par (leaf q) ne = absurd (ne refl)
last_leaf f par (branch p c l r) ne = tt

module _ (f : ℕ → Bool) (x : Ptr) where
  -- A branch on the way that is not the last stays on it, with the same node above.
  pub OnWay-cut : (par : Ptr) (t : Trie) → OnWay f x t → last_of f par t ≢ x → OnWay f x (cut f t)
  unfolding last_of
  OnWay-cut par (leaf q) w ne = absurd w
  OnWay-cut par (branch a c l r) w ne = elim (Bool-cases (x == a)) [
    | inl here ↦
        let e : x ≡ a = (==_iff x a).0 here in
        elim (Bool-cases (f c)) [
          | inl up ↦
              let b : IsBranch r = last_leaf f a r (λ z. ne (rw up (z ∙ sym e))) in
              rw (cut-right f a c l r up b) (inl e)
          | inr down ↦
              let b : IsBranch l = last_leaf f a l (λ z. ne (rw down (z ∙ sym e))) in
              rw (cut-left f a c l r down b) (inl e)
        ]
    | inr below ↦ elim (Bool-cases (f c)) [
      | inl up ↦
          let deep : OnWay f x r = past x a below (rw up at w) in
          rw (cut-right f a c l r up (OnWay-IsBranch f x r deep), up)
            (inr (OnWay-cut a r deep (rw up at ne)))
      | inr down ↦
          let deep : OnWay f x l = past x a below (rw down at w) in
          rw (cut-left f a c l r down (OnWay-IsBranch f x l deep), down)
            (inr (OnWay-cut a l deep (rw down at ne)))
    ]
  ]

  pub npar-cut :
      (none_yet par : Ptr) (t : Trie)
      → OnWay f x t
      → last_of f par t ≢ x
      → npar_of f x none_yet par (cut f t) ≡ npar_of f x none_yet par t
  unfolding last_of npar_of
  npar-cut none_yet par (leaf q) w ne = absurd w
  npar-cut none_yet par (branch a c l r) w ne = elim (Bool-cases (x == a)) [
    | inl here ↦
        let e : x ≡ a = (==_iff x a).0 here in
        elim (Bool-cases (f c)) [
          | inl up ↦
              let b : IsBranch r = last_leaf f a r (λ z. ne (rw up (z ∙ sym e))) in
              rw (cut-right f a c l r up b, here) refl
          | inr down ↦
              let b : IsBranch l = last_leaf f a l (λ z. ne (rw down (z ∙ sym e))) in
              rw (cut-left f a c l r down b, here) refl
        ]
    | inr below ↦ elim (Bool-cases (f c)) [
      | inl up ↦
          let deep : OnWay f x r = past x a below (rw up at w) in
          rw (cut-right f a c l r up (OnWay-IsBranch f x r deep), below, up)
            (npar-cut none_yet a r deep (rw up at ne))
      | inr down ↦
          let deep : OnWay f x l = past x a below (rw down at w) in
          rw (cut-left f a c l r down (OnWay-IsBranch f x l deep), below, down)
            (npar-cut none_yet a l deep (rw down at ne))
    ]
  ]

  -- The renamed branch itself.
  renamed_here :
      (above : Ptr → Type 0) (p a : Ptr) (c : ℕ) (l r : Trie)
      → x ≡ a
      → leaves l x + leaves r x ≡ 0
      → PointsUp (And above p) (branch a c l r)
      → PointsUp above (rename f x p (branch a c l r))
  unfolding rename
  renamed_here above p a c l r e gone (ul, ur) =
      let here : (x == a) ≡ true = ground arith in
      let at : leaves l a + leaves r a ≡ 0 = rw (← e) gone in
      rw here (drop_above above a p l (omega arith) ul, drop_above above a p r (omega arith) ur)

  -- Once its leaf is gone, a branch above may be renamed to the one that is cut out.
  pub rename-PointsUp :
      (above : Ptr → Type 0) (p par : Ptr) (t : Trie)
      → OnWay f x t
      → last_of f par t ≡ p
      → p ≢ x
      → leaves (cut f t) x ≡ 0
      → PointsUp above t
      → PointsUp above (rename f x p (cut f t))
  unfolding last_of leaves rename
  rename-PointsUp above p par (leaf q) w last ne gone u = absurd w
  rename-PointsUp above p par (branch a c l r) w last ne gone u = elim (Bool-cases (x == a)) [
    | inl here ↦
        let e : x ≡ a = (==_iff x a).0 here in
        let v : PointsUp (And above p) (cut f (branch a c l r)) =
          subst (λ z. PointsUp (And above z) (cut f (branch a c l r))) last
            (cut-PointsUp above f par (branch a c l r) tt u) in
        elim (Bool-cases (f c)) [
          | inl up ↦
              let b : IsBranch r = last_leaf f a r (λ z. ne (sym last ∙ rw up (z ∙ sym e))) in
              let shape = cut-right f a c l r up b in
              rw shape (
                renamed_here above p a c l (cut f r) e (omega (arith, ap (λ s. leaves s x) shape))
                  (subst (PointsUp (And above p)) shape v))
          | inr down ↦
              let b : IsBranch l = last_leaf f a l (λ z. ne (sym last ∙ rw down (z ∙ sym e))) in
              let shape = cut-left f a c l r down b in
              rw shape (
                renamed_here above p a c (cut f l) r e (omega (arith, ap (λ s. leaves s x) shape))
                  (subst (PointsUp (And above p)) shape v))
        ]
    | inr below ↦ elim (Bool-cases (f c)) [
      | inl up ↦
          let deep : OnWay f x r = past x a below (rw up at w) in
          let shape = cut-right f a c l r up (OnWay-IsBranch f x r deep) in
          rw (shape, below, up)
            (
              u.0,
              rename-PointsUp (And above a) p a r deep (rw up at last) ne
                  (omega (arith, ap (λ s. leaves s x) shape)) u.1,
            )
      | inr down ↦
          let deep : OnWay f x l = past x a below (rw down at w) in
          let shape = cut-left f a c l r down (OnWay-IsBranch f x l deep) in
          rw (shape, below, down)
            (
              rename-PointsUp (And above a) p a l deep (rw down at last) ne
                  (omega (arith, ap (λ s. leaves s x) shape)) u.0,
              u.1,
            )
    ]
  ]
