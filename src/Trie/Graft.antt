-- ===== src/Trie/Graft.antt =====
-- Joining a new leaf keeps the trie sorted and counts each node as before.
use patricia_c.Base.{
  ℕ, ◌+◌, ◌≤◌, ◌<◌, ◌≡◌, ◌≢◌, inl, inr, sym, ◌∙◌, Bool, ltb, ◌==◌, arith, Bool-cases, ==_iff,
}
use patricia_c.Heap.{Ptr}
use patricia_c.Trie.{Trie, leaf, branch, find, leaves, inner, Bits, Sorted, one_if, join, graft}
use patricia_c.Trie.Find.{find-mem}

pub leaves-graft :
    (p : Ptr) (c : ℕ) (f : ℕ → Bool) (t : Trie) (q : Ptr)
    → leaves (graft p c f t) q ≡ leaves t q + one_if (p == q)
unfolding leaves graft join
leaves-graft p c f (leaf s) q = ground arith
leaves-graft p c f (branch s d l r) q =
    ground (arith, leaves-graft p c f l q, leaves-graft p c f r q)

pub inner-graft :
    (p : Ptr) (c : ℕ) (f : ℕ → Bool) (t : Trie) (q : Ptr)
    → inner (graft p c f t) q ≡ inner t q + one_if (p == q)
unfolding inner graft join
inner-graft p c f (leaf s) q = ground arith
inner-graft p c f (branch s d l r) q = ground (arith, inner-graft p c f l q, inner-graft p c f r q)

module _ (bit : Bits) (p : Ptr) (c : ℕ) where
  -- The new leaf's key has its first difference to the leaf that its bits lead to at `c`.
  abbrev pub Parts : Trie → Type 0
  Parts t =
      ((i : ℕ) → i < c → bit p i ≡ bit (find (bit p) t) i) × (bit p c ≢ bit (find (bit p) t) c)

  -- The leaves of `t` all agree up to `c`.
  Close : Trie → Type 0
  Close t = (q s : Ptr) (i : ℕ) → 0 < leaves t q → 0 < leaves t s → i ≤ c → bit q i ≡ bit s i

  -- At a branch on the way down the positions differ.
  pub position-ne :
      (q : Ptr) (d : ℕ) (l r : Trie) → Sorted bit (branch q d l r) → Parts (branch q d l r) → d ≢ c
  unfolding find
  position-ne q d l r (left, right, agree, sl, sr) (same, differ) e = ground (
    arith,
    left (find (bit p) l) (find-mem (bit p) l),
    right (find (bit p) r) (find-mem (bit p) r),
  )

  -- Before `c`, or before an earlier position `d`, the new leaf's key agrees with the others.
  near :
      (m : Ptr → ℕ) (d : ℕ)
      → ((q s : Ptr) (i : ℕ) → 0 < m q → 0 < m s → i < d → bit q i ≡ bit s i)
      → (o : Ptr) → 0 < m o
      → ((i : ℕ) → i < d → bit p i ≡ bit o i)
      → (q s : Ptr) (i : ℕ) → 0 < m q + one_if (p == q)
      → 0 < m s + one_if (p == s)
      → i < d
      → bit q i ≡ bit s i
  near m d agree o mo same q s i mq ms l = to_o q mq ∙ sym (to_o s ms)
    where
      to_o : (x : Ptr) → 0 < m x + one_if (p == x) → bit x i ≡ bit o i
      to_o x mx = elim (Bool-cases (p == x)) [
        | inl new ↦ let e : p ≡ x = (==_iff p x).0 new in rw (← e) (same i l)
        | inr old ↦ agree x o i (ground arith) mo l
      ]

  join-Sorted : (t : Trie) → Sorted bit t → Close t → Parts t → Sorted bit (join p c (bit p c) t)
  unfolding join leaves Close
  join-Sorted t s close (same, differ) = elim (Bool-cases (bit p c)) [
    | inl up ↦ rw up (
      λ q m. ground (arith, close q o c m (find-mem _ t), up),
      λ q m. ground (arith, up),
      λ q s i m n l. together q s i m n l,
      s,
      tt,
    )
    | inr down ↦ rw down (
      λ q m. ground (arith, down),
      λ q m. ground (arith, close q o c m (find-mem _ t), down),
      λ q s i m n l. together q s i (omega arith) (omega arith) l,
      tt,
      s,
    )
  ]
    where
      o : Ptr
      o = find (bit p) t

      together :
          (q s : Ptr) (i : ℕ)
          → 0 < leaves t q + one_if (p == q)
          → 0 < leaves t s + one_if (p == s)
          → i < c
          → bit q i ≡ bit s i
      together =
          near (leaves t) c (λ q s i m n l. close q s i m n (omega arith)) o (find-mem _ t) same

  pub graft-Sorted : (t : Trie) → Sorted bit t → Parts t → Sorted bit (graft p c (bit p) t)
  unfolding graft Close find leaves
  graft-Sorted (leaf q) s parts = join-Sorted (leaf q) s (λ x y i m n l. ground arith) parts
  graft-Sorted (branch q d l r) s parts = elim (Bool-cases (ltb d c)) [
    | inl before ↦ elim (Bool-cases (bit p d)) [
      | inl up ↦
          let o : Ptr = find (bit p) r in
          let parts' : Parts r = rw up at parts in
          rw (before, up)
            (
              s.0,
              λ x m. elim (Bool-cases (p == x)) [
                | inl new ↦ ground (arith, up)
                | inr old ↦ s.1 x (ground (arith, leaves-graft p c (bit p) r x))
              ],
              λ x y i m n b.
                  near (λ z. leaves l z + leaves r z) d s.2 o (omega (arith, find-mem (bit p) r))
                    (λ i b. parts'.0 i (ground arith)) x y i
                    (omega (arith, leaves-graft p c (bit p) r x))
                    (omega (arith, leaves-graft p c (bit p) r y)) b,
              s.3,
              graft-Sorted r s.4 parts',
            )
      | inr down ↦
          let o : Ptr = find (bit p) l in
          let parts' : Parts l = rw down at parts in
          rw (before, down)
            (
              λ x m. elim (Bool-cases (p == x)) [
                | inl new ↦ ground (arith, down)
                | inr old ↦ s.0 x (ground (arith, leaves-graft p c (bit p) l x))
              ],
              s.1,
              λ x y i m n b.
                  near (λ z. leaves l z + leaves r z) d s.2 o (omega (arith, find-mem (bit p) l))
                    (λ i b. parts'.0 i (ground arith)) x y i
                    (omega (arith, leaves-graft p c (bit p) l x))
                    (omega (arith, leaves-graft p c (bit p) l y)) b,
              graft-Sorted l s.3 parts',
              s.4,
            )
    ]
    | inr behind ↦
        let ne : d ≢ c = position-ne q d l r s parts in
        rw behind
          (join-Sorted (branch q d l r) s (λ x y i m n b. s.2 x y i m n (ground arith)) parts)
  ]
