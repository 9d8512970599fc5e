-- ===== src/Trie/Cut.antt =====
-- Deletion in the trie: the last branch on the way of some bits is bypassed, with the leaf at which
-- the way ends, and a branch on the way gets another name.
use patricia_c.Base.{
  ℕ, ◌+◌, ◌<◌, ◌≡◌, inl, inr, refl, true, false, Bool, ltb, ◌==◌, arith, Bool-cases, if◌then◌else◌,
}
use patricia_c.Heap.{Ptr}
use patricia_c.Trie.{Trie, leaf, branch, find, leaves, inner, one_if, Bits, Sorted}
use patricia_c.Trie.Up.{OnWay, past}

-- The last branch on the way, and the one before it; `par` and `over` stand above the trie.
unfoldable pub last_of : (ℕ → Bool) → Ptr → Trie → Ptr
last_of f par (leaf q) = par
last_of f par (branch p c l r) = if f c then last_of f p r else last_of f p l

unfoldable pub over_of : (ℕ → Bool) → Ptr → Ptr → Trie → Ptr
over_of f over par (leaf q) = over
over_of f over par (branch p c l r) = if f c then over_of f par p r else over_of f par p l

-- The node above the branch `x` on the way, or `none_yet`.
unfoldable pub npar_of : (ℕ → Bool) → Ptr → Ptr → Ptr → Trie → Ptr
npar_of f x none_yet par (leaf q) = none_yet
npar_of f x none_yet par (branch p c l r) =
    if x == p then par else if f c then npar_of f x none_yet p r else npar_of f x none_yet p l

-- A branch above a leaf is left out for its other child.
abbrev pub bypass : Ptr → ℕ → Bool → Trie → Trie → Trie → Trie
bypass p c true (branch q d ll lr) l r = branch p c l r
bypass p c true (leaf q) l r = l
bypass p c false (branch q d ll lr) l r = branch p c l r
bypass p c false (leaf q) l r = r

unfoldable pub cut : (ℕ → Bool) → Trie → Trie
cut f (leaf q) = leaf q
cut f (branch p c l r) =
    if f c then bypass p c true r l (cut f r) else bypass p c false l (cut f l) r

unfoldable pub rename : (ℕ → Bool) → Ptr → Ptr → Trie → Trie
rename f x p (leaf q) = leaf q
rename f x p (branch a c l r) =
    if x == a
    then branch p c l r
    else if f c
    then branch a c l (rename f x p r)
    else branch a c (rename f x p l) r

abbrev pub IsBranch : Trie → Type 0
IsBranch (leaf q) = ⊥
IsBranch (branch p c l r) = Unit {0}

pub leaves-cut :
    (f : ℕ → Bool) (t : Trie) (q : Ptr)
    → IsBranch t
    → leaves (cut f t) q + one_if (find f t == q) ≡ leaves t q
unfolding leaves cut find
leaves-cut f (leaf p) q b = absurd b
leaves-cut f (branch p c (leaf a) (leaf b)) q u = ground arith
leaves-cut f (branch p c (leaf a) (branch s d l r)) q u =
    ground (arith, leaves-cut f (branch s d l r) q tt)
leaves-cut f (branch p c (branch s d l r) (leaf b)) q u =
    ground (arith, leaves-cut f (branch s d l r) q tt)
leaves-cut f (branch p c (branch s d l r) (branch s' d' l' r')) q u =
    ground (arith, leaves-cut f (branch s d l r) q tt, leaves-cut f (branch s' d' l' r') q tt)

pub inner-cut :
    (f : ℕ → Bool) (par : Ptr) (t : Trie) (q : Ptr)
    → IsBranch t
    → inner (cut f t) q + one_if (last_of f par t == q) ≡ inner t q
unfolding inner cut last_of
inner-cut f par (leaf p) q b = absurd b
inner-cut f par (branch p c (leaf a) (leaf b)) q u = ground arith
inner-cut f par (branch p c (leaf a) (branch s d l r)) q u =
    ground (arith, inner-cut f p (branch s d l r) q tt)
inner-cut f par (branch p c (branch s d l r) (leaf b)) q u =
    ground (arith, inner-cut f p (branch s d l r) q tt)
inner-cut f par (branch p c (branch s d l r) (branch s' d' l' r')) q u =
    ground (arith, inner-cut f p (branch s d l r) q tt, inner-cut f p (branch s' d' l' r') q tt)

pub leaves-rename :
    (f : ℕ → Bool) (x p : Ptr) (t : Trie) (q : Ptr) → leaves (rename f x p t) q ≡ leaves t q
unfolding leaves rename
leaves-rename f x p (leaf a) q = refl
leaves-rename f x p (branch a c l r) q =
    ground (arith, leaves-rename f x p l q, leaves-rename f x p r q)

pub inner-rename :
    (f : ℕ → Bool) (x p : Ptr) (t : Trie) (q : Ptr)
    → OnWay f x t
    → inner (rename f x p t) q + one_if (x == q) ≡ inner t q + one_if (p == q)
unfolding inner rename
inner-rename f x p (leaf a) q w = absurd w
inner-rename f x p (branch a c l r) q w = elim (Bool-cases (x == a)) [
  | inl here ↦ ground (arith, here)
  | inr below ↦ elim (Bool-cases (f c)) [
    | inl up ↦
        let deep : OnWay f x r = past x a below (rw up at w) in
        rw (below, up) (omega (arith, inner-rename f x p r q deep))
    | inr down ↦
        let deep : OnWay f x l = past x a below (rw down at w) in
        rw (below, down) (omega (arith, inner-rename f x p l q deep))
  ]
]

-- The keys below stay in order.
pub rename-Sorted :
    (bit : Bits) (f : ℕ → Bool) (x p : Ptr) (t : Trie) → Sorted bit t → Sorted bit (rename f x p t)
unfolding rename
rename-Sorted bit f x p (leaf a) s = tt
rename-Sorted bit f x p (branch a c l r) s = elim (Bool-cases (x == a)) [
  | inl here ↦ rw here s
  | inr below ↦ elim (Bool-cases (f c)) [
    | inl up ↦
        rw (below, up)
          (
            s.0,
            λ q m. s.1 q (rw (← leaves-rename f x p r q) m),
            λ q z i m n.
                s.2 q z i (rw (← leaves-rename f x p r q) m) (rw (← leaves-rename f x p r z) n),
            s.3,
            rename-Sorted bit f x p r s.4,
          )
    | inr down ↦
        rw (below, down)
          (
            λ q m. s.0 q (rw (← leaves-rename f x p l q) m),
            s.1,
            λ q z i m n.
                s.2 q z i (rw (← leaves-rename f x p l q) m) (rw (← leaves-rename f x p l z) n),
            rename-Sorted bit f x p l s.3,
            s.4,
          )
  ]
]

-- A branch keeps its order when a child loses leaves.
fewer-Sorted :
    (bit : Bits) (p : Ptr) (c : ℕ) (l r l' r' : Trie)
    → ((q : Ptr) → 0 < leaves l' q → 0 < leaves l q)
    → ((q : Ptr) → 0 < leaves r' q → 0 < leaves r q)
    → Sorted bit (branch p c l r)
    → Sorted bit l'
    → Sorted bit r'
    → Sorted bit (branch p c l' r')
fewer-Sorted bit p c l r l' r' fl fr s sl sr = (
  λ q m. s.0 q (fl q m),
  λ q m. s.1 q (fr q m),
  λ q z i m n. s.2 q z i (both q m) (both z n),
  sl,
  sr,
)
  where
    both : (q : Ptr) → 0 < leaves l' q + leaves r' q → 0 < leaves l q + leaves r q
    both q m = elim (Bool-cases (ltb 0 (leaves l' q))) [
      | inl inside ↦ omega (arith, fl q (ground arith))
      | inr outside ↦ omega (arith, fr q (ground arith))
    ]

cut-fewer : (f : ℕ → Bool) (t : Trie) (q : Ptr) → 0 < leaves (cut f t) q → 0 < leaves t q
unfolding cut
cut-fewer f (leaf p) q m = m
cut-fewer f (branch p c l r) q m = omega (arith, leaves-cut f (branch p c l r) q tt)

pub cut-Sorted : (bit : Bits) (f : ℕ → Bool) (t : Trie) → Sorted bit t → Sorted bit (cut f t)
unfolding cut
cut-Sorted bit f (leaf q) s = tt
cut-Sorted bit f (branch p c l r) s = elim (Bool-cases (f c)) [
  | inl up ↦ rw up (right r s (cut-Sorted bit f r s.4))
  | inr down ↦ rw down (left l s (cut-Sorted bit f l s.3))
]
  where
    right :
        (z : Trie)
        → Sorted bit (branch p c l z)
        → Sorted bit (cut f z)
        → Sorted bit (bypass p c true z l (cut f z))
    right (leaf q) s ih = s.3
    right (branch q d ll lr) s ih =
        fewer-Sorted bit p c l (branch q d ll lr) l (cut f (branch q d ll lr)) (λ q m. m)
          (cut-fewer f (branch q d ll lr)) s s.3 ih

    left :
        (z : Trie)
        → Sorted bit (branch p c z r)
        → Sorted bit (cut f z)
        → Sorted bit (bypass p c false z (cut f z) r)
    left (leaf q) s ih = s.4
    left (branch q d ll lr) s ih =
        fewer-Sorted bit p c (branch q d ll lr) r (cut f (branch q d ll lr)) r
          (cut-fewer f (branch q d ll lr)) (λ q m. m) s ih s.4
