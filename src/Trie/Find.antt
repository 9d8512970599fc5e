-- ===== src/Trie/Find.antt =====
-- Where the bits of a key lead in a trie.
use patricia_c.Base.{ℕ, ◌<◌, ◌≡◌, sym, ◌∙◌, Bool, arith}
use patricia_c.Heap.{Ptr}
use patricia_c.Trie.{Trie, leaf, branch, find, leaves, Bits, Sorted}

-- A walk ends at a leaf.
pub find-mem : (f : ℕ → Bool) (t : Trie) → 0 < leaves t (find f t)
unfolding find leaves
find-mem f (leaf p) = ground arith
find-mem f (branch p c l r) = ground (arith, find-mem f l, find-mem f r)

-- The bits of a leaf's own key lead to it.
pub find_self :
    (bit : Bits) (f : ℕ → Bool) (q : Ptr) (t : Trie)
    → ((i : ℕ) → f i ≡ bit q i)
    → Sorted bit t
    → 0 < leaves t q
    → find f t ≡ q
unfolding find leaves
find_self bit f q (leaf p) e s m = ground arith
find_self bit f q (branch p c l r) e (left, right, agree, sl, sr) m =
    ground (arith, e c, left q, right q, find_self bit f q l e sl, find_self bit f q r e sr)

-- Only the bits of the leaves matter.
pub Sorted-ext :
    (bit bit' : Bits) (t : Trie)
    → ((q : Ptr) (i : ℕ) → 0 < leaves t q → bit' q i ≡ bit q i)
    → Sorted bit t
    → Sorted bit' t
unfolding leaves
Sorted-ext bit bit' (leaf p) e s = tt
Sorted-ext bit bit' (branch p c l r) e (left, right, agree, sl, sr) = (
  λ q m. e q c (omega arith) ∙ left q m,
  λ q m. e q c (omega arith) ∙ right q m,
  λ q s i m n b. e q i m ∙ agree q s i m n b ∙ sym (e s i n),
  Sorted-ext bit bit' l (λ q i m. e q i (omega arith)) sl,
  Sorted-ext bit bit' r (λ q i m. e q i (omega arith)) sr,
)
