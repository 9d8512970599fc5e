-- ===== src/Iter/Hang.antt =====
-- A trie to iterate over and its subtries, seen from the nodes above them, for the iterators of
-- src/cpatricia_set.c.
use mathlib.Core.Path.{subst}
use patricia_c.Base.{ℕ, ◌^◌, ◌≤◌, ◌<◌, ◌≡◌, inl, inr, refl, sym, some, arith}
use patricia_c.Key.{getbit}
use patricia_c.Heap.{Ptr, Node, Heap}
use patricia_c.Trie.{Trie, branch, inner}
use patricia_c.Trie.Up.{OnWay}
use patricia_c.Tree.Rep.{Rep}
use patricia_c.Iter.Under.{IsHead, Under}

-- A trie in the heap with each node once as a branch, on the way of its own key.
pub record Walkable (h : Heap) (b : ℕ) (t : Trie) : Type 0 where
  pub rep : Rep h b t
  pub low : b < 2 ^ 16
  pub once : (q : Ptr) → inner t q ≤ 1
  pub way : (x : Ptr) (n : Node) → 0 < inner t x → h x ≡ some n → OnWay (getbit n.key) x t

-- The branches of a part are branches of the whole, with the same parents.
pub record Inside (t s : Trie) : Type 0 where
  pub within : (a : Ptr) → 0 < inner s a → 0 < inner t a
  pub deeper : (q a : Ptr) → Under s q a → Under t q a

-- The part hangs below a node of the whole.
pub record Hangs (h : Heap) (t s : Trie) (last : Ptr) (n : Node) : Type 0 where
  pub part : Inside t s
  pub at : h last ≡ some n
  pub rep : Rep h n.bpos s
  pub low : n.bpos < 2 ^ 16
  pub inside : 0 < inner t last
  pub at_head : (a : Ptr) → IsHead s a → Under t last a

pub whole : (t : Trie) → Inside t t
whole t = record { within = λ a i. i; deeper = λ q a u. u }

-- The subtries of a part hang below the node at its head.
pub Hangs-left :
    (h : Heap) (t : Trie) (b : ℕ) (p : Ptr) (c : ℕ) (l r : Trie)
    → Inside t (branch p c l r)
    → (rep : Rep h b (branch p c l r)) → Hangs h t l p (rep.0)
unfolding inner
Hangs-left h t b p c l r part (n, e, pos, el, er, d, w, rl, rr) = record {
  part = record {
    within = λ a i. part.within a (omega arith);
    deeper = λ q a u. part.deeper q a (inr (inl u));
  };
  at = e;
  rep = subst (λ x. Rep h x l) (sym pos) rl;
  low = omega arith;
  inside = part.within p (ground arith);
  at_head = λ a i. part.deeper p a (inl (refl, inl i));
}

pub Hangs-right :
    (h : Heap) (t : Trie) (b : ℕ) (p : Ptr) (c : ℕ) (l r : Trie)
    → Inside t (branch p c l r)
    → (rep : Rep h b (branch p c l r)) → Hangs h t r p (rep.0)
unfolding inner
Hangs-right h t b p c l r part (n, e, pos, el, er, d, w, rl, rr) = record {
  part = record {
    within = λ a i. part.within a (omega arith);
    deeper = λ q a u. part.deeper q a (inr (inr u));
  };
  at = e;
  rep = subst (λ x. Rep h x r) (sym pos) rr;
  low = omega arith;
  inside = part.within p (ground arith);
  at_head = λ a i. part.deeper p a (inl (refl, inr i));
}
