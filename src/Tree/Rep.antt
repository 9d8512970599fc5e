-- ===== src/Tree/Rep.antt =====
-- How a heap of nodes stands for a trie.
use patricia_c.Base.{
  ℕ, ◌+◌, ◌-◌, refl, Bool-cases, inl, inr, ltb, ◌^◌, ◌≤◌, ◌<◌, ◌≡◌, Bool, false, Option, none, some,
  arith, ◌==◌,
}
use patricia_c.Key.{Key, getbit}
use patricia_c.Heap.{Ptr, null, Node, Heap}
use patricia_c.Trie.Up.{PointsUp}
use patricia_c.Trie.{Trie, leaf, branch, addr, leaves, inner, Bits, Sorted, one_if}

-- What a walk reads of the node behind an uplink.
pub record Label : Type 0 where
  pub bpos : ℕ
  pub key : Key

abbrev pub label_of : Option Node → Option Label
label_of none = none
label_of (some n) = some (record { bpos = n.bpos; key = n.key })

-- Seen from a node with branch position `b`, the heap has the trie: an uplink leads to a node
-- that is not further down, a downlink to one that is and whose children have the subtries.
abbrev pub Rep : Heap → ℕ → Trie → Type 0
Rep h b (leaf p) = (n : Label) × (label_of (h p) ≡ some n) × (n.bpos ≤ b)
Rep h b (branch p c l r) =
    (n : Node) × (h p ≡ some n)
    × (n.bpos ≡ c)
    × (n.left ≡ addr l)
    × (n.right ≡ addr r)
    × (b < c)
    × (c < 2 ^ 16)
    × Rep h c l
    × Rep h c r

-- The bit of a node's key; where no node is, there is none.
abbrev pub bit_of : Option Node → ℕ → Bool
bit_of none i = false
bit_of (some n) i = getbit n.key i

abbrev pub bits_in : Heap → Bits
bits_in h q i = bit_of (h q) i

-- The heap holds the set whose sentinel is at `root`, shaped as the trie: the root points at the
-- trie and, with its other child, at itself; each node is reached by one downlink and, from below
-- it, by one uplink, the root by an uplink only; and the keys are short enough for a 16-bit branch position.
pub record IsNodeSet (h : Heap) (root : Ptr) (t : Trie) : Type 0 where
  pub anchor : Node
  pub at_root : h root ≡ some anchor
  pub top : anchor.left ≡ addr t
  pub self : anchor.right ≡ root
  pub start : anchor.bpos ≡ 0
  pub empty_key : anchor.key.nbit ≡ 0
  pub rep : Rep h 0 t
  pub sorted : Sorted (bits_in h) t
  pub up : PointsUp (λ q. q ≡ root) t
  pub two_links : (q : Ptr) → leaves t q ≡ inner t q + one_if (root == q)
  pub once : (q : Ptr) → inner t q + one_if (root == q) ≤ 1
  pub no_null : h null ≡ none
  pub short : (q : Ptr) (n : Node) → 0 < leaves t q → h q ≡ some n → n.key.nbit < 2 ^ 16 - 1

pub label_node :
    (o : Option Node) (n : Label)
    → label_of o ≡ some n
    → (m : Node) × (o ≡ some m) × (m.bpos ≡ n.bpos) × (m.key ≡ n.key)
label_node none n e = cc
label_node (some m) n e = (m, refl, ground arith, ground arith)

-- Every leaf of a trie in the heap is a node.
pub leaf_node :
    (h : Heap) (b : ℕ) (t : Trie) (q : Ptr)
    → Rep h b t
    → 0 < leaves t q
    → (n : Node) × (h q ≡ some n)
unfolding leaves
leaf_node h b (leaf p) q (n, e, l) m =
    let f : p ≡ q = ground arith in let node = label_node (h p) n e in (node.0, rw (← f) node.1)
leaf_node h b (branch p c l r) q (n, e, pos, el, er, d, w, rl, rr) m =
    elim (Bool-cases (ltb 0 (leaves l q))) [
      | inl inside ↦ leaf_node h c l q rl (ground arith)
      | inr outside ↦ leaf_node h c r q rr (ground arith)
    ]
