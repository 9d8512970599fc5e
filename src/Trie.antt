-- ===== src/Trie.antt =====
-- The abstract trie behind the nodes of a set. A branch is a node reached downwards, with its
-- branch position; a leaf is an uplink, the node whose key a walk ends at. So each node of a set
-- occurs once as a branch and once as a leaf, and the root sentinel only as a leaf.
pub mod Find
pub mod Graft
pub mod Up
pub mod Cut
pub mod Evicted
use patricia_c.Base.{
  ℕ, zero, suc, ◌+◌, ◌≤◌, ◌<◌, ◌≡◌, Bool, true, false, not, ltb, ◌==◌, if◌then◌else◌,
}
use patricia_c.Heap.{Ptr}

pub data Trie : Type 0 where
  leaf : Ptr → Trie
  branch : Ptr → ℕ → Trie → Trie → Trie

-- The pointer that leads to a trie.
abbrev pub addr : Trie → Ptr
addr (leaf p) = p
addr (branch p c l r) = p

-- The leaf to which the bits `f` lead.
unfoldable pub find : (ℕ → Bool) → Trie → Ptr
find f (leaf p) = p
find f (branch p c l r) = if f c then find f r else find f l

-- How often a node occurs as a leaf, and as a branch.
abbrev pub one_if : Bool → ℕ
one_if b = if b then 1 else 0

unfoldable pub leaves : Trie → Ptr → ℕ
leaves (leaf p) q = one_if (p == q)
leaves (branch p c l r) q = leaves l q + leaves r q

unfoldable pub inner : Trie → Ptr → ℕ
inner (leaf p) q = 0
inner (branch p c l r) q = one_if (p == q) + inner l q + inner r q

-- The keys' bits: `bit q i` is the bit of the key of node `q` at position `i`.
abbrev pub Bits : Type 0
Bits = Ptr → ℕ → Bool

-- Every leaf stands where the bits of its key lead, and the keys below a branch agree before its
-- position.
abbrev pub Sorted : Bits → Trie → Type 0
Sorted bit (leaf p) = Unit {0}
Sorted bit (branch p c l r) =
    ((q : Ptr) → 0 < leaves l q → bit q c ≡ false)
    × ((q : Ptr) → 0 < leaves r q → bit q c ≡ true)
    × ((q s : Ptr) (i : ℕ)
        → 0 < leaves l q + leaves r q
        → 0 < leaves l s + leaves r s
        → i < c
        → bit q i ≡ bit s i)
    × Sorted bit l
    × Sorted bit r

-- A new leaf and the trie that it joins below a new branch at position `c`.
unfoldable pub join : Ptr → ℕ → Bool → Trie → Trie
join p c true t = branch p c t (leaf p)
join p c false t = branch p c (leaf p) t

-- Insertion: go down along `f` through the branches before position `c`, and join there.
unfoldable pub graft : Ptr → ℕ → (ℕ → Bool) → Trie → Trie
graft p c f (leaf q) = join p c (f c) (leaf q)
graft p c f (branch q d l r) =
    if ltb d c
    then (if f d then branch q d l (graft p c f r) else branch q d (graft p c f l) r)
    else join p c (f c) (branch q d l r)
