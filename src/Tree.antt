-- ===== src/Tree.antt =====
-- The core operations of src/cpatricia_set.c on a heap of nodes: set-up, lookup, longest prefix
-- and insertion.
pub mod Rep
pub mod Lookup
pub mod Link
pub mod Seek
pub mod Fresh
pub mod Insert
pub mod Laws
pub mod Down
pub mod Candidate
pub mod Prefix
pub mod NoMemory
use patricia_c.Base.{
  ℕ, zero, suc, ◌+◌, ◌-◌, ◌/◌, ◌^◌, Bool, true, false, not, ◌&&◌, Option, none, some, ltb, leb,
  ◌==◌, if◌then◌else◌,
}
use patricia_c.Key.{Mem, Key, getbit, equkey}
use patricia_c.Diff.{WordOps, bitdiff}
use patricia_c.Heap.{
  Ptr, null, Node, child, set_child, Heap, write, Run, ok, fault, out_of_fuel, ◌>>=◌, ◌>>◌, assert,
  load, store,
}

-- A walk goes on while the 16-bit branch position grows, so it makes fewer rounds than this.
unfoldable pub rounds : ℕ
rounds = 2 ^ 16

-- `patriset_init`: the root sentinel points at itself, with branch position 0 and the empty key.
unfoldable pub init : Ptr → Heap → Heap
unfolding write
init root h =
    write h root (
      some
        (record { left = root; right = root; bpos = 0; key = record { mem = λ i. 0; nbit = 0 } }))

-- The key data that `ptnode_create` copies: the bytes that hold bits, and one NUL behind them.
unfoldable pub copy_key : Key → Key
copy_key k =
    let bytelen = (k.nbit + 8 - 1) / 8 in
    record { mem = λ i. if ltb i bytelen then k.mem i else 0; nbit = k.nbit }

-- `ptnode_create`, where `fresh` is what the allocator returns. The new node is zeroed.
unfoldable pub create : Ptr → Key → Heap → Ptr × Heap
create fresh k h =
    if not (fresh == null)
    then (
      fresh,
      write h fresh (some (record { left = null; right = null; bpos = 0; key = copy_key k })),
    )
    else (null, h)

-- The loop of `patriset_lookup`: `opos` is the branch position of the node left behind.
unfoldable pub walk : Heap → Key → ℕ → ℕ → Ptr → Run Ptr
walk h k zero opos node = out_of_fuel
walk h k (suc fuel) opos node = do
  n ← load h node
  let rest = walk h k fuel n.bpos (child n (getbit k n.bpos))
  if ltb opos n.bpos then rest else ok node

unfoldable pub lookup : Heap → Ptr → Key → Run Ptr
lookup h root k = do
  r ← load h root
  node ← walk h k rounds r.bpos r.left
  n ← load h node
  ok (if equkey k n.key then node else null)

-- `patricia_equkey(key, node->nbit, node->data, node->nbit)`: the key is read up to the length
-- of the node's key.
abbrev pub covers : Key → Node → Bool
covers k n = equkey (record { mem = k.mem; nbit = n.key.nbit }) n.key

unfoldable pub prefix_walk : Heap → Key → ℕ → ℕ → Ptr → Ptr → Run (Ptr × Ptr)
prefix_walk h k zero opos best node = out_of_fuel
prefix_walk h k (suc fuel) opos best node = do
  n ← load h node
  let best' = if leb n.key.nbit k.nbit && covers k n then node else best
  let rest = prefix_walk h k fuel n.bpos best' (child n (getbit k n.bpos))
  if ltb opos n.bpos then rest else ok (best, node)

-- `patriset_prefix`
unfoldable pub prefix : Heap → Ptr → Key → Run Ptr
prefix h root k = do
  r ← load h root
  (best, node) ← prefix_walk h k rounds r.bpos null r.left
  n ← load h node
  ok (if covers k n then node else best)

-- The first loop of `patriset_insert`: both the node and its predecessor are tracked.
unfoldable pub descend : Heap → Key → ℕ → Ptr → Ptr → Run Ptr
descend h k zero last next = out_of_fuel
descend h k (suc fuel) last next = do
  l ← load h last
  n ← load h next
  let rest = descend h k fuel next (child n (getbit k n.bpos))
  if ltb l.bpos n.bpos then rest else ok next

-- Where the second loop of `patriset_insert` stops: parent, direction taken there, child or uplink.
pub record Place : Type 0 where
  pub last : Ptr
  pub pdir : Bool
  pub next : Ptr

-- The second loop, limited by the new branch position.
unfoldable pub seek : Heap → Key → ℕ → ℕ → Ptr → Bool → Ptr → Run Place
seek h k bpos zero last pdir next = out_of_fuel
seek h k bpos (suc fuel) last pdir next = do
  l ← load h last
  n ← load h next
  let pdir' = getbit k n.bpos
  let rest = seek h k bpos fuel next pdir' (child n pdir')
  if ltb l.bpos n.bpos && ltb n.bpos bpos
      then rest
      else ok (record { last = last; pdir = pdir; next = next })

-- What an insertion returns: the node, the flag `*inserted`, and the heap.
pub record Inserted : Type 0 where
  pub node : Ptr
  pub inserted : Bool
  pub heap : Heap

-- The writes that link the created node below its parent: its own key bit says which of its
-- children points back to itself.
unfoldable pub link : Heap → Key → ℕ → Ptr → Place → Run Heap
link h k bpos node at = do
  let ndir = getbit k bpos
  n ← load h node
  h1 ← store h node (set_child n ndir node)
  n1 ← load h1 node
  h2 ← store h1 node (set_child n1 (not ndir) at.next)
  p ← load h2 at.last
  store h2 at.last (set_child p at.pdir node)

-- The part of `patriset_insert` behind the check for an existing node.
unfoldable pub insert_new : WordOps → Bool → Ptr → Heap → Ptr → Key → Node → Run Inserted
insert_new w little fresh h root k found = do
  let bpos = bitdiff w little k found.key
  assert (not (bpos == 0))
  let (node, h1) = create fresh k h
  if node == null then ok (record { node = node; inserted = false; heap = h1 }) else do
    n ← load h1 node
    h2 ← store h1 node (record n { bpos = bpos })
    r ← load h2 root
    at ← seek h2 k bpos rounds root false r.left
    h3 ← link h2 k bpos node at
    ok (record { node = node; inserted = true; heap = h3 })

-- `patriset_insert`
unfoldable pub insert : WordOps → Bool → Ptr → Heap → Ptr → Key → Run Inserted
insert w little fresh h root k = do
  r ← load h root
  next ← descend h k rounds root r.left
  n ← load h next
  if equkey k n.key
      then ok (record { node = next; inserted = false; heap = h })
      else insert_new w little fresh h root k n
