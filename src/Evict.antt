-- ===== src/Evict.antt =====
-- Deletion and destruction of src/cpatricia_set.c on a heap of nodes. To free a node takes it off
-- the heap, so that a later use of it is a fault.
pub mod Walk
pub mod Index
pub mod Bypass
pub mod Relabel
pub mod Removed
pub mod Unlink
pub mod Laws
pub mod RoundTrip
pub mod Funnel
pub mod Dead
pub mod Freed
pub mod Fini
use patricia_c.Base.{
  ℕ, zero, suc, Bool, true, false, ◌||◌, Option, none, some, ltb, leb, ◌==◌, if◌then◌else◌,
}
use patricia_c.Key.{Key, getbit}
use patricia_c.Heap.{
  Ptr, null, Node, child, set_child, Heap, write, Run, ok, out_of_fuel, ◌>>=◌, ◌>>◌, assert, load,
  store,
}
use patricia_c.Tree.{rounds, lookup}

-- `_isParentOf`, `_childIdx` and `_otherIdx` on a parent that has been read.
abbrev pub is_parent_of : Node → Ptr → Bool
is_parent_of n p = (n.left == p) || (n.right == p)

abbrev pub child_idx : Node → Ptr → Bool
child_idx n p = n.right == p

abbrev pub other_idx : Node → Ptr → Bool
other_idx n p = n.left == p

-- `NodeLinksT`
pub record NodeLinks : Type 0 where
  pub npar : Ptr
  pub over : Ptr
  pub last : Ptr
  pub node : Ptr

-- The loop of `_pwalk` to the node `target` with the key `k`.
unfoldable pub pwalk_loop : Heap → Key → Ptr → ℕ → NodeLinks → Run NodeLinks
pwalk_loop h k target zero at = out_of_fuel
pwalk_loop h k target (suc fuel) at = do
  l ← load h at.last
  n ← load h at.node
  let rest = pwalk_loop h k target fuel (record {
    npar = if target == at.node then at.last else at.npar;
    over = at.last;
    last = at.node;
    node = child n (getbit k n.bpos);
  })
  if ltb l.bpos n.bpos then rest else ok at

-- `_pwalk`: the links when the walk is made and ends at the node. A parent that the walk does not
-- register is left null here.
unfoldable pub pwalk : Heap → Ptr → Ptr → Run (Option NodeLinks)
pwalk h root target = if (target == null) || (root == target) then ok none else do
  r ← load h root
  t ← load h target
  at ←
      pwalk_loop h t.key target rounds
        (record { npar = null; over = root; last = root; node = r.left })
  o ← load h at.over
  assert (is_parent_of o at.last)
  l ← load h at.last
  assert (is_parent_of l at.node)
  assert (target == at.node)
  ok (if target == at.node then some at else none)

-- `_evict`, with `ptnode_free` at its end.
unfoldable pub unlink : Heap → NodeLinks → Run Heap
unlink h walk = do
  p ← load h walk.last
  assert (is_parent_of p walk.node)
  g ← load h walk.over
  assert (is_parent_of g walk.last)
  h1 ← store h walk.over (set_child g (child_idx g walk.last) (child p (other_idx p walk.node)))
  h2 ← if walk.node == walk.last then ok h1 else do
    z ← load h1 walk.npar
    assert (is_parent_of z walk.node)
    hz ← store h1 walk.npar (set_child z (child_idx z walk.node) walk.last)
    x ← load hz walk.node
    q ← load hz walk.last
    store hz walk.last (record q { left = x.left; right = x.right; bpos = x.bpos })
  x' ← load h2 walk.node
  ok (write h2 walk.node none)

-- `patriset_evict`
unfoldable pub evict : Heap → Ptr → Ptr → Run (Bool × Heap)
evict h root target = do
  found ← pwalk h root target
  elim found [ none ↦ ok (false, h) | some walk ↦ do h1 ← unlink h walk; ok (true, h1) ]

-- `patriset_remove`
unfoldable pub remove : Heap → Ptr → Key → Run (Bool × Heap)
remove h root k = do target ← lookup h root k; evict h root target

-- The inner loops of `patriset_fini`: down the right spine to the node whose right child is an
-- uplink.
unfoldable pub right_end : Heap → ℕ → Ptr → Run Ptr
right_end h zero scan = out_of_fuel
right_end h (suc fuel) scan = do
  n ← load h scan
  r ← load h n.right
  let rest = right_end h fuel n.right
  if ltb n.bpos r.bpos then rest else ok scan

unfoldable pub graft_right : Heap → Ptr → Ptr → Run Heap
graft_right h scan p = do n ← load h scan; store h scan (record n { right = p })

-- The funnel: the nodes are chained by their left children in the order in which they are left.
unfoldable pub funnel : Heap → Ptr → ℕ → Ptr → Ptr → Run (Ptr × Heap)
funnel h root zero list hold = out_of_fuel
funnel h root (suc fuel) list hold = if root == hold then ok (list, h) else do
  n ← load h hold
  l ← load h n.left
  let next = if leb l.bpos n.bpos then n.right else n.left
  h1 ←
      if leb l.bpos n.bpos
      then ok h
      else do scan ← right_end h rounds n.left; graft_right h scan n.right
  m ← load h1 hold
  h2 ← store h1 hold (record m { bpos = 0; left = list })
  funnel h2 root fuel hold next

-- The list of dead nodes is freed from its head on; the result also counts the nodes freed.
unfoldable pub free_list : Heap → ℕ → Ptr → Run (ℕ × Heap)
free_list h zero list = out_of_fuel
free_list h (suc fuel) list = if list == null then ok (0, h) else do
  n ← load h list
  (count, h1) ← free_list (write h list none) fuel n.left
  ok (suc count, h1)

-- `patriset_fini` without the call of the arena killer, on fuel above the number of nodes.
unfoldable pub fini : Heap → ℕ → Ptr → Run (ℕ × Heap)
fini h nodes root = do
  r ← load h root
  let hold = r.left
  h1 ← store h root (record r { left = root; right = root })
  scan ← right_end h1 rounds hold
  h2 ← graft_right h1 scan root
  (list, h3) ← funnel h2 root nodes null hold
  free_list h3 nodes list
