-- ===== src/Session.antt =====
-- The set of src/cpatricia_set.c as its callers see it: the calls that change a set, one after
-- the other, and the dictionary from keys to nodes that they keep.
pub mod Refine
use patricia_c.Base.{
  ◌-◌, ◌^◌, ◌<◌, ◌≡◌, ◌≢◌, Bool, true, false, not, ◌&&◌, ◌||◌, none, ◌==◌, if◌then◌else◌,
}
use patricia_c.Key.{Key, equkey}
use patricia_c.Diff.{WordOps}
use patricia_c.Heap.{Ptr, null, Heap, Run, ok, ◌>>=◌}
use patricia_c.Tree.{init, lookup, insert}
use patricia_c.Evict.{evict, remove}

-- A call that changes a set. An insertion carries what its allocator would return.
pub data Call : Type 0 where
  insert_call : Ptr → Key → Call
  remove_call : Key → Call
  evict_call : Ptr → Call

-- The flag that the call returns, and the heap.
unfoldable pub run_call : WordOps → Bool → Ptr → Heap → Call → Run (Bool × Heap)
run_call w little root h (insert_call fresh k) = do
  r ← insert w little fresh h root k
  ok (r.inserted, r.heap)
run_call w little root h (remove_call k) = remove h root k
run_call w little root h (evict_call p) = evict h root p

-- What the caller and the allocator owe: keys of a length that fits, memory in no use, and a node
-- to evict that a look-up returns.
abbrev pub Allowed : Ptr → Heap → Call → Type 0
Allowed root h (insert_call fresh k) = (h fresh ≡ none) × (k.nbit < 2 ^ 16 - 1)
Allowed root h (remove_call k) = k.nbit < 2 ^ 16
Allowed root h (evict_call p) = (k : Key) × (k.nbit < 2 ^ 16) × (lookup h root k ≡ ok p)

-- The abstract set: the node of each key, NULL for a key that is not there.
abbrev pub Dict : Type 0
Dict = Key → Ptr

-- A set that has been set up has the sentinel, whose key is the empty one.
abbrev pub only_root : Ptr → Dict
only_root root k = if k.nbit == 0 then root else null

-- The dictionary with another node for a key.
abbrev pub put : Key → Ptr → Dict → Dict
put k p d j = if equkey j k then p else d j

-- What a call does to the abstract set.
unfoldable pub spec_call : Ptr → Dict → Call → Bool × Dict
spec_call root d (insert_call fresh k) =
    if (d k == null) && not (fresh == null) then (true, put k fresh d) else (false, d)
spec_call root d (remove_call k) =
    if (d k == null) || (root == d k) then (false, d) else (true, put k null d)
spec_call root d (evict_call p) =
    if (p == null) || (root == p) then (false, d) else (true, λ j. if d j == p then null else d j)

-- The heaps that calls lead to after the set-up, each with the dictionary kept beside it.
pub data Reach (w : WordOps) (little : Bool) (root : Ptr) : Heap → Dict → Type 0 where
  set_up :
      (h : Heap) → root ≢ null → h null ≡ none → Reach w little root (init root h) (only_root root)
  call :
      {h h' : Heap} {d : Dict} (c : Call) (flag : Bool)
      → Reach w little root h d
      → Allowed root h c
      → run_call w little root h c ≡ ok (flag, h')
      → Reach w little root h' (spec_call root d c).1
