-- ===== src/Evict/Index.antt =====
-- `_isParentOf`, `_childIdx` and `_otherIdx` at a node of which one child leads to a pointer and
-- the other does not.
use patricia_c.Base.{◌≡◌, ◌≢◌, Bool, true, false, not, arith}
use patricia_c.Heap.{Ptr, Node, child}
use patricia_c.Evict.{is_parent_of, child_idx, other_idx}

pub is_parent_of-child : (n : Node) (d : Bool) (p : Ptr) → child n d ≡ p → is_parent_of n p ≡ true
is_parent_of-child n true p e = ground arith
is_parent_of-child n false p e = ground arith

pub child_idx_dir :
    (n : Node) (d : Bool) (p : Ptr) → child n d ≡ p → child n (not d) ≢ p → child_idx n p ≡ d
child_idx_dir n true p e ne = ground arith
child_idx_dir n false p e ne = ground arith

pub other_idx_dir :
    (n : Node) (d : Bool) (p : Ptr) → child n d ≡ p → child n (not d) ≢ p → other_idx n p ≡ not d
other_idx_dir n true p e ne = ground arith
other_idx_dir n false p e ne = ground arith
