-- ===== src/Print.antt =====
-- The crude picture of a set that src/cpatricia_set.c prints, as the list of its lines.
pub mod Rows
pub mod Dot
pub mod Graph
pub mod Picture
use patricia_c.Base.{
  ℕ, zero, suc, ◌+◌, bit_and, Bool, true, false, ltb, ◌==◌, if◌then◌else◌, List, [], ◌∷◌,
}
use mathlib.Core.List.{◌++◌}
use patricia_c.Key.{Key, to_bool}
use patricia_c.Heap.{Ptr, Node, Heap, Run, ok, out_of_fuel, ◌>>=◌, load}
use patricia_c.Tree.{rounds}

-- A line: the level it is indented by, and what `fprintf` shows of an uplink or of a node.
pub data Line : Type 0 where
  uplink_line : ℕ → Ptr → Key → ℕ → Line
  node_line : ℕ → ℕ → Ptr → Line

-- The flags for a child of the node `n`.
abbrev pub child_flags : Node → Node → ℕ
child_flags n c = if ltb n.bpos c.bpos then 3 else 0

-- `fprint_tree`
unfoldable pub fprint_tree : Heap → ℕ → Ptr → ℕ → ℕ → Run (List Line)
fprint_tree h zero node level flags = out_of_fuel
fprint_tree h (suc fuel) node level flags = do
  n ← load h node
  if flags == 0 then ok (uplink_line level node n.key n.bpos ∷ []) else do
    above ←
        if to_bool (bit_and flags 2)
        then (do r ← load h n.right; fprint_tree h fuel n.right (suc level) (child_flags n r))
        else ok []
    below ←
        if to_bool (bit_and flags 1)
        then (do l ← load h n.left; fprint_tree h fuel n.left (suc level) (child_flags n l))
        else ok []
    ok (above ++ (node_line level n.bpos node ∷ below))

-- `patriset_print`
unfoldable pub patriset_print : Heap → Ptr → Run (List Line)
patriset_print h root = do r ← load h root; fprint_tree h rounds r.left 0 3
