-- ===== src/Print/Rows.antt =====
-- The picture is that of the trie.
use mathlib.Core.List.{◌++◌}
use patricia_c.Base.{
  ℕ, zero, suc, ◌+◌, ◌^◌, ◌≤◌, ◌<◌, ◌≡◌, refl, ◌∙◌, true, false, ltb, Option, none, some, arith,
  List, [], ◌∷◌,
}
use patricia_c.Heap.{Ptr, Node, Heap, ok, load-ok}
use patricia_c.Trie.{Trie, leaf, branch, addr}
use patricia_c.Tree.Rep.{Rep, IsNodeSet, label_node}
use patricia_c.Tree.Insert.{rounds_lem}
use patricia_c.Print.{Line, uplink_line, node_line, child_flags, fprint_tree, patriset_print}

-- The line of an uplink.
abbrev pub uplink_row : Option Node → Ptr → ℕ → List Line
uplink_row none p level = []
uplink_row (some n) p level = uplink_line level p n.key n.bpos ∷ []

-- The right subtrie, the node and the left subtrie, each level indented.
unfoldable pub rows : Heap → Trie → ℕ → List Line
rows h (leaf p) level = uplink_row (h p) p level
rows h (branch p c l r) level = rows h r (suc level) ++ (node_line level c p ∷ rows h l (suc level))

-- The node at the head of a trie in the heap, and what the flags say of it.
Head : Heap → ℕ → Trie → Type 0
Head h b (leaf p) = (n : Node) × (h p ≡ some n) × (n.bpos ≤ b)
Head h b (branch p c l r) = (n : Node) × (h p ≡ some n) × (b < n.bpos)

abbrev flags_of : Trie → ℕ
flags_of (leaf p) = 0
flags_of (branch p c l r) = 3

Rep-flags :
    (h : Heap) (n : Node) (b : ℕ) (t : Trie)
    → n.bpos ≡ b
    → Rep h b t
    → (m : Node) × (h (addr t) ≡ some m) × (child_flags n m ≡ flags_of t)
Rep-flags h n b (leaf p) e (l, el, d) =
    let (m, em, pos, key) = label_node (h p) l el in
    let up : ltb n.bpos m.bpos ≡ false = ground (arith, e, pos, d) in (m, em, rw up refl)
Rep-flags h n b (branch p c l r) e (m, em, pos, el, er, d, w, rl, rr) =
    let down : ltb n.bpos m.bpos ≡ true = ground (arith, e, pos, d) in (m, em, rw down refl)

fprint_tree-rows :
    (h : Heap) (fuel b level : ℕ) (t : Trie)
    → Rep h b t
    → b < 2 ^ 16
    → 2 ^ 16 ≤ fuel + b
    → fprint_tree h fuel (addr t) level (flags_of t) ≡ ok (rows h t level)
unfolding fprint_tree rows
fprint_tree-rows h zero b level t rep w f = absurd (omega arith)
fprint_tree-rows h (suc fuel) b level (leaf p) (l, el, d) w f =
    let (m, em, pos, key) = label_node (h p) l el in rw (load-ok h p m em, em) refl
fprint_tree-rows h (suc fuel) b level (branch p c l r) (m, em, pos, el, er, d, w, rl, rr) _ f =
    let (x, ex, fx) = Rep-flags h m c r pos rr in
    let (y, ey, fy) = Rep-flags h m c l pos rl in
    let right = fprint_tree-rows h fuel c (suc level) r rr w (omega arith) in
    let left = fprint_tree-rows h fuel c (suc level) l rl w (omega arith) in
    rw
      (
        load-ok h p m em,
        er,
        el,
        load-ok h (addr r) x ex,
        fx,
        right,
        load-ok h (addr l) y ey,
        fy,
        left,
        pos,
      )
      refl

-- What is printed of a whole set: an empty one shows its sentinel as a node.
abbrev pub drawn : Heap → Ptr → Trie → List Line
drawn h root (leaf p) = rows h (leaf root) 1 ++ (node_line 0 0 root ∷ rows h (leaf root) 1)
drawn h root (branch p c l r) = rows h (branch p c l r) 0

fprint_tree_self :
    (h : Heap) (root : Ptr) (n : Node) (fuel : ℕ)
    → h root ≡ some n
    → n.left ≡ root
    → n.right ≡ root
    → n.bpos ≡ 0
    → fprint_tree h (suc (suc fuel)) root 0 3 ≡ ok (drawn h root (leaf root))
unfolding fprint_tree rows
fprint_tree_self h root n fuel e el er start =
    let same : ltb n.bpos n.bpos ≡ false = ground arith in
    rw (load-ok h root n e, el, er, load-ok h root n e, same, e, start) refl

-- On a set the printing returns the picture of its trie: for each node the lines of its right
-- subtrie, its own line, and the lines of its left subtrie, with a line for each uplink, indented
-- by the depth. A set with the sentinel alone is shown as this node with its two links.
pub patriset_print-drawn :
    {h : Heap} {root : Ptr} (t : Trie)
    → IsNodeSet h root t
    → patriset_print h root ≡ ok (drawn h root t)
unfolding patriset_print
patriset_print-drawn {h} {root} (branch p c l r) s =
    rw (load-ok h root s.anchor s.at_root, s.top, rounds_lem)
      (fprint_tree-rows h (2 ^ 16) 0 0 (branch p c l r) s.rep (omega arith) (omega arith))
patriset_print-drawn {h} {root} (leaf p) s =
    rw (load-ok h root s.anchor s.at_root, s.top, s.up, rounds_lem)
      (fprint_tree_self h root s.anchor 65534 s.at_root (s.top ∙ s.up) s.self s.start)
