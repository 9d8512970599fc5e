-- ===== src/Print/Dot.antt =====
-- The graph of a set that src/cpatricia_set.c writes in the DOT notation, as the list of its parts.
use patricia_c.Base.{
  ℕ, zero, suc, ◌+◌, ◌%◌, ◌^◌, Bool, true, false, ltb, ◌==◌, if◌then◌else◌, List, [], ◌∷◌, ◌++◌,
}
use patricia_c.Key.{Mem, byte_at}
use patricia_c.Heap.{Ptr, null, Node, child, Heap, Run, ok, out_of_fuel, ◌>>=◌, load}
use patricia_c.Iter.{Iter, iter_init, iter_next, pre_order}

-- What `node2label` prints for a byte.
pub data Glyph : Type 0 where
  quote_glyph : Glyph
  octal_glyph : ℕ → Glyph
  plain_glyph : ℕ → Glyph

abbrev pub glyph_of : ℕ → Glyph
glyph_of uch =
    if uch == 34 then quote_glyph else if ltb uch 32 then octal_glyph uch else plain_glyph uch

-- A part of the output: the three kinds of edges with the index of the child, and the nodes.
pub data Part : Type 0 where
  down_edge : Ptr → Bool → Ptr → Part
  self_edge : Ptr → Bool → Ptr → Part
  up_edge : Ptr → Bool → Ptr → Part
  root_part : Ptr → Part
  node_part : Ptr → ℕ → List Glyph → Part

-- `_2dot_edges`
abbrev pub dot_edge : Heap → Ptr → Node → Bool → Run Part
dot_edge h node n idx = do
  c ← load h (child n idx)
  ok (
      if ltb n.bpos c.bpos
      then down_edge node idx (child n idx)
      else if child n idx == node
      then self_edge node idx (child n idx)
      else up_edge node idx (child n idx))

unfoldable pub dot_edges : Heap → Ptr → Run (List Part)
dot_edges h node = do
  n ← load h node
  w ← dot_edge h node n false
  e ← dot_edge h node n true
  ok (w ∷ e ∷ [])

-- The loop of `node2label`, up to the NUL behind the key.
unfoldable pub label_glyphs : Mem → ℕ → ℕ → Run (List Glyph)
label_glyphs data_bytes zero i = out_of_fuel
label_glyphs data_bytes (suc fuel) i =
    let uch = byte_at data_bytes i in
    let rest = label_glyphs data_bytes fuel (suc i) in
    if uch == 0 then ok [] else do more ← rest; ok (glyph_of uch ∷ more)

-- `node2label`; a key of 65535 bits has 8192 bytes.
unfoldable pub node2label : Heap → Ptr → Run (ℕ × List Glyph)
node2label h node = do
  n ← load h node
  text ← label_glyphs n.key.mem (2 ^ 13 + 1) 0
  ok (n.bpos % 2 ^ 16, text)

-- The loop of `patriset_todot` over the iterator, which steps on `steps` rounds.
unfoldable pub dot_nodes : Heap → ℕ → ℕ → Iter → Run (List Part)
dot_nodes h steps zero it = out_of_fuel
dot_nodes h steps (suc fuel) it = do
  (node, it1) ← iter_next h steps it
  if node == null then ok [] else do
    (bpos, text) ← node2label h node
    edges ← dot_edges h node
    rest ← dot_nodes h steps fuel it1
    ok (node_part node bpos text ∷ (edges ++ rest))

-- `patriset_todot` with the default label.
unfoldable pub patriset_todot : Heap → ℕ → ℕ → Ptr → Run (List Part)
patriset_todot h steps fuel root = do
  it ← iter_init h root null true pre_order
  edges ← dot_edges h root
  rest ← dot_nodes h steps fuel it
  ok (root_part root ∷ (edges ++ rest))
