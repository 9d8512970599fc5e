-- ===== src/Print/Picture.antt =====
-- The graph of a trie, drawn without looking at the links in the heap.
use patricia_c.Base.{
  ℕ, zero, suc, ◌+◌, ◌%◌, ◌^◌, ◌<◌, ◌≤◌, ◌≡◌, ◌≢◌, inl, inr, refl, Bool, true, false, ltb, ◌==◌,
  arith, some, List, [], ◌∷◌, ◌++◌, if◌then◌else◌, Bool-cases,
}
use mathlib.Core.List.{map, append_assoc}
use patricia_c.Key.{Mem, byte_at}
use patricia_c.Heap.{Ptr, Node, child, Heap, Run, ok, ◌>>=◌, load-ok}
use patricia_c.Trie.{Trie, leaf, branch, addr, inner}
use patricia_c.Tree.Rep.{Rep, label_node}
use patricia_c.Evict.Dead.{length}
use patricia_c.Iter.{pre_order}
use patricia_c.Iter.Order.{order}
use patricia_c.Print.Dot.{
  Glyph, glyph_of, quote_glyph, octal_glyph, plain_glyph, Part, down_edge, self_edge, up_edge,
  node_part, dot_edge, dot_edges, label_glyphs, node2label,
}

-- The memory holds the bytes, none of them zero, and a zero behind them.
abbrev pub Spells : Mem → ℕ → List ℕ → Type 0
Spells mem i [] = byte_at mem i ≡ 0
Spells mem i (b ∷ bytes) = (byte_at mem i ≡ b) × (b ≢ 0) × Spells mem (suc i) bytes

-- The keys of the branches are such strings, of at most as many bytes as the longest key has.
abbrev pub AreStrings : Heap → Trie → (Ptr → List ℕ) → Type 0
AreStrings h t strings =
    (p : Ptr) (n : Node)
    → 0 < inner t p
    → h p ≡ some n
    → Spells n.key.mem 0 (strings p) × (length (strings p) ≤ 2 ^ 13)

-- A control character is drawn by its octal digits, a quote behind a backslash, and any other byte
-- as it is.
abbrev pub drawn_byte : ℕ → Glyph
drawn_byte byte =
    if ltb byte 32 then octal_glyph byte else if byte == 34 then quote_glyph else plain_glyph byte

-- The edge from a node to the head of a subtrie: down to a branch, or back to a node.
abbrev pub edge_to : Ptr → Bool → Trie → Part
edge_to p idx (leaf q) = if q == p then self_edge p idx q else up_edge p idx q
edge_to p idx (branch q c l r) = down_edge p idx q

-- The branches from above and from left to right, each with its label and its two edges.
unfoldable pub picture : (Ptr → List ℕ) → Trie → List Part
picture strings (leaf q) = []
picture strings (branch p c l r) =
    node_part p c (map drawn_byte (strings p))
    ∷ edge_to p false l
    ∷ edge_to p true r
    ∷ (picture strings l ++ picture strings r)

-- The parts for the nodes of a list: each with its label and its two edges.
unfoldable pub parts : Heap → List Ptr → Run (List Part)
parts h [] = ok []
parts h (node ∷ nodes) = do
  (bpos, text) ← node2label h node
  edges ← dot_edges h node
  rest ← parts h nodes
  ok (node_part node bpos text ∷ (edges ++ rest))

abbrev is_branch : Trie → Bool
is_branch (leaf p) = false
is_branch (branch p c l r) = true

Rep-down :
    (h : Heap) (c : ℕ) (t : Trie)
    → Rep h c t
    → (m : Node) × (h (addr t) ≡ some m) × (ltb c m.bpos ≡ is_branch t)
Rep-down h c (leaf p) (l, el, d) =
    let (m, em, pos, key) = label_node (h p) l el in (m, em, ground (arith, pos, d))
Rep-down h c (branch p b l r) (m, em, pos, el, er, d, w, rl, rr) = (m, em, ground (arith, pos, d))

-- The edge that is written is the one to the subtrie.
pub dot_edge-edge_to :
    (h : Heap) (p : Ptr) (n : Node) (idx : Bool) (t : Trie)
    → child n idx ≡ addr t
    → Rep h n.bpos t
    → dot_edge h p n idx ≡ ok (edge_to p idx t)
dot_edge-edge_to h p n idx (leaf q) e rep =
    let (m, em, up) = Rep-down h n.bpos (leaf q) rep in rw (e, load-ok h q m em, up) refl
dot_edge-edge_to h p n idx (branch q c l r) e rep =
    let (m, em, down) = Rep-down h n.bpos (branch q c l r) rep in
    rw (e, load-ok h q m em, down) refl

glyph_of-drawn_byte : (b : ℕ) → glyph_of b ≡ drawn_byte b
glyph_of-drawn_byte b = elim (Bool-cases (b == 34)) [
  | inl quote ↦ let above : ltb b 32 ≡ false = ground arith in rw (quote, above) refl
  | inr other ↦ elim (Bool-cases (ltb b 32)) [
    | inl control ↦ rw (other, control) refl
    | inr printed ↦ rw (other, printed) refl
  ]
]

label_glyphs-drawn :
    (mem : Mem) (bytes : List ℕ) (i fuel : ℕ)
    → Spells mem i bytes
    → length bytes < fuel
    → label_glyphs mem fuel i ≡ ok (map drawn_byte bytes)
unfolding label_glyphs length
label_glyphs-drawn mem bytes i zero sp l = absurd (omega arith)
label_glyphs-drawn mem [] i (suc fuel) sp l = rw sp refl
label_glyphs-drawn mem (b ∷ bytes) i (suc fuel) (at, real, sp) l =
    let rest = label_glyphs-drawn mem bytes (suc i) fuel sp (omega arith) in
    let more : (byte_at mem i == 0) ≡ false = ground (arith, at, real) in
    rw (more, rest, at, glyph_of-drawn_byte b) refl

module _ (h : Heap) (strings : Ptr → List ℕ) where
  node2label-drawn :
      (p : Ptr) (n : Node) (c : ℕ)
      → h p ≡ some n
      → n.bpos ≡ c
      → c < 2 ^ 16
      → Spells n.key.mem 0 (strings p)
      → length (strings p) ≤ 2 ^ 13
      → node2label h p ≡ ok (c, map drawn_byte (strings p))
  unfolding node2label
  node2label-drawn p n c e pos w sp l =
      let small : c % 2 ^ 16 ≡ c = omega arith in
      let text = label_glyphs-drawn n.key.mem (strings p) 0 (2 ^ 13 + 1) sp (omega arith) in
      rw (load-ok h p n e, text, pos, small) refl

  dot_edges-drawn :
      (p : Ptr) (n : Node) (c : ℕ) (l r : Trie)
      → h p ≡ some n
      → n.bpos ≡ c
      → n.left ≡ addr l
      → n.right ≡ addr r
      → Rep h c l
      → Rep h c r
      → dot_edges h p ≡ ok (edge_to p false l ∷ edge_to p true r ∷ [])
  unfolding dot_edges
  dot_edges-drawn p n c l r e pos el er rl rr =
      let w = dot_edge-edge_to h p n false l el (rw pos rl) in
      let x = dot_edge-edge_to h p n true r er (rw pos rr) in rw (load-ok h p n e, w, x) refl

  -- The branches of a trie give its picture.
  pub parts-picture :
      (b : ℕ) (t : Trie) (nodes : List Ptr) (behind : List Part)
      → Rep h b t
      → AreStrings h t strings
      → parts h nodes ≡ ok behind
      → parts h (order pre_order true t ++ nodes) ≡ ok (picture strings t ++ behind)
  unfolding parts picture order inner
  parts-picture b (leaf q) nodes behind rep texts e = e
  parts-picture b (branch p c l r) nodes behind (n, ep, pos, el, er, d, w, rl, rr) texts e =
      let (sp, len) = texts p n (ground arith) ep in
      let right = parts-picture c r nodes behind rr (λ q m i. texts q m (omega arith)) e in
      let left =
        parts-picture c l (order pre_order true r ++ nodes) (picture strings r ++ behind) rl
          (λ q m i. texts q m (omega arith)) right in
      rw
        (
          append_assoc (order pre_order true l) (order pre_order true r) nodes,
          append_assoc (picture strings l) (picture strings r) behind,
          node2label-drawn p n c ep pos w sp len,
          dot_edges-drawn p n c l r ep pos el er rl rr,
          left,
        )
        refl
