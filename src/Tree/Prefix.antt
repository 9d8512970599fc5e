-- ===== src/Tree/Prefix.antt =====
-- `patriset_prefix`: which nodes it returns.
use patricia_c.Base.{
  ℕ, zero, suc, ◌+◌, ◌^◌, ◌≤◌, ◌<◌, ◌≡◌, ◌⊎◌, inl, inr, refl, sym, ◌∙◌, true, false, some, arith,
  Bool-cases, ltb, leb, ◌&&◌, if◌then◌else◌,
}
use patricia_c.Key.{Key, getbit}
use patricia_c.Key.Equal.{equkey_iff}
use patricia_c.Heap.{Ptr, null, Node, Heap, ok, load-ok}
use patricia_c.Trie.{Trie, leaf, branch, addr, find}
use patricia_c.Trie.Find.{find-mem}
use patricia_c.Trie.Up.{OnWay}
use patricia_c.Tree.{prefix_walk, prefix, covers, rounds}
use patricia_c.Tree.Lookup.{IsHit, hit-find}
use patricia_c.Tree.Rep.{Rep, IsNodeSet, leaf_node, label_node}
use patricia_c.Tree.Candidate.{
  Matches, LastOf, LastPrefix, covers-SameBits, SameBits-covers, some_injective, OnWay-after,
  LastOf-more,
}

-- What the walk comes to: the candidate, and the node at which it ends.
WalksTo : Heap → Key → ℕ → ℕ → Ptr → Ptr → Trie → Ptr → Type 0
WalksTo h k fuel b best p t last =
    (q : Ptr) × LastPrefix h k t best q × (prefix_walk h k fuel b best p ≡ ok (q, last))

walk_on :
    (h : Heap) (k : Key) (fuel b : ℕ) (best p next last : Ptr) (n : Node) (s : Trie)
    → h p ≡ some n
    → b < n.bpos
    → (if getbit k n.bpos then n.right else n.left) ≡ next
    → Rep h n.bpos s
    → WalksTo h k fuel n.bpos (if leb n.key.nbit k.nbit && covers k n then p else best) next s last
    → (q : Ptr) × LastOf h k (λ x. (x ≡ p) ⊎ OnWay (getbit k) x s) best q
      × (prefix_walk h k (suc fuel) b best p ≡ ok (q, last))
unfolding prefix_walk WalksTo
walk_on h k fuel b best p next last n s e d way below (q, cq, run) =
    let go : ltb b n.bpos ≡ true = ground arith in
    (
      q,
      LastOf-more h k (λ x. OnWay (getbit k) x s) best q p n e
          (λ x m from em. OnWay-after h (getbit k) n.bpos s x m below from em) cq,
      rw (load-ok h p n e, go, way) run,
    )

-- The walk ends where the key's bits lead.
prefix_walk-WalksTo :
    (h : Heap) (k : Key) (fuel b : ℕ) (best : Ptr) (t : Trie)
    → Rep h b t
    → b < 2 ^ 16
    → 2 ^ 16 ≤ fuel + b
    → WalksTo h k fuel b best (addr t) t (find (getbit k) t)
unfolding WalksTo prefix_walk find
prefix_walk-WalksTo h k zero b best t r l f = absurd (omega arith)
prefix_walk-WalksTo h k (suc fuel) b best (leaf p) (n, e, d) l f =
    let node = label_node (h p) n e in
    let stop : ltb b node.0.bpos ≡ false = ground (arith, node.2) in
    (best, inl (refl, λ x way is. way), rw (load-ok h p node.0 node.1, stop) refl)
prefix_walk-WalksTo h k (suc fuel) b best (branch p c lt rt) (n, e, pos, el, er, d, w, rl, rr) l f =
    let next = if leb n.key.nbit k.nbit && covers k n then p else best in
    elim (Bool-cases (getbit k c)) [
      | inl up ↦ rw up (
          walk_on h k fuel b best p (addr rt) (find (getbit k) rt) n rt e (omega arith)
            (rw (pos, up) er) (rw pos rr)
            (rw pos (prefix_walk-WalksTo h k fuel c next rt rr w (omega arith))))
      | inr down ↦ rw down (
          walk_on h k fuel b best p (addr lt) (find (getbit k) lt) n lt e (omega arith)
            (rw (pos, down) el) (rw pos rl)
            (rw pos (prefix_walk-WalksTo h k fuel c next lt rl w (omega arith))))
    ]

-- The result by the candidate and the last node.
prefix-find :
    {h : Heap} {root : Ptr} {t : Trie} (s : IsNodeSet h root t) (k : Key) (n : Node)
    → h (find (getbit k) t) ≡ some n
    → (q : Ptr) × LastPrefix h k t null q
      × (prefix h root k ≡ ok (if covers k n then find (getbit k) t else q))
unfolding prefix rounds WalksTo
prefix-find {h} {root} {t} s k n e =
    let (q, c, run) = prefix_walk-WalksTo h k (2 ^ 16) 0 null t s.rep (omega arith) (omega arith) in
    (q, c, rw (load-ok h root s.anchor s.at_root, s.top, s.start, run, load-ok h _ n e) refl)

-- The memory of a key starts with an equal key.
hit-Matches :
    {h : Heap} {root : Ptr} {t : Trie} (s : IsNodeSet h root t) (k : Key) (p : Ptr)
    → k.nbit < 2 ^ 16
    → IsHit h t k p
    → (find (getbit k) t ≡ p) × ((n : Node) × Matches h k p n)
hit-Matches s k p w hit =
    let (size, same) = (equkey_iff k hit.node.key).0 hit.same in
    (hit-find s k p w hit, (hit.node, (hit.holds, λ z l. same z (omega arith))))

-- On a set the longest-prefix look-up returns. If the memory of the given key starts with the key
-- of the node at which the bits of the given key end, then that node is the result. Otherwise the
-- result is settled by the branches on the way of these bits: it is NULL when the key of none of
-- them is a prefix of the given key, and else it is one whose key is a prefix, of all those the
-- one with the greatest branch position. The node of a stored key equal to the given one, if this
-- has fewer than 65536 bits, is the result.
pub prefix_lem :
    {h : Heap} {root : Ptr} {t : Trie} (s : IsNodeSet h root t) (k : Key)
    → (q : Ptr) × (prefix h root k ≡ ok q)
      × (((q ≡ find (getbit k) t) × ((n : Node) × Matches h k q n))
          ⊎ (LastPrefix h k t null q × ¬ ((n : Node) × Matches h k (find (getbit k) t) n)))
      × ((p : Ptr) → k.nbit < 2 ^ 16 → IsHit h t k p → q ≡ p)
prefix_lem {h} {root} {t} s k =
    let (n, e) = leaf_node h 0 t (find (getbit k) t) s.rep (find-mem (getbit k) t) in
    let (q, c, run) = prefix-find s k n e in
    elim (Bool-cases (covers k n)) [
      | inl yes_covers ↦ (
        find (getbit k) t,
        run ∙ rw yes_covers refl,
        inl (refl, (n, (e, covers-SameBits k n yes_covers))),
        λ p w hit. (hit-Matches s k p w hit).0,
      )
      | inr no_covers ↦
          let none : ¬ ((m : Node) × Matches h k (find (getbit k) t) m) = differs k n no_covers e in
          (
            q,
            run ∙ rw no_covers refl,
            inr (c, none),
            λ p w hit. let (at, starts) = hit-Matches s k p w hit in absurd (none (rw at starts)),
          )
    ]
  where
    differs :
        {l : Ptr} (k : Key) (n : Node)
        → covers k n ≡ false
        → h l ≡ some n
        → ¬ ((m : Node) × Matches h k l m)
    differs k n other e (m, (em, same)) =
        let one : m ≡ n = some_injective (sym em ∙ e) in
        let covered : covers k n ≡ true = (equkey_iff _ _).1 (refl, rw one at same) in
        ground (arith, other, covered)

-- On a set, when the bits of a key lead to the root, the longest-prefix look-up returns the root,
-- whatever it met on the way.
pub prefix-root :
    {h : Heap} {root : Ptr} {t : Trie} (s : IsNodeSet h root t) (k : Key)
    → find (getbit k) t ≡ root
    → prefix h root k ≡ ok root
prefix-root {h} {root} {t} s k ends =
    let (q, c, run) = prefix-find s k s.anchor (rw ends s.at_root) in
    run ∙ rw (SameBits-covers k s.anchor s.empty_key, ends) refl
