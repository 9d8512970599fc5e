-- ===== src/Tree/Candidate.antt =====
-- The candidates of the walk of `patriset_prefix` in src/cpatricia_set.c.
use patricia_c.Base.{
  ℕ, ◌≤◌, ◌<◌, ◌≡◌, ◌⊎◌, inl, inr, refl, ap, sym, ◌∙◌, Bool, true, false, some, arith, Bool-cases,
  leb, ◌&&◌, if◌then◌else◌,
}
use patricia_c.Key.{Key, getbit}
use patricia_c.Key.Equal.{SameBits, equkey_iff}
use patricia_c.Heap.{Ptr, Node, Heap}
use patricia_c.Trie.{Trie, leaf, branch}
use patricia_c.Trie.Up.{OnWay}
use patricia_c.Tree.{covers}
use patricia_c.Tree.Rep.{Rep}

-- The memory of the key starts with the key of the node.
abbrev pub Matches : Heap → Key → Ptr → Node → Type 0
Matches h k p n = (h p ≡ some n) × SameBits n.key.nbit k.mem n.key.mem

-- The key of the node is a prefix of the key.
abbrev pub IsPrefix : Heap → Key → Ptr → Type 0
IsPrefix h k p = (n : Node) × Matches h k p n × (n.key.nbit ≤ k.nbit)

-- The candidate among the nodes of `Way`: `best` where no key of theirs is a prefix, else the node
-- with the greatest position whose key is one.
abbrev pub LastOf : Heap → Key → (Ptr → Type 0) → Ptr → Ptr → Type 0
LastOf h k Way best q =
    ((q ≡ best) × ((x : Ptr) → Way x → ¬ IsPrefix h k x))
    ⊎ (IsPrefix h k q
        × Way q
        × ((x : Ptr) (n m : Node)
            → Way x
            → IsPrefix h k x
            → h x ≡ some n
            → h q ≡ some m
            → n.bpos ≤ m.bpos))

-- The candidate among the branches that a walk of the key's bits through a trie meets.
abbrev pub LastPrefix : Heap → Key → Trie → Ptr → Ptr → Type 0
LastPrefix h k t = LastOf h k (λ x. OnWay (getbit k) x t)

pub covers-SameBits : (k : Key) (n : Node) → covers k n ≡ true → SameBits n.key.nbit k.mem n.key.mem
covers-SameBits k n e = ((equkey_iff _ _).0 e).1

pub SameBits-covers : (k : Key) (n : Node) → n.key.nbit ≡ 0 → covers k n ≡ true
SameBits-covers k n e = (equkey_iff _ _).1 (refl, λ z l. elim (zero_lt z l) [ ])
  where
    zero_lt : (z : ℕ) → z < n.key.nbit → z < 0
    zero_lt z l = omega (arith, e, l)

pub some_injective : {n m : Node} → some n ≡ some m → n ≡ m
some_injective e = cc

-- The test of the loop decides it.
test-IsPrefix :
    (h : Heap) (k : Key) (p : Ptr) (n : Node)
    → h p ≡ some n
    → leb n.key.nbit k.nbit && covers k n ≡ true
    → IsPrefix h k p
test-IsPrefix h k p n e take =
    (n, (e, covers-SameBits k n (ground (arith, take))), ground (arith, take))

IsPrefix-test :
    (h : Heap) (k : Key) (p : Ptr) (n : Node)
    → h p ≡ some n
    → leb n.key.nbit k.nbit && covers k n ≡ false
    → ¬ IsPrefix h k p
IsPrefix-test h k p n e skip (m, (em, same), short) =
    let one : m ≡ n = some_injective (sym em ∙ e) in
    let covered : covers k n ≡ true = (equkey_iff _ _).1 (refl, rw one at same) in
    let fits : leb n.key.nbit k.nbit ≡ true = ground (arith, rw one at short) in
    ground (arith, skip, covered, fits)

-- The branches below a position come after it.
pub OnWay-after :
    (h : Heap) (f : ℕ → Bool) (b : ℕ) (t : Trie) (x : Ptr) (m : Node)
    → Rep h b t
    → OnWay f x t
    → h x ≡ some m
    → b < m.bpos
OnWay-after h f b (leaf p) x m r way e = absurd way
OnWay-after h f b (branch p c l r) x m (n, ep, pos, el, er, d, w, rl, rr) way e = elim way [
  | inl here ↦
      let one : n ≡ m = some_injective (sym ep ∙ ap h (sym here) ∙ e) in
      let at_m : m.bpos ≡ c = rw one at pos in omega arith
  | inr below ↦ elim (Bool-cases (f c)) [
    | inl up ↦ let deep = OnWay-after h f c r x m rr (rw up at below) e in omega arith
    | inr down ↦ let deep = OnWay-after h f c l x m rl (rw down at below) e in omega arith
  ]
]

-- One round: what the walk of the nodes below makes of the candidate, seen from the node above.
pub LastOf-more :
    (h : Heap) (k : Key) (Below : Ptr → Type 0) (best q p : Ptr) (n : Node)
    → h p ≡ some n
    → ((x : Ptr) (m : Node) → Below x → h x ≡ some m → n.bpos < m.bpos)
    → LastOf h k Below (if leb n.key.nbit k.nbit && covers k n then p else best) q
    → LastOf h k (λ x. (x ≡ p) ⊎ Below x) best q
LastOf-more h k Below best q p n e after (inr (good, way, top)) = inr (
  good,
  inr way,
  λ x u m from is eu em. elim from [
    | inl here ↦
        let one : n ≡ u = some_injective (sym e ∙ ap h (sym here) ∙ eu) in
        let le : n.bpos < m.bpos = after q m way em in
        let same : n.bpos ≡ u.bpos = ap (λ a. a.bpos) one in omega arith
    | inr deep ↦ top x u m deep is eu em
  ],
)
LastOf-more h k Below best q p n e after (inl (same, none)) =
    elim (Bool-cases (leb n.key.nbit k.nbit && covers k n)) [
      | inl take ↦
          let at_p : q ≡ p = rw take at same in
          inr (
            rw at_p (test-IsPrefix h k p n e take),
            inl at_p,
            λ x u m from is eu em. elim from [
              | inl here ↦
                  let one : u ≡ m = some_injective (sym eu ∙ ap h (here ∙ sym at_p) ∙ em) in
                  rw one (omega arith)
              | inr deep ↦ absurd (none x deep is)
            ],
          )
      | inr skip ↦ inl (
        rw skip at same,
        λ x from is. elim from [
          | inl here ↦ IsPrefix-test h k p n e skip (rw here at is)
          | inr deep ↦ none x deep is
        ],
      )
    ]
