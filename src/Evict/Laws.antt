-- ===== src/Evict/Laws.antt =====
-- `patriset_evict` and `patriset_remove` on a set.
use mathlib.Core.Path.{subst}
use mathlib.Core.Bool.{true≢false}
use patricia_c.Base.{
  ◌^◌, ◌<◌, ◌≡◌, ◌≢◌, ◌⊎◌, refl, sym, ap, ◌∙◌, Bool, true, false, some, arith, ◌==◌, ◌||◌, ◌&&◌,
  Bool-cases, inl, inr, if◌then◌else◌,
}
use patricia_c.Key.{Key, equkey}
use patricia_c.Tree.Laws.{equkey_trans, equkey_sym}
use patricia_c.Heap.{Ptr, null, Node, Heap, Run, ok, ok_injective}
use patricia_c.Trie.{Trie, leaves, one_if}
use patricia_c.Tree.{lookup}
use patricia_c.Tree.Rep.{IsNodeSet}
use patricia_c.Tree.Lookup.{IsHit, lookup_lem, lookup-hit, lookup-miss}
use patricia_c.Evict.{evict, remove, pwalk}
use patricia_c.Evict.Removed.{Removed, key_of, key_of-some}
use patricia_c.Evict.Unlink.{pwalk-walked, unlink_lem}

-- The eviction of a node of a set that is not the root returns true and a heap that holds a set
-- without this node and with every other, in which every other node keeps its key.
pub evict_lem :
    {h : Heap} {root : Ptr} {t : Trie} (s : IsNodeSet h root t) (x : Ptr)
    → 0 < leaves t x
    → x ≢ root
    → (h' : Heap) × (evict h root x ≡ ok (true, h')) × Removed h root t x h'
unfolding evict
evict_lem {h} {root} s x present away =
    let (h', run, removed) = unlink_lem s x present away in
    (h', rw (pwalk-walked s x present away, run) refl, removed)

-- Neither NULL nor the sentinel is evicted.
pub evict-refuses :
    (h : Heap) (root x : Ptr) → (x ≡ null) ⊎ (x ≡ root) → evict h root x ≡ ok (false, h)
unfolding evict pwalk
evict-refuses h root x e = let g : ((x == null) || (root == x)) ≡ true = ground arith in rw g refl

-- What `patriset_remove` does: the node with the key goes, or there is none but the sentinel.
abbrev pub Outcome : Heap → Ptr → Trie → Key → Type 0
Outcome h root t k =
    ((x : Ptr) × IsHit h t k x
      × (x ≢ root)
      × ((h' : Heap) × (remove h root k ≡ ok (true, h')) × Removed h root t x h'))
    ⊎ (((x : Ptr) → IsHit h t k x → x ≡ root) × (remove h root k ≡ ok (false, h)))

-- A set has one node with a key at most.
pub one_hit :
    {h : Heap} {root : Ptr} {t : Trie} {k : Key} (s : IsNodeSet h root t)
    → k.nbit < 2 ^ 16
    → {x y : Ptr} → IsHit h t k x
    → IsHit h t k y
    → x ≡ y
one_hit {h} {root} {t} {k} s short {x} {y} hx hy =
    ok_injective (sym (lookup-hit s k x short hx) ∙ lookup-hit s k y short hy)

-- The removal of a key of fewer than 65536 bits from a set returns. Either a node with the key
-- other than the root is in the set, and the result is true and a set without this node and with
-- every other, each with its key; or no node but the root has the key, and the result is false and
-- the heap as it was.
pub remove_lem :
    {h : Heap} {root : Ptr} {t : Trie}
    → IsNodeSet h root t
    → (k : Key) → k.nbit < 2 ^ 16
    → Outcome h root t k
unfolding remove
remove_lem {h} {root} {t} s k short = elim (lookup_lem s k short) [
  | inl (x, hit, e) ↦ elim (Bool-cases (root == x)) [
    | inl here ↦
        let at : x ≡ root = ground arith in
        inr
          (λ y other. one_hit s short other hit ∙ at, rw (e, evict-refuses h root x (inr at)) refl)
    | inr apart ↦
        let away : x ≢ root = ground arith in
        let (h', run, removed) = evict_lem s x hit.present away in
        inl (x, hit, away, (h', rw (e, run) refl, removed))
  ]
  | inr (no_hit, e) ↦
      inr (λ y other. absurd (no_hit y other), rw (e, evict-refuses h root null (inl refl)) refl)
]

-- A hit stays one where the node keeps its key.
IsHit-keep :
    {h h' : Heap} {t t' : Trie} (k : Key) (q : Ptr)
    → key_of (h' q) ≡ key_of (h q)
    → 0 < leaves t' q
    → IsHit h t k q
    → IsHit h' t' k q
IsHit-keep {h} {h'} k q e present hit =
    let (m, at, same) = key_of-some (h' q) hit.node (e ∙ ap key_of hit.holds) in
    record { node = m; holds = at; present = present; same = rw same hit.same }

pub IsHit-same :
    {h : Heap} {t : Trie} (j k : Key) (q : Ptr) → equkey j k ≡ true → IsHit h t j q → IsHit h t k q
IsHit-same j k q e hit = record {
  node = hit.node;
  holds = hit.holds;
  present = hit.present;
  same = equkey_trans k j hit.node.key (equkey_sym j k e) hit.same;
}

pub IsHit-equkey :
    {h : Heap} {t : Trie} (j k : Key) (q : Ptr) → IsHit h t j q → IsHit h t k q → equkey j k ≡ true
IsHit-equkey j k q a b =
    let f : a.node ≡ b.node = some_injective (sym a.holds ∙ b.holds) in
    equkey_trans j a.node.key k a.same (equkey_sym k a.node.key (rw f b.same))
  where
    some_injective : {n m : Node} → some n ≡ some m → n ≡ m
    some_injective e = cc

module _ {h h' : Heap} {root : Ptr} {t : Trie} (s : IsNodeSet h root t) (k : Key) (x : Ptr)
    (at : IsHit h t k x) (r : Removed h root t x h') where
  unreached : leaves r.trie x ≡ 0
  unreached =
      let e : one_if (x == x) ≡ 1 = ground arith in
      omega (arith, r.members x, s.two_links x, s.once x, e)

  pub back : (j : Key) (q : Ptr) → IsHit h' r.trie j q → (q ≢ x) × IsHit h t j q
  back j q hit =
      (ne, IsHit-keep j q (sym (r.others q ne)) (omega (arith, r.members q, hit.present)) hit)
    where
      ne : q ≢ x
      ne e = absurd (omega (arith, ap (leaves r.trie) e, hit.present, unreached))

  pub onward : (j : Key) (q : Ptr) → q ≢ x → IsHit h t j q → IsHit h' r.trie j q
  onward j q ne hit =
      let e : one_if (x == q) ≡ 0 = ground arith in
      IsHit-keep j q (r.others q ne) (omega (arith, r.members q, hit.present, e)) hit

  -- The look-up after the node with the key `k` has gone.
  pub lookup-Removed :
      (j : Key)
      → j.nbit < 2 ^ 16
      → lookup h' root j ≡ (if equkey j k then ok null else lookup h root j)
  lookup-Removed j wj = elim (Bool-cases (equkey j k)) [
    | inl same ↦ rw same (
        lookup-miss r.valid j wj (λ q hit.
          let (ne, old) = back j q hit in
          ne (one_hit s wj old (IsHit-same k j x (equkey_sym j k same) at))))
    | inr other ↦ rw other (elim (lookup_lem s j wj) [
      | inl (q, hit, e) ↦ rw e (
          lookup-hit r.valid j q wj (
            onward j q
              (λ z. true≢false (sym (IsHit-equkey j k x (subst (IsHit h t j) z hit) at) ∙ other))
              hit))
      | inr (no_hit, e) ↦ rw e (lookup-miss r.valid j wj (λ q hit. no_hit q (back j q hit).1))
    ])
  ]

-- What a deletion returns is determined.
pub same_result :
    {b c : Bool} {h h' : Heap}
    → ◌≡◌ {A = Run (Bool × Heap)} (ok (b, h)) (ok (c, h'))
    → (b ≡ c) × (h ≡ h')
same_result e = let f = ok_injective e in (ap (λ p. p.0) f, ap (λ p. p.1) f)

-- When the removal of a key of fewer than 65536 bits from a set returns, the look-up of every key
-- of fewer than 65536 bits returns NULL if the keys are equal and the removal says true, and else
-- what it returned in the old heap.
pub lookup-remove :
    {h h' : Heap} {root : Ptr} {t : Trie} (k : Key) (done : Bool)
    → IsNodeSet h root t
    → k.nbit < 2 ^ 16
    → remove h root k ≡ ok (done, h')
    → (j : Key) → j.nbit < 2 ^ 16
    → lookup h' root j ≡ (if done && equkey j k then ok null else lookup h root j)
lookup-remove {h} {h'} {root} k done s short run j wj = elim (remove_lem s k short) [
  | inl (x, hit, away, (g, e, r)) ↦
      let (flag, same) = same_result (sym run ∙ e) in
      rw (flag, same) (lookup-Removed s k x hit r j wj)
  | inr (only, e) ↦ let (flag, same) = same_result (sym run ∙ e) in rw (flag, same)
]
