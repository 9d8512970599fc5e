-- ===== src/Session/Refine.antt =====
-- Each call on a set answers as its dictionary does, and keeps the two in step.
use mathlib.Core.Path.{subst}
use mathlib.Core.Bool.{true≢false}
use patricia_c.Base.{
  ◌-◌, ◌^◌, ◌<◌, ◌≡◌, ◌≢◌, ◌⊎◌, refl, sym, ap, ◌∙◌, Bool, true, false, not, ◌&&◌, ◌||◌, none, some,
  arith, ◌==◌, Bool-cases, inl, inr, ==_iff,
}
use patricia_c.Key.{Key, equkey}
use patricia_c.Key.Equal.{equkey_iff}
use patricia_c.Diff.{WordOps}
use patricia_c.Heap.{Ptr, null, Node, Heap, ok, ok_injective}
use patricia_c.Trie.{Trie, leaf, leaves, one_if}
use patricia_c.Tree.{Inserted, init, lookup}
use patricia_c.Tree.Rep.{IsNodeSet}
use patricia_c.Tree.Lookup.{IsHit, lookup_lem, lookup-hit, lookup-miss}
use patricia_c.Tree.Fresh.{Created}
use patricia_c.Tree.Insert.{insert_lem}
use patricia_c.Tree.NoMemory.{insert-null}
use patricia_c.Tree.Laws.{init-IsNodeSet, IsHit-move, lookup-Created, equkey_sym}
use patricia_c.Evict.Removed.{Removed}
use patricia_c.Evict.Laws.{
  one_hit, IsHit-equkey, IsHit-same, lookup-Removed, remove_lem, same_result, evict_lem,
  evict-refuses,
}
use patricia_c.Session.{
  Call, insert_call, remove_call, evict_call, run_call, Allowed, Dict, only_root, put, spec_call,
  Reach, set_up, call,
}

-- The heap holds a set in which each key's look-up returns the dictionary's node.
abbrev pub Agree : Ptr → Heap → Dict → Type 0
Agree root h d =
    (t : Trie) × IsNodeSet h root t × ((j : Key) → j.nbit < 2 ^ 16 → lookup h root j ≡ ok (d j))

-- The call returns what the dictionary says, and they agree again.
abbrev pub Answers : WordOps → Bool → Ptr → Heap → Dict → Call → Type 0
Answers w little root h d c =
    (h' : Heap) × (run_call w little root h c ≡ ok ((spec_call root d c).0, h'))
    × Agree root h' (spec_call root d c).1

module _ {h : Heap} {root : Ptr} {t : Trie} (s : IsNodeSet h root t) (d : Dict)
    (agree : (j : Key) → j.nbit < 2 ^ 16 → lookup h root j ≡ ok (d j)) where
  -- A node of the set is not at NULL.
  hit_real : (k : Key) (q : Ptr) → IsHit h t k q → (q == null) ≡ false
  hit_real k q hit = elim (Bool-cases (q == null)) [
    | inl e ↦ absurd (not-none (sym s.no_null ∙ ap h (sym ((==_iff q null).0 e)) ∙ hit.holds))
    | inr e ↦ e
  ]
    where
      not-none : none ≡ some hit.node → ⊥
      not-none e = cc

  hit_entry : (k : Key) (q : Ptr) → k.nbit < 2 ^ 16 → IsHit h t k q → d k ≡ q
  hit_entry k q short hit = ok_injective (sym (agree k short) ∙ lookup-hit s k q short hit)

  entry-IsHit : (k : Key) → k.nbit < 2 ^ 16 → (d k == null) ≡ false → IsHit h t k (d k)
  entry-IsHit k short real = elim (lookup_lem s k short) [
    | inl (q, hit, e) ↦ subst (IsHit h t k) (sym (hit_entry k q short hit)) hit
    | inr (no_hit, e) ↦
        let z : d k ≡ null = ok_injective (sym (agree k short) ∙ e) in absurd (ground arith)
  ]

  -- A deletion seen in the dictionary.
  Removed-put :
      {h' : Heap} (k : Key) (x : Ptr)
      → IsHit h t k x
      → Removed h root t x h'
      → Agree root h' (put k null d)
  Removed-put k x hit r = (
    r.trie,
    r.valid,
    λ j wj. lookup-Removed s k x hit r j wj ∙ (elim (Bool-cases (equkey j k)) [
      | inl same ↦ rw same refl
      | inr other ↦ rw other (agree j wj)
    ]),
  )

  remove-Answers :
      (w : WordOps) (little : Bool) (k : Key)
      → k.nbit < 2 ^ 16
      → Answers w little root h d (remove_call k)
  unfolding run_call spec_call
  remove-Answers w little k short = elim (remove_lem s k short) [
    | inl (x, hit, away, (h', run, r)) ↦
        let entry = hit_entry k x short hit in
        let guards : ((d k == null) || (root == d k)) ≡ false =
          let real = hit_real k x hit in let a = away in ground (arith, entry) in
        (h', rw guards run, rw guards (Removed-put k x hit r))
    | inr (only, run) ↦
        let guards : ((d k == null) || (root == d k)) ≡ true = elim (Bool-cases (d k == null)) [
          | inl missing ↦ rw missing refl
          | inr real ↦ let at : d k ≡ root = only (d k) (entry-IsHit k short real) in ground arith
        ] in
        (h, rw guards run, rw guards (t, s, agree))
  ]

  -- The dictionary has a node for the equal keys only.
  entry-equkey :
      (j k : Key) (x : Ptr)
      → j.nbit < 2 ^ 16
      → k.nbit < 2 ^ 16
      → IsHit h t k x
      → (d j == x) ≡ equkey j k
  entry-equkey j k x wj wk hit = elim (Bool-cases (equkey j k)) [
    | inl same ↦
        let at : d j ≡ x = elim (lookup_lem s j wj) [
          | inl (q, old, e) ↦ hit_entry j q wj old ∙ one_hit s wk (IsHit-same j k q same old) hit
          | inr (no_hit, e) ↦ absurd (no_hit x (IsHit-same k j x (equkey_sym j k same) hit))
        ] in
        rw same (ground arith)
    | inr other ↦ elim (Bool-cases (d j == x)) [
      | inl at ↦
          let eq : d j ≡ x = (==_iff (d j) x).0 at in
          let real : (d j == null) ≡ false = let z = hit_real k x hit in ground (arith, eq) in
          absurd (
            true≢false (
              sym (IsHit-equkey j k x (subst (IsHit h t j) eq (entry-IsHit j wj real)) hit)
              ∙ other))
      | inr ne ↦ ne ∙ sym other
    ]
  ]

  evict-Answers :
      (w : WordOps) (little : Bool) (p : Ptr)
      → Allowed root h (evict_call p)
      → Answers w little root h d (evict_call p)
  unfolding run_call spec_call
  evict-Answers w little p (k, short, found) = elim (Bool-cases ((p == null) || (root == p))) [
    | inl guards ↦ (h, rw guards (evict-refuses h root p (either guards)), rw guards (t, s, agree))
    | inr guards ↦
        let entry : d k ≡ p = ok_injective (sym (agree k short) ∙ found) in
        let real : (d k == null) ≡ false = ground (arith, entry) in
        let away : p ≢ root = ground arith in
        let hit : IsHit h t k p = subst (IsHit h t k) entry (entry-IsHit k short real) in
        let (h', run, r) = evict_lem s p hit.present away in
        (
          h',
          rw guards run,
          rw guards (
            r.trie,
            r.valid,
            λ j wj. lookup-Removed s k p hit r j wj ∙ (elim (Bool-cases (equkey j k)) [
              | inl same ↦ rw (same, entry-equkey j k p wj short hit ∙ same) refl
              | inr other ↦ rw (other, entry-equkey j k p wj short hit ∙ other) (agree j wj)
            ]),
          ),
        )
  ]
    where
      either : ((p == null) || (root == p)) ≡ true → (p ≡ null) ⊎ (p ≡ root)
      either e = elim (Bool-cases (p == null)) [
        | inl z ↦ inl ((==_iff p null).0 z)
        | inr z ↦ inr (ground arith)
      ]

  -- Without memory a new key is not added.
  null-Answers :
      (w : WordOps) (little : Bool) (k : Key)
      → k.nbit < 2 ^ 16 - 1
      → Answers w little root h d (insert_call null k)
  unfolding run_call spec_call
  null-Answers w little k short =
      let guards : ((d k == null) && not (null == null)) ≡ false = ground arith in
      (
        h,
        rw (insert-null w little k s short, agree k (omega (arith, short)), guards) refl,
        rw guards (t, s, agree),
      )

  -- A key that gets a node had none.
  Created-new :
      (k : Key) (fresh : Ptr) (r : Inserted)
      → k.nbit < 2 ^ 16
      → h fresh ≡ none
      → Created h root t k fresh r
      → d k ≡ null
  Created-new k fresh r short unused c = elim (lookup_lem s k short) [
    | inr (no_hit, e) ↦ ok_injective (sym (agree k short) ∙ e)
    | inl (q, hit, e) ↦
        let ne = hit-ne-fresh q hit in
        absurd (
          ne (
            one_hit c.valid short
              (IsHit-move k q (c.others q ne) (omega (arith, c.members q, hit.present)) hit)
              (record {
                node = c.new_key.0;
                holds = c.new_key.1;
                present = ground (arith, c.members fresh);
                same = (equkey_iff k c.new_key.0.key).1 c.new_key.2;
              })))
  ]
    where
      hit-ne-fresh : (q : Ptr) → IsHit h t k q → q ≢ fresh
      hit-ne-fresh q hit z = not-none (sym hit.holds ∙ rw z unused)
        where
          not-none : some hit.node ≡ none → ⊥
          not-none e = cc

  insert-Answers :
      (w : WordOps) (little : Bool) (fresh : Ptr) (k : Key)
      → fresh ≢ null
      → Allowed root h (insert_call fresh k)
      → Answers w little root h d (insert_call fresh k)
  unfolding run_call spec_call
  insert-Answers w little fresh k real (unused, short) =
      let wide : k.nbit < 2 ^ 16 = omega (arith, short) in
      let (r, run, cases) = insert_lem w little fresh k s unused real short in
      elim cases [
        | inl (flag, same, hit) ↦
            let entry = hit_entry k r.node wide hit in
            let guards : ((d k == null) && not (fresh == null)) ≡ false =
              let z = hit_real k r.node hit in ground (arith, entry) in
            (r.heap, rw (run, flag, guards) refl, rw (guards, same) (t, s, agree))
        | inr c ↦
            let entry = Created-new k fresh r wide unused c in
            let guards : ((d k == null) && not (fresh == null)) ≡ true = ground (arith, entry) in
            (
              r.heap,
              rw (run, c.flag, guards) refl,
              rw guards (
                c.trie,
                c.valid,
                λ j wj. lookup-Created s fresh unused k r c j wj ∙ (elim (Bool-cases (equkey j k)) [
                  | inl same ↦ rw (same, c.at) refl
                  | inr other ↦ rw other (agree j wj)
                ]),
              ),
            )
      ]

-- When a heap holds a set whose look-ups give the nodes of a dictionary, an insertion of a key of
-- fewer than 65535 bits with what the allocator returns, an unused address or NULL, a removal of a
-- key of fewer than 65536 bits, or an eviction of what a look-up returns runs without a fault,
-- returns the flag that the dictionary says, and leaves a set whose look-ups give the nodes of the
-- changed dictionary.
pub run_call-Answers :
    (w : WordOps) (little : Bool) {root : Ptr} {h : Heap} {d : Dict} (c : Call)
    → Agree root h d
    → Allowed root h c
    → Answers w little root h d c
run_call-Answers w little {root} {h} {d} (insert_call fresh k) (t, s, agree) allowed =
    elim (Bool-cases (fresh == null)) [
      | inl e ↦
          subst (λ z. Answers w little root h d (insert_call z k)) (sym ((==_iff fresh null).0 e))
            (null-Answers s d agree w little k allowed.1)
      | inr e ↦ insert-Answers s d agree w little fresh k (ground arith) allowed
    ]
run_call-Answers w little (remove_call k) (t, s, agree) allowed =
    remove-Answers s _ agree w little k allowed
run_call-Answers w little (evict_call p) (t, s, agree) allowed =
    evict-Answers s _ agree w little p allowed

-- The links of a trie of one uplink.
one_leaf : (p q : Ptr) → leaves (leaf p) q ≡ one_if (p == q)
unfolding leaves
one_leaf p q = refl

-- The set-up makes the set of the sentinel's key.
pub init-Agree :
    (root : Ptr) (h : Heap)
    → root ≢ null
    → h null ≡ none
    → Agree root (init root h) (only_root root)
init-Agree root h real no_null =
    let s = init-IsNodeSet root h real no_null in
    (
      leaf root,
      s,
      λ j wj. elim (Bool-cases (j.nbit == 0)) [
        | inl empty ↦ rw empty (
            lookup-hit s j root wj (record {
              node = s.anchor;
              holds = s.at_root;
              present = ground (arith, one_leaf root root);
              same =
                  (equkey_iff j s.anchor.key).1
                    (ground (arith, s.empty_key), λ z l. absurd (ground arith));
            }))
        | inr long ↦ rw long (
            lookup-miss s j wj (λ q hit.
              let at : root ≡ q = ground (arith, one_leaf root q, hit.present) in
              let node : some s.anchor ≡ some hit.node =
                sym s.at_root ∙ ap (init root h) at ∙ hit.holds in
              let key : s.anchor ≡ hit.node = some_injective node in
              let len : j.nbit ≡ 0 =
                ((equkey_iff j hit.node.key).0 hit.same).0 ∙ rw (← key) s.empty_key in
              absurd (ground arith)))
      ],
    )
  where
    some_injective : {n m : Node} → some n ≡ some m → n ≡ m
    some_injective e = cc

-- After the set-up of a root that is not NULL in a heap that holds nothing at NULL, and any
-- sequence of insertions, removals and evictions whose arguments are allowed, the heap holds a set
-- in which the look-up of every key of fewer than 65536 bits returns the node that the dictionary,
-- changed step by step, has for the key.
pub Reach-Agree :
    (w : WordOps) (little : Bool) {root : Ptr} {h : Heap} {d : Dict}
    → Reach w little root h d
    → Agree root h d
Reach-Agree w little (set_up h real no_null) = init-Agree _ h real no_null
Reach-Agree w little {root} (call {d} c flag before allowed run) =
    let (h', run', after) = run_call-Answers w little c (Reach-Agree w little before) allowed in
    subst (λ x. Agree root x (spec_call root d c).1) (same_result (sym run' ∙ run)).1 after

-- In a heap that allowed calls lead to, for keys of fewer than 65536 bits of which the second has
-- a node, the keys have the same node in the dictionary exactly when they compare equal.
pub entry-injective :
    (w : WordOps) (little : Bool) {root : Ptr} {h : Heap} {d : Dict} (j k : Key)
    → Reach w little root h d
    → j.nbit < 2 ^ 16
    → k.nbit < 2 ^ 16
    → d k ≢ null
    → (d j == d k) ≡ equkey j k
entry-injective w little {root} {h} {d} j k reach wj wk real =
    let (t, s, agree) = Reach-Agree w little reach in
    entry-equkey s d agree j k (d k) wj wk (entry-IsHit s d agree k wk (ground arith))
