-- ===== src/Evict/RoundTrip.antt =====
-- The insertion of a new key and its deletion together.
use patricia_c.Base.{
  ◌-◌, ◌^◌, ◌<◌, ◌≡◌, ◌≢◌, sym, ap, ◌∙◌, Bool, true, none, some, arith, ◌==◌, Bool-cases, inl, inr,
}
use patricia_c.Key.{Key, equkey}
use patricia_c.Key.Equal.{equkey_iff}
use patricia_c.Diff.{WordOps}
use patricia_c.Heap.{Ptr, null, Heap, ok, ok_injective, ◌>>=◌}
use patricia_c.Trie.{Trie, leaves, one_if}
use patricia_c.Tree.{Inserted, lookup, insert}
use patricia_c.Tree.Rep.{IsNodeSet}
use patricia_c.Tree.Lookup.{IsHit, lookup_lem, lookup-hit}
use patricia_c.Tree.Fresh.{Created, fresh-ne-root}
use patricia_c.Tree.Insert.{insert_lem}
use patricia_c.Tree.Laws.{lookup-Created}
use patricia_c.Evict.{remove}
use patricia_c.Evict.Laws.{one_hit, IsHit-same, lookup-Removed, remove_lem}

-- The heap after the insertion and the deletion: the same nodes are in the set, and every look-up
-- answers as before.
pub record Restored (h : Heap) (root : Ptr) (t : Trie) (h' : Heap) : Type 0 where
  pub trie : Trie
  pub valid : IsNodeSet h' root trie
  pub members : (q : Ptr) → leaves trie q ≡ leaves t q
  pub found : (j : Key) → j.nbit < 2 ^ 16 → lookup h' root j ≡ lookup h root j

module _ {h : Heap} {root : Ptr} {t : Trie} (s : IsNodeSet h root t) (k : Key)
    (missing : lookup h root k ≡ ok null) (short : k.nbit < 2 ^ 16) where
  no-IsHit : (q : Ptr) → ¬ IsHit h t k q
  no-IsHit q hit =
      let at : q ≡ null = ok_injective (sym (lookup-hit s k q short hit) ∙ missing) in
      not-none (sym hit.holds ∙ ap h at ∙ s.no_null)
    where
      not-none : some hit.node ≡ none → ⊥
      not-none e = cc

  missing_same : (j : Key) → j.nbit < 2 ^ 16 → equkey j k ≡ true → lookup h root j ≡ ok null
  missing_same j wj e = elim (lookup_lem s j wj) [
    | inl (q, hit, e') ↦ absurd (no-IsHit q (IsHit-same j k q e hit))
    | inr (none_has, e') ↦ e'
  ]

  module _ (fresh : Ptr) (unused : h fresh ≡ none) (r : Inserted)
      (c : Created h root t k fresh r) where
    new-IsHit : IsHit r.heap c.trie k fresh
    new-IsHit = record {
      node = c.new_key.0;
      holds = c.new_key.1;
      present = ground (arith, c.members fresh);
      same = (equkey_iff k c.new_key.0.key).1 c.new_key.2;
    }

    remove-Created : (h' : Heap) × (remove r.heap root k ≡ ok (true, h')) × Restored h root t h'
    remove-Created = elim (remove_lem c.valid k short) [
      | inr (only, e) ↦ absurd (fresh-ne-root s fresh unused (sym (only fresh new-IsHit)))
      | inl (x, hit, away, (h', e, gone)) ↦
          let at : x ≡ fresh = one_hit c.valid short hit new-IsHit in
          let here : (q : Ptr) → one_if (x == q) ≡ one_if (fresh == q) =
            λ q. ap (λ z. one_if (z == q)) at in
          (
            h',
            e,
            record {
              trie = gone.trie;
              valid = gone.valid;
              members = λ q. omega (arith, gone.members q, c.members q, here q);
              found = λ j wj.
                  lookup-Removed c.valid k x hit gone j wj ∙ (elim (Bool-cases (equkey j k)) [
                    | inl same ↦ rw same (sym (missing_same j wj same))
                    | inr other ↦ rw other (lookup-Created s fresh unused k r c j wj ∙ rw other)
                  ]);
            },
          )
    ]

-- When the look-up of a key of fewer than 65535 bits in a set returns NULL, its insertion with an
-- unused address and its removal both succeed, and they leave a set with the nodes of the old one,
-- in which the look-up of every key of fewer than 65536 bits returns what it returned before.
pub remove-insert :
    (w : WordOps) (little : Bool) {h : Heap} {root : Ptr} {t : Trie} (fresh : Ptr) (k : Key)
    → IsNodeSet h root t
    → h fresh ≡ none
    → fresh ≢ null
    → k.nbit < 2 ^ 16 - 1
    → lookup h root k ≡ ok null
    → (h' : Heap) × ((do r ← insert w little fresh h root k; remove r.heap root k) ≡ ok (true, h'))
      × Restored h root t h'
remove-insert w little {h} {root} {t} fresh k s unused real short missing =
    let wide : k.nbit < 2 ^ 16 = omega (arith, short) in
    let (r, run, cases) = insert_lem w little fresh k s unused real short in
    elim cases [
      | inl (flag, same, hit) ↦ absurd (no-IsHit s k missing wide r.node hit)
      | inr c ↦
          let (h', e, back) = remove-Created s k missing wide fresh unused r c in
          (h', rw run e, back)
    ]
