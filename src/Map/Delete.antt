-- ===== src/Map/Delete.antt =====
-- Deletion from a map, from the theorems on the set.
use patricia_c.Base.{
  ◌^◌, ◌<◌, ◌≡◌, ◌≢◌, refl, Bool, true, false, ◌&&◌, ◌==◌, if◌then◌else◌, arith, inl, inr,
  Bool-cases,
}
use patricia_c.Key.{Key, equkey}
use patricia_c.Heap.{Ptr, null, Heap, ok}
use patricia_c.Trie.{Trie}
use patricia_c.Tree.{lookup}
use patricia_c.Tree.Rep.{IsNodeSet}
use patricia_c.Tree.Lookup.{lookup_lem}
use patricia_c.Evict.{remove}
use patricia_c.Evict.Laws.{remove_lem, lookup-remove}
use patricia_c.Map.{s2m, Store, deleted, free_wrap, patrimap_lookup, patrimap_remove}
use patricia_c.Map.Laws.{lookup-s2m}

nodes-deleted :
    (st : Store) (obj : Ptr) (done : Bool) (h : Heap) → (deleted st obj (done, h)).1.nodes ≡ h
unfolding free_wrap
nodes-deleted st obj true h = elim (Bool-cases (s2m obj == null)) [
  | inl e ↦ rw e refl
  | inr e ↦ rw e refl
]
nodes-deleted st obj false h = refl

payload-deleted :
    (st : Store) (obj : Ptr) (done : Bool) (h : Heap) (p : Ptr)
    → p ≢ null
    → (deleted st obj (done, h)).1.payload p ≡ (if done && (p == s2m obj) then 0 else st.payload p)
unfolding free_wrap
payload-deleted st obj true h p real = elim (Bool-cases (s2m obj == null)) [
  | inl e ↦ let apart : (p == s2m obj) ≡ false = ground arith in rw (e, apart) refl
  | inr e ↦ rw e refl
]
payload-deleted st obj false h p real = refl

-- On a map whose nodes form a set, the removal of a key of fewer than 65536 bits returns.
-- Afterwards the look-up of every key of fewer than 65536 bits returns NULL if the removal says
-- true and the keys are equal, and else what it returned before; and the payload of the node of
-- the key is 0 if the removal says true, while every other payload behind NULL is kept.
pub patrimap_lookup-remove :
    (st : Store) {root : Ptr} {t : Trie} (k : Key)
    → IsNodeSet st.nodes root t
    → k.nbit < 2 ^ 16
    → (q : Ptr) × (done : Bool) × (st' : Store) × (patrimap_lookup st root k ≡ ok q)
      × (patrimap_remove st root k ≡ ok (done, st'))
      × ((j : Key)
          → j.nbit < 2 ^ 16
          → patrimap_lookup st' root j
            ≡ (if done && equkey j k then ok null else patrimap_lookup st root j))
      × ((p : Ptr) → p ≢ null → st'.payload p ≡ (if done && (p == q) then 0 else st.payload p))
unfolding patrimap_lookup patrimap_remove s2m
patrimap_lookup-remove st {root} {t} k s short =
    let (obj, found) = some_lookup in
    let (done, h, run) = some_remove in
    (
      s2m obj,
      done,
      (deleted st obj (done, h)).1,
      rw found refl,
      rw (found, run) refl,
      λ j wj. rw (nodes-deleted st obj done h) (
          lookup-s2m st.nodes h root j (done && equkey j k) null
            (lookup-remove k done s short run j wj)),
      λ p real. payload-deleted st obj done h p real,
    )
  where
    some_lookup : (p : Ptr) × (lookup st.nodes root k ≡ ok p)
    some_lookup = elim (lookup_lem s k short) [
      | inl (q, hit, e) ↦ (q, e)
      | inr (no_hit, e) ↦ (null, e)
    ]

    some_remove : (done : Bool) × (h : Heap) × (remove st.nodes root k ≡ ok (done, h))
    some_remove = elim (remove_lem s k short) [
      | inl (x, hit, away, (h', e, r)) ↦ (true, h', e)
      | inr (only, e) ↦ (false, st.nodes, e)
    ]
