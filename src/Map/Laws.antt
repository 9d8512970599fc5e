-- ===== src/Map/Laws.antt =====
-- Insertion into a map and look-up in it, from the theorems on the set.
use patricia_c.Base.{
  ◌-◌, ◌^◌, ◌<◌, ◌≡◌, ◌≢◌, ◌⊎◌, refl, Bool, true, false, ◌&&◌, ◌==◌, if◌then◌else◌, none, arith,
  inl, inr,
}
use patricia_c.Key.{Key, equkey}
use patricia_c.Diff.{WordOps}
use patricia_c.Heap.{Ptr, null, Heap, ok, ◌>>=◌}
use patricia_c.Trie.{Trie}
use patricia_c.Tree.{Inserted, lookup, insert}
use patricia_c.Tree.Rep.{IsNodeSet}
use patricia_c.Tree.Fresh.{Kept, Created}
use patricia_c.Tree.Laws.{lookup-insert}
use patricia_c.Tree.Insert.{insert_lem}
use patricia_c.Map.{s2m, m2s, Store, alloc_wrap, patrimap_lookup, patrimap_insert, MapInserted}

-- The set node of a map node leads back to the map node, NULL included.
pub s2m-m2s : (p : Ptr) → s2m (m2s p) ≡ p
unfolding s2m m2s
s2m-m2s p = ground arith

-- Insertion into a map in terms of the insertion into its set.
patrimap_insert-run :
    (w : WordOps) (little : Bool) (raw : Ptr) (st : Store) (root : Ptr) (k : Key) (r : Inserted)
    → insert w little (m2s raw) st.nodes root k ≡ ok r
    → raw ≢ null
    → patrimap_insert w little raw st root k
      ≡ ok (record {
        node = s2m r.node;
        inserted = r.inserted;
        store = record {
          nodes = r.heap;
          payload = if r.inserted then (λ p. if p == raw then 0 else st.payload p) else st.payload;
        };
      })
unfolding patrimap_insert alloc_wrap
patrimap_insert-run w little raw st root k r run real =
    let e : raw == null ≡ false = ground arith in rw (e, run)

m2s-ne-null : (p : Ptr) → p ≢ null → m2s p ≢ null
unfolding m2s
m2s-ne-null p real = ground arith

-- What the insertion does to the payloads.
payload-insert :
    (raw : Ptr) (st : Store) {root : Ptr} {t : Trie} {k : Key} (r : Inserted)
    → Kept st.nodes t k r ⊎ Created st.nodes root t k (m2s raw) r
    → (p : Ptr)
    → (if r.inserted then (λ q. if q == raw then 0 else st.payload q) else st.payload) p
      ≡ (if r.inserted && (p == s2m r.node) then 0 else st.payload p)
payload-insert raw st r (inl kept) p = rw kept.0 refl
payload-insert raw st r (inr c) p = rw (c.flag, c.at, s2m-m2s raw) refl

pub lookup-s2m :
    (h h' : Heap) (root : Ptr) (j : Key) (b : Bool) (q : Ptr)
    → lookup h' root j ≡ (if b then ok q else lookup h root j)
    → (do p ← lookup h' root j; ok (s2m p))
      ≡ (if b then ok (s2m q) else (do p ← lookup h root j; ok (s2m p)))
lookup-s2m h h' root j true q e = rw e refl
lookup-s2m h h' root j false q e = rw e refl

-- On a map whose nodes form a set, with memory for a node, the insertion of a key of fewer than
-- 65535 bits returns. Afterwards the look-up of every key of fewer than 65536 bits returns the
-- node of the insertion if the keys are equal, and else what it returned before; and the payload
-- of a node that is new is 0 while every other payload is kept.
pub patrimap_lookup-insert :
    (w : WordOps) (little : Bool) (raw : Ptr) (st : Store) {root : Ptr} {t : Trie} (k : Key)
    → IsNodeSet st.nodes root t
    → st.nodes (m2s raw) ≡ none
    → raw ≢ null
    → k.nbit < 2 ^ 16 - 1
    → (r : MapInserted) × (patrimap_insert w little raw st root k ≡ ok r)
      × ((j : Key)
          → j.nbit < 2 ^ 16
          → patrimap_lookup r.store root j
            ≡ (if equkey j k then ok r.node else patrimap_lookup st root j))
      × ((p : Ptr) → r.store.payload p ≡ (if r.inserted && (p == r.node) then 0 else st.payload p))
unfolding patrimap_lookup
patrimap_lookup-insert w little raw st {root} {t} k s unused real short =
    let fresh : m2s raw ≢ null = m2s-ne-null raw real in
    let (r, run, cases) = insert_lem w little (m2s raw) k s unused fresh short in
    (
      _,
      patrimap_insert-run w little raw st root k r run real,
      λ j wj.
          lookup-s2m st.nodes r.heap root j (equkey j k) r.node
            (lookup-insert w little (m2s raw) k r s unused fresh short run j wj),
      payload-insert raw st r cases,
    )
