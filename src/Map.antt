-- ===== src/Map.antt =====
-- Maps of src/cpatricia_map.c: a map node is a payload of one word in front of a set node, so a
-- map is a set with a payload for each address of a map node.
pub mod Laws
pub mod Delete
pub mod Arena
use patricia_c.Base.{
  ℕ, ◌+◌, ◌-◌, ◌^◌, ◌<◌, ◌≤◌, ◌≡◌, ◌≢◌, refl, ap, ◌∙◌, Bool, true, false, not, ◌==◌, if◌then◌else◌,
  none, some, Option, ◌&&◌, arith, ltb,
}
use patricia_c.Key.{Key, equkey}
use patricia_c.Diff.{WordOps}
use patricia_c.Heap.{Ptr, null, Node, Heap, Run, ok, ◌>>=◌}
use patricia_c.Trie.{Trie}
use patricia_c.Tree.{Inserted, init, lookup, prefix, insert}
use patricia_c.Tree.Rep.{IsNodeSet}
use patricia_c.Tree.Laws.{lookup-insert}
use patricia_c.Tree.Insert.{insert_lem}
use patricia_c.Evict.{evict, remove, fini}
use patricia_c.Iter.{Iter, iter_init, iter_next, iter_prev, iter_reset}

-- `offsetof(PTMapNodeT, _m_node)` with a payload of 64 bits.
abbrev pub node_offset : ℕ
node_offset = 8

-- `(char *)np - offsetof(PTMapNodeT, _m_node)`, which wraps around below the offset.
abbrev pub before_node : Ptr → Ptr
before_node p = if ltb p node_offset then p + 2 ^ 64 - node_offset else p - node_offset

unfoldable pub s2m : Ptr → Ptr
s2m p = if not (p == null) then before_node p else null

unfoldable pub m2s : Ptr → Ptr
m2s p = if not (p == null) then p + node_offset else null

-- The set's nodes, and the payloads by the address of the map node.
pub record Store : Type 0 where
  pub nodes : Heap
  pub payload : Ptr → ℕ

-- `alloc_wrap`, where `raw` is what `malloc` or the arena returns.
unfoldable pub alloc_wrap : Ptr → Store → Ptr × Store
alloc_wrap raw st =
    if not (raw == null)
    then (m2s raw, record st { payload = λ p. if p == raw then 0 else st.payload p })
    else (m2s raw, st)

unfoldable pub patrimap_init : Ptr → Store → Store
patrimap_init root st = record st { nodes = init root st.nodes }

unfoldable pub patrimap_lookup : Store → Ptr → Key → Run Ptr
patrimap_lookup st root k = do p ← lookup st.nodes root k; ok (s2m p)

unfoldable pub patrimap_prefix : Store → Ptr → Key → Run Ptr
patrimap_prefix st root k = do p ← prefix st.nodes root k; ok (s2m p)

pub record MapInserted : Type 0 where
  pub node : Ptr
  pub inserted : Bool
  pub store : Store

-- `patrimap_insert`: the set's insertion calls `alloc_wrap` on the way to a new node only.
unfoldable pub patrimap_insert : WordOps → Bool → Ptr → Store → Ptr → Key → Run MapInserted
patrimap_insert w little raw st root k = do
  let (fresh, allocated) = alloc_wrap raw st
  r ← insert w little fresh st.nodes root k
  ok (record {
    node = s2m r.node;
    inserted = r.inserted;
    store = record {
      nodes = r.heap;
      payload = if r.inserted then allocated.payload else st.payload;
    };
  })

-- `free_wrap` on the payload; the set takes the node itself off the heap.
unfoldable pub free_wrap : Ptr → Store → Store
free_wrap obj st =
    if not (s2m obj == null)
    then record st { payload = λ p. if p == s2m obj then 0 else st.payload p }
    else st

-- The store after a deletion by the set, which frees the node at `obj` if there is one to delete.
abbrev pub deleted : Store → Ptr → Bool × Heap → Bool × Store
deleted st obj (done, h) =
    let rest : Store = record st { nodes = h } in (done, if done then free_wrap obj rest else rest)

unfoldable pub patrimap_evict : Store → Ptr → Ptr → Run (Bool × Store)
patrimap_evict st root node = do
  found ← evict st.nodes root (m2s node)
  ok (deleted st (m2s node) found)

-- `patrimap_remove`; the node that is freed is the one of the look-up in `patriset_remove`.
unfoldable pub patrimap_remove : Store → Ptr → Key → Run (Bool × Store)
patrimap_remove st root k = do
  obj ← lookup st.nodes root k
  found ← remove st.nodes root k
  ok (deleted st obj found)

abbrev pub is_some : Option Node → Bool
is_some none = false
is_some (some n) = true

-- `patrimap_fini`: `free_wrap` runs for the map node of each set node that goes.
unfoldable pub patrimap_fini : Store → ℕ → Ptr → Run (ℕ × Store)
patrimap_fini st nodes root = do
  (count, h) ← fini st.nodes nodes root
  let freed : Ptr → Bool = λ p. is_some (st.nodes (m2s p)) && not (is_some (h (m2s p)))
  ok (count, record { nodes = h; payload = λ p. if freed p then 0 else st.payload p })

unfoldable pub pmapiter_init : Store → Ptr → Ptr → Bool → ℕ → Run Iter
pmapiter_init st tree root dir mode = iter_init st.nodes tree (m2s root) dir mode

unfoldable pub pmapiter_next : Store → ℕ → Iter → Run (Ptr × Iter)
pmapiter_next st fuel it = do (p, it1) ← iter_next st.nodes fuel it; ok (s2m p, it1)

unfoldable pub pmapiter_prev : Store → ℕ → Iter → Run (Ptr × Iter)
pmapiter_prev st fuel it = do (p, it1) ← iter_prev st.nodes fuel it; ok (s2m p, it1)

unfoldable pub pmapiter_reset : Iter → Iter
pmapiter_reset it = iter_reset it
