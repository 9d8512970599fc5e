-- ===== src/Evict/Dead.antt =====
-- The list of dead nodes of `patriset_fini`: how the funnel makes it and how it is freed.
use patricia_c.Base.{
  ℕ, zero, suc, ◌+◌, ◌≤◌, ◌<◌, ◌≡◌, refl, sym, ap, ◌∙◌, true, false, none, some, arith, ◌==◌, ltb,
  ==_iff, Bool-cases, inl, inr, if◌then◌else◌, List, [], ◌∷◌,
}
use patricia_c.Heap.{Ptr, null, Node, Heap, write, write_lem, ok, load-ok}
use patricia_c.Trie.{one_if}
use patricia_c.Evict.{free_list}
use patricia_c.Evict.Funnel.{write-other, one_self}

-- How often a node occurs in a list, and how long the list is.
unfoldable pub occurs : List Ptr → Ptr → ℕ
occurs [] q = 0
occurs (p ∷ ps) q = one_if (p == q) + occurs ps q

unfoldable pub length : List Ptr → ℕ
length [] = 0
length (p ∷ ps) = suc (length ps)

-- The nodes are linked by their left children from `list` on, down to NULL.
unfoldable pub Dead : Heap → Ptr → List Ptr → Type 0
Dead h list [] = list ≡ null
Dead h list (p ∷ ps) = (list ≡ p) × (n : Node) × (h p ≡ some n) × Dead h n.left ps

pub Dead-frame :
    (h h' : Heap) (list : Ptr) (ps : List Ptr)
    → ((a : Ptr) → 0 < occurs ps a → h' a ≡ h a)
    → Dead h list ps
    → Dead h' list ps
unfolding Dead occurs
Dead-frame h h' list [] same d = d
Dead-frame h h' list (p ∷ ps) same (at, n, e, d) =
    (at, n, same p (ground arith) ∙ e, Dead-frame h h' n.left ps (λ a i. same a (omega arith)) d)

-- Freeing the list takes each of its nodes off the heap, once.
pub free_list-Dead :
    (h : Heap) (fuel : ℕ) (list : Ptr) (ps : List Ptr)
    → Dead h list ps
    → h null ≡ none
    → ((q : Ptr) → occurs ps q ≤ 1)
    → length ps < fuel
    → (h' : Heap) × (free_list h fuel list ≡ ok (length ps, h'))
      × ((q : Ptr) → h' q ≡ (if ltb 0 (occurs ps q) then none else h q))
unfolding free_list Dead occurs length
free_list-Dead h zero list ps d no_null once f = absurd (omega arith)
free_list-Dead h (suc fuel) list [] d no_null once f =
    let stop : (list == null) ≡ true = ground arith in (h, rw stop refl, λ q. refl)
free_list-Dead h (suc fuel) list (p ∷ ps) (at, n, e, d) no_null once f =
    let real : (p == null) ≡ false = not_null p n e in
    let h1 = write h p none in
    let (h', run, cells) =
      free_list-Dead h1 fuel n.left ps
        (Dead-frame h h1 n.left ps
          (λ a i.
            write-other h p none a
              (λ z. absurd (omega (arith, ap (occurs ps) z, once p, one_self p))))
          d)
        (still_none p) (λ q. omega (arith, once q)) (omega arith) in
    (
      h',
      rw (at, real, load-ok h p n e, run) refl,
      λ q. cells q ∙ ground (arith, write_lem h p none q, once q),
    )
  where
    not_null : (p : Ptr) (n : Node) → h p ≡ some n → (p == null) ≡ false
    not_null p n e = elim (Bool-cases (p == null)) [
      | inr apart ↦ apart
      | inl here ↦ absurd (clash n (sym no_null ∙ ap h (sym ((==_iff p null).0 here)) ∙ e))
    ]
      where
        clash : (n : Node) → none ≡ some n → ⊥
        clash n e = cc

    still_none : (p : Ptr) → write h p none null ≡ none
    still_none p = ground (arith, write_lem h p none null, no_null)
