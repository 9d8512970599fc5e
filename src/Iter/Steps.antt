-- ===== src/Iter/Steps.antt =====
-- Iterators of src/cpatricia_set.c after any calls: steps in both directions and resets.
use mathlib.Core.Path.{subst}
use patricia_c.Base.{ℕ, ◌+◌, ◌*◌, ◌<◌, ◌≡◌, inl, refl, sym, ap, ◌∙◌, Bool, true}
use patricia_c.Heap.{Ptr, Heap, ok, ok_injective}
use patricia_c.Trie.{Trie}
use patricia_c.Tree.Rep.{IsNodeSet}
use patricia_c.Evict.Funnel.{nodes_of}
use patricia_c.Iter.{Iter, in_head, iter_init, iter_reset}
use patricia_c.Iter.Order.{order, yields-tour_forward}
use patricia_c.Iter.Stack.{placed-Steady}
use patricia_c.Iter.Rounds.{iter_dir, iter_all}
use patricia_c.Iter.Range.{Range}
use patricia_c.Iter.Setup.{top_of, fresh_iter, Rests, fresh-Rests, iter_init-top, Range-Walkable}
use patricia_c.Iter.Whole.{lap}
use patricia_c.Iter.Placed.{Valid, Place-Valid}
use patricia_c.Iter.Anywhere.{Located, step-Safe}

-- The iterators that calls lead to: the set-up, steps forward (`true`) and backward, and resets.
pub data Calls (h : Heap) (root from : Ptr) (dir : Bool) (mode fuel : ℕ) : Iter → Type 0 where
  set_up : {it : Iter} → iter_init h root from dir mode ≡ ok it → Calls h root from dir mode fuel it
  stepped :
      {it it1 : Iter} {p : Ptr} (fwd : Bool)
      → Calls h root from dir mode fuel it
      → iter_dir fwd h fuel it ≡ ok (p, it1)
      → Calls h root from dir mode fuel it1
  reset :
      {it : Iter}
      → Calls h root from dir mode fuel it
      → Calls h root from dir mode fuel (iter_reset it)

fresh-Located :
    (s : Trie) (dir : Bool) (mode : ℕ) → Located s mode dir (fresh_iter (top_of s) dir mode)
fresh-Located s dir mode = record { steady = (fresh-Rests s dir mode).steady; place = inl refl }

reset-Located :
    (s : Trie) (mode : ℕ) (dir : Bool) (it : Iter)
    → Located s mode dir it
    → Located s mode dir (iter_reset it)
unfolding iter_reset
reset-Located s mode dir it at = record {
  steady = placed-Steady (top_of s) s mode dir it it.nodep in_head at.steady;
  place = Place-Valid s it.state it.nodep at.place;
}

module _ {h : Heap} {root : Ptr} (t s : Trie) (from : Ptr) (dir : Bool) (mode fuel : ℕ)
    (set : IsNodeSet h root t) (range : Range t from s) (w : mode < 3)
    (f : 3 * nodes_of s + 1 < fuel) where
  Calls-Located : (it : Iter) → Calls h root from dir mode fuel it → Located s mode dir it
  Calls-Located it (set_up e) =
      let same : fresh_iter (top_of s) dir mode ≡ it =
        ok_injective (sym (iter_init-top t s from dir mode set range w) ∙ e) in
      subst (λ z. Located s mode dir z) same (fresh-Located s dir mode)
  Calls-Located it (stepped {it = it0} fwd calls e) =
      let (b, walk) = Range-Walkable t s from set range in
      let (p, it1, run, valid, at) =
        step-Safe s mode dir fwd fuel it0 walk set.no_null w f (Calls-Located it0 calls) in
      subst (λ z. Located s mode dir z) (ap (λ z. z.1) (ok_injective (sym run ∙ e))) at
  Calls-Located it (reset {it = it0} calls) = reset-Located s mode dir it0 (Calls-Located it0 calls)

-- On a set, for an iterator over the whole set or over what hangs below one of its nodes, with one
-- of the three modes, after any sequence of steps forward, steps backward and resets, a further
-- step in either direction returns NULL or a node of this trie, without a fault. All steps are
-- given the same number of rounds, more than three for each node and one more.
pub iter_dir-Valid :
    {h : Heap} {root : Ptr} (t s : Trie) (from : Ptr) (dir fwd : Bool) (mode fuel : ℕ) (it : Iter)
    → IsNodeSet h root t
    → Range t from s
    → mode < 3
    → 3 * nodes_of s + 1 < fuel
    → Calls h root from dir mode fuel it
    → (p : Ptr) × (it1 : Iter) × (iter_dir fwd h fuel it ≡ ok (p, it1)) × Valid s p
iter_dir-Valid t s from dir fwd mode fuel it set range w f calls =
    let (b, walk) = Range-Walkable t s from set range in
    let at = Calls-Located t s from dir mode fuel set range w f it calls in
    let (p, it1, run, valid, after) = step-Safe s mode dir fwd fuel it walk set.no_null w f at in
    (p, it1, run, valid)

-- On a set, for an iterator over the whole set or over what hangs below one of its nodes, with one
-- of the three modes, after any sequence of steps forward, steps backward and resets, a reset and
-- then steps forward return all nodes of this trie in the order of the mode and the direction and
-- then NULL, when each step is given more rounds than three for each node and one more, and more
-- steps may be made than there are nodes.
pub iter_all-iter_reset :
    {h : Heap} {root : Ptr} (t s : Trie) (from : Ptr) (dir : Bool) (mode fuel n : ℕ) (it : Iter)
    → IsNodeSet h root t
    → Range t from s
    → mode < 3
    → 3 * nodes_of s + 1 < fuel
    → nodes_of s < n
    → Calls h root from dir mode fuel it
    → (it1 : Iter) × (iter_all true h fuel n (iter_reset it) ≡ ok (order mode dir s, it1))
unfolding iter_reset
iter_all-iter_reset {h} t s from dir mode fuel n it set range w f m calls =
    let (b, walk) = Range-Walkable t s from set range in
    let at = Calls-Located t s from dir mode fuel set range w f (iter_reset it) (reset calls) in
    let rests : Rests true s mode dir (iter_reset it) = record {
      steady = at.steady;
      state_is = refl;
    } in
    let (it1, run, done) =
      lap h fuel n true mode dir (iter_reset it) w b s walk set.no_null rests f m in
    (it1, run ∙ ap (λ z. ok (z, it1)) (yields-tour_forward mode dir s w))
