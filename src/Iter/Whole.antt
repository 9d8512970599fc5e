-- ===== src/Iter/Whole.antt =====
-- A whole iteration over a set of src/cpatricia_set.c, forward and then backward.
use mathlib.Core.List.{reverse}
use patricia_c.Base.{
  ℕ, suc, ◌+◌, ◌-◌, ◌*◌, ◌<◌, ◌≡◌, refl, sym, ap, ◌∙◌, Bool, true, false, not, none, ◌==◌, arith,
  ◌∷◌,
}
use patricia_c.Heap.{Ptr, null, Heap, ok}
use patricia_c.Trie.{Trie, leaf, branch}
use patricia_c.Tree.Rep.{IsNodeSet}
use patricia_c.Evict.Dead.{length}
use patricia_c.Evict.Funnel.{nodes_of}
use patricia_c.Iter.{Iter, iter_init}
use patricia_c.Iter.Tour.{event, table_of, start, final, tour, yields, length_events, length-tour}
use patricia_c.Iter.Order.{
  yields-nil, order, length-yields, yields-tour_forward, yields-tour_backward,
}
use patricia_c.Iter.Hang.{Walkable}
use patricia_c.Iter.Stack.{placed-Steady}
use patricia_c.Iter.Route.{whole-Route}
use patricia_c.Iter.Sides.{goes_in, hidden_start}
use patricia_c.Iter.Collect.{Before, iter_all-yields}
use patricia_c.Iter.Rounds.{
  iter_all, iter_dir, round_hidden, round_final, iter_dir-step_loop, iter_all-end, yields-hidden,
}
use patricia_c.Iter.Range.{Range}
use patricia_c.Iter.Setup.{
  fresh_iter, top_of, Rests, turned, fresh-Rests, leave_empty, iter_init-top, Range-Walkable,
}

module _ (h : Heap) (fuel n : ℕ) (fwd : Bool) (mode : ℕ) (dir : Bool) (it : Iter)
    (w : mode < 3) where
  -- What an iteration returns.
  abbrev pub Lap : Trie → Type 0
  Lap s =
      (it1 : Iter) × (iter_all fwd h fuel n it ≡ ok (yields fwd mode (tour fwd dir s), it1))
      × Rests (not fwd) s mode dir it1

  Lap-branch :
      (b : ℕ) (p : Ptr) (c : ℕ) (l r : Trie)
      → Walkable h b (branch p c l r)
      → h null ≡ none
      → Rests fwd (branch p c l r) mode dir it
      → 3 * nodes_of (branch p c l r) + 1 < fuel
      → length (yields fwd mode (tour fwd dir (branch p c l r))) < n
      → Lap (branch p c l r)
  unfolding length_events
  Lap-branch b p c l r walk no_null rests f m =
      let s = branch p c l r in
      let es = event (start fwd) it.nodep ∷ tour fwd dir s in
      let same : yields fwd mode es ≡ yields fwd mode (tour fwd dir s) =
        yields-hidden fwd mode (event (start fwd) it.nodep) (tour fwd dir s)
          (hidden_start fwd mode w) in
      let before : Before p c l r mode dir h b walk no_null fwd w es it = record {
        steady = rests.steady;
        route = whole-Route p c l r mode dir h b walk no_null fwd it.nodep w;
        state_is = rests.state_is;
        nodep_is = refl;
      } in
      let (it1, run, done) =
        iter_all-yields p c l r mode dir h b walk no_null fwd w n fuel es it before
          (omega (arith, length-tour fwd dir s)) (omega (arith, ap length same)) in
      (
        it1,
        run ∙ ap (λ z. ok (z, it1)) same,
        record { steady = done.steady; state_is = done.state_is ∙ turned fwd },
      )

  Lap-leaf :
      (q : Ptr) (fuel' n' : ℕ)
      → fuel ≡ suc (suc fuel')
      → n ≡ suc n'
      → Rests fwd (leaf q) mode dir it
      → Lap (leaf q)
  unfolding tour
  Lap-leaf q fuel' n' ef en rests =
      let it1 = record it { nodep = null; state = final fwd } in
      let none_shown : ((table_of fwd (start fwd)).mode == it.mode) ≡ false =
        ap (λ m. (table_of fwd (start fwd)).mode == m) rests.steady.mode_is
        ∙ hidden_start fwd mode w in
      let out = leave_empty h it fwd it.nodep rests.steady.root_is in
      let run : iter_dir fwd h (suc (suc fuel')) it ≡ ok (null, it1) =
        iter_dir-step_loop fwd h (suc (suc fuel')) it (event (start fwd) it.nodep) rests.state_is
          refl
        ∙ round_hidden fwd h (suc fuel') it it (event (start fwd) it.nodep) (event (final fwd) null)
            none_shown (goes_in fwd) out
        ∙ round_final fwd h fuel' mode it null rests.steady.mode_is w in
      (
        it1,
        ap (λ m. iter_all fwd h m n it) ef
            ∙ ap (λ m. iter_all fwd h (suc (suc fuel')) m it) en
            ∙ iter_all-end fwd h (suc (suc fuel')) n' it it1 null run refl
            ∙ ap (λ z. ok (z, it1)) (sym (yields-nil fwd mode)),
        record {
          steady = placed-Steady null (leaf q) mode dir it null (final fwd) rests.steady;
          state_is = turned fwd;
        },
      )

  pub lap :
      (b : ℕ) (s : Trie)
      → Walkable h b s
      → h null ≡ none
      → Rests fwd s mode dir it
      → 3 * nodes_of s + 1 < fuel
      → nodes_of s < n
      → Lap s
  unfolding nodes_of
  lap b (leaf q) walk no_null rests f m =
      Lap-leaf q (fuel - 2) (n - 1) (omega arith) (omega arith) rests
  lap b (branch p c l r) walk no_null rests f m =
      Lap-branch b p c l r walk no_null rests f
        (omega (arith, length-yields fwd mode dir (branch p c l r) w))

-- On a set, an iterator that is set up with one of the three modes and either direction, over the
-- whole set or over what hangs below one of its nodes, returns the nodes of this trie in the order
-- of the mode and the direction and then NULL when it is stepped forward, and after that the same
-- nodes in the reverse order and then NULL when it is stepped backward. Each step is given more
-- rounds than three for each node and one more, and more steps may be made than there are nodes;
-- none faults.
pub iter_all-order :
    {h : Heap} {root : Ptr} (t s : Trie) (from : Ptr) (dir : Bool) (mode fuel n : ℕ)
    → IsNodeSet h root t
    → Range t from s
    → mode < 3
    → 3 * nodes_of s + 1 < fuel
    → nodes_of s < n
    → (it0 : Iter) × (it1 : Iter) × (it2 : Iter) × (iter_init h root from dir mode ≡ ok it0)
      × (iter_all true h fuel n it0 ≡ ok (order mode dir s, it1))
      × (iter_all false h fuel n it1 ≡ ok (reverse (order mode dir s), it2))
iter_all-order {h} t s from dir mode fuel n set range w f m =
    let (b, walk) = Range-Walkable t s from set range in
    let it0 = fresh_iter (top_of s) dir mode in
    let (it1, there, rests) =
      lap h fuel n true mode dir it0 w b s walk set.no_null (fresh-Rests s dir mode) f m in
    let (it2, back, done) = lap h fuel n false mode dir it1 w b s walk set.no_null rests f m in
    (
      it0,
      it1,
      it2,
      iter_init-top t s from dir mode set range w,
      there ∙ ap (λ z. ok (z, it1)) (yields-tour_forward mode dir s w),
      back ∙ ap (λ z. ok (z, it2)) (yields-tour_backward mode dir s w),
    )
