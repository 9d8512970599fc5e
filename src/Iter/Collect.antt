-- ===== src/Iter/Collect.antt =====
-- What the steps of the iterators of src/cpatricia_set.c return, one after the other.
use mathlib.Core.Path.{subst}
use patricia_c.Base.{
  ℕ, zero, suc, ◌<◌, ◌≡◌, ◌⊎◌, refl, sym, ap, ◌∙◌, inl, inr, Bool, false, none, ◌==◌, arith,
  Bool-cases, List, [], ◌∷◌,
}
use patricia_c.Heap.{Ptr, null, Heap, Run, ok}
use patricia_c.Trie.{Trie, branch}
use patricia_c.Evict.Dead.{length}
use patricia_c.Iter.{Iter, step_loop}
use patricia_c.Iter.Tour.{Event, event, table_of, final, yields, length_events}
use patricia_c.Iter.Order.{yields-nil}
use patricia_c.Iter.Hang.{Walkable}
use patricia_c.Iter.Stack.{Steady, placed-Steady}
use patricia_c.Iter.Route.{Route}
use patricia_c.Iter.Sides.{next}
use patricia_c.Iter.Rounds.{
  iter_all, round_shown, round_hidden, round_final, iter_dir-step_loop, length-node, iter_all-end,
  iter_all-node, yields-shown, yields-hidden, length_cons, Suffix, Suffix_self,
}

module _ (root : Ptr) (c : ℕ) (l r : Trie) (mode : ℕ) (dir : Bool) (h : Heap) (b : ℕ)
    (walk : Walkable h b (branch root c l r)) (no_null : h null ≡ none) (fwd : Bool)
    (w : mode < 3) where
  abbrev pub Sound : Iter → Type 0
  Sound it = Steady root (branch root c l r) mode dir it

  abbrev pub Ahead : List Event → Type 0
  Ahead es = Route root c l r mode dir h b walk no_null fwd es (event (final fwd) null)

  -- The events that are ahead of an iterator.
  pub record Before (es : List Event) (it : Iter) : Type 0 where
    pub steady : Sound it
    pub route : Ahead es
    pub state_is : it.state ≡ (next es (event (final fwd) null)).way
    pub nodep_is : it.nodep ≡ (next es (event (final fwd) null)).at

  -- A step that ends the iteration, and one that returns a node.
  abbrev pub Ends : List Event → Ptr → List Event → Type 0
  Ends es node left = (node ≡ null) × (yields fwd mode es ≡ []) × (left ≡ [])

  abbrev pub Returns : List Event → Ptr → List Event → Type 0
  Returns es node left =
      ((node == null) ≡ false)
      × (yields fwd mode es ≡ node ∷ yields fwd mode left)
      × (length_events left < length_events es)

  pub record Stepped (es : List Event) (run : Run (Ptr × Iter)) : Type 0 where
    pub node : Ptr
    pub after : Iter
    pub left : List Event
    pub runs : run ≡ ok (node, after)
    pub before : Before left after
    pub suffix : Suffix left es
    pub outcome : Ends es node left ⊎ Returns es node left

  pub step_loop-Stepped :
      (es : List Event) (fuel : ℕ) (it : Iter)
      → Sound it
      → Ahead es
      → length_events es < fuel
      → Stepped es (
          step_loop h
            (λ s. table_of fwd s)
            fuel
            it
            (next es (event (final fwd) null)).way
            (next es (event (final fwd) null)).at)
  unfolding length_events Route
  step_loop-Stepped es zero it st route f = absurd (omega arith)
  step_loop-Stepped [] (suc fuel) it st route f = record {
    node = null;
    after = record it { nodep = null; state = final fwd };
    left = [];
    runs = round_final fwd h fuel mode it null st.mode_is w;
    before = record {
      steady = placed-Steady root (branch root c l r) mode dir it null (final fwd) st;
      route = route;
      state_is = refl;
      nodep_is = refl;
    };
    suffix = refl;
    outcome = inl (refl, yields-nil fwd mode, refl);
  }
  step_loop-Stepped (e ∷ es) (suc fuel) it st (leg, route) f =
      let (it1, run, st1) = leg.moves it st in
      let e' = next es (event (final fwd) null) in
      let mode_of : ((table_of fwd e.way).mode == it.mode) ≡ ((table_of fwd e.way).mode == mode) =
        ap (λ m. (table_of fwd e.way).mode == m) st.mode_is in
      elim (Bool-cases ((table_of fwd e.way).mode == mode)) [
        | inl shown ↦ record {
          node = e.at;
          after = record it1 { nodep = e'.at; state = e'.way };
          left = es;
          runs = round_shown fwd h fuel it it1 e e' (mode_of ∙ shown) run;
          before = record {
            steady = placed-Steady root (branch root c l r) mode dir it1 (e'.at) (e'.way) st1;
            route = route;
            state_is = refl;
            nodep_is = refl;
          };
          suffix = inr (Suffix_self es);
          outcome = inr (leg.real shown, yields-shown fwd mode e es shown, omega arith);
        }
        | inr hidden ↦
            let s = step_loop-Stepped es fuel it1 st1 route (omega arith) in
            record {
              node = s.node;
              after = s.after;
              left = s.left;
              runs =
                  round_hidden fwd h fuel it it1 e e' (mode_of ∙ hidden) leg.goes_on run ∙ s.runs;
              before = s.before;
              suffix = inr s.suffix;
              outcome = later hidden s.outcome;
            }
      ]
    where
      later :
          {node : Ptr} {left : List Event}
          → ((table_of fwd e.way).mode == mode) ≡ false
          → Ends es node left ⊎ Returns es node left
          → Ends (e ∷ es) node left ⊎ Returns (e ∷ es) node left
      later hidden (inl (at, none_yet, gone)) =
          inl (at, yields-hidden fwd mode e es hidden ∙ none_yet, gone)
      later hidden (inr (real, more, less)) =
          inr (real, yields-hidden fwd mode e es hidden ∙ more, omega (arith, length_cons e es))

  -- The steps up to NULL return the nodes of the events that are ahead, and all of them are left.
  pub iter_all-yields :
      (n fuel : ℕ) (es : List Event) (it : Iter)
      → Before es it
      → length_events es < fuel
      → length (yields fwd mode es) < n
      → (it1 : Iter) × (iter_all fwd h fuel n it ≡ ok (yields fwd mode es, it1)) × Before [] it1
  iter_all-yields zero fuel es it at f m = absurd (omega arith)
  iter_all-yields (suc n) fuel es it at f m =
      let s = step_loop-Stepped es fuel it at.steady at.route f in
      let run =
        iter_dir-step_loop fwd h fuel it (next es (event (final fwd) null)) at.state_is at.nodep_is
        ∙ s.runs in
      elim (s.outcome) [
        | inl (end, empty, gone) ↦ (
          s.after,
          iter_all-end fwd h fuel n it s.after s.node run end
              ∙ ap (λ nodes. ok (nodes, s.after)) (sym empty),
          subst (λ left. Before left s.after) gone s.before,
        )
        | inr (real, more, less) ↦
            let (it1, rest, done) =
              iter_all-yields n fuel s.left s.after s.before (omega arith)
                (omega (arith, ap length more, length-node s.node (yields fwd mode s.left))) in
            (
              it1,
              iter_all-node fwd h fuel n it s.after it1 s.node (yields fwd mode s.left) run real
                    rest
                  ∙ ap (λ nodes. ok (nodes, it1)) (sym more),
              done,
            )
      ]
