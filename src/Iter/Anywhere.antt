-- ===== src/Iter/Anywhere.antt =====
-- Steps of an iterator of src/cpatricia_set.c from any position, in both directions.
use mathlib.Core.Path.{subst}
use patricia_c.Base.{
  ℕ, suc, ◌+◌, ◌*◌, ◌-◌, ◌≤◌, ◌<◌, ◌≡◌, ◌⊎◌, inl, inr, refl, sym, ap, ◌∙◌, Bool, true, false, none,
  ◌==◌, arith, List, [], ◌∷◌,
}
use patricia_c.Heap.{Ptr, null, Heap, Run, ok}
use patricia_c.Trie.{Trie, leaf, branch, inner}
use patricia_c.Evict.Funnel.{nodes_of}
use patricia_c.Iter.{WayIn, in_head, in_down, in_up1, in_up2, in_tail, Iter}
use patricia_c.Iter.Tour.{Event, event, start, final, tour, table_of, length_events, length-tour}
use patricia_c.Iter.Hang.{Walkable}
use patricia_c.Iter.Stack.{Steady, placed-Steady}
use patricia_c.Iter.Route.{Route, whole-Route}
use patricia_c.Iter.Sides.{next, goes_in, hidden_start}
use patricia_c.Iter.Collect.{Before, step_loop-Stepped}
use patricia_c.Iter.Rounds.{iter_dir, iter_dir-step_loop, Suffix, round_final, round_hidden}
use patricia_c.Iter.Setup.{top_of, leave_empty}
use patricia_c.Iter.Events.{Busy, At-tour}
use patricia_c.Iter.Placed.{
  Place, Placed, Valid, Place-Valid, Placed-suffix, Place_final, Placed-tour, returned-Valid,
}

pub record Located (s : Trie) (mode : ℕ) (dir : Bool) (it : Iter) : Type 0 where
  pub steady : Steady (top_of s) s mode dir it
  pub place : Place s it.state it.nodep

-- A step runs, and returns NULL or a node of the trie.
abbrev pub Safe : Trie → ℕ → Bool → Run (Ptr × Iter) → Type 0
Safe s mode dir run =
    (p : Ptr) × (it1 : Iter) × (run ≡ ok (p, it1)) × Valid s p × Located s mode dir it1

next_place :
    (s : Trie) (fwd : Bool) (left : List Event)
    → Placed s left
    → Place s (next left (event (final fwd) null)).way (next left (event (final fwd) null)).at
next_place s fwd [] placed = Place_final s fwd
next_place s fwd (e ∷ es) placed = placed.0

relocate :
    (s : Trie) (it : Iter) (e : Event)
    → it.state ≡ e.way
    → it.nodep ≡ e.at
    → Place s e.way e.at
    → Place s it.state it.nodep
relocate s it e es ea place =
    subst (λ z. Place s z it.nodep) (sym es) (subst (λ z. Place s e.way z) (sym ea) place)

length_suffix : (left es : List Event) → Suffix left es → length_events left ≤ length_events es
unfolding length_events
length_suffix left [] e = rw e (omega arith)
length_suffix left (x ∷ es) (inl e) = rw e (omega arith)
length_suffix left (x ∷ es) (inr s) = omega (arith, length_suffix left es s)

-- What is ahead of an iterator that does not stand where its direction ends.
abbrev Ahead : Bool → Bool → Trie → WayIn → Ptr → Type 0
Ahead fwd dir s way p =
    ((q : Ptr) × (left : List Event) × Place s (start fwd) q
      × Suffix (event way p ∷ left) (event (start fwd) q ∷ tour fwd dir s))
    ⊎ (way ≡ final fwd)

start_place : (s : Trie) (fwd : Bool) → Place s (start fwd) null
start_place s true = inl refl
start_place s false = refl

Busy-Ahead :
    (fwd dir : Bool) (s : Trie) (way : WayIn) (p : Ptr)
    → Busy way
    → 0 < inner s p
    → Ahead fwd dir s way p
Busy-Ahead fwd dir s way p busy i =
    let (left, at) = At-tour fwd dir way p s busy i in inl (null, left, start_place s fwd, inr at)

ahead : (fwd dir : Bool) (s : Trie) (way : WayIn) (p : Ptr) → Place s way p → Ahead fwd dir s way p
ahead true dir s in_head p at = inl (p, tour true dir s, at, inl refl)
ahead false dir s in_head p at = inr refl
ahead fwd dir s in_down p at = Busy-Ahead fwd dir s in_down p tt at
ahead fwd dir s in_up1 p at = Busy-Ahead fwd dir s in_up1 p tt at
ahead fwd dir s in_up2 p at = Busy-Ahead fwd dir s in_up2 p tt at
ahead true dir s in_tail p at = inr refl
ahead false dir s in_tail p at = inl (p, tour false dir s, at, inl refl)

module _ (h : Heap) (fuel : ℕ) (mode : ℕ) (dir : Bool) (fwd : Bool) (w : mode < 3) (it : Iter) where
  -- Where the direction ends, the node that the iterator has is returned.
  step_end :
      (s : Trie) (m : ℕ)
      → fuel ≡ suc m
      → Located s mode dir it
      → it.state ≡ final fwd
      → Safe s mode dir (iter_dir fwd h fuel it)
  step_end s m ef at end = (
    it.nodep,
    record it { nodep = null; state = final fwd },
    ap (λ z. iter_dir fwd h z it) ef
        ∙ iter_dir-step_loop fwd h (suc m) it (event (final fwd) it.nodep) end refl
        ∙ round_final fwd h m mode it it.nodep at.steady.mode_is w,
    Place-Valid s it.state it.nodep at.place,
    record {
      steady = placed-Steady (top_of s) s mode dir it null (final fwd) at.steady;
      place = Place_final s fwd;
    },
  )

  module _ (root : Ptr) (c : ℕ) (l r : Trie) (b : ℕ) (walk : Walkable h b (branch root c l r))
      (no_null : h null ≡ none) where
    abbrev whole_trie : Trie
    whole_trie = branch root c l r

    Route-suffix :
        (left es : List Event) (e : Event)
        → Suffix left es
        → Route root c l r mode dir h b walk no_null fwd es e
        → Route root c l r mode dir h b walk no_null fwd left e
    unfolding Route
    Route-suffix left [] e same route = rw same tt
    Route-suffix left (x ∷ es) e (inl same) route = rw same route
    Route-suffix left (x ∷ es) e (inr s) (leg, route) = Route-suffix left es e s route

    step_events :
        (es : List Event)
        → Before root c l r mode dir h b walk no_null fwd w es it
        → Placed whole_trie es
        → length_events es < fuel
        → Safe whole_trie mode dir (iter_dir fwd h fuel it)
    step_events es at placed f =
        let s =
          step_loop-Stepped root c l r mode dir h b walk no_null fwd w es fuel it at.steady at.route
            f in
        let after = Placed-suffix whole_trie s.left es s.suffix placed in
        (
          s.node,
          s.after,
          iter_dir-step_loop fwd h fuel it (next es (event (final fwd) null)) at.state_is
                at.nodep_is
              ∙ s.runs,
          elim (s.outcome) [
            | inl (end, empty, gone) ↦ inl end
            | inr (real, more, less) ↦ returned-Valid whole_trie fwd mode es s.node _ placed more
          ],
          record {
            steady = s.before.steady;
            place =
                relocate whole_trie s.after (next s.left (event (final fwd) null)) s.before.state_is
                  s.before.nodep_is (next_place whole_trie fwd s.left after);
          },
        )

    step_branch :
        3 * nodes_of whole_trie + 1 < fuel
        → Located whole_trie mode dir it
        → Safe whole_trie mode dir (iter_dir fwd h fuel it)
    unfolding length_events
    step_branch f at = elim (ahead fwd dir whole_trie it.state it.nodep at.place) [
      | inr end ↦ step_end whole_trie (fuel - 1) (omega arith) at end
      | inl (q, left, from, suffix) ↦
          let es = event it.state it.nodep ∷ left in
          let all = event (start fwd) q ∷ tour fwd dir whole_trie in
          step_events es
            (record {
              steady = at.steady;
              route =
                  Route-suffix es all (event (final fwd) null) suffix
                    (whole-Route root c l r mode dir h b walk no_null fwd q w);
              state_is = refl;
              nodep_is = refl;
            })
            (Placed-suffix whole_trie es all suffix
              (from, Placed-tour whole_trie fwd dir whole_trie (λ a i. i)))
            (omega (arith, length_suffix es all suffix, length-tour fwd dir whole_trie))
    ]

  step_leaf :
      (q : Ptr) (m : ℕ)
      → fuel ≡ suc (suc m)
      → Located (leaf q) mode dir it
      → Safe (leaf q) mode dir (iter_dir fwd h fuel it)
  unfolding inner tour
  step_leaf q m ef at = elim (ahead fwd dir (leaf q) it.state it.nodep at.place) [
    | inr end ↦ step_end (leaf q) (suc m) ef at end
    | inl (p, left, from, inl same) ↦
        let hidden : ((table_of fwd (start fwd)).mode == it.mode) ≡ false =
          ap (λ z. (table_of fwd (start fwd)).mode == z) at.steady.mode_is
          ∙ hidden_start fwd mode w in
        (
          null,
          record it { nodep = null; state = final fwd },
          ap (λ z. iter_dir fwd h z it) ef
              ∙ iter_dir-step_loop fwd h (suc (suc m)) it (event (start fwd) it.nodep)
                  (ap (λ es. (next es (event in_head null)).way) same) refl
              ∙ round_hidden fwd h (suc m) it it (event (start fwd) it.nodep)
                  (event (final fwd) null) hidden (goes_in fwd)
                  (leave_empty h it fwd it.nodep at.steady.root_is)
              ∙ round_final fwd h m mode it null at.steady.mode_is w,
          inl refl,
          record {
            steady = placed-Steady null (leaf q) mode dir it null (final fwd) at.steady;
            place = Place_final (leaf q) fwd;
          },
        )
    | inl (p, left, from, inr none_left) ↦ absurd (no_event none_left)
  ]
    where
      no_event : {e : Event} {es : List Event} → e ∷ es ≡ [] → ⊥
      no_event e = cc

-- A step from any position.
pub step-Safe :
    {h : Heap} {b : ℕ} (s : Trie) (mode : ℕ) (dir fwd : Bool) (fuel : ℕ) (it : Iter)
    → Walkable h b s
    → h null ≡ none
    → mode < 3
    → 3 * nodes_of s + 1 < fuel
    → Located s mode dir it
    → Safe s mode dir (iter_dir fwd h fuel it)
unfolding nodes_of
step-Safe {h} (leaf q) mode dir fwd fuel it walk no_null w f at =
    step_leaf h fuel mode dir fwd w it q (fuel - 2) (omega arith) at
step-Safe {h} {b} (branch p c l r) mode dir fwd fuel it walk no_null w f at =
    step_branch h fuel mode dir fwd w it p c l r b walk no_null f at
