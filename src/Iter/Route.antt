-- ===== src/Iter/Route.antt =====
-- The iterators of src/cpatricia_set.c make the tour of a trie.
use patricia_c.Base.{
  ℕ, ◌+◌, ◌≤◌, ◌<◌, ◌≡◌, ◌≢◌, inl, inr, refl, sym, ap, ◌∙◌, Bool, true, false, not, none, ◌==◌,
  arith, Bool-cases, if◌then◌else◌, List, [], ◌∷◌, ◌++◌,
}
use mathlib.Core.Path.{subst}
use patricia_c.Heap.{Ptr, null, Node, child, Heap}
use patricia_c.Trie.{Trie, leaf, branch, addr, inner}
use patricia_c.Tree.Rep.{Rep}
use patricia_c.Iter.{in_down, in_up1, in_up2, is_null}
use patricia_c.Iter.Tour.{Event, event, table_of, mid, last, start, final, lead, opening, tour}
use patricia_c.Iter.Under.{IsHead}
use patricia_c.Iter.Hang.{Walkable, Inside, whole, Hangs, Hangs-left, Hangs-right}
use patricia_c.Iter.Moves.{
  real_node, side_of, before, behind, entered, Moves, begin, finish, ascend, descend,
}
use patricia_c.Iter.Sides.{
  heads_apart, first_side, second_side, up_first, head_addr, head_real, goes_down, goes_up, goes_in,
  hidden_start, next, next-append, next-tour, tour_right, tour_left,
}

module _ (root : Ptr) (c : ℕ) (l r : Trie) (mode : ℕ) (dir : Bool) (h : Heap) (b : ℕ)
    (walk : Walkable h b (branch root c l r)) (no_null : h null ≡ none) (fwd : Bool) where
  abbrev whole_trie : Trie
  whole_trie = branch root c l r

  -- An event that is followed by another in the course of an iteration.
  pub record Leg (e e' : Event) : Type 0 where
    pub moves : Moves root c l r mode dir h b walk no_null fwd e e'
    pub goes_on : is_null (table_of fwd e.way).odir ≡ false
    pub real : ((table_of fwd e.way).mode == mode) ≡ true → (e.at == null) ≡ false

  -- Each event of a list is followed by the next, the last by `e`.
  unfoldable pub Route : List Event → Event → Type 0
  Route [] e = Unit {0}
  Route (x ∷ xs) e = Leg x (next xs e) × Route xs e

  Route-append :
      (xs ys : List Event) (e : Event) → Route xs (next ys e) → Route ys e → Route (xs ++ ys) e
  unfolding Route
  Route-append [] ys e rx ry = ry
  Route-append (x ∷ xs) ys e (leg, rx) ry =
      (subst (λ z. Leg x z) (sym (next-append xs ys e)) leg, Route-append xs ys e rx ry)

  Leg-down :
      (s : Trie) (p : Ptr) (n : Node) (first : Bool)
      → Hangs h whole_trie s p n
      → child n (side_of fwd first dir) ≡ addr s
      → Leg (event (before fwd first) p) (entered s (event (behind fwd first) p))
  Leg-down s p n first g e = record {
    moves = descend root c l r mode dir h b walk no_null fwd s p n first g e;
    goes_on = goes_down fwd first;
    real = λ shown. real_node h p n no_null g.at;
  }

  Leg-up :
      (s : Trie) (x p : Ptr) (n : Node) (second : Bool)
      → Hangs h whole_trie s p n
      → IsHead s x
      → (x == child n dir) ≡ second
      → Leg (event (last fwd) x) (event (if second then in_up2 else in_up1) p)
  Leg-up s x p n second g at e = record {
    moves = ascend root c l r mode dir h b walk no_null fwd s x p n second g at e;
    goes_on = goes_up fwd;
    real = λ shown. head_real h n.bpos s x no_null g.rep at;
  }

  -- The two subtries of a node in the order of the tour.
  record Sides (p : Ptr) (n : Node) (f g : Trie) : Type 0 where
    first_hangs : Hangs h whole_trie f p n
    second_hangs : Hangs h whole_trie g p n
    first_at : child n (side_of fwd true dir) ≡ addr f
    second_at : child n (side_of fwd false dir) ≡ addr g
    apart : (a : Ptr) → inner f a + inner g a ≤ 1

  first_up :
      (p : Ptr) (n : Node) (f g : Trie) (x : Ptr)
      → Sides p n f g
      → IsHead f x
      → Leg (event (last fwd) x) (event (mid fwd) p)
  first_up p n f g x s at =
      let other : child n (side_of fwd false dir) ≢ x = λ e.
        heads_apart h n.bpos f g x s.first_hangs.rep s.second_hangs.rep s.apart at
          (sym s.second_at ∙ e) in
      let side = first_side fwd dir n x (s.first_at ∙ head_addr f x at) other in
      subst (λ e. Leg (event (last fwd) x) e) (up_first fwd p)
        (Leg-up f x p n (not fwd) s.first_hangs at side)

  second_up :
      (p : Ptr) (n : Node) (f g : Trie) (x : Ptr)
      → Sides p n f g
      → IsHead g x
      → Leg (event (last fwd) x) (event (last fwd) p)
  second_up p n f g x s at =
      let other : child n (side_of fwd true dir) ≢ x = λ e.
        heads_apart h n.bpos g f x s.second_hangs.rep s.first_hangs.rep
          (λ a. omega (arith, s.apart a)) at (sym s.first_at ∙ e) in
      Leg-up g x p n fwd s.second_hangs at
        (second_side fwd dir n x (s.second_at ∙ head_addr g x at) other)

  opening-Route :
      (p : Ptr) (n : Node) (f g : Trie) (e : Event)
      → Sides p n f g
      → Route (tour fwd dir f) (event (mid fwd) p)
      → Route (tour fwd dir g) (event (last fwd) p)
      → Leg (event (last fwd) p) e
      → Route (opening fwd p (tour fwd dir f) (tour fwd dir g) ++ (event (last fwd) p ∷ [])) e
  unfolding Route
  opening-Route p n f g e s rf rg up =
      let a = tour fwd dir f in
      let b = tour fwd dir g in
      let into = Leg-down f p n true s.first_hangs s.first_at in
      let over = Leg-down g p n false s.second_hangs s.second_at in
      let second : Route (event (mid fwd) p ∷ b) (event (last fwd) p) = (
        subst (λ z. Leg (event (mid fwd) p) z) (sym (next-tour fwd dir g (event (last fwd) p)))
            over,
        rg,
      ) in
      (
        subst (λ z. Leg (event in_down p) z)
            (sym (
              next-append (a ++ (event (mid fwd) p ∷ b)) (event (last fwd) p ∷ []) e
              ∙ next-append a (event (mid fwd) p ∷ b) (event (last fwd) p)
              ∙ next-tour fwd dir f (event (mid fwd) p)))
            into,
        Route-append (a ++ (event (mid fwd) p ∷ b)) (event (last fwd) p ∷ []) e
            (Route-append a (event (mid fwd) p ∷ b) (event (last fwd) p) rf second) (up, tt),
      )

  visit :
      (s : Trie) (low : ℕ) (e : Event)
      → Inside whole_trie s
      → Rep h low s
      → ((a : Ptr) → inner s a ≤ 1)
      → ((x : Ptr) → IsHead s x → Leg (event (last fwd) x) e)
      → Route (tour fwd dir s) e
  unfolding Route tour inner
  visit (leaf q) low e part rep once up = tt
  visit (branch p d lt rt) low e part rep once up =
      let n = rep.0 in
      let gl = Hangs-left h whole_trie low p d lt rt part rep in
      let gr = Hangs-right h whole_trie low p d lt rt part rep in
      elim (Bool-cases (lead fwd dir)) [
        | inl right ↦
            let s : Sides p n rt lt = record {
              first_hangs = gr;
              second_hangs = gl;
              first_at = ap (λ z. child n z) right ∙ rep.4;
              second_at = ap (λ z. child n (not z)) right ∙ rep.3;
              apart = λ a. omega (arith, once a);
            } in
            subst (λ z. Route z e) (sym (tour_right fwd dir p d lt rt right))
              (opening-Route p n rt lt e s
                (visit rt d (event (mid fwd) p) gr.part (rep.8) (λ a. omega (arith, once a))
                  (λ x at. first_up p n rt lt x s at))
                (visit lt d (event (last fwd) p) gl.part (rep.7) (λ a. omega (arith, once a))
                  (λ x at. second_up p n rt lt x s at))
                (up p refl))
        | inr left ↦
            let s : Sides p n lt rt = record {
              first_hangs = gl;
              second_hangs = gr;
              first_at = ap (λ z. child n z) left ∙ rep.3;
              second_at = ap (λ z. child n (not z)) left ∙ rep.4;
              apart = λ a. omega (arith, once a);
            } in
            subst (λ z. Route z e) (sym (tour_left fwd dir p d lt rt left))
              (opening-Route p n lt rt e s
                (visit lt d (event (mid fwd) p) gl.part (rep.7) (λ a. omega (arith, once a))
                  (λ x at. first_up p n lt rt x s at))
                (visit rt d (event (last fwd) p) gr.part (rep.8) (λ a. omega (arith, once a))
                  (λ x at. second_up p n lt rt x s at))
                (up p refl))
      ]

  -- Into the trie and out of it.
  Leg-in : (q : Ptr) → mode < 3 → Leg (event (start fwd) q) (event in_down root)
  Leg-in q w = record {
    moves = begin root c l r mode dir h b walk no_null fwd q;
    goes_on = goes_in fwd;
    real = λ shown. absurd (clash shown (hidden_start fwd mode w));
  }
    where
      clash : {d : Bool} → d ≡ true → d ≡ false → ⊥
      clash e f = ground arith

  Leg-out : Leg (event (last fwd) root) (event (final fwd) null)
  Leg-out = record {
    moves = finish root c l r mode dir h b walk no_null fwd;
    goes_on = goes_up fwd;
    real = λ shown. head_real h b whole_trie root no_null walk.rep refl;
  }

  pub whole-Route :
      (q : Ptr)
      → mode < 3
      → Route (event (start fwd) q ∷ tour fwd dir whole_trie) (event (final fwd) null)
  unfolding Route
  whole-Route q w = (
    subst (λ z. Leg (event (start fwd) q) z)
        (sym (next-tour fwd dir whole_trie (event (final fwd) null))) (Leg-in q w),
    visit whole_trie b (event (final fwd) null) (whole whole_trie) walk.rep walk.once
        (λ x at. subst (λ z. Leg (event (last fwd) z) (event (final fwd) null)) at Leg-out),
  )
