-- ===== src/Iter/Rounds.antt =====
-- The rounds of a step of the iterators of src/cpatricia_set.c, and steps up to NULL.
use patricia_c.Base.{
  ℕ, zero, suc, ◌<◌, ◌≡◌, ◌⊎◌, refl, ap, ◌∙◌, inl, Bool, true, false, ◌==◌, arith, if◌then◌else◌,
  List, [], ◌∷◌,
}
use patricia_c.Heap.{Ptr, null, Heap, Run, ok, out_of_fuel, ◌>>=◌}
use patricia_c.Evict.Dead.{length}
use patricia_c.Iter.{
  Iter, fwd_table, rev_table, is_null, leave, step_loop, iter_step, iter_next, iter_prev,
}
use patricia_c.Iter.Tour.{Event, table_of, final, yields, length_events}

-- A step of an iterator, forward or backward.
unfoldable pub iter_dir : Bool → Heap → ℕ → Iter → Run (Ptr × Iter)
iter_dir fwd h fuel it = if fwd then iter_next h fuel it else iter_prev h fuel it

-- The loop that a user of an iterator writes around `psetiter_next` or `psetiter_prev`, as in the
-- README: the nodes that are returned before NULL.
unfoldable pub iter_all : Bool → Heap → ℕ → ℕ → Iter → Run (List Ptr × Iter)
iter_all fwd h fuel zero it = out_of_fuel
iter_all fwd h fuel (suc n) it = do
  (node, it1) ← iter_dir fwd h fuel it
  let rest = iter_all fwd h fuel n it1
  if node == null then ok ([], it1) else do (nodes, it2) ← rest; ok (node ∷ nodes, it2)

-- The round of `iter_step` at a node that is returned, and at another.
pub round_shown :
    (fwd : Bool) (h : Heap) (fuel : ℕ) (it it1 : Iter) (e e' : Event)
    → ((table_of fwd e.way).mode == it.mode) ≡ true
    → leave h it (table_of fwd e.way).odir (table_of fwd e.way).idir e.at ≡ ok (it1, e'.at, e'.way)
    → step_loop h (λ s. table_of fwd s) (suc fuel) it e.way e.at
      ≡ ok (e.at, record it1 { nodep = e'.at; state = e'.way })
unfolding step_loop
round_shown fwd h fuel it it1 e e' shown run = rw (shown, run) refl

pub round_hidden :
    (fwd : Bool) (h : Heap) (fuel : ℕ) (it it1 : Iter) (e e' : Event)
    → ((table_of fwd e.way).mode == it.mode) ≡ false
    → is_null (table_of fwd e.way).odir ≡ false
    → leave h it (table_of fwd e.way).odir (table_of fwd e.way).idir e.at ≡ ok (it1, e'.at, e'.way)
    → step_loop h (λ s. table_of fwd s) (suc fuel) it e.way e.at
      ≡ step_loop h (λ s. table_of fwd s) fuel it1 e'.way e'.at
unfolding step_loop
round_hidden fwd h fuel it it1 e e' hidden on run = rw (hidden, on, run) refl

pub round_final :
    (fwd : Bool) (h : Heap) (fuel mode : ℕ) (it : Iter) (q : Ptr)
    → it.mode ≡ mode
    → mode < 3
    → step_loop h (λ s. table_of fwd s) (suc fuel) it (final fwd) q
      ≡ ok (q, record it { nodep = null; state = final fwd })
unfolding step_loop fwd_table rev_table leave
round_final true h fuel mode it q e w =
    let hidden : (3 == it.mode) ≡ false = ground arith in rw hidden refl
round_final false h fuel mode it q e w =
    let hidden : (3 == it.mode) ≡ false = ground arith in rw hidden refl

pub iter_dir-step_loop :
    (fwd : Bool) (h : Heap) (fuel : ℕ) (it : Iter) (e : Event)
    → it.state ≡ e.way
    → it.nodep ≡ e.at
    → iter_dir fwd h fuel it ≡ step_loop h (λ s. table_of fwd s) fuel it e.way e.at
unfolding iter_dir iter_next iter_prev iter_step
iter_dir-step_loop true h fuel it e es ea =
    ap (λ s. step_loop h fwd_table fuel it s it.nodep) es
    ∙ ap (λ p. step_loop h fwd_table fuel it e.way p) ea
iter_dir-step_loop false h fuel it e es ea =
    ap (λ s. step_loop h rev_table fuel it s it.nodep) es
    ∙ ap (λ p. step_loop h rev_table fuel it e.way p) ea

pub length-node : (p : Ptr) (ps : List Ptr) → length (p ∷ ps) ≡ suc (length ps)
unfolding length
length-node p ps = refl

pub iter_all-end :
    (fwd : Bool) (h : Heap) (fuel n : ℕ) (it it1 : Iter) (node : Ptr)
    → iter_dir fwd h fuel it ≡ ok (node, it1)
    → node ≡ null
    → iter_all fwd h fuel (suc n) it ≡ ok ([], it1)
unfolding iter_all
iter_all-end fwd h fuel n it it1 node run end =
    let stop : (node == null) ≡ true = ground arith in rw (run, stop) refl

pub iter_all-node :
    (fwd : Bool) (h : Heap) (fuel n : ℕ) (it it1 it2 : Iter) (node : Ptr) (nodes : List Ptr)
    → iter_dir fwd h fuel it ≡ ok (node, it1)
    → (node == null) ≡ false
    → iter_all fwd h fuel n it1 ≡ ok (nodes, it2)
    → iter_all fwd h fuel (suc n) it ≡ ok (node ∷ nodes, it2)
unfolding iter_all
iter_all-node fwd h fuel n it it1 it2 node nodes run real rest = rw (run, real, rest) refl

pub yields-shown :
    (fwd : Bool) (mode : ℕ) (e : Event) (es : List Event)
    → ((table_of fwd e.way).mode == mode) ≡ true
    → yields fwd mode (e ∷ es) ≡ e.at ∷ yields fwd mode es
unfolding yields
yields-shown fwd mode e es shown = rw shown refl

pub yields-hidden :
    (fwd : Bool) (mode : ℕ) (e : Event) (es : List Event)
    → ((table_of fwd e.way).mode == mode) ≡ false
    → yields fwd mode (e ∷ es) ≡ yields fwd mode es
unfolding yields
yields-hidden fwd mode e es hidden = rw hidden refl

pub length_cons : (e : Event) (es : List Event) → length_events (e ∷ es) ≡ suc (length_events es)
unfolding length_events
length_cons e es = refl

-- A list of events that ends another one.
abbrev pub Suffix : List Event → List Event → Type 0
Suffix left [] = left ≡ []
Suffix left (e ∷ es) = (left ≡ (e ∷ es)) ⊎ Suffix left es

pub Suffix_self : (es : List Event) → Suffix es es
Suffix_self [] = refl
Suffix_self (e ∷ es) = inl refl
