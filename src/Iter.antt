-- ===== src/Iter.antt =====
-- The iterators of src/cpatricia_set.c: a state machine over the nodes of a set with a bounded
-- stack of parents, the eight slots of a ring in which new entries overwrite the oldest.
pub mod Parents
pub mod Tour
pub mod Order
pub mod Under
pub mod Hang
pub mod Stack
pub mod Climb
pub mod Moves
pub mod Sides
pub mod Route
pub mod Rounds
pub mod Collect
pub mod Range
pub mod Setup
pub mod Whole
pub mod Visits
pub mod Events
pub mod Placed
pub mod Anywhere
pub mod Steps
use patricia_c.Base.{
  ℕ, zero, suc, ◌+◌, ◌-◌, ◌%◌, ◌^◌, bit_and, Bool, true, false, not, ◌&&◌, ◌||◌, Option, none, some,
  ltb, leb, ◌==◌, if◌then◌else◌,
}
use patricia_c.Key.{Key, getbit, from_bool}
use patricia_c.Heap.{Ptr, null, child, Heap, Run, ok, out_of_fuel, ◌>>=◌, load}
use patricia_c.Tree.{rounds}
use patricia_c.Evict.{is_parent_of}

-- `EWayIn`, the way in which the node was entered, and `EWayOut`, the one in which it is left.
pub data WayIn : Type 0 where
  in_head : WayIn
  in_down : WayIn
  in_up1 : WayIn
  in_up2 : WayIn
  in_tail : WayIn

pub data WayOut : Type 0 where
  out_root : WayOut
  out_down1 : WayOut
  out_down2 : WayOut
  out_up : WayOut
  out_null : WayOut

-- `IterTransT`. The mode is a field of two bits, so -1 is stored as 3, which is no mode.
pub record Trans : Type 0 where
  pub odir : WayOut
  pub idir : WayIn
  pub mode : ℕ

abbrev pub pre_order : ℕ
pre_order = 0

abbrev pub in_order : ℕ
in_order = 1

abbrev pub post_order : ℕ
post_order = 2

abbrev pub no_mode : ℕ
no_mode = 3

unfoldable pub fwd_table : WayIn → Trans
fwd_table in_head = record { odir = out_root; idir = in_tail; mode = no_mode }
fwd_table in_down = record { odir = out_down1; idir = in_up1; mode = pre_order }
fwd_table in_up1 = record { odir = out_down2; idir = in_up2; mode = in_order }
fwd_table in_up2 = record { odir = out_up; idir = in_tail; mode = post_order }
fwd_table in_tail = record { odir = out_null; idir = in_tail; mode = no_mode }

unfoldable pub rev_table : WayIn → Trans
rev_table in_head = record { odir = out_null; idir = in_head; mode = no_mode }
rev_table in_down = record { odir = out_down2; idir = in_up2; mode = post_order }
rev_table in_up1 = record { odir = out_up; idir = in_head; mode = pre_order }
rev_table in_up2 = record { odir = out_down1; idir = in_up1; mode = in_order }
rev_table in_tail = record { odir = out_root; idir = in_head; mode = no_mode }

-- `PTSetIterT`
pub record Iter : Type 0 where
  pub root : Ptr
  pub nodep : Ptr
  pub pstk : ℕ → Ptr
  pub stk_len : ℕ
  pub stk_top : ℕ
  pub state : WayIn
  pub mode : ℕ
  pub dir : Bool

-- `iter_child`
unfoldable pub iter_child : Heap → Ptr → Bool → Run Ptr
iter_child h node dir = if node == null then ok node else do
  n ← load h node
  next ← load h (child n dir)
  ok (if ltb n.bpos next.bpos then child n dir else null)

-- `iter_parentPush`
unfoldable pub parent_push : Iter → Ptr → Iter
parent_push it node = record it {
  pstk = λ i. if i == it.stk_top then node else it.pstk i;
  stk_top = bit_and (it.stk_top + 1) 7;
  stk_len = it.stk_len + from_bool (ltb it.stk_len 8);
}

-- The loop over the stack in `iter_parentPop`: the length, which it counts down, is the fuel. The
-- top is an `uint8_t` converted to `int` before 1 is taken off.
unfoldable pub pop_cached : Heap → ℕ → Iter → Ptr → Run (Iter × Option Ptr)
pop_cached h zero it node = ok (record it { stk_len = 0 }, none)
pop_cached h (suc len) it node = do
  let top = bit_and (it.stk_top + 2 ^ 32 - 1) 7
  let it' = record it { stk_len = len; stk_top = top }
  let next = it.pstk top
  p ← load h next
  n ← load h node
  let rest = pop_cached h len it' node
  if is_parent_of p node && ltb p.bpos n.bpos then ok (it', some next) else rest

-- The walk that fills the stack again with the parents on the way from the root to the node.
unfoldable pub refill : Heap → Key → ℕ → Iter → Ptr → Ptr → Ptr → Run (Iter × Ptr × Ptr)
refill h k zero it node last next = out_of_fuel
refill h k (suc fuel) it node last next = do
  l ← load h last
  n ← load h next
  let rest = refill h k fuel (parent_push it last) node next (child n (getbit k n.bpos))
  if not (next == node) && ltb l.bpos n.bpos then rest else ok (it, last, next)

-- `iter_parentPop`
unfoldable pub parent_pop : Heap → Iter → Ptr → Run (Iter × Ptr)
parent_pop h it node = do
  (it1, cached) ← pop_cached h it.stk_len it node
  elim cached [
    | some parent ↦ ok (it1, parent)
    | none ↦ if node == it1.root then ok (it1, null) else do
      n ← load h node
      r ← load h it1.root
      (it2, last, next) ← refill h n.key rounds it1 node it1.root (child r (getbit n.key r.bpos))
      l ← load h last
      x ← load h next
      ok (
          if not (next == node) || leb x.bpos l.bpos
          then (record it2 { stk_len = 0 }, null)
          else (it2, last))
  ]

-- One round of the loop in `iter_step` after the look at the table: `last` is left in direction
-- `odir`, and `idir` is the state if the machine does not move. It has the iterator, the node
-- and the state behind the round.
unfoldable pub leave : Heap → Iter → WayOut → WayIn → Ptr → Run (Iter × Ptr × WayIn)
leave h it out_root idir last =
    if not (it.root == null)
    then ok (record it { stk_len = 0; stk_top = 0 }, it.root, in_down)
    else ok (it, it.root, idir)
leave h it out_down1 idir last = do
  next ← iter_child h last (not it.dir)
  ok (if not (next == null) then (parent_push it last, next, in_down) else (it, last, idir))
leave h it out_down2 idir last = do
  next ← iter_child h last it.dir
  ok (if not (next == null) then (parent_push it last, next, in_down) else (it, last, idir))
leave h it out_up idir last = do
  (it1, next) ← parent_pop h it last
  if next == null
      then ok (it1, next, idir)
      else do n ← load h next; ok (it1, next, if last == child n it1.dir then in_up2 else in_up1)
leave h it out_null idir last = ok (it, null, idir)

abbrev pub is_null : WayOut → Bool
is_null out_null = true
is_null out_root = false
is_null out_down1 = false
is_null out_down2 = false
is_null out_up = false

-- The loop of `iter_step`; the node that was left in the last round is returned.
unfoldable pub step_loop : Heap → (WayIn → Trans) → ℕ → Iter → WayIn → Ptr → Run (Ptr × Iter)
step_loop h table zero it idir next = out_of_fuel
step_loop h table (suc fuel) it idir next = do
  let yields = (table idir).mode == it.mode
  let odir = (table idir).odir
  (it1, next1, idir1) ← leave h it odir (table idir).idir next
  let rest = step_loop h table fuel it1 idir1 next1
  if not yields && not (is_null odir)
      then rest
      else ok (next, record it1 { nodep = next1; state = idir1 })

unfoldable pub iter_step : Heap → (WayIn → Trans) → ℕ → Iter → Run (Ptr × Iter)
iter_step h table fuel it = step_loop h table fuel it it.state it.nodep

-- `psetiter_init` on the set at `tree`.
unfoldable pub iter_init : Heap → Ptr → Ptr → Bool → ℕ → Run Iter
iter_init h tree root dir mode = do
  top ← iter_child h tree false
  ok (record {
    root = if not (root == null) then root else top;
    nodep = null;
    pstk = λ i. null;
    stk_len = 0;
    stk_top = 0;
    state = in_head;
    mode = mode % 2 ^ 2;
    dir = dir;
  })

-- `psetiter_next`, `psetiter_prev` and `psetiter_reset`
unfoldable pub iter_next : Heap → ℕ → Iter → Run (Ptr × Iter)
iter_next h fuel it = iter_step h fwd_table fuel it

unfoldable pub iter_prev : Heap → ℕ → Iter → Run (Ptr × Iter)
iter_prev h fuel it = iter_step h rev_table fuel it

unfoldable pub iter_reset : Iter → Iter
iter_reset it = record it { state = in_head }
