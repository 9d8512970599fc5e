-- ===== src/Iter/Parents.antt =====
-- The stack of parents in the iterators of src/cpatricia_set.c.
use patricia_c.Base.{
  ℕ, suc, ◌+◌, ◌-◌, ◌^◌, ◌<◌, ◌≤◌, ◌≡◌, ◌∙◌, refl, ap, true, arith, some, ◌==◌, ltb, if◌then◌else◌,
  bit_and,
}
use patricia_c.Bits.{bit_and_mask}
use patricia_c.Heap.{Ptr, Node, Heap, ok, load-ok}
use patricia_c.Evict.{is_parent_of}
use patricia_c.Iter.{Iter, parent_push, parent_pop, pop_cached}

-- The length that is left when a push is undone: a full stack has lost its oldest entry.
abbrev pub kept : ℕ → ℕ
kept len = if ltb len 8 then len else 7

abbrev pub undone : Iter → Ptr → Iter
undone it p = record (parent_push it p) { stk_top = it.stk_top; stk_len = kept it.stk_len }

push-len :
    (it : Iter) (p : Ptr) → it.stk_len ≤ 8 → (parent_push it p).stk_len ≡ suc (kept it.stk_len)
unfolding parent_push
push-len it p l = ground arith

ring_back : (top : ℕ) → top < 8 → bit_and (bit_and (top + 1) 7 + 2 ^ 32 - 1) 7 ≡ top
ring_back top l =
    ground (arith, bit_and_mask 3 (top + 1), bit_and_mask 3 (bit_and (top + 1) 7 + 2 ^ 32 - 1))

pop_cached-top :
    (h : Heap) (it : Iter) (p node : Ptr) (len : ℕ) (pn nn : Node)
    → it.stk_top < 8
    → h p ≡ some pn
    → h node ≡ some nn
    → is_parent_of pn node ≡ true
    → pn.bpos < nn.bpos
    → pop_cached h (suc len) (parent_push it p) node
      ≡ ok (record (parent_push it p) { stk_top = it.stk_top; stk_len = len }, some p)
unfolding pop_cached parent_push
pop_cached-top h it p node len pn nn top ep en parent less =
    let here : (it.stk_top == it.stk_top) ≡ true = ground arith in
    let below : ltb pn.bpos nn.bpos ≡ true = ground arith in
    rw (ring_back it.stk_top top, here, load-ok h p pn ep, load-ok h node nn en, parent, below) refl

pub parent_pop-cached :
    (h : Heap) (it : Iter) (node : Ptr) (popped : Iter) (parent : Ptr)
    → pop_cached h it.stk_len it node ≡ ok (popped, some parent)
    → parent_pop h it node ≡ ok (popped, parent)
unfolding parent_pop
parent_pop-cached h it node popped parent e = rw e refl

-- On a stack of at most eight parents with its top below eight, when the node just pushed is the
-- parent of a node by a downlink, the search for the parent of that node returns it. The top is
-- back where it was, and so is the length, one less if the stack was full.
pub parent_pop-push :
    (h : Heap) (it : Iter) (p node : Ptr) (pn nn : Node)
    → it.stk_len ≤ 8
    → it.stk_top < 8
    → h p ≡ some pn
    → h node ≡ some nn
    → is_parent_of pn node ≡ true
    → pn.bpos < nn.bpos
    → parent_pop h (parent_push it p) node ≡ ok (undone it p, p)
parent_pop-push h it p node pn nn len top ep en parent less =
    parent_pop-cached h (parent_push it p) node (undone it p) p (
      ap (λ (n : ℕ). pop_cached h n (parent_push it p) node) (push-len it p len)
      ∙ pop_cached-top h it p node (kept it.stk_len) pn nn top ep en parent less)
