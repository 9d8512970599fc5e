-- ===== src/Heap.antt =====
-- The heap of set nodes (`PTSetNodeT` of src/cpatricia_set.h) and runs that may fault.
-- An address is a number and 0 is NULL, where nothing is ever stored. A read or write at an
-- address that holds no node is a fault, which C leaves undefined.
use patricia_c.Base.{
  ℕ, Bool, true, false, Option, none, some, ◌≡◌, refl, arith, ◌==◌, if◌then◌else◌,
}
use patricia_c.Key.{Key}

abbrev pub Ptr : Type 0
Ptr = ℕ

abbrev pub null : Ptr
null = 0

-- `_m_child[0]`, `_m_child[1]`, `bpos`, and the key `(data, nbit)`.
pub record Node : Type 0 where
  pub left : Ptr
  pub right : Ptr
  pub bpos : ℕ
  pub key : Key

-- `n->_m_child[d]`
abbrev pub child : Node → Bool → Ptr
child n d = if d then n.right else n.left

abbrev pub set_child : Node → Bool → Ptr → Node
set_child n true p = record n { right = p }
set_child n false p = record n { left = p }

abbrev pub Heap : Type 0
Heap = Ptr → Option Node

unfoldable pub write : Heap → Ptr → Option Node → Heap
write h p c a = if a == p then c else h a

pub data Run {ℓ} (A : Type ℓ) : Type ℓ where
  ok : A → Run A
  fault : Run A
  out_of_fuel : Run A

infixl 5 ◌>>=◌ ◌>>◌
abbrev pub ◌>>=◌ {ℓ κ} : {A : Type ℓ} {B : Type κ} → Run A → (A → Run B) → Run B
ok a >>= f = f a
fault >>= f = fault
out_of_fuel >>= f = out_of_fuel

abbrev pub ◌>>◌ {ℓ κ} : {A : Type ℓ} {B : Type κ} → Run A → Run B → Run B
m >> k = m >>= λ _. k

-- `assert(b)` of a debug build.
abbrev pub assert : Bool → Run (Unit {0})
assert b = if b then ok tt else fault

-- `*p`
unfoldable pub load : Heap → Ptr → Run Node
load h p = elim (h p) [ none ↦ fault | some n ↦ ok n ]

-- `*p = n` for an address that holds a node
unfoldable pub store : Heap → Ptr → Node → Run Heap
unfolding load write
store h p n = do old ← load h p; ok (write h p (some n))

pub load-ok : (h : Heap) (p : Ptr) (n : Node) → h p ≡ some n → load h p ≡ ok n
unfolding load
load-ok h p n e = ground arith

pub store-ok :
    (h : Heap) (p : Ptr) (n m : Node) → h p ≡ some n → store h p m ≡ ok (write h p (some m))
unfolding store
store-ok h p n m e = ground arith

pub write_lem :
    (h : Heap) (p : Ptr) (c : Option Node) (a : Ptr) → write h p c a ≡ (if a == p then c else h a)
unfolding write
write_lem h p c a = refl

pub ok_injective {ℓ} : {A : Type ℓ} {a b : A} → ok a ≡ ok b → a ≡ b
ok_injective e = cc
