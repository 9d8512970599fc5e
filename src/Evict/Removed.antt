-- ===== src/Evict/Removed.antt =====
-- The set behind a deletion.
use patricia_c.Base.{
  ℕ, ◌+◌, ◌-◌, ◌^◌, ◌≤◌, ◌<◌, ◌≡◌, ◌≢◌, refl, sym, ap, ◌∙◌, false, Option, none, some, arith, ◌==◌,
  Bool-cases, inl, inr, ==_iff,
}
use patricia_c.Key.{Key}
use patricia_c.Heap.{Ptr, null, Node, set_child, Heap, write, write_lem}
use patricia_c.Trie.{Trie, addr, leaves, inner, one_if, Sorted}
use patricia_c.Trie.Find.{Sorted-ext}
use patricia_c.Trie.Up.{PointsUp}
use patricia_c.Tree.Rep.{IsNodeSet, label_of, bits_in, bit_of}
use patricia_c.Tree.Down.{Down, Down-frame, Down-Rep}

-- The key of the node at an address, if there is one.
abbrev pub key_of : Option Node → Option Key
key_of none = none
key_of (some n) = some n.key

pub bits_of_key : (o o' : Option Node) (i : ℕ) → key_of o ≡ key_of o' → bit_of o i ≡ bit_of o' i
bits_of_key none none i e = refl
bits_of_key none (some n) i e = cc
bits_of_key (some n) none i e = cc
bits_of_key (some n) (some m) i e = let f : n.key ≡ m.key = ground arith in rw f

pub key_of-none : (o : Option Node) → key_of o ≡ none → o ≡ none
key_of-none none e = refl
key_of-none (some n) e = cc

pub key_of-some :
    (o : Option Node) (n : Node)
    → key_of o ≡ some n.key
    → (m : Node) × (o ≡ some m) × (m.key ≡ n.key)
key_of-some none n e = cc
key_of-some (some m) n e = (m, refl, ground arith)

-- A write that keeps the key.
pub key_of-write :
    (h : Heap) (p : Ptr) (m : Node)
    → key_of (h p) ≡ some m.key
    → (a : Ptr) → key_of (write h p (some m) a) ≡ key_of (h a)
key_of-write h p m e a = elim (Bool-cases (a == p)) [
  | inl here ↦
      let eq : a ≡ p = (==_iff a p).0 here in rw (write_lem h p (some m) a, here, eq, e) refl
  | inr other ↦ rw (write_lem h p (some m) a, other) refl
]

-- What a deletion leaves behind: a set without the node, in which the others keep their keys.
pub record Removed (h : Heap) (root : Ptr) (t : Trie) (x : Ptr) (h' : Heap) : Type 0 where
  pub trie : Trie
  pub valid : IsNodeSet h' root trie
  pub members : (q : Ptr) → leaves trie q + one_if (x == q) ≡ leaves t q
  pub gone : h' x ≡ none
  pub others : (q : Ptr) → q ≢ x → key_of (h' q) ≡ key_of (h q)

module _ {h : Heap} {root : Ptr} {t : Trie} (s : IsNodeSet h root t) (x : Ptr) (away : x ≢ root)
    (t' : Trie) (h2 : Heap) (down : Down h2 0 t')
    (top : h2 root ≡ some (set_child s.anchor false (addr t'))) (up : PointsUp (λ q. q ≡ root) t')
    (fewer : (q : Ptr) → leaves t' q + one_if (x == q) ≡ leaves t q)
    (fewer_in : (q : Ptr) → inner t' q + one_if (x == q) ≡ inner t q)
    (sorted : Sorted (bits_in h) t') (keys : (q : Ptr) → key_of (h2 q) ≡ key_of (h q)) where
  abbrev h3 : Heap
  h3 = write h2 x none

  elsewhere : (a : Ptr) → a ≢ x → h3 a ≡ h2 a
  elsewhere a ne = ground (arith, write_lem h2 x none a)

  keys3 : (q : Ptr) → q ≢ x → key_of (h3 q) ≡ key_of (h q)
  keys3 q ne = ap key_of (elsewhere q ne) ∙ keys q

  once3 : (q : Ptr) → inner t' q + one_if (root == q) ≤ 1
  once3 q = omega (arith, fewer_in q, s.once q)

  leaf_once : (q : Ptr) → leaves t q ≤ 1
  leaf_once q = omega (arith, s.two_links q, s.once q)

  x_one : one_if (x == x) ≡ 1
  x_one = ground arith

  leaf_ne : (q : Ptr) → 0 < leaves t' q → q ≢ x
  leaf_ne q m e = absurd (omega (arith, ap (leaves t') e, fewer x, leaf_once x, x_one))

  inner_ne : (q : Ptr) → 0 < inner t' q → q ≢ x
  inner_ne q m e = absurd (omega (arith, ap (inner t') e, fewer_in x, s.once x, x_one))

  root3 : h3 root ≡ some (set_child s.anchor false (addr t'))
  root3 = elsewhere root (λ e. away (sym e)) ∙ top

  short3 : (q : Ptr) (n : Node) → 0 < leaves t' q → h3 q ≡ some n → n.key.nbit < 2 ^ 16 - 1
  short3 q n m e =
      let o = key_of-some (h q) n (sym (keys3 q (leaf_ne q m)) ∙ ap key_of e) in
      rw (← o.2) (s.short q o.0 (omega (arith, fewer q)) o.1)

  pub removed_lem : Removed h root t x (write h2 x none)
  removed_lem = record {
    trie = t';
    valid = record {
      anchor = set_child s.anchor false (addr t');
      at_root = root3;
      top = refl;
      self = s.self;
      start = s.start;
      empty_key = s.empty_key;
      rep =
          Down-Rep h3 0 (λ q. q ≡ root) t'
            (λ q e. (
              record { bpos = s.anchor.bpos; key = s.anchor.key },
              rw e (ap label_of root3),
              omega (arith, s.start),
            ))
            up (Down-frame h2 h3 0 t' (λ a i. elsewhere a (inner_ne a i)) down);
      sorted =
          Sorted-ext (bits_in h) (bits_in h3) t'
            (λ q i m. bits_of_key (h3 q) (h q) i (keys3 q (leaf_ne q m))) sorted;
      up = up;
      two_links = λ q. omega (arith, fewer q, fewer_in q, s.two_links q);
      once = once3;
      no_null = null_here;
      short = short3;
    };
    members = fewer;
    gone = ground (arith, write_lem h2 x none x);
    others = keys3;
  }
    where
      null_here : h3 null ≡ none
      null_here = elim (Bool-cases (null == x)) [
        | inl here ↦ rw (write_lem h2 x none null, here) refl
        | inr other ↦
            key_of-none (h3 null) (keys3 null (λ e. absurd (ground arith)) ∙ ap key_of s.no_null)
      ]
