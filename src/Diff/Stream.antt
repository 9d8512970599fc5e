-- ===== src/Diff/Stream.antt =====
-- `nextbits` hands out the bits of the key's stream, 64 at a time.
use patricia_c.Base.{
  ℕ, suc, ◌+◌, ◌-◌, ◌*◌, ◌/◌, ◌%◌, ◌^◌, ◌≤◌, ◌<◌, ◌≡◌, refl, sym, ◌∙◌, arith, Bool, true, false,
  not, ◌==◌, ltb, leb, if◌then◌else◌, Bool-cases, inl, inr,
}
use patricia_c.Base.Table.{holds_to, holds_at}
use patricia_c.Key.{Mem, Key, byte_at, from_bool}
use patricia_c.Key.Stream.{raw_bit, stream, getbit-stream}
use patricia_c.Diff.{BitStream, load, flush, partial_load, nextbits, open_stream}
use patricia_c.Diff.Limb.{digit_in, load_bytes, load-lt}

-- The stream inside and behind the key, with zero-based positions.
pub stream_inside : (k : Key) (z : ℕ) → z < k.nbit → stream k (suc z) ≡ raw_bit k.mem z
unfolding stream
stream_inside k z h = let e : suc z - 1 ≡ z = omega arith in ground arith

pub stream_behind : (k : Key) (z : ℕ) → k.nbit ≤ z → stream k (suc z) ≡ not (stream k k.nbit)
unfolding stream
stream_behind k z h = ground arith

-- A bit of a limb.
abbrev pub bit_in : Bool → ℕ → ℕ → Bool
bit_in little v i = digit_in little v i == 1

pub load_bits :
    (little : Bool) (m : Mem) (i : ℕ) → i < 64 → bit_in little (load little m) i ≡ raw_bit m i
load_bits little m i h = rw (load_bytes little m (i / 8) (omega arith))

-- The two fills.
ones_bits : (little : Bool) (i : ℕ) → i < 64 → bit_in little (2 ^ 64 - 1) i ≡ true
ones_bits true i h = holds_at (bit_in true (2 ^ 64 - 1)) 64 i (unfold holds_to in refl) h
ones_bits false i h = holds_at (bit_in false (2 ^ 64 - 1)) 64 i (unfold holds_to in refl) h

zero_bits : (little : Bool) (i : ℕ) → i < 64 → bit_in little 0 i ≡ false
zero_bits true i h =
    ground (arith, holds_at (λ i. not (bit_in true 0 i)) 64 i (unfold holds_to in refl) h)
zero_bits false i h =
    ground (arith, holds_at (λ i. not (bit_in false 0 i)) 64 i (unfold holds_to in refl) h)

-- The bits of a byte after the flush, checked at every byte, width and bit.
abbrev flush_test : Bool → ℕ → ℕ → ℕ → Bool
flush_test last e x t =
    let old = x / 2 ^ (7 - t) % 2 == 1 in
    let new = flush last e x % 2 ^ 8 / 2 ^ (7 - t) % 2 == 1 in
    if (if ltb t e then old else not last) then new else not new

flush_table :
    (last : Bool) → holds_to (λ e. holds_to (λ x. holds_to (flush_test last e x) 8) 256) 8 ≡ true
unfolding holds_to flush
flush_table true = refl
flush_table false = refl

flush_bits :
    (last : Bool) (e x t : ℕ)
    → e < 8
    → x < 256
    → t < 8
    → (flush last e x % 2 ^ 8 / 2 ^ (7 - t) % 2 == 1)
      ≡ (if ltb t e then x / 2 ^ (7 - t) % 2 == 1 else not last)
flush_bits last e x t he hx ht = ground (
  arith,
  holds_at (flush_test last e x) 8 t
      (holds_at (λ x. holds_to (flush_test last e x) 8) 256 x
        (holds_at (λ e. holds_to (λ x. holds_to (flush_test last e x) 8) 256) 8 e (flush_table last)
          he)
        hx)
      ht,
)

-- The array of a partial load, case by case.
partial_flushed :
    (bs : BitStream) (j : ℕ)
    → 0 < bs.bits % 8
    → j ≡ bs.bits / 8
    → partial_load bs j ≡ flush bs.last (bs.bits % 8) (byte_at bs.ptr j)
unfolding partial_load
partial_flushed bs j h e =
    let here : (j == (bs.bits + 8 - 1) / 8 - 1) ≡ true = ground arith in
    let left : (bs.bits % 8 == 0) ≡ false = ground arith in
    let below : ltb j ((bs.bits + 8 - 1) / 8) ≡ true = ground arith in rw (left, here, below)

partial_copied :
    (bs : BitStream) (j : ℕ) → 8 * j + 8 ≤ bs.bits → partial_load bs j ≡ byte_at bs.ptr j
unfolding partial_load
partial_copied bs j h =
    let below : ltb j ((bs.bits + 8 - 1) / 8) ≡ true = ground arith in
    elim (Bool-cases (bs.bits % 8 == 0)) [
      | inl whole ↦ rw (whole, below)
      | inr left ↦
          let here : (j == (bs.bits + 8 - 1) / 8 - 1) ≡ false = ground arith in
          rw (left, here, below)
    ]

partial_filled :
    (bs : BitStream) (j : ℕ)
    → bs.bits ≤ 8 * j
    → 0 < bs.bits
    → partial_load bs j ≡ (if bs.last then 0 else 255)
unfolding partial_load
partial_filled bs j h p =
    let below : ltb j ((bs.bits + 8 - 1) / 8) ≡ false = ground arith in
    let here : (j == (bs.bits + 8 - 1) / 8 - 1) ≡ false = ground arith in
    elim (Bool-cases (bs.bits % 8 == 0)) [
      | inl whole ↦ rw (whole, below) (ground arith)
      | inr left ↦ rw (left, here, below) (ground arith)
    ]

fill_bit :
    (last : Bool) (t : ℕ)
    → t < 8
    → ((if last then 0 else 255) % 2 ^ 8 / 2 ^ (7 - t) % 2 == 1) ≡ not last
fill_bit true t h =
    ground (arith, holds_at (λ t. not (0 / 2 ^ (7 - t) % 2 == 1)) 8 t (unfold holds_to in refl) h)
fill_bit false t h = holds_at (λ t. 255 / 2 ^ (7 - t) % 2 == 1) 8 t (unfold holds_to in refl) h

-- A partial load has the bits that are left, and the complement of the last bit behind them.
partial_bits :
    (bs : BitStream) (i : ℕ)
    → 0 < bs.bits
    → raw_bit (partial_load bs) i ≡ (if ltb i bs.bits then raw_bit bs.ptr i else not bs.last)
partial_bits bs i hp = elim (Bool-cases (ltb i (8 * (bs.bits / 8)))) [
  | inl whole ↦
      let inside : ltb i bs.bits ≡ true = ground arith in
      rw (inside, partial_copied bs (i / 8) (ground arith)) (ground arith)
  | inr rest ↦ elim (Bool-cases (ltb i (8 * ((bs.bits + 7) / 8)))) [
    | inl part ↦
        let same : ltb (i % 8) (bs.bits % 8) ≡ ltb i bs.bits = ground arith in
        rw (
          partial_flushed bs (i / 8) (ground arith) (ground arith),
          flush_bits bs.last (bs.bits % 8) (byte_at bs.ptr (i / 8)) (i % 8) (omega arith)
              (omega arith) (omega arith),
          same,
        )
    | inr behind ↦
        let outside : ltb i bs.bits ≡ false = ground arith in
        rw (outside, partial_filled bs (i / 8) (ground arith) hp)
          (fill_bit bs.last (i % 8) (omega arith))
  ]
]

-- The stream `bs` stands at offset `o` of the key.
pub record IsAt (k : Key) (o : ℕ) (bs : BitStream) : Type 0 where
  pub left : bs.bits ≡ k.nbit - o
  pub last : bs.last ≡ stream k k.nbit
  pub here : 0 < bs.bits → (j : ℕ) → bs.ptr j ≡ k.mem (o / 8 + j)

pub open_stream-IsAt : (k : Key) → k.nbit < 2 ^ 16 → IsAt k 0 (open_stream k)
open_stream-IsAt k h = record {
  left = omega arith;
  last = getbit-stream k k.nbit h h;
  here = λ p j. let e : 0 / 8 + j ≡ j = omega arith in rw e;
}

-- What a limb that stands for the bits behind offset `o` says.
pub record IsLimb (little : Bool) (k : Key) (o v : ℕ) : Type 0 where
  pub fits : v < 2 ^ 64
  pub bits : (i : ℕ) → i < 64 → bit_in little v i ≡ stream k (suc (o + i))

module _ (little : Bool) (k : Key) (o : ℕ) (bs : BitStream) (at : IsAt k o bs)
    (whole : o % 64 ≡ 0) where
  ptr_bit : 0 < bs.bits → (i : ℕ) → raw_bit bs.ptr i ≡ raw_bit k.mem (o + i)
  ptr_bit p i =
      let e : (o + i) / 8 ≡ o / 8 + i / 8 = omega arith in
      let f : (o + i) % 8 ≡ i % 8 = omega arith in rw (e, f, at.here p (i / 8))

  full-IsLimb : 64 ≤ bs.bits → IsLimb little k o (load little bs.ptr)
  full-IsLimb h = record {
    fits = load-lt little bs.ptr;
    bits = λ i l.
        load_bits little bs.ptr i l
        ∙ ptr_bit (omega arith) i
        ∙ sym (stream_inside k (o + i) (omega (arith, at.left)));
  }

  partial-IsLimb : 0 < bs.bits → bs.bits < 64 → IsLimb little k o (load little (partial_load bs))
  partial-IsLimb p h = record {
    fits = load-lt little (partial_load bs);
    bits = λ i l.
        load_bits little (partial_load bs) i l
        ∙ partial_bits bs i p
        ∙ ground (
          arith,
          ptr_bit p i,
          at.left,
          at.last,
          stream_inside k (o + i),
          stream_behind k (o + i),
        );
  }

  fill-IsLimb : bs.bits ≡ 0 → IsLimb little k o ((from_bool bs.last + 2 ^ 64 - 1) % 2 ^ 64)
  fill-IsLimb z = record {
    fits = omega arith;
    bits = λ i l. elim (Bool-cases bs.last) [
      | inl set ↦ rw set (
          zero_bits little i l
          ∙ sym (stream_behind k (o + i) (omega (arith, at.left)) ∙ ground (arith, at.last)))
      | inr clear ↦ rw clear (
          ones_bits little i l
          ∙ sym (stream_behind k (o + i) (omega (arith, at.left)) ∙ ground (arith, at.last)))
    ];
  }

  -- `nextbits` yields the limb at the offset and moves on by one limb.
  pub nextbits_lem :
      IsLimb little k o (nextbits little bs).0 × IsAt k (o + 64) (nextbits little bs).1
  unfolding nextbits
  nextbits_lem = elim (Bool-cases (leb 64 bs.bits)) [
    | inl full ↦ rw full (
      full-IsLimb (ground arith),
      record {
        left = omega (arith, at.left);
        last = at.last;
        here = λ p j.
            let e : (o + 64) / 8 + j ≡ o / 8 + (8 + j) = omega arith in
            rw e (at.here (omega arith) (8 + j));
      },
    )
    | inr short ↦ elim (Bool-cases (bs.bits == 0)) [
      | inl empty ↦
          rw (short, empty)
            (
              fill-IsLimb (ground arith),
              record {
                left = ground (arith, at.left);
                last = at.last;
                here = λ p j. absurd (ground arith);
              },
            )
      | inr some_left ↦
          rw (short, some_left)
            (
              partial-IsLimb (ground arith) (ground arith),
              record { left = ground (arith, at.left); last = at.last; here = λ p j. elim p [ ] },
            )
    ]
  ]
