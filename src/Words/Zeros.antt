-- ===== src/Words/Zeros.antt =====
-- `patricia_clz` counts the zeros above the topmost one of a word.
use mathlib.Core.Bool.{true≢false, ◌||◌}
use native.Mathlib.Nat.{
  div-div-eq-div-mul, mul-div_cancel, one-le-pow, mul_assoc, mul-mod_left, mod-eq_of_lt,
  div-eq_of_lt, div-lt_iff_lt-mul,
}
use patricia_c.Base.Table.{holds_to, holds_at}
use patricia_c.Base.{
  ℕ, zero, suc, ◌+◌, ◌-◌, ◌*◌, ◌/◌, ◌%◌, ◌^◌, ◌≤◌, ◌<◌, ◌≡◌, ◌≢◌, refl, sym, ◌∙◌, ap, arith,
  bit_and, bit_xor, true, false, ltb, ◌==◌, Bool-cases, inl, inr, ==_iff,
}
use patricia_c.Bits.{bit_and-zero, bit_and_mask, zero-bit_and}
use patricia_c.Bits.Bytes.{pow-add}
use patricia_c.Bits.Fields.{bit_and_shift, bit_and_low}
use patricia_c.Words.{clz_loop, patricia_clz}

-- `&` on an upper and a lower part.
and_parts :
    (e x y : ℕ)
    → bit_and x y ≡ bit_and (x / 2 ^ e) (y / 2 ^ e) * 2 ^ e + bit_and (x % 2 ^ e) (y % 2 ^ e)
and_parts e x y =
    omega
      (arith, ap (λ (t : ℕ). t * 2 ^ e) (bit_and_shift e x y), bit_and_low e x y, one-le-pow e 2)

-- The state of the loop: below `n` zeros the word goes on with the block `u` of `b` bits, which is
-- not zero, and `v` is that block in its place with nothing under it.
record IsBlock (word b n v : ℕ) : Type 0 where
  u : ℕ
  shape : v ≡ u * 2 ^ (64 - n - b)
  pos : 0 < u
  fits : u < 2 ^ b
  inside : n + b ≤ 64
  row : ℕ
  aligned : n ≡ row * b
  top : word / 2 ^ (64 - n - b) ≡ u

-- A mask that selects the upper half of every block of `b` bits, `s` being the half.
Selects : ℕ → ℕ → ℕ → Type 0
Selects b s m = (j : ℕ) → j * b + b ≤ 64 → m / 2 ^ (64 - j * b - b) % 2 ^ b ≡ (2 ^ s - 1) * 2 ^ s

square : (s : ℕ) → 2 ^ (s + s) ≡ 2 ^ s * 2 ^ s
square s = pow-add s s

quotient-lt : (s u : ℕ) → u < 2 ^ (s + s) → u / 2 ^ s < 2 ^ s
quotient-lt s u h =
    (div-lt_iff_lt-mul {k = 2 ^ s} {x = u} {y = 2 ^ s} (one-le-pow s 2 (omega arith))).1
      (rw (← square s) h)

upper_half : (s u : ℕ) → u < 2 ^ (s + s) → bit_and u ((2 ^ s - 1) * 2 ^ s) ≡ u / 2 ^ s * 2 ^ s
upper_half s u h =
    let e : (2 ^ s - 1) * 2 ^ s / 2 ^ s ≡ 2 ^ s - 1 =
      mul-div_cancel (2 ^ s - 1) (one-le-pow s 2 (omega arith)) in
    let f : (2 ^ s - 1) * 2 ^ s % 2 ^ s ≡ 0 = mul-mod_left (2 ^ s - 1) (2 ^ s) in
    and_parts s u ((2 ^ s - 1) * 2 ^ s)
    ∙ rw (e, f, bit_and-zero, bit_and_mask s (u / 2 ^ s), mod-eq_of_lt (quotient-lt s u h))
        (omega arith)

-- Only the digits that the block has matter.
and_block : (b u m : ℕ) → u < 2 ^ b → bit_and u m ≡ bit_and u (m % 2 ^ b)
and_block b u m h =
    and_parts b u m ∙ rw (div-eq_of_lt h, zero-bit_and, mod-eq_of_lt h) (omega arith)

-- The mask keeps the upper half of the block.
masked :
    (s m n u j : ℕ)
    → Selects (s + s) s m
    → n + (s + s) ≤ 64
    → n ≡ j * (s + s)
    → u < 2 ^ (s + s)
    → bit_and (u * 2 ^ (64 - n - (s + s))) m ≡ u / 2 ^ s * 2 ^ s * 2 ^ (64 - n - (s + s))
unfolding Selects
masked s m n u j sel h a f =
    let e : ℕ = 64 - n - (s + s) in
    let p : u * 2 ^ e / 2 ^ e ≡ u = mul-div_cancel u (one-le-pow e 2 (omega arith)) in
    let q : u * 2 ^ e % 2 ^ e ≡ 0 = mul-mod_left u (2 ^ e) in
    let chosen : m / 2 ^ e % 2 ^ (s + s) ≡ (2 ^ s - 1) * 2 ^ s = rw a (sel j (omega arith)) in
    and_parts e (u * 2 ^ e) m
    ∙ rw (p, q, zero-bit_and, and_block (s + s) u (m / 2 ^ e) f, chosen, upper_half s u f)
        (omega arith)

module _ (word s n v m : ℕ) (sel : Selects (s + s) s m) (block : IsBlock word (s + s) n v) where
  kept : bit_and v m ≡ block.u / 2 ^ s * 2 ^ s * 2 ^ (64 - n - (s + s))
  kept = rw block.shape (masked s m n block.u block.row sel block.inside block.aligned block.fits)

  -- An empty upper half is skipped.
  skip_half : bit_and v m ≡ 0 → IsBlock word s (n + s) v
  skip_half z =
      let e : 64 - (n + s) - s ≡ 64 - n - (s + s) = omega arith in
      record {
        u = block.u;
        shape = rw e block.shape;
        pos = block.pos;
        fits = lower (block.u / 2 ^ s) refl;
        inside = omega (arith, block.inside);
        row = block.row + block.row + 1;
        aligned = omega (arith, block.aligned);
        top = rw e block.top;
      }
    where
      lower : (t : ℕ) → block.u / 2 ^ s ≡ t → block.u < 2 ^ s
      lower zero e = omega (arith, ap (λ (x : ℕ). 2 ^ s * x) e, one-le-pow s 2)
      lower (suc t) e = absurd (
          product_pos (2 ^ s) (2 ^ (64 - n - (s + s))) t (one-le-pow s 2 (omega arith))
            (one-le-pow (64 - n - (s + s)) 2 (omega arith)) (sym z ∙ kept ∙ rw e))
        where
          product_pos : (a b t : ℕ) → 0 < a → 0 < b → 0 ≢ suc t * a * b
          product_pos a b t ha hb e = grind arith

  -- Otherwise the block shrinks to its upper half.
  keep_half : bit_and v m ≢ 0 → IsBlock word s n (bit_and v m)
  keep_half ne =
      let e : 64 - n - s ≡ s + (64 - n - (s + s)) = omega (arith, block.inside) in
      record {
        u = block.u / 2 ^ s;
        shape =
            rw (e, pow-add s (64 - n - (s + s)))
              (kept ∙ mul_assoc (block.u / 2 ^ s) (2 ^ s) (2 ^ (64 - n - (s + s))));
        pos = upper (block.u / 2 ^ s) refl;
        fits = quotient-lt s block.u block.fits;
        inside = omega (arith, block.inside);
        row = block.row + block.row;
        aligned = omega (arith, block.aligned);
        top =
            let f : 64 - n - s ≡ 64 - n - (s + s) + s = omega (arith, block.inside) in
            rw (f, pow-add (64 - n - (s + s)) s)
              (sym (div-div-eq-div-mul word (2 ^ (64 - n - (s + s))) (2 ^ s))
                ∙ ap (λ (t : ℕ). t / 2 ^ s) block.top);
      }
    where
      upper : (t : ℕ) → block.u / 2 ^ s ≡ t → 0 < block.u / 2 ^ s
      upper zero e = absurd (ne (kept ∙ rw e (omega arith)))
      upper (suc t) e = omega (arith, e)

-- `r` zeros stand above the topmost one.
abbrev pub Counts : ℕ → ℕ → Type 0
Counts word r = (r < 64) × (word / 2 ^ (63 - r) ≡ 1)

-- One round of the loop halves the block.
clz_round :
    (word s n v m mask fuel : ℕ)
    → 0 < s
    → Selects (s + s) s m
    → bit_xor mask (mask / 2 ^ s) ≡ m
    → IsBlock word (s + s) n v
    → ((n' v' : ℕ) → IsBlock word s n' v' → Counts word (clz_loop fuel m s n' v'))
    → Counts word (clz_loop (suc fuel) mask (s + s) n v)
unfolding clz_loop
clz_round word s n v m mask fuel pos sel em block rest =
    let half : (s + s + 1) / 2 ≡ s = omega arith in
    let other : s + s - s ≡ s = omega arith in
    let more : (s + s == 0) ≡ false = ground arith in
    rw (half, em, other, more)
      (elim (Bool-cases (bit_and v m == 0)) [
        | inl empty ↦
            rw empty (rest (n + s) v (skip_half word s n v m sel block ((==_iff _ _).0 empty)))
        | inr some_one ↦ rw some_one (
            rest n (bit_and v m) (
              keep_half word s n v m sel block
                (λ e. true≢false (sym ((==_iff _ _).1 e) ∙ some_one))))
      ])

-- With a block of one bit the count is reached; one more round leaves it.
clz_last :
    (word n v fuel : ℕ)
    → IsBlock word 1 n v
    → Counts word (clz_loop (suc (suc fuel)) 0xaaaaaaaaaaaaaaaa 1 n v)
unfolding clz_loop
clz_last word n v fuel block =
    let one : block.u ≡ 1 = omega (arith, block.fits, block.pos) in
    let e : 64 - n - 1 ≡ 63 - n = omega arith in
    let shape : v ≡ 2 ^ (63 - n) = block.shape ∙ rw (one, e) (omega arith) in
    let low : 2 ^ (63 - n + (n + 1)) ≡ 2 ^ (63 - n) * 2 ^ (n + 1) = pow-add (63 - n) (n + 1) in
    let small : v < 2 ^ 64 =
      let f : 63 - n + (n + 1) ≡ 64 = omega (arith, block.inside) in
      small_pow v (2 ^ (63 - n)) (2 ^ (n + 1)) shape (sym low ∙ ap (λ (t : ℕ). 2 ^ t) f)
        (one-le-pow (63 - n) 2 (omega arith)) (two-le n) in
    let seen : (bit_and v (2 ^ 64 - 1) == 0) ≡ false =
      ground (arith, bit_and_mask 64 v, shape, one-le-pow (63 - n) 2) in
    rw seen (omega (arith, block.inside), ap (λ (t : ℕ). word / 2 ^ t) (sym e) ∙ block.top ∙ one)
  where
    two-le : (n : ℕ) → 2 ≤ 2 ^ (n + 1)
    two-le n = omega (arith, pow-add n 1, one-le-pow n 2)

    small_pow : (v p q : ℕ) → v ≡ p → p * q ≡ 2 ^ 64 → 0 < p → 2 ≤ q → v < 2 ^ 64
    small_pow v p q e f hp hq = grind arith

Selects-known :
    (b s m : ℕ)
    → 0 < b
    → holds_to
        (λ j. ltb 64 (j * b + b) || (m / 2 ^ (64 - j * b - b) % 2 ^ b == (2 ^ s - 1) * 2 ^ s))
        64
      ≡ true
    → Selects b s m
unfolding Selects
Selects-known b s m pos e j h =
    let f = holds_at _ 64 j e (bounded j b pos h) in
    let g : ltb 64 (j * b + b) ≡ false = ground arith in (==_iff _ _).0 (rw g at f)
  where
    bounded : (j b : ℕ) → 0 < b → j * b + b ≤ 64 → j < 64
    bounded j b pos h = grind arith

whole_word : (v : ℕ) → 0 < v → v < 2 ^ 64 → IsBlock v 64 0 v
whole_word v pos h = record {
  u = v;
  shape = omega arith;
  pos = pos;
  fits = h;
  inside = omega arith;
  row = 0;
  aligned = refl;
  top = omega arith;
}

-- For a 64-bit word that is not zero the portable count of leading zeros is below 64, and the word
-- shifted right by 63 less the count is 1.
pub patricia_clz_top : (v : ℕ) → 0 < v → v < 2 ^ 64 → Counts v (patricia_clz v)
unfolding patricia_clz
patricia_clz_top v pos h =
    clz_round v 32 0 v 0xffffffff00000000 (2 ^ 64 - 1) 63 (omega arith)
      (Selects-known 64 32 _ (omega arith) (unfold holds_to in refl)) refl (whole_word v pos h)
      λ n1 v1 b1.
        clz_round v 16 n1 v1 0xffff0000ffff0000 0xffffffff00000000 62 (omega arith)
          (Selects-known 32 16 _ (omega arith) (unfold holds_to in refl)) refl b1
          λ n2 v2 b2.
            clz_round v 8 n2 v2 0xff00ff00ff00ff00 0xffff0000ffff0000 61 (omega arith)
              (Selects-known 16 8 _ (omega arith) (unfold holds_to in refl)) refl b2
              λ n3 v3 b3.
                clz_round v 4 n3 v3 0xf0f0f0f0f0f0f0f0 0xff00ff00ff00ff00 60 (omega arith)
                  (Selects-known 8 4 _ (omega arith) (unfold holds_to in refl)) refl b3
                  λ n4 v4 b4.
                    clz_round v 2 n4 v4 0xcccccccccccccccc 0xf0f0f0f0f0f0f0f0 59 (omega arith)
                      (Selects-known 4 2 _ (omega arith) (unfold holds_to in refl)) refl b4
                      λ n5 v5 b5.
                        clz_round v 1 n5 v5 0xaaaaaaaaaaaaaaaa 0xcccccccccccccccc 58 (omega arith)
                          (Selects-known 2 1 _ (omega arith) (unfold holds_to in refl)) refl b5
                          λ n6 v6 b6. clz_last v n6 v6 56 b6
