-- ===== src/Diff/First.antt =====
-- `patricia_bitdiff` finds the first position at which the streams of two keys differ.
use mathlib.Core.Bool.{true≢false}
use patricia_c.Base.{
  ==_iff, ℕ, zero, suc, ◌+◌, ◌-◌, ◌*◌, ◌/◌, ◌%◌, ◌^◌, ◌≤◌, ◌<◌, ◌≡◌, ◌≢◌, refl, sym, ◌∙◌, ap, arith,
  Bool, false, ◌==◌, ltb, ◌⊎◌, inl, inr, if◌then◌else◌, Bool-cases, bit_xor,
}
use native.Mathlib.Decide.{dec_lt}
use patricia_c.Bits.{bit_xor-eq-zero}
use patricia_c.Key.{Key}
use patricia_c.Key.Stream.{stream}
use patricia_c.Key.Equal.{SameKey, SameBits, stream-SameKey, stream-shorter, stream-injective}
use patricia_c.Diff.{WordOps, BitStream, clzz, nextbits, limb_loop, open_stream, bitdiff}
use patricia_c.Diff.Limb.{digit_in, mirror, first_digit}
use patricia_c.Diff.Stream.{IsAt, IsLimb, nextbits_lem, open_stream-IsAt, stream_inside}

-- The streams agree up to position `n`.
abbrev pub AgreeTo : ℕ → Key → Key → Type 0
AgreeTo n a b = (i : ℕ) → i ≤ n → stream a i ≡ stream b i

-- Position `d` is the first at which they differ.
pub record IsFirstDiff (a b : Key) (d : ℕ) : Type 0 where
  pub pos : 0 < d
  pub differ : stream a d ≢ stream b d
  pub agree : (i : ℕ) → i < d → stream a i ≡ stream b i

-- What the loop comes to, from the offset `o` on.
Outcome : Key → Key → ℕ → ℕ → ℕ → Type 0
Outcome a b end behind r =
    ((d : ℕ) × IsFirstDiff a b d × (r ≡ d % 2 ^ 16)) ⊎ (AgreeTo end a b × (r ≡ behind))

stream_zero : (a : Key) → stream a 0 ≡ false
unfolding stream
stream_zero a = refl

module _ (w : WordOps) (little : Bool) (a b : Key) where
  agree_more :
      (o x y : ℕ)
      → IsLimb little a o x
      → IsLimb little b o y
      → (c : ℕ) → c ≤ 64
      → ((i : ℕ) → i < c → digit_in little x i ≡ digit_in little y i)
      → AgreeTo o a b
      → AgreeTo (o + c) a b
  agree_more o x y la lb c hc same h i l = elim (dec_lt o i) [
    | no m ↦ h i (omega arith)
    | yes m ↦
        let e : i ≡ suc (o + (i - o - 1)) = omega arith in
        rw e (
          sym (la.bits (i - o - 1) (omega arith))
          ∙ ap (λ (t : ℕ). t == 1) (same (i - o - 1) (omega arith))
          ∙ lb.bits (i - o - 1) (omega arith))
  ]

  found :
      (o x y : ℕ)
      → IsLimb little a o x
      → IsLimb little b o y
      → AgreeTo o a b
      → bit_xor x y ≢ 0
      → IsFirstDiff a b (suc (o + clzz w (mirror w little (bit_xor x y))))
  found o x y la lb h ne =
      let c : ℕ = clzz w (mirror w little (bit_xor x y)) in
      let first = first_digit w little x y la.fits lb.fits ne in
      record {
        pos = omega arith;
        differ = λ e. first.1 (ground (arith, e, la.bits c first.0, lb.bits c first.0));
        agree = λ i l. agree_more o x y la lb c (omega (arith, first.0)) first.2 h i (omega arith);
      }

  limb_loop-Outcome :
      (words o behind : ℕ) (bs1 bs2 : BitStream)
      → o % 64 ≡ 0
      → IsAt a o bs1
      → IsAt b o bs2
      → AgreeTo o a b
      → Outcome a b
          (o + 64 * words)
          behind
          (limb_loop w little words ((o + 1) % 2 ^ 16) bs1 bs2 behind)
  unfolding limb_loop Outcome mirror
  limb_loop-Outcome zero o behind bs1 bs2 ho ha hb h = inr (λ i l. h i (omega arith), refl)
  limb_loop-Outcome (suc words) o behind bs1 bs2 ho ha hb h =
      let (la, ha') = nextbits_lem little a o bs1 ha ho in
      let (lb, hb') = nextbits_lem little b o bs2 hb ho in
      let x : ℕ = (nextbits little bs1).0 in
      let y : ℕ = (nextbits little bs2).0 in
      elim (Bool-cases (bit_xor x y == 0)) [
        | inl none_yet ↦
            let eq : x ≡ y = bit_xor-eq-zero x y ((==_iff (bit_xor x y) 0).0 none_yet) in
            let h' : AgreeTo (o + 64) a b =
              agree_more o x y la lb 64 (omega arith) (λ i l. rw eq) h in
            let e : ((o + 1) % 2 ^ 16 + 64) % 2 ^ 16 ≡ (o + 64 + 1) % 2 ^ 16 = omega arith in
            let f : o + 64 * suc words ≡ o + 64 + 64 * words = omega arith in
            rw (none_yet, e, f)
              (limb_loop-Outcome words (o + 64) behind (nextbits little bs1).1
                (nextbits little bs2).1 (omega arith) ha' hb' h')
        | inr here ↦ rw here (
            inl (
              suc (o + clzz w (mirror w little (bit_xor x y))),
              found o x y la lb h (λ e. true≢false (sym ((==_iff (bit_xor x y) 0).1 e) ∙ here)),
              omega arith,
            ))
      ]

-- The first difference of two keys is at most one behind the longer key.
pub FirstDiff-le : (a b : Key) (d : ℕ) → IsFirstDiff a b d → (d ≤ a.nbit + 1) ⊎ (d ≤ b.nbit + 1)
FirstDiff-le a b d f = elim (dec_lt (a.nbit + 1) d) [
  | no l ↦ inl (omega arith)
  | yes l ↦ elim (dec_lt (b.nbit + 1) d) [
    | no m ↦ inr (omega arith)
    | yes m ↦ absurd (
        f.differ (
          stream-SameKey a b
            (stream-injective a b (λ i t. f.agree i (omega arith)) (λ i t. f.agree i (omega arith)))
            d))
  ]
]

SameBits-of_AgreeTo :
    (a b : Key) (n : ℕ) → a.nbit ≤ n → b.nbit ≡ a.nbit → AgreeTo n a b → SameBits a.nbit a.mem b.mem
SameBits-of_AgreeTo a b n l e h z m =
    sym (stream_inside a z m) ∙ h (suc z) (omega arith) ∙ stream_inside b z (omega arith)

-- The shorter key runs on with the complement of its last bit, so if nothing differs before, the
-- position behind the longer key does.
behind_shorter :
    (a b : Key) (n : ℕ)
    → a.nbit < b.nbit
    → b.nbit ≤ n
    → AgreeTo n a b
    → IsFirstDiff a b (b.nbit + 1)
behind_shorter a b n l m h =
    let e : b.nbit + 1 ≡ suc b.nbit = omega arith in
    rw e (record {
      pos = omega arith;
      differ = stream-shorter a b l (h b.nbit m);
      agree = λ i t. h i (omega arith);
    })

FirstDiff_sym : (a b : Key) (d : ℕ) → IsFirstDiff a b d → IsFirstDiff b a d
FirstDiff_sym a b d f = record {
  pos = f.pos;
  differ = λ e. f.differ (sym e);
  agree = λ i l. sym (f.agree i l);
}

-- What is returned when the loop has found nothing.
abbrev behind_loop : Key → Key → ℕ
behind_loop a b =
    if a.nbit == b.nbit then 0 else ((if ltb a.nbit b.nbit then b.nbit else a.nbit) + 1) % 2 ^ 16

abbrev Verdict : Key → Key → ℕ → Type 0
Verdict a b r = (SameKey a b × (r ≡ 0)) ⊎ IsFirstDiff a b r

Verdict-behind :
    (a b : Key) (n : ℕ)
    → a.nbit < 2 ^ 16 - 1
    → b.nbit < 2 ^ 16 - 1
    → a.nbit ≤ n
    → b.nbit ≤ n
    → AgreeTo n a b
    → Verdict a b (behind_loop a b)
Verdict-behind a b n ha hb la lb h = elim (dec_lt a.nbit b.nbit) [
  | yes l ↦
      let e : behind_loop a b ≡ b.nbit + 1 = ground arith in
      inr (rw e (behind_shorter a b n l lb h))
  | no m ↦ elim (dec_lt b.nbit a.nbit) [
    | yes l ↦
        let e : behind_loop a b ≡ a.nbit + 1 = ground arith in
        inr (rw e (FirstDiff_sym b a _ (behind_shorter b a n l la (λ i t. sym (h i t)))))
    | no l ↦
        let e : b.nbit ≡ a.nbit = omega arith in
        inl ((sym e, SameBits-of_AgreeTo a b n la e h), ground arith)
  ]
]

Verdict-found :
    (a b : Key) (d r : ℕ)
    → a.nbit < 2 ^ 16 - 1
    → b.nbit < 2 ^ 16 - 1
    → IsFirstDiff a b d
    → r ≡ d % 2 ^ 16
    → Verdict a b r
Verdict-found a b d r ha hb f e =
    let g : r ≡ d = omega (arith, FirstDiff-le a b d f) in inr (rw g f)

-- For two keys of fewer than 65535 bits, on a target of either byte order, the difference position
-- is 0 and the keys are equal, or it is the first position at which the two infinite bit streams
-- of the keys differ.
pub bitdiff_first :
    (w : WordOps) (little : Bool) (a b : Key)
    → a.nbit < 2 ^ 16 - 1
    → b.nbit < 2 ^ 16 - 1
    → (SameKey a b × (bitdiff w little a b ≡ 0)) ⊎ IsFirstDiff a b (bitdiff w little a b)
unfolding bitdiff Outcome
bitdiff_first w little a b ha hb =
    let words : ℕ = ((if ltb a.nbit b.nbit then b.nbit else a.nbit) + 64 - 1) / 64 in
    elim (limb_loop-Outcome w little a b words 0 (behind_loop a b) (open_stream a) (open_stream b)
      (omega arith) (open_stream-IsAt a (omega arith)) (open_stream-IsAt b (omega arith))
      (λ i l. let e : i ≡ 0 = omega arith in rw e (stream_zero a ∙ sym (stream_zero b)))) [
        | inl (d, f, e) ↦ Verdict-found a b d _ ha hb f e
        | inr (h, e) ↦
            rw e (Verdict-behind a b (0 + 64 * words) ha hb (ground arith) (ground arith) h)
      ]
