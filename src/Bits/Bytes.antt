-- ===== src/Bits/Bytes.antt =====
-- A word as a row of bytes, and a byte as a row of bits.
use native.Mathlib.Nat.{pow-suc, div-div-eq-div-mul, mul_assoc}
use patricia_c.Base.{ℕ, zero, suc, ◌+◌, ◌*◌, ◌/◌, ◌%◌, ◌^◌, ◌<◌, ◌≡◌, sym, ◌∙◌, ap, arith}

pub pow-add : (a b : ℕ) → 2 ^ (a + b) ≡ 2 ^ a * 2 ^ b
pow-add a zero = let e : a + 0 ≡ a = omega arith in rw e (omega arith)
pow-add a (suc b) =
    let e : a + suc b ≡ suc (a + b) = omega arith in
    rw (e, pow-suc 2 (a + b), pow-suc 2 b, pow-add a b) (mul_assoc (2 ^ a) (2 ^ b) 2)

-- The byte of weight `2 ^ (8 * j)`.
abbrev pub byte_of : ℕ → ℕ → ℕ
byte_of v j = v / 2 ^ (8 * j) % 2 ^ 8

-- A digit below the eighth is one of the lowest byte.
pub digit_of_byte : (r x : ℕ) → r < 8 → x % 2 ^ 8 / 2 ^ r % 2 ≡ x / 2 ^ r % 2
digit_of_byte zero x h = omega arith
digit_of_byte (suc zero) x h = omega arith
digit_of_byte (suc (suc zero)) x h = omega arith
digit_of_byte (suc (suc (suc zero))) x h = omega arith
digit_of_byte (suc (suc (suc (suc zero)))) x h = omega arith
digit_of_byte (suc (suc (suc (suc (suc zero))))) x h = omega arith
digit_of_byte (suc (suc (suc (suc (suc (suc zero)))))) x h = omega arith
digit_of_byte (suc (suc (suc (suc (suc (suc (suc zero))))))) x h = omega arith
digit_of_byte (suc (suc (suc (suc (suc (suc (suc (suc r)))))))) x h = absurd (omega arith)

-- A digit of a word is a digit of one of its bytes.
pub digit_of_word : (v j r : ℕ) → r < 8 → byte_of v j / 2 ^ r % 2 ≡ v / 2 ^ (8 * j + r) % 2
digit_of_word v j r h =
    digit_of_byte r (v / 2 ^ (8 * j)) h
    ∙ ap (λ (t : ℕ). t % 2)
        (div-div-eq-div-mul v (2 ^ (8 * j)) (2 ^ r)
          ∙ ap (λ (t : ℕ). v / t) (sym (pow-add (8 * j) r)))
