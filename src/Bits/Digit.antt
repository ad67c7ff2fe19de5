-- ===== src/Bits/Digit.antt =====
-- The native `bit_and`, `bit_or` and `bit_xor` by their lowest binary digit. The library defines
-- them by `digits`, whose first number bounds the digits read; more than enough changes nothing.
use Prim.Native.Nat.{digits, bitwise, differ, bit_and-bitwise, bit_or-bitwise, bit_xor-bitwise}
use native.Mathlib.Nat.{le_refl}
use xcb_util.Prelude.{
  ℕ, zero, suc, ◌+◌, ◌*◌, ◌/◌, ◌%◌, ◌≤◌, min, max, bit_and, bit_or, bit_xor, ◌≡◌, refl, sym, ◌∙◌,
  arith,
}

module _ (rest : ℕ → ℕ) (digit : ℕ → ℕ → ℕ) where
  abbrev upto : ℕ → ℕ → ℕ → ℕ
  upto = digits rest digit

  upto-zero : (n b : ℕ) → upto n 0 b ≡ rest b
  upto-zero zero b = refl
  upto-zero (suc n) b = refl

  upto_enough : (n m a b : ℕ) → a ≤ n → a ≤ m → upto n a b ≡ upto m a b
  upto_enough n m zero b p q = upto-zero n b ∙ sym (upto-zero m b)
  upto_enough zero m (suc a) b p q = elim p [ ]
  upto_enough (suc n) zero (suc a) b p q = elim q [ ]
  upto_enough (suc n) (suc m) (suc a) b p q =
      rw (upto_enough n m (suc a / 2) (b / 2) (omega arith) (omega arith))

  bitwise-suc :
      (a b : ℕ)
      → bitwise rest digit (suc a) b
        ≡ bitwise rest digit (suc a / 2) (b / 2) * 2 + digit (suc a % 2) (b % 2)
  bitwise-suc a b =
      omega (arith, upto_enough a (suc a / 2) (suc a / 2) (b / 2) (omega arith) (le_refl _))

pub bit_and_step : (x y : ℕ) → bit_and x y ≡ bit_and (x / 2) (y / 2) * 2 + min (x % 2) (y % 2)
bit_and_step zero y = simp bit_and-bitwise (omega arith)
bit_and_step (suc x) y = simp bit_and-bitwise (bitwise-suc (λ k. 0) min x y)

pub bit_or_step : (x y : ℕ) → bit_or x y ≡ bit_or (x / 2) (y / 2) * 2 + max (x % 2) (y % 2)
bit_or_step zero y = simp bit_or-bitwise (omega arith)
bit_or_step (suc x) y = simp bit_or-bitwise (bitwise-suc (λ k. k) max x y)

digit_alone : (y : ℕ) → y ≡ y / 2 * 2 + differ 0 (y % 2)
digit_alone y = omega arith

pub bit_xor_step : (x y : ℕ) → bit_xor x y ≡ bit_xor (x / 2) (y / 2) * 2 + differ (x % 2) (y % 2)
bit_xor_step zero y = simp bit_xor-bitwise (digit_alone y)
bit_xor_step (suc x) y = simp bit_xor-bitwise (bitwise-suc (λ k. k) differ x y)
