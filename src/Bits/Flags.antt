-- ===== src/Bits/Flags.antt =====
-- Single flags of a word under `|` and `&`.
use xcb_util.Prelude.{ℕ, zero, suc, ◌/◌, ◌%◌, ◌≡◌, Bool, ◌&&◌, ◌||◌, ◌==◌, bit_and, bit_or, arith}
use mathlib.Core.Path.{fun_ext}
use xcb_util.Bits.{bit_and_step, bit_or_step}

-- Is digit `i` of `n` set?
unfoldable pub has : ℕ → ℕ → Bool
has n zero = n % 2 == 1
has n (suc i) = has (n / 2) i

pub has-bit_or : (a b i : ℕ) → has (bit_or a b) i ≡ (has b i || has a i)
unfolding has
has-bit_or a b zero = ground (arith, bit_or_step a b)
has-bit_or a b (suc i) =
    let half : bit_or a b / 2 ≡ bit_or (a / 2) (b / 2) = omega (arith, bit_or_step a b) in
    rw half (has-bit_or (a / 2) (b / 2) i)

pub has-bit_and : (a b i : ℕ) → has (bit_and a b) i ≡ (has b i && has a i)
unfolding has
has-bit_and a b zero = ground (arith, bit_and_step a b)
has-bit_and a b (suc i) =
    let half : bit_and a b / 2 ≡ bit_and (a / 2) (b / 2) = omega (arith, bit_and_step a b) in
    rw half (has-bit_and (a / 2) (b / 2) i)

-- All flags at once, the constant's digits first: where it is a literal they compute.
pub has_or : (a b : ℕ) → has (bit_or a b) ≡ (λ i. has b i || has a i)
has_or a b = fun_ext (has-bit_or a b)

pub has_and : (a b : ℕ) → has (bit_and a b) ≡ (λ i. has b i && has a i)
has_and a b = fun_ext (has-bit_and a b)

-- `(a & b) | c`
pub has_and_or : (a b c : ℕ) → has (bit_or (bit_and a b) c) ≡ (λ i. has c i || (has b i && has a i))
has_and_or a b c = rw (has_or, has_and)
