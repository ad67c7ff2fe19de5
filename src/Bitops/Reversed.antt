-- ===== src/Bitops/Reversed.antt =====
-- The specification of `xcb_bit_reverse`: the lowest digits of a number in reverse order.
use native.Mathlib.Nat.{
  pow-suc, one-le-pow, mod-lt, div-add-mod', mul-add-div_right, div-eq_of_lt, add-zero,
}
use xcb_util.Prelude.{ℕ, zero, suc, ◌+◌, ◌*◌, ◌/◌, ◌%◌, ◌^◌, ◌≤◌, ◌<◌, ◌≡◌, sym, ◌∙◌, arith}
use xcb_util.Bits.{mul-pow-suc, two-pow-add}

-- The `n` lowest digits of `x`, the lowest first.
unfoldable pub reversed : ℕ → ℕ → ℕ
reversed zero x = 0
reversed (suc n) x = x % 2 * 2 ^ n + reversed n (x / 2)

reversed-lt : (n x : ℕ) → reversed n x < 2 ^ n
unfolding reversed
reversed-lt zero x = omega arith
reversed-lt (suc n) x =
    let carry : x % 2 * 2 ^ n ≤ 2 ^ n = grind arith in
    omega (arith, pow-suc 2 n, reversed-lt n (x / 2))

pub reversed-halves :
    (n m q r : ℕ)
    → r < 2 ^ n
    → reversed (n + m) (q * 2 ^ n + r) ≡ reversed n r * 2 ^ m + reversed m q
unfolding reversed
reversed-halves zero m q r h = ground arith
reversed-halves (suc n) m q r h =
    let s : suc n + m ≡ suc (n + m) = omega arith in
    let half : (q * 2 ^ suc n + r) / 2 ≡ q * 2 ^ n + r / 2 = omega (arith, mul-pow-suc q n) in
    let low : (q * 2 ^ suc n + r) % 2 ≡ r % 2 = omega (arith, mul-pow-suc q n) in
    rw (s, half, low, two-pow-add n m)
      (omega (arith, reversed-halves n m q (r / 2) (omega (arith, pow-suc 2 n))))

reversed-mod : (n x : ℕ) → reversed n (x % 2 ^ n) ≡ reversed n x
unfolding reversed
reversed-mod n x =
    let fits : x % 2 ^ n < 2 ^ n = mod-lt x (one-le-pow n 2 (omega arith)) in
    let h = reversed-halves n 0 (x / 2 ^ n) (x % 2 ^ n) fits in
    sym (rw (div-add-mod' x (2 ^ n), add-zero n) at h ∙ omega arith)

-- Shifting the reversal of all digits leaves the reversal of the lowest ones.
pub reversed-shift : (n m x : ℕ) → reversed (n + m) x / 2 ^ m ≡ reversed n x
reversed-shift n m x =
    let pos : 0 < 2 ^ m = one-le-pow m 2 (omega arith) in
    let fits : x % 2 ^ n < 2 ^ n = mod-lt x (one-le-pow n 2 (omega arith)) in
    let h = reversed-halves n m (x / 2 ^ n) (x % 2 ^ n) fits in
    let e = rw div-add-mod' at h in
    rw (e, mul-add-div_right pos, div-eq_of_lt (reversed-lt m (x / 2 ^ n)), add-zero)
      (reversed-mod n x)
