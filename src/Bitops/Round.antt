-- ===== src/Bitops/Round.antt =====
-- `xcb_mask` and the rounding functions: with a power of two, `& -pad` drops the remainder.
use native.Mathlib.Nat.{
  pow-suc, mul-suc, mul_comm, one-le-pow, mod-lt, mod-eq_of_lt, mod-le, mul-mod_left, div-add-mod',
  div-lt_iff_lt-mul, pow-le-pow_right,
}
use xcb_util.Prelude.{
  ℕ, zero, suc, ◌+◌, ◌-◌, ◌*◌, ◌/◌, ◌%◌, ◌^◌, ◌≤◌, ◌<◌, ◌≡◌, refl, ap, sym, ◌⊎◌, inl, inr, arith,
  bit_and, Bool-cases, dec_lt, ◌==◌, ==_iff, neg32, sub32, add32,
}
use xcb_util.Bits.{two-pow-add, bit_and_step, bit_and_halves, bit_and_mask, bit_and-zero}
use xcb_util.Bitops.{mask, roundup, rounddown, roundup_2, rounddown_2}

bit_and_self : (n a : ℕ) → a ≤ n → bit_and a a ≡ a
bit_and_self n zero h = refl
bit_and_self zero (suc a) h = elim h [ ]
bit_and_self (suc n) (suc a) h =
    omega (arith, bit_and_step (suc a) (suc a), bit_and_self n (suc a / 2) (omega arith))

parity : (m : ℕ) → (m % 2 ≡ 0) ⊎ (m % 2 ≡ 1)
parity m = ground arith

even_test : (p : ℕ) → 0 < p → p % 2 ≡ 0 → bit_and (p - 1) p ≡ bit_and (p / 2 - 1) (p / 2) * 2
even_test p pos even =
    let e : (p - 1) / 2 ≡ p / 2 - 1 = omega arith in ground (arith, bit_and_step (p - 1) p, e)

odd_test : (p : ℕ) → p % 2 ≡ 1 → bit_and (p - 1) p ≡ p / 2 * 2
odd_test p odd =
    let e : (p - 1) / 2 ≡ p / 2 = omega arith in
    ground (arith, bit_and_step (p - 1) p, bit_and_self (p / 2) (p / 2), e)

-- `(pad - 1) & pad` is 0 only at a power of two.
pow_of_test : (n p : ℕ) → 0 < p → p ≤ n → bit_and (p - 1) p ≡ 0 → (k : ℕ) × (p ≡ 2 ^ k)
pow_of_test zero p pos h e = absurd (omega arith)
pow_of_test (suc n) p pos h e = elim (parity p) [
  | inl even ↦
      let (k, q) =
        pow_of_test n (p / 2) (omega arith) (omega arith) (omega (arith, even_test p pos even)) in
      (suc k, omega (arith, pow-suc 2 k))
  | inr odd ↦ (0, omega (arith, odd_test p odd))
]

lt_of_pow-lt : (k n : ℕ) → 2 ^ k < 2 ^ n → k < n
lt_of_pow-lt k n h = elim (dec_lt k n) [
  | yes p ↦ p
  | no p ↦
      absurd (omega (arith, pow-le-pow_right {n = 2} (omega arith) {i = n} {j = k} (omega arith)))
]

and_multiple : (k j b : ℕ) → b < 2 ^ k * 2 ^ j → bit_and b ((2 ^ j - 1) * 2 ^ k) ≡ b - b % 2 ^ k
and_multiple k j b h =
    let pos : 0 < 2 ^ k = one-le-pow k 2 (omega arith) in
    let small : b / 2 ^ k < 2 ^ j = (div-lt_iff_lt-mul pos).1 (omega arith) in
    let halves = bit_and_halves k (b / 2 ^ k) (b % 2 ^ k) (2 ^ j - 1) 0 (mod-lt b pos) pos in
    ground (
      arith,
      halves,
      div-add-mod' b (2 ^ k),
      bit_and_mask j (b / 2 ^ k),
      mod-eq_of_lt small,
      bit_and-zero (b % 2 ^ k),
    )

neg-cofactor : (p q : ℕ) → 0 < p → 0 < q → p * q ≡ 2 ^ 32 → neg32 p ≡ (q - 1) * p
neg-cofactor p zero hp hq e = elim hq [ ]
neg-cofactor p (suc q) hp hq e =
    let s : suc q - 1 ≡ q = omega arith in rw s (omega (arith, mul-suc p q, mul_comm p q))

pow-lt-word : (k : ℕ) → k < 32 → 2 ^ k < 2 ^ 32
pow-lt-word k h =
    omega (arith, pow-le-pow_right {n = 2} (omega arith) {i = k} {j = 31} (omega arith))

neg32-pow : (k : ℕ) → k < 32 → neg32 (2 ^ k) ≡ (2 ^ (32 - k) - 1) * 2 ^ k
neg32-pow k hk =
    let s : 32 ≡ k + (32 - k) = omega arith in
    let e : 2 ^ 32 ≡ 2 ^ k * 2 ^ (32 - k) = rw (← two-pow-add) (ap (λ (t : ℕ). 2 ^ t) s) in
    neg-cofactor _ _ (one-le-pow k 2 (omega arith)) (one-le-pow (32 - k) 2 (omega arith)) (sym e)

-- `b & -pad` at a power of two is `b` less its remainder.
pub and_neg : (b k : ℕ) → b < 2 ^ 32 → k < 32 → bit_and b (neg32 (2 ^ k)) ≡ b - b % 2 ^ k
and_neg b k hb hk =
    let s : 32 ≡ k + (32 - k) = omega arith in
    let e : 2 ^ 32 ≡ 2 ^ k * 2 ^ (32 - k) = rw (← two-pow-add) (ap (λ (t : ℕ). 2 ^ t) s) in
    rw (neg32-pow k hk) (and_multiple k (32 - k) b (omega (arith, e)))

abbrev pub IsRoundUp : ℕ → ℕ → ℕ → Type 0
IsRoundUp base pad r = (r % pad ≡ 0) × (base ≤ r) × (r < base + pad)

abbrev pub IsRoundDown : ℕ → ℕ → ℕ → Type 0
IsRoundDown base pad r = (r % pad ≡ 0) × (r ≤ base) × (base < r + pad)

less_remainder : (b pad : ℕ) → 0 < pad → IsRoundDown b pad (b - b % pad)
less_remainder b pad pos =
    let q : b - b % pad ≡ b / pad * pad = omega (arith, div-add-mod' b pad) in
    (rw q (mul-mod_left (b / pad) pad), omega arith, omega (arith, mod-lt b pos))

-- Both branches of the test drop the remainder.
and_neg_of_test :
    (b pad : ℕ)
    → b < 2 ^ 32
    → 0 < pad
    → pad < 2 ^ 32
    → bit_and (sub32 pad 1) pad ≡ 0
    → bit_and b (neg32 pad) ≡ b - b % pad
and_neg_of_test b pad hb pos hp e =
    let d : sub32 pad 1 ≡ pad - 1 = omega arith in
    let (k, q) = pow_of_test pad pad pos (omega arith) (rw d at e) in
    rw q (and_neg b k hb (lt_of_pow-lt k 32 (omega arith)))

pub rounddown_lem :
    (base pad : ℕ) → base < 2 ^ 32 → 0 < pad → pad < 2 ^ 32 → rounddown base pad ≡ base - base % pad
unfolding rounddown
rounddown_lem base pad hb pos hp = elim (Bool-cases (bit_and (sub32 pad 1) pad == 0)) [
  | inl e ↦ rw e (and_neg_of_test base pad hb pos hp ((==_iff _ 0).0 e))
  | inr e ↦ rw e (omega (arith, mod-le base pad))
]

pub roundup_lem :
    (base pad : ℕ)
    → 0 < pad
    → pad < 2 ^ 32
    → base + pad ≤ 2 ^ 32
    → roundup base pad ≡ (base + pad - 1) - (base + pad - 1) % pad
unfolding roundup
roundup_lem base pad pos hp fits =
    let b : sub32 (add32 base pad) 1 ≡ base + pad - 1 = omega arith in
    rw b (elim (Bool-cases (bit_and (sub32 pad 1) pad == 0)) [
      | inl e ↦ rw e (and_neg_of_test (base + pad - 1) pad (omega arith) pos hp ((==_iff _ 0).0 e))
      | inr e ↦ rw e (omega (arith, mod-le (base + pad - 1) pad))
    ])

-- `xcb_roundup` returns the least multiple of `pad` that is at least `base`, for every non-zero
-- `pad`, a power of two or not, as long as `base + pad - 1` fits in 32 bits.
pub roundup-IsRoundUp :
    (base pad : ℕ)
    → 0 < pad
    → pad < 2 ^ 32
    → base + pad ≤ 2 ^ 32
    → IsRoundUp base pad (roundup base pad)
roundup-IsRoundUp base pad pos hp fits =
    let l = less_remainder (base + pad - 1) pad pos in
    rw (roundup_lem base pad pos hp fits) (l.0, omega (arith, l), omega (arith, l))

-- `xcb_rounddown` returns the greatest multiple of `pad` that is at most `base`, for every
-- non-zero `pad`.
rounddown-IsRoundDown :
    (base pad : ℕ)
    → base < 2 ^ 32
    → 0 < pad
    → pad < 2 ^ 32
    → IsRoundDown base pad (rounddown base pad)
rounddown-IsRoundDown base pad hb pos hp =
    rw (rounddown_lem base pad hb pos hp) (less_remainder base pad pos)

-- The two functions for powers of two return what the general ones return, where `pad` is one.
round_2_agree :
    (base k : ℕ)
    → k < 32
    → base + 2 ^ k ≤ 2 ^ 32
    → (roundup_2 base (2 ^ k) ≡ roundup base (2 ^ k))
      × (rounddown_2 base (2 ^ k) ≡ rounddown base (2 ^ k))
unfolding roundup_2 rounddown_2
round_2_agree base k hk fits =
    let pos : 0 < 2 ^ k = one-le-pow k 2 (omega arith) in
    let lt : 2 ^ k < 2 ^ 32 = pow-lt-word k hk in
    let b : sub32 (add32 base (2 ^ k)) 1 ≡ base + 2 ^ k - 1 = omega arith in
    (
      rw (b, roundup_lem base (2 ^ k) pos lt fits) (and_neg (base + 2 ^ k - 1) k (omega arith) hk),
      rw (rounddown_lem base (2 ^ k) (omega arith) pos lt) (and_neg base k (omega arith) hk),
    )

mask_lem : (n : ℕ) → n ≤ 32 → mask n ≡ 2 ^ n - 1
unfolding mask
mask_lem n h = elim (Bool-cases (n == 32)) [
  | inl e ↦ rw ((==_iff n 32).0 e)
  | inr e ↦ ground (arith, pow-lt-word n, one-le-pow n 2)
]

-- `xcb_mask n` has exactly the `n` low bits set, for n up to 32: as a mask it keeps the remainder
-- of a word by 2 ^ n.
bit_and-mask : (n x : ℕ) → n ≤ 32 → bit_and x (mask n) ≡ x % 2 ^ n
bit_and-mask n x h = rw (mask_lem n h) (bit_and_mask n x)
