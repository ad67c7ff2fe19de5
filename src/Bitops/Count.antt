-- ===== src/Bitops/Count.antt =====
-- `xcb_popcount` counts the ones of every 32-bit word. Its first three steps act on each byte by
-- itself; what they do there is read off tables.
use native.Mathlib.Nat.{pow-suc}
use xcb_util.Prelude.{
  ℕ, zero, suc, ◌+◌, ◌-◌, ◌*◌, ◌/◌, ◌%◌, ◌^◌, ◌≤◌, ◌<◌, ◌≡◌, refl, ◌∙◌, arith, bit_and, add32,
  sub32, ◌>>>◌, leb, ◌==◌, true, leb→le, sym, subst,
}
use xcb_util.Bits.{
  mul-pow-suc, bit_and_halves, bit_and_mask, bit_and-zero, all_below, all_below_sound, eq_of_table,
}
use xcb_util.Bits.Bytes.{word, IsByte, word_bytes, bit_and-word}
use xcb_util.Bitops.{popcount}

-- The number of ones among the `n` lowest binary digits.
unfoldable pub ones : ℕ → ℕ → ℕ
ones zero x = 0
ones (suc n) x = x % 2 + ones n (x / 2)

-- What the first three steps make of a byte: counts of each two, four and eight bits.
abbrev pairs : ℕ → ℕ
pairs b = b - bit_and (b / 2) 0x55

abbrev fours : ℕ → ℕ
fours b = bit_and b 0x33 + bit_and (b / 4) 0x33

abbrev eights : ℕ → ℕ
eights b = b % 16 + b / 16

-- Bits that a shift brings in from the next byte are masked off.
masked_55 : (b n : ℕ) → IsByte b → n < 2 → bit_and (b / 2 + n * 128) 0x55 ≡ bit_and (b / 2) 0x55
masked_55 b n hb hn = ground (arith, bit_and_halves 7 n (b / 2) 0 0x55, bit_and-zero n)

masked_33 : (b n : ℕ) → IsByte b → n < 4 → bit_and (b / 4 + n * 64) 0x33 ≡ bit_and (b / 4) 0x33
masked_33 b n hb hn = ground (arith, bit_and_halves 6 n (b / 4) 0 0x33, bit_and-zero n)

pairs_table : all_below 256 (λ b. leb (bit_and (b / 2) 0x55) b) ≡ true
unfolding all_below
pairs_table = refl

pairs_no_borrow : (b : ℕ) → IsByte b → bit_and (b / 2) 0x55 ≤ b
pairs_no_borrow b h = leb→le _ _ (all_below_sound 256 _ b pairs_table h)

fours_table : all_below 256 (λ b. leb (bit_and b 0x33 + bit_and (b / 4) 0x33) 0x66) ≡ true
unfolding all_below
fours_table = refl

fours-le : (b : ℕ) → IsByte b → fours b ≤ 0x66
fours-le b h = leb→le _ _ (all_below_sound 256 _ b fours_table h)

-- Three bytes of each step, in the form that the fourth step sums.
nibbles_table : all_below 256 (λ b. leb (fours (pairs b) / 16) 4) ≡ true
unfolding all_below
nibbles_table = refl

low_table : all_below 256 (λ b. leb (fours (pairs b) % 16) 4) ≡ true
unfolding all_below
low_table = refl

count_table : all_below 256 (λ b. eights (fours (pairs b)) == ones 8 b) ≡ true
unfolding all_below ones
count_table = refl

eights_lem : (b : ℕ) → IsByte b → eights (fours (pairs b)) ≡ ones 8 b
eights_lem b h = eq_of_table 256 (λ x. eights (fours (pairs x))) (ones 8) b count_table h

-- The steps on a word.
module _ (d c b a : ℕ) (hd : IsByte d) (hc : IsByte c) (hb : IsByte b) (ha : IsByte a) where
  step_pairs :
      sub32 (word d c b a) (bit_and (word d c b a >>> 1) 0x5555_5555)
      ≡ word (pairs d) (pairs c) (pairs b) (pairs a)
  step_pairs =
      let s : word d c b a >>> 1
          ≡ word (d / 2) (c / 2 + d % 2 * 128) (b / 2 + c % 2 * 128) (a / 2 + b % 2 * 128) =
        omega arith in
      rw
        (
          s,
          bit_and-word (d / 2) (c / 2 + d % 2 * 128) (b / 2 + c % 2 * 128) (a / 2 + b % 2 * 128)
              (omega arith) (omega arith) (omega arith) 0x55 0x55 0x55 0x55 (omega arith)
              (omega arith) (omega arith),
          masked_55 c (d % 2) hc (omega arith),
          masked_55 b (c % 2) hb (omega arith),
          masked_55 a (b % 2) ha (omega arith),
        )
        (omega (
          arith,
          pairs_no_borrow d hd,
          pairs_no_borrow c hc,
          pairs_no_borrow b hb,
          pairs_no_borrow a ha,
        ))

  step_fours :
      add32 (bit_and (word d c b a) 0x3333_3333) (bit_and (word d c b a >>> 2) 0x3333_3333)
      ≡ word (fours d) (fours c) (fours b) (fours a)
  step_fours =
      let s : word d c b a >>> 2
          ≡ word (d / 4) (c / 4 + d % 4 * 64) (b / 4 + c % 4 * 64) (a / 4 + b % 4 * 64) =
        omega arith in
      rw
        (
          s,
          bit_and-word d c b a hc hb ha 0x33 0x33 0x33 0x33 (omega arith) (omega arith)
              (omega arith),
          bit_and-word (d / 4) (c / 4 + d % 4 * 64) (b / 4 + c % 4 * 64) (a / 4 + b % 4 * 64)
              (omega arith) (omega arith) (omega arith) 0x33 0x33 0x33 0x33 (omega arith)
              (omega arith) (omega arith),
          masked_33 c (d % 4) hc (omega arith),
          masked_33 b (c % 4) hb (omega arith),
          masked_33 a (b % 4) ha (omega arith),
        )
        (omega (arith, fours-le d hd, fours-le c hc, fours-le b hb, fours-le a ha))

-- Each half of the byte counts at most four ones.
abbrev HasFours : ℕ → Type 0
HasFours y = (y / 16 ≤ 4) × (y % 16 ≤ 4)

fours-HasFours : (b : ℕ) → IsByte b → HasFours (fours (pairs b))
fours-HasFours b h = (
  leb→le _ _ (all_below_sound 256 _ b nibbles_table h),
  leb→le _ _ (all_below_sound 256 _ b low_table h),
)

masked_0f : (y n : ℕ) → HasFours y → n ≤ 4 → bit_and (y + y / 16 + n * 16) 0x0f ≡ eights y
masked_0f y n h hn = omega (arith, bit_and_mask 4 (y + y / 16 + n * 16))

module _ (d c b a : ℕ) (hd : HasFours d) (hc : HasFours c) (hb : HasFours b) (ha : HasFours a) where
  step_eights :
      bit_and (add32 (word d c b a) (word d c b a >>> 4)) 0x0f0f_0f0f
      ≡ word (eights d) (eights c) (eights b) (eights a)
  step_eights =
      let s : add32 (word d c b a) (word d c b a >>> 4)
          ≡ word (d + d / 16 + 0 * 16) (c + c / 16 + d % 16 * 16) (b + b / 16 + c % 16 * 16)
              (a + a / 16 + b % 16 * 16) =
        omega arith in
      rw (
        s,
        bit_and-word (d + d / 16 + 0 * 16) (c + c / 16 + d % 16 * 16) (b + b / 16 + c % 16 * 16)
            (a + a / 16 + b % 16 * 16) (omega arith) (omega arith) (omega arith) 0x0f 0x0f 0x0f 0x0f
            (omega arith) (omega arith) (omega arith),
        masked_0f d 0 hd (omega arith),
        masked_0f c (d % 16) hc (omega arith),
        masked_0f b (c % 16) hb (omega arith),
        masked_0f a (b % 16) ha (omega arith),
      )

step_sum :
    (d c b a : ℕ)
    → d ≤ 8
    → c ≤ 8
    → b ≤ 8
    → a ≤ 8
    → let x = word d c b a in
      let y = add32 x (x >>> 8) in bit_and (add32 y (y >>> 16)) 0x3f ≡ d + c + b + a
step_sum d c b a hd hc hb ha =
    let x = word d c b a in
    let y = add32 x (x >>> 8) in omega (arith, bit_and_mask 6 (add32 y (y >>> 16)))

pub ones-le : (n x : ℕ) → ones n x ≤ n
unfolding ones
ones-le zero x = omega arith
ones-le (suc n) x = omega (arith, ones-le n (x / 2))

pub popcount-word :
    (d c b a : ℕ)
    → IsByte d
    → IsByte c
    → IsByte b
    → IsByte a
    → popcount (word d c b a) ≡ ones 8 d + ones 8 c + ones 8 b + ones 8 a
unfolding popcount
popcount-word d c b a hd hc hb ha =
    rw
      (
        step_pairs d c b a hd hc hb ha,
        step_fours (pairs d) (pairs c) (pairs b) (pairs a) (omega arith) (omega arith) (omega arith)
            (omega arith),
        step_eights (fours (pairs d)) (fours (pairs c)) (fours (pairs b)) (fours (pairs a))
            (fours-HasFours d hd) (fours-HasFours c hc) (fours-HasFours b hb) (fours-HasFours a ha),
        eights_lem d hd,
        eights_lem c hc,
        eights_lem b hb,
        eights_lem a ha,
      )
      (step_sum (ones 8 d) (ones 8 c) (ones 8 b) (ones 8 a) (ones-le 8 d) (ones-le 8 c)
        (ones-le 8 b) (ones-le 8 a))

-- The ones of a word of two parts.
ones-halves : (n m q r : ℕ) → r < 2 ^ n → ones (n + m) (q * 2 ^ n + r) ≡ ones n r + ones m q
unfolding ones
ones-halves zero m q r h = ground arith
ones-halves (suc n) m q r h =
    let s : suc n + m ≡ suc (n + m) = omega arith in
    let half : (q * 2 ^ suc n + r) / 2 ≡ q * 2 ^ n + r / 2 = omega (arith, mul-pow-suc q n) in
    let low : (q * 2 ^ suc n + r) % 2 ≡ r % 2 = omega (arith, mul-pow-suc q n) in
    rw (s, half, low) (omega (arith, ones-halves n m q (r / 2) (omega (arith, pow-suc 2 n))))

ones-word :
    (d c b a : ℕ)
    → IsByte c
    → IsByte b
    → IsByte a
    → ones 32 (word d c b a) ≡ ones 8 d + ones 8 c + ones 8 b + ones 8 a
ones-word d c b a hc hb ha = omega (
  arith,
  ones-halves 8 24 ((d * 256 + c) * 256 + b) a ha,
  ones-halves 8 16 (d * 256 + c) b hb,
  ones-halves 8 8 d c hc,
)

-- `xcb_popcount` returns the number of ones among the 32 binary digits of every `uint32_t`.
pub popcount-eq-ones : (x : ℕ) → x < 2 ^ 32 → popcount x ≡ ones 32 x
popcount-eq-ones x h =
    let d = x / 2 ^ 24 in
    let c = x / 2 ^ 16 % 256 in
    let b = x / 2 ^ 8 % 256 in
    let a = x % 256 in
    subst (λ w. popcount w ≡ ones 32 w) (word_bytes x)
      (popcount-word d c b a (omega arith) (omega arith) (omega arith) (omega arith)
        ∙ sym (ones-word d c b a (omega arith) (omega arith) (omega arith)))
