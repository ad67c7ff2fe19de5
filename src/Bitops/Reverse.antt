-- ===== src/Bitops/Reverse.antt =====
-- `xcb_bit_reverse` reverses the lowest `n` binary digits of a word, for every n from 1 to 32.
-- Its first two steps reverse the order of the bytes, the last three the bits of each byte.
use native.Mathlib.Nat.{div-le_self, mod-lt}
use xcb_util.Prelude.{
  ℕ, ◌+◌, ◌-◌, ◌*◌, ◌/◌, ◌%◌, ◌^◌, ◌≤◌, ◌<◌, ◌≡◌, refl, subst, ◌∙◌, arith, bit_and, bit_or, ◌>>>◌,
  ◌<<<◌, ltb, ◌==◌, true, ltb→lt, ap, inl, inr, false, leb, Bool-cases, ◌&&◌, ◌||◌, if◌then◌else◌,
  done, fault,
}
use xcb_util.Bits.{
  bit_and_halves, bit_and_mask, bit_and-zero, bit_or-zero, zero-bit_or, bit_or-lt, bit_and-lt,
  all_below, all_below_sound, eq_of_table,
}
use xcb_util.Bits.Bytes.{word, IsByte, word_bytes, bit_and-word, bit_or-word}
use xcb_util.Bitops.{reverse_word, bit_reverse}
use xcb_util.Bitops.Reversed.{reversed, reversed-halves, reversed-shift}

-- What the last three steps make of a byte.
abbrev swap4 : ℕ → ℕ
swap4 b = bit_or (bit_and b 0x0f * 16) (bit_and (b / 16) 0x0f)

abbrev swap2 : ℕ → ℕ
swap2 b = bit_or (bit_and b 0x33 * 4) (bit_and (b / 4) 0x33)

abbrev swap1 : ℕ → ℕ
swap1 b = bit_or (bit_and b 0x55 * 2) (bit_and (b / 2) 0x55)

swap_table : all_below 256 (λ b. swap1 (swap2 (swap4 b)) == reversed 8 b) ≡ true
unfolding all_below reversed
swap_table = refl

-- `((x & m) << s) | ((x >> s) & m)` on a word, where each byte of the mask `m` is `μ`: `k` is
-- `2 ^ s` and `l` is `2 ^ (8 - s)`. Bits of the next byte that the shift brings in are masked off.
module _ (k l μ : ℕ) (hμ : IsByte μ) (pos : 0 < k)
    (shift : (d c b a : ℕ)
      → IsByte d
      → IsByte c
      → IsByte b
      → IsByte a
      → word d c b a / k ≡ word (d / k) (c / k + d % k * l) (b / k + c % k * l) (a / k + b % k * l))
    (narrow : (b n : ℕ) → IsByte b → n < k → IsByte (b / k + n * l))
    (apart : (b n : ℕ) → IsByte b → n < k → bit_and (b / k + n * l) μ ≡ bit_and (b / k) μ)
    (room : (b : ℕ) → IsByte b → bit_and b μ * k < 256) where
  abbrev swapped : ℕ → ℕ
  swapped b = bit_or (bit_and b μ * k) (bit_and (b / k) μ)

  step_swap :
      (d c b a : ℕ)
      → IsByte d
      → IsByte c
      → IsByte b
      → IsByte a
      → bit_or
          (bit_and (word d c b a) (word μ μ μ μ) * k % 2 ^ 32)
          (bit_and (word d c b a / k) (word μ μ μ μ))
        ≡ word (swapped d) (swapped c) (swapped b) (swapped a)
  step_swap d c b a hd hc hb ha =
      let left : bit_and (word d c b a) (word μ μ μ μ) * k % 2 ^ 32
          ≡ word (bit_and d μ * k) (bit_and c μ * k) (bit_and b μ * k) (bit_and a μ * k) =
        rw (bit_and-word d c b a hc hb ha μ μ μ μ hμ hμ hμ)
          (omega (arith, room d hd, room c hc, room b hb, room a ha)) in
      let right : bit_and (word d c b a / k) (word μ μ μ μ)
          ≡ word (bit_and (d / k) μ) (bit_and (c / k) μ) (bit_and (b / k) μ) (bit_and (a / k) μ) =
        rw (
          shift d c b a hd hc hb ha,
          bit_and-word (d / k) (c / k + d % k * l) (b / k + c % k * l) (a / k + b % k * l)
              (narrow c (d % k) hc (mod-lt d pos)) (narrow b (c % k) hb (mod-lt c pos))
              (narrow a (b % k) ha (mod-lt b pos)) μ μ μ μ hμ hμ hμ,
          apart c (d % k) hc (mod-lt d pos),
          apart b (c % k) hb (mod-lt c pos),
          apart a (b % k) ha (mod-lt b pos),
        ) in
      let low =
        λ (x : ℕ) (hx : IsByte x). bit_and-lt 8 (x / k) μ (omega (arith, div-le_self x k)) in
      rw (left, right)
        (bit_or-word (bit_and d μ * k) (bit_and c μ * k) (bit_and b μ * k) (bit_and a μ * k)
          (room c hc) (room b hb) (room a ha) (bit_and (d / k) μ) (bit_and (c / k) μ)
          (bit_and (b / k) μ) (bit_and (a / k) μ) (low c hc) (low b hb) (low a ha))

room4_table : all_below 256 (λ b. ltb (bit_and b 0x0f * 16) 256) ≡ true
unfolding all_below
room4_table = refl

room2_table : all_below 256 (λ b. ltb (bit_and b 0x33 * 4) 256) ≡ true
unfolding all_below
room2_table = refl

room1_table : all_below 256 (λ b. ltb (bit_and b 0x55 * 2) 256) ≡ true
unfolding all_below
room1_table = refl

module _ (d c b a : ℕ) (hd : IsByte d) (hc : IsByte c) (hb : IsByte b) (ha : IsByte a) where
  step_swap4 :
      bit_or (bit_and (word d c b a) 0x0f0f_0f0f <<< 4) (bit_and (word d c b a >>> 4) 0x0f0f_0f0f)
      ≡ word (swap4 d) (swap4 c) (swap4 b) (swap4 a)
  step_swap4 =
      step_swap 16 16 0x0f (omega arith) (omega arith) (λ _ _ _ _ _ _ _ _. omega arith)
        (λ x n hx hn. omega arith)
        (λ x n hx hn. ground (arith, bit_and_halves 4 n (x / 16) 0 0x0f, bit_and-zero n))
        (λ x hx. ltb→lt _ _ (all_below_sound 256 _ x room4_table hx)) d c b a hd hc hb ha

  step_swap2 :
      bit_or (bit_and (word d c b a) 0x3333_3333 <<< 2) (bit_and (word d c b a >>> 2) 0x3333_3333)
      ≡ word (swap2 d) (swap2 c) (swap2 b) (swap2 a)
  step_swap2 =
      step_swap 4 64 0x33 (omega arith) (omega arith) (λ _ _ _ _ _ _ _ _. omega arith)
        (λ x n hx hn. omega arith)
        (λ x n hx hn. ground (arith, bit_and_halves 6 n (x / 4) 0 0x33, bit_and-zero n))
        (λ x hx. ltb→lt _ _ (all_below_sound 256 _ x room2_table hx)) d c b a hd hc hb ha

  step_swap1 :
      bit_or (bit_and (word d c b a) 0x5555_5555 <<< 1) (bit_and (word d c b a >>> 1) 0x5555_5555)
      ≡ word (swap1 d) (swap1 c) (swap1 b) (swap1 a)
  step_swap1 =
      step_swap 2 128 0x55 (omega arith) (omega arith) (λ _ _ _ _ _ _ _ _. omega arith)
        (λ x n hx hn. omega arith)
        (λ x n hx hn. ground (arith, bit_and_halves 7 n (x / 2) 0 0x55, bit_and-zero n))
        (λ x hx. ltb→lt _ _ (all_below_sound 256 _ x room1_table hx)) d c b a hd hc hb ha

  step_halves : bit_or (word d c b a <<< 16) (word d c b a >>> 16) ≡ word b a d c
  step_halves =
      let left : word d c b a <<< 16 ≡ word b a 0 0 = omega arith in
      let right : word d c b a >>> 16 ≡ word 0 0 d c = omega arith in
      rw (
        left,
        right,
        bit_or-word b a 0 0 ha (omega arith) (omega arith) 0 0 d c (omega arith) hd hc,
        bit_or-zero b,
        bit_or-zero a,
        zero-bit_or d,
        zero-bit_or c,
      )

  step_bytes :
      bit_or (bit_and (word d c b a) 0x00ff_00ff <<< 8) (bit_and (word d c b a >>> 8) 0x00ff_00ff)
      ≡ word c d a b
  step_bytes =
      let z : 0 < 256 = omega arith in
      let f : 255 < 256 = omega arith in
      let m : bit_and (word d c b a) (word 0 255 0 255) ≡ word 0 c 0 a = omega (
        arith,
        bit_and-word d c b a hc hb ha 0 255 0 255 f z f,
        bit_and-zero d,
        bit_and_mask 8 c,
        bit_and-zero b,
        bit_and_mask 8 a,
      ) in
      let s : word d c b a >>> 8 ≡ word 0 d c b = omega arith in
      let m' : bit_and (word 0 d c b) (word 0 255 0 255) ≡ word 0 d 0 b = omega (
        arith,
        bit_and-word 0 d c b hd hc hb 0 255 0 255 f z f,
        bit_and_mask 8 d,
        bit_and-zero c,
        bit_and_mask 8 b,
      ) in
      let left : word 0 c 0 a <<< 8 ≡ word c 0 a 0 = omega arith in
      rw (
        s,
        m,
        m',
        left,
        bit_or-word c 0 a 0 z ha z 0 d 0 b hd z hb,
        bit_or-zero c,
        zero-bit_or d,
        bit_or-zero a,
        zero-bit_or b,
      )

reversed-word :
    (d c b a : ℕ)
    → IsByte c
    → IsByte b
    → IsByte a
    → reversed 32 (word d c b a) ≡ word (reversed 8 a) (reversed 8 b) (reversed 8 c) (reversed 8 d)
reversed-word d c b a hc hb ha = omega (
  arith,
  reversed-halves 8 24 ((d * 256 + c) * 256 + b) a ha,
  reversed-halves 8 16 (d * 256 + c) b hb,
  reversed-halves 8 8 d c hc,
)

swap_lem : (b : ℕ) → IsByte b → swap1 (swap2 (swap4 b)) ≡ reversed 8 b
swap_lem b h = eq_of_table 256 (λ x. swap1 (swap2 (swap4 x))) (reversed 8) b swap_table h

swap4-IsByte : (b : ℕ) → IsByte b → IsByte (swap4 b)
swap4-IsByte b h =
    bit_or-lt 8 (bit_and b 0x0f * 16) (bit_and (b / 16) 0x0f)
      (ltb→lt _ _ (all_below_sound 256 _ b room4_table h))
      (bit_and-lt 8 (b / 16) 0x0f (omega arith))

swap2-IsByte : (b : ℕ) → IsByte b → IsByte (swap2 b)
swap2-IsByte b h =
    bit_or-lt 8 (bit_and b 0x33 * 4) (bit_and (b / 4) 0x33)
      (ltb→lt _ _ (all_below_sound 256 _ b room2_table h)) (bit_and-lt 8 (b / 4) 0x33 (omega arith))

reverse_word-word :
    (d c b a : ℕ)
    → IsByte d
    → IsByte c
    → IsByte b
    → IsByte a
    → reverse_word (word d c b a) ≡ reversed 32 (word d c b a)
unfolding reverse_word
reverse_word-word d c b a hd hc hb ha = rw (
  step_halves d c b a hd hc hb ha,
  step_bytes b a d c hb ha hd hc,
  step_swap4 a b c d ha hb hc hd,
  step_swap2 (swap4 a) (swap4 b) (swap4 c) (swap4 d) (swap4-IsByte a ha) (swap4-IsByte b hb)
      (swap4-IsByte c hc) (swap4-IsByte d hd),
  step_swap1 (swap2 (swap4 a)) (swap2 (swap4 b)) (swap2 (swap4 c)) (swap2 (swap4 d))
      (swap2-IsByte _ (swap4-IsByte a ha)) (swap2-IsByte _ (swap4-IsByte b hb))
      (swap2-IsByte _ (swap4-IsByte c hc)) (swap2-IsByte _ (swap4-IsByte d hd)),
  swap_lem a ha,
  swap_lem b hb,
  swap_lem c hc,
  swap_lem d hd,
  reversed-word d c b a hc hb ha,
)

-- For every 32-bit word and every n from 1 to 32, `xcb_bit_reverse(x, n)` is defined and returns the `n`
-- lowest binary digits of `x` in reverse order, whatever the digits above them. For every other `n` its last
-- shift is undefined.
pub bit_reverse-eq-reversed :
    (x n : ℕ)
    → x < 2 ^ 32
    → bit_reverse x n ≡ (if leb 1 n && leb n 32 then done (reversed n x) else fault)
unfolding bit_reverse
bit_reverse-eq-reversed x n h =
    let d = x / 2 ^ 24 in
    let c = x / 2 ^ 16 % 256 in
    let b = x / 2 ^ 8 % 256 in
    let a = x % 256 in
    let w : reverse_word x ≡ reversed 32 x =
      subst (λ w. reverse_word w ≡ reversed 32 w) (word_bytes x)
        (reverse_word-word d c b a (omega arith) (omega arith) (omega arith) (omega arith)) in
    let shifted : n ≤ 32 → reverse_word x >>> (32 - n) ≡ reversed n x = λ hn.
      let s : 32 ≡ n + (32 - n) = omega arith in
      rw w (ap (λ (t : ℕ). reversed t x / 2 ^ (32 - n)) s ∙ reversed-shift n (32 - n) x) in
    elim (Bool-cases (leb 1 n && leb n 32)) [
      | inl q ↦
          let least : (n == 0 || ltb 32 n) ≡ false = ground (arith, q) in
          let most : n ≤ 32 = ground (arith, q) in rw (q, least, shifted most) refl
      | inr q ↦ let bad : (n == 0 || ltb 32 n) ≡ true = ground (arith, q) in rw (q, bad) refl
    ]
