-- ===== src/Bitops.antt =====
-- The inline functions of aux/xcb_bitops.h on `uint32_t`, as they are written: every sum,
-- difference and shift wraps at 2 ^ 32.
pub mod Round
pub mod Count
pub mod Reversed
pub mod Reverse
use xcb_util.Prelude.{
  ℕ, ◌+◌, ◌-◌, ◌%◌, ◌^◌, bit_and, bit_or, ◌==◌, if◌then◌else◌, ◌<<<◌, ◌>>>◌, add32, sub32, neg32,
  ◌||◌, ltb, Outcome, done, fault,
}

-- `xcb_mask`: `~0` is all ones in the `uint32_t` that is returned. C leaves `1 << n` undefined
-- from n = 31 on in `int`; it is read as the machine's shift.
unfoldable pub mask : ℕ → ℕ
mask n = if n == 32 then 2 ^ 32 - 1 else sub32 (1 <<< n) 1

unfoldable pub popcount : ℕ → ℕ
popcount x =
    let m1 : ℕ = 0x5555_5555 in
    let m2 : ℕ = 0x3333_3333 in
    let m4 : ℕ = 0x0f0f_0f0f in
    let x1 = sub32 x (bit_and (x >>> 1) m1) in
    let x2 = add32 (bit_and x1 m2) (bit_and (x1 >>> 2) m2) in
    let x3 = bit_and (add32 x2 (x2 >>> 4)) m4 in
    let x4 = add32 x3 (x3 >>> 8) in bit_and (add32 x4 (x4 >>> 16)) 0x3f

unfoldable pub roundup_2 : ℕ → ℕ → ℕ
roundup_2 base pad = bit_and (sub32 (add32 base pad) 1) (neg32 pad)

unfoldable pub rounddown_2 : ℕ → ℕ → ℕ
rounddown_2 base pad = bit_and base (neg32 pad)

-- At pad = 0 the test passes, so the division by zero is not reached.
unfoldable pub roundup : ℕ → ℕ → ℕ
roundup base pad =
    let b = sub32 (add32 base pad) 1 in
    if bit_and (sub32 pad 1) pad == 0 then bit_and b (neg32 pad) else sub32 b (b % pad)

unfoldable pub rounddown : ℕ → ℕ → ℕ
rounddown base pad =
    if bit_and (sub32 pad 1) pad == 0 then bit_and base (neg32 pad) else sub32 base (base % pad)

-- The five steps of `xcb_bit_reverse`, on the whole word.
unfoldable pub reverse_word : ℕ → ℕ
reverse_word x =
    let m1 : ℕ = 0x00ff_00ff in
    let m2 : ℕ = 0x0f0f_0f0f in
    let m3 : ℕ = 0x3333_3333 in
    let m4 : ℕ = 0x5555_5555 in
    let x1 = bit_or (x <<< 16) (x >>> 16) in
    let x2 = bit_or (bit_and x1 m1 <<< 8) (bit_and (x1 >>> 8) m1) in
    let x3 = bit_or (bit_and x2 m2 <<< 4) (bit_and (x2 >>> 4) m2) in
    let x4 = bit_or (bit_and x3 m3 <<< 2) (bit_and (x3 >>> 2) m3) in
    let x5 = bit_or (bit_and x4 m4 <<< 1) (bit_and (x4 >>> 1) m4) in x5

-- `xcb_bit_reverse`: the last shift, by 32 - n. A shift of 32 bits by 32 or more, or by less than 0, is
-- undefined in C, and counts as a fault.
unfoldable pub bit_reverse : ℕ → ℕ → Outcome ℕ
bit_reverse x n = if n == 0 || ltb 32 n then fault else done (reverse_word x >>> (32 - n))
