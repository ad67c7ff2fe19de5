-- ===== src/Bits/Bytes.antt =====
-- A 32-bit word as four bytes: `&` and `|` act on each byte, and a shift moves bits to the next.
use xcb_util.Prelude.{ℕ, ◌+◌, ◌*◌, ◌/◌, ◌%◌, ◌^◌, ◌<◌, ◌≡◌, arith, bit_and, bit_or}
use xcb_util.Bits.{bit_and_halves, bit_or_halves}

-- The word with these bytes, the most significant first.
abbrev pub word : ℕ → ℕ → ℕ → ℕ → ℕ
word d c b a = ((d * 256 + c) * 256 + b) * 256 + a

abbrev pub IsByte : ℕ → Type 0
IsByte b = b < 256

pub word_bytes : (x : ℕ) → word (x / 2 ^ 24) (x / 2 ^ 16 % 256) (x / 2 ^ 8 % 256) (x % 256) ≡ x
word_bytes x = omega arith

module _ (d c b a : ℕ) (hc : IsByte c) (hb : IsByte b) (ha : IsByte a) where
  pub bit_and-word :
      (d' c' b' a' : ℕ)
      → IsByte c'
      → IsByte b'
      → IsByte a'
      → bit_and (word d c b a) (word d' c' b' a')
        ≡ word (bit_and d d') (bit_and c c') (bit_and b b') (bit_and a a')
  bit_and-word d' c' b' a' kc kb ka = ground (
    arith,
    bit_and_halves 8 ((d * 256 + c) * 256 + b) a ((d' * 256 + c') * 256 + b') a' ha ka,
    bit_and_halves 8 (d * 256 + c) b (d' * 256 + c') b' hb kb,
    bit_and_halves 8 d c d' c' hc kc,
  )

  pub bit_or-word :
      (d' c' b' a' : ℕ)
      → IsByte c'
      → IsByte b'
      → IsByte a'
      → bit_or (word d c b a) (word d' c' b' a')
        ≡ word (bit_or d d') (bit_or c c') (bit_or b b') (bit_or a a')
  bit_or-word d' c' b' a' kc kb ka = ground (
    arith,
    bit_or_halves 8 ((d * 256 + c) * 256 + b) a ((d' * 256 + c') * 256 + b') a' ha ka,
    bit_or_halves 8 (d * 256 + c) b (d' * 256 + c') b' hb kb,
    bit_or_halves 8 d c d' c' hc kc,
  )
