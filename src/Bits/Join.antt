-- ===== src/Bits/Join.antt =====
-- Bytes put together by shifts and `|`, the lowest first or the highest first, are a sum.
use xcb_util.Prelude.{ℕ, ◌+◌, ◌*◌, ◌^◌, ◌≡◌, arith, bit_or, ◌<<<◌}
use xcb_util.Bits.{bit_or_fields, bit_or_fields'}
use xcb_util.Bits.Bytes.{word, IsByte}

module _ (d c b a : ℕ) (hd : IsByte d) (hc : IsByte c) (hb : IsByte b) (ha : IsByte a) where
  pub join_lsb_16 : bit_or a (b <<< 8) ≡ b * 256 + a
  join_lsb_16 = let e : b <<< 8 ≡ b * 2 ^ 8 = omega arith in rw (e, bit_or_fields' 8 b a ha)

  pub join_lsb_24 : bit_or (bit_or a (b <<< 8)) (c <<< 16) ≡ word 0 c b a
  join_lsb_24 =
      let e : c <<< 16 ≡ c * 2 ^ 16 = omega arith in
      rw (join_lsb_16, e, bit_or_fields' 16 c (b * 256 + a) (omega arith)) (omega arith)

  pub join_lsb_32 : bit_or (bit_or (bit_or a (b <<< 8)) (c <<< 16)) (d <<< 24) ≡ word d c b a
  join_lsb_32 =
      let e : d <<< 24 ≡ d * 2 ^ 24 = omega arith in
      rw (join_lsb_24, e, bit_or_fields' 24 d (word 0 c b a) (omega arith)) (omega arith)

  pub join_msb_16 : bit_or (b <<< 8) a ≡ b * 256 + a
  join_msb_16 = let e : b <<< 8 ≡ b * 2 ^ 8 = omega arith in rw (e, bit_or_fields 8 b a ha)

  pub join_msb_24 : bit_or (bit_or (c <<< 16) (b <<< 8)) a ≡ word 0 c b a
  join_msb_24 =
      let e : c <<< 16 ≡ c * 2 ^ 16 = omega arith in
      let e' : c * 2 ^ 16 + (b <<< 8) ≡ (c * 256 + b) * 2 ^ 8 = omega arith in
      rw (e, bit_or_fields 16 c (b <<< 8) (omega arith), e', bit_or_fields 8 (c * 256 + b) a ha)
        (omega arith)

  pub join_msb_32 : bit_or (bit_or (bit_or (d <<< 24) (c <<< 16)) (b <<< 8)) a ≡ word d c b a
  join_msb_32 =
      let e : d <<< 24 ≡ d * 2 ^ 24 = omega arith in
      let e' : d * 2 ^ 24 + (c <<< 16) ≡ (d * 256 + c) * 2 ^ 16 = omega arith in
      let e'' : (d * 256 + c) * 2 ^ 16 + (b <<< 8) ≡ ((d * 256 + c) * 256 + b) * 2 ^ 8 =
        omega arith in
      rw (
        e,
        bit_or_fields 24 d (c <<< 16) (omega arith),
        e',
        bit_or_fields 16 (d * 256 + c) (b <<< 8) (omega arith),
        e'',
        bit_or_fields 8 ((d * 256 + c) * 256 + b) a ha,
      )
