-- ===== src/Image/Pixel/Nibble.antt =====
-- Pixels of four bits, two to a byte: storing one keeps the other.
use xcb_util.Prelude.{
  ℕ, ◌+◌, ◌*◌, ◌/◌, ◌%◌, ◌^◌, ◌<◌, ◌≡◌, ap, ◌∙◌, List, arith, u8, length, set, get_or, done, inl,
  inr, ℕ_discrete, get_or-set_self, get_or-set_ne, length-set, bit_and, bit_or, Bool, true, false,
  not32, load_done, store_done, ◌>>>◌, ◌<<<◌, if◌then◌else◌, ◌⊎◌, ◌≢◌,
}
use xcb_util.Bits.{
  bit_and_halves, bit_or_halves, bit_and_mask, bit_and-zero, bit_or-zero, bit_or_fields,
  bit_or_fields',
}
use xcb_util.Image.{ImageOrder, lsb_first, msb_first}
use xcb_util.Image.Pixel.{put_z, get_z, high_nibble}
use xcb_util.Image.Pixel.Cell.{IsInside, IsApart, IsBytes, IsPut, set-IsBytes}

-- The byte that is stored: the high nibble replaced, or the low one.
abbrev put_nibble : Bool → ℕ → ℕ → ℕ
put_nibble high v pixel =
    let shift = if high then 4 else 0 in
    u8 (bit_or (bit_and v (not32 (0xf <<< shift))) (bit_and pixel 0xf <<< shift))

abbrev get_nibble : Bool → ℕ → ℕ
get_nibble high v = if high then v >>> 4 else bit_and v 0xf

keep_low : (v : ℕ) → bit_and v 0xffff_ff0f ≡ bit_and (v / 256) 0xff_ffff * 256 + v % 16
keep_low v =
    ground (arith, bit_and_halves 8 (v / 256) (v % 256) 0xff_ffff 0x0f, bit_and_mask 4 (v % 256))

keep_high : (v : ℕ) → bit_and v 0xffff_fff0 ≡ bit_and (v / 16) 0xfff_ffff * 16
keep_high v = ground (arith, bit_and_halves 4 (v / 16) (v % 16) 0xfff_ffff 0, bit_and-zero (v % 16))

put_high : (v pixel : ℕ) → put_nibble true v pixel ≡ pixel % 16 * 16 + v % 16
put_high v pixel =
    let n : bit_and pixel 0xf <<< 4 ≡ pixel % 16 * 2 ^ 4 = omega (arith, bit_and_mask 4 pixel) in
    let z = bit_and (v / 256) 0xff_ffff in
    rw (n, keep_low v)
      (ground (
        arith,
        bit_or_halves 8 z (v % 16) 0 (pixel % 16 * 16) (omega arith) (omega arith),
        bit_or_fields' 4 (pixel % 16) (v % 16) (omega arith),
        bit_or-zero z,
      ))

put_low : (v pixel : ℕ) → v < 256 → put_nibble false v pixel ≡ v / 16 * 16 + pixel % 16
put_low v pixel h =
    let n : bit_and pixel 0xf <<< 0 ≡ pixel % 16 = omega (arith, bit_and_mask 4 pixel) in
    rw (n, keep_high v)
      (omega (
        arith,
        bit_or_fields 4 (bit_and (v / 16) 0xfff_ffff) (pixel % 16) (omega arith),
        bit_and_mask 28 (v / 16),
      ))

put_low_mod : (v pixel : ℕ) → put_nibble false v pixel % 16 ≡ pixel % 16
put_low_mod v pixel =
    let n : bit_and pixel 0xf <<< 0 ≡ pixel % 16 = omega (arith, bit_and_mask 4 pixel) in
    rw (n, keep_high v)
      (omega (arith, bit_or_fields 4 (bit_and (v / 16) 0xfff_ffff) (pixel % 16) (omega arith)))

get-put_nibble :
    (high : Bool) (v pixel : ℕ) → get_nibble high (put_nibble high v pixel) ≡ pixel % 16
get-put_nibble true v pixel = omega (arith, put_high v pixel)
get-put_nibble false v pixel =
    omega (arith, put_low_mod v pixel, bit_and_mask 4 (put_nibble false v pixel))

get-put_nibble_ne :
    (v pixel : ℕ)
    → v < 256
    → (get_nibble false (put_nibble true v pixel) ≡ get_nibble false v)
      × (get_nibble true (put_nibble false v pixel) ≡ get_nibble true v)
get-put_nibble_ne v pixel h = (
  omega (arith, put_high v pixel, bit_and_mask 4 (put_nibble true v pixel), bit_and_mask 4 v),
  omega (arith, put_low v pixel h),
)

-- An even and an odd pixel lie in different nibbles.
nibbles_differ :
    (order : ImageOrder) (x x' : ℕ)
    → x % 2 ≢ x' % 2
    → (high_nibble order x ≡ true) × (high_nibble order x' ≡ false)
      ⊎ (high_nibble order x ≡ false) × (high_nibble order x' ≡ true)
nibbles_differ lsb_first x x' ne = ground (arith, bit_and_mask 1 x, bit_and_mask 1 x')
nibbles_differ msb_first x x' ne = ground (arith, bit_and_mask 1 x, bit_and_mask 1 x')

module _ (order : ImageOrder) (row x pixel : ℕ) (m : List ℕ) (inside : IsInside 4 row x m) where
  abbrev old : ℕ
  old = get_or m (row + x / 2) 0

  abbrev pub nibble_written : List ℕ
  nibble_written = set m (row + x / 2) (put_nibble (high_nibble order x) old pixel)

  put_nibble_done : put_z 4 order row x pixel m ≡ done nibble_written
  unfolding put_z
  put_nibble_done = rw (
    load_done m (row + x / 2) (omega arith),
    store_done m (row + x / 2) (put_nibble (high_nibble order x) old pixel) (omega arith),
  )

get_nibble_done :
    (order : ImageOrder) (row x : ℕ) (m : List ℕ)
    → IsInside 4 row x m
    → get_z 4 order row x m ≡ done (get_nibble (high_nibble order x) (get_or m (row + x / 2) 0))
unfolding get_z
get_nibble_done order row x m inside = rw (load_done m (row + x / 2) (omega arith))

module _ (order : ImageOrder) (row x pixel : ℕ) (m : List ℕ) (small : x < 2 ^ 16)
    (inside : IsInside 4 row x m) where
  abbrev new : List ℕ
  new = nibble_written order row x pixel m inside

  same_length : length new ≡ length m
  same_length = length-set m (row + x / 2) _

  -- The other pixel of the byte.
  same_byte :
      IsBytes m
      → (x' : ℕ) → x % 2 ≢ x' % 2
      → get_nibble
          (high_nibble order x')
          (put_nibble (high_nibble order x) (old order row x pixel m inside) pixel)
        ≡ get_nibble (high_nibble order x') (old order row x pixel m inside)
  same_byte b x' ne = elim (nibbles_differ order x x' ne) [
    | inl d ↦
        rw (d.0, d.1) (get-put_nibble_ne (old order row x pixel m inside) pixel (b (row + x / 2))).0
    | inr d ↦
        rw (d.0, d.1) (get-put_nibble_ne (old order row x pixel m inside) pixel (b (row + x / 2))).1
  ]

  -- The byte at another pixel's address, if that is this byte, and if it is not.
  other_nibbles :
      IsBytes m
      → (row' x' : ℕ) → x' < 2 ^ 16
      → IsInside 4 row' x' m
      → IsApart 4 row x row' x'
      → get_z 4 order row' x' new ≡ get_z 4 order row' x' m
  other_nibbles b row' x' small' inside' apart =
      rw
        (
          get_nibble_done order row' x' new (omega (arith, same_length)),
          get_nibble_done order row' x' m inside',
        )
        (elim (ℕ_discrete (row + x / 2) (row' + x' / 2)) [
          | yes e ↦
              rw (← e, get_or-set_self m (row + x / 2) _ 0 (omega arith))
                (ap done (same_byte b x' (omega arith)))
          | no ne ↦ rw (get_or-set_ne m (row + x / 2) (row' + x' / 2) _ 0 ne)
        ])

  pub nibble-IsPut : IsPut 4 order row x pixel m new
  nibble-IsPut = record {
    stored = put_nibble_done order row x pixel m inside;
    same_length = same_length;
    is_bytes = set-IsBytes m (row + x / 2) _ (omega arith);
    reads_back =
        get_nibble_done order row x new (omega (arith, same_length))
        ∙ rw (
          get_or-set_self m (row + x / 2)
              (put_nibble (high_nibble order x) (old order row x pixel m inside) pixel) 0
              (omega arith),
          get-put_nibble (high_nibble order x) (old order row x pixel m inside) pixel,
        );
    others = other_nibbles;
  }
