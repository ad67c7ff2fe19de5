-- ===== src/Image/Pixel/Bitmap.antt =====
-- The pixel functions on bitmaps in memory.
pub mod Byte
use xcb_util.Prelude.{
  ℕ, ◌+◌, ◌-◌, ◌*◌, ◌/◌, ◌%◌, ◌^◌, ◌≤◌, ◌<◌, ◌≡◌, ◌⊎◌, refl, sym, ap, ◌∙◌, inl, inr, Bool, true,
  false, Bool-cases, List, length, u8, ◌<<<◌, ◌>>>◌, not32, bit_and, bit_or, bit_xor, ◌==◌, ==_iff,
  ◌&&◌, if◌then◌else◌, mul32, dec_lt, ℕ_discrete, get_or, set, length-set, get_or-set_self,
  get_or-set_ne, ◌>>=◌, some, done, load_done, store_done, arith,
}
use xcb_util.Bits.{all_below, all_below_sound, bit_xor_step, bit_xor-zero, bit_and_mask}
use xcb_util.Image.{Image, ImageOrder, msb_first, lsb_first, same_order, bytes}
use xcb_util.Image.Pixel.{put_pixel, get_pixel, is_set, xy_image_byte, xy_image_bit}
use xcb_util.Image.Pixel.Cell.{IsBytes}
use xcb_util.Image.Pixel.Z.{row_inside}
use xcb_util.Image.Pixel.Plane.{differ_one, general_get, general_put}
use xcb_util.Image.Pixel.Bitmap.Byte.{with_bit, bit_at, bit_at-with_bit, xor_1, xor_3, not_both}

-- A bitmap: one bit per pixel, rows of whole units, and memory for all of them.
pub record IsBitmap (image : Image) : Type 0 where
  pub one_bit : image.bpp ≡ 1
  pub plane : is_set image.plane_mask 0 ≡ true
  pub whole_units :
      (image.unit ≡ 8)
      ⊎ ((image.unit ≡ 16) × (image.stride % 2 ≡ 0))
      ⊎ ((image.unit ≡ 32) × (image.stride % 4 ≡ 0))
  pub row_fits : image.width ≤ 8 * image.stride
  pub storage : image.height * image.stride ≤ length (bytes image)
  pub no_wrap : image.height * image.stride < 2 ^ 32
  pub are_bytes : IsBytes (bytes image)

module _ (image : Image) (b : IsBitmap image) where
  -- The byte of a position lies in the row, and tells which eight positions it is for.
  record IsPlaced (x x' : ℕ) : Type 0 where
    in_row : x < image.width → xy_image_byte image x < image.stride
    same_byte : xy_image_byte image x ≡ xy_image_byte image x' → x / 8 ≡ x' / 8

  placed : (x x' : ℕ) → IsPlaced x x'
  unfolding xy_image_byte
  placed x x' = elim (Bool-cases (same_order image.byte_order image.bit_order)) [
    | inl q ↦ record {
      in_row = λ h. rw q (omega (arith, h, b.row_fits));
      same_byte = λ e. rw q at e;
    }
    | inr q ↦ elim (b.whole_units) [
      | inl u ↦ record {
        in_row = λ h. rw (xy_image_byte, q, u) (omega (arith, h, b.row_fits));
        same_byte = λ e. rw (xy_image_byte, q, u) at e;
      }
      | inr (inl (u, whole)) ↦ record {
        in_row = λ h. rw (q, u, xor_1 (x / 8)) (omega (arith, h, b.row_fits, whole));
        same_byte = λ e. omega (arith, (rw (q, u, xor_1 (x / 8), xor_1 (x' / 8)) at e));
      }
      | inr (inr (u, whole)) ↦ record {
        in_row = λ h. rw (q, u, xor_3 (x / 8)) (omega (arith, h, b.row_fits, whole));
        same_byte = λ e. omega (arith, (rw (q, u, xor_3 (x / 8), xor_3 (x' / 8)) at e));
      }
    ]
  ]

  -- The bit of a position is one of eight, and tells the position within the byte.
  record IsBitOf (x x' : ℕ) : Type 0 where
    below : xy_image_bit image x < 8
    same_bit : xy_image_bit image x ≡ xy_image_bit image x' → x % 8 ≡ x' % 8

  bit_of : (x x' : ℕ) (o : ImageOrder) → image.bit_order ≡ o → IsBitOf x x'
  unfolding xy_image_bit
  bit_of x x' lsb_first e = record {
    below = rw (e, bit_and_mask 3 x) (omega arith);
    same_bit = λ h. (rw (e, bit_and_mask 3 x, bit_and_mask 3 x') at h);
  }
  bit_of x x' msb_first e = record {
    below = rw (e, bit_and_mask 3 x) (omega arith);
    same_bit = λ h. omega (arith, (rw (e, bit_and_mask 3 x, bit_and_mask 3 x') at h));
  }

  other_bit : (x x' : ℕ) → x' ≡ x → (xy_image_bit image x == xy_image_bit image x') ≡ false → ⊥
  other_bit x x' e q =
      let t = (==_iff (xy_image_bit image x) (xy_image_bit image x')).1 (rw e) in cc

  abbrev address : ℕ → ℕ → ℕ
  address x y = y * image.stride + xy_image_byte image x

  address-lt : (x y : ℕ) → x < image.width → y < image.height → address x y < length (bytes image)
  address-lt x y hx hy =
      omega (arith, (placed x x).in_row hx, row_inside y image.height image.stride hy, b.storage)

  row_address : (y : ℕ) → y < image.height → mul32 y image.stride ≡ y * image.stride
  row_address y h = omega (arith, row_inside y image.height image.stride h, b.no_wrap)

  -- Two positions in one byte are in one row and in one group of eight.
  same_group :
      (x y x' y' : ℕ)
      → x < image.width
      → x' < image.width
      → address x y ≡ address x' y'
      → (y ≡ y') × (x / 8 ≡ x' / 8)
  same_group x y x' y' hx hx' e =
      let a = (placed x x).in_row hx in
      let a' = (placed x' x').in_row hx' in
      let row : y ≡ y' = elim (dec_lt y y') [
        | yes lt ↦ absurd (omega (arith, row_inside y y' image.stride lt))
        | no ge ↦ elim (dec_lt y' y) [
          | yes lt ↦ absurd (omega (arith, row_inside y' y image.stride lt))
          | no ge' ↦ omega arith
        ]
      ] in
      (row, (placed x x').same_byte (omega (arith, (rw row at e))))

  get_now :
      (x y : ℕ)
      → x < image.width
      → y < image.height
      → get_pixel image x y
        ≡ done (bit_at (get_or (bytes image) (address x y) 0) (xy_image_bit image x))
  get_now x y hx hy =
      general_get image x y 0 b.one_bit b.plane hx hy
      ∙ rw (row_address y hy, load_done (bytes image) (address x y) (address-lt x y hx hy))

  -- A read on an image that differs in its bytes only.
  get_at :
      (m : List ℕ) (x y : ℕ)
      → length m ≡ length (bytes image)
      → x < image.width
      → y < image.height
      → get_pixel (record image { data' = some m }) x y
        ≡ done (bit_at (get_or m (address x y) 0) (xy_image_bit image x))
  unfolding xy_image_byte xy_image_bit
  get_at m x y same hx hy =
      general_get (record image { data' = some m }) x y 0 b.one_bit b.plane hx hy
      ∙ rw (row_address y hy, load_done m (address x y) (omega (arith, address-lt x y hx hy, same)))

  module _ (x y pixel : ℕ) (hx : x < image.width) (hy : y < image.height) (small : pixel < 2) where
    abbrev after : List ℕ
    after =
        set (bytes image) (address x y)
          (with_bit (get_or (bytes image) (address x y) 0) (xy_image_bit image x) pixel)

    put_done : put_pixel image x y pixel ≡ done (record image { data' = some after })
    put_done =
        general_put image x y pixel b.one_bit b.plane hx hy small
        ∙ rw (row_address y hy, load_done (bytes image) (address x y) (address-lt x y hx hy))
            (ap (λ o. o >>= λ m. done (record image { data' = some m }))
              (store_done (bytes image) (address x y) _ (address-lt x y hx hy)))

    bit_after :
        (x' y' : ℕ)
        → x' < image.width
        → bit_at (get_or after (address x' y') 0) (xy_image_bit image x') ≡ (
            if x' == x && y' == y
            then pixel
            else bit_at (get_or (bytes image) (address x' y') 0) (xy_image_bit image x'))
    bit_after x' y' hx' = elim (ℕ_discrete (address x y) (address x' y')) [
      | no ne ↦
          let away : (x' == x && y' == y) ≡ false =
            not_both x x' y y' (λ ex ey. ne (rw (ex, ey))) in
          rw (away, get_or-set_ne (bytes image) (address x y) (address x' y') _ 0 ne)
      | yes e ↦
          let (row, group) = same_group x y x' y' hx hx' e in
          let v = get_or (bytes image) (address x y) 0 in
          let here =
            bit_at-with_bit v (xy_image_bit image x) (xy_image_bit image x') pixel
              (b.are_bytes (address x y)) ((bit_of x x' image.bit_order refl).below)
              ((bit_of x' x image.bit_order refl).below) small in
          rw (← e, get_or-set_self (bytes image) (address x y) _ 0 (address-lt x y hx hy), here)
            (elim (Bool-cases (xy_image_bit image x == xy_image_bit image x')) [
              | inl q ↦
                  let digits = (bit_of x x' image.bit_order refl).same_bit ((==_iff _ _).0 q) in
                  let t : (x' == x && y' == y) ≡ true = ground (arith, digits, group, row) in
                  rw (q, t)
              | inr q ↦
                  let t : (x' == x && y' == y) ≡ false =
                    not_both x x' y y' (λ ex ey. other_bit x x' ex q) in
                  rw (q, t)
            ])
    ]

-- Of a bitmap, in either bit order, either byte order and with units of 8, 16 or 32 bits, a pixel 0 or 1
-- that `xcb_image_put_pixel` puts at a position inside it is what `xcb_image_get_pixel` returns there,
-- and every other position inside returns what it returned before.
pub get-put_bitmap :
    (image : Image) (x y x' y' pixel : ℕ)
    → IsBitmap image
    → x < image.width
    → y < image.height
    → x' < image.width
    → y' < image.height
    → pixel < 2
    → (image' : Image) × (put_pixel image x y pixel ≡ done image')
      × (get_pixel image' x' y'
          ≡ (if x' == x && y' == y then done pixel else get_pixel image x' y'))
get-put_bitmap image x y x' y' pixel b hx hy hx' hy' small =
    let m = after image b x y pixel hx hy small in
    (
      record image { data' = some m },
      put_done image b x y pixel hx hy small,
      get_at image b m x' y' (length-set (bytes image) _ _) hx' hy'
          ∙ ap done (bit_after image b x y pixel hx hy small x' y' hx')
          ∙ (elim (Bool-cases (x' == x && y' == y)) [
            | inl t ↦ rw t
            | inr f ↦ rw f (sym (get_now image b x' y' hx' hy'))
          ]),
    )
