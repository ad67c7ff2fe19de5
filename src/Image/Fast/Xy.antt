-- ===== src/Image/Fast/Xy.antt =====
-- The fast functions for bitmaps do what the general ones do, on images of one bit per pixel.
use xcb_util.Prelude.{
  ℕ, ◌+◌, ◌-◌, ◌*◌, ◌/◌, ◌%◌, ◌^◌, ◌<◌, ◌≡◌, refl, sym, ap, ◌∙◌, true, sub32, not32, mul32, ◌>>>◌,
  bit_and, bit_or, bit_xor, Outcome, arith,
}
use xcb_util.Bits.{bit_xor_step, bit_and_mask, bit_or_fields, bit_xor-zero}
use xcb_util.Bitops.{mask}
use xcb_util.Bitops.Round.{and_neg}
use xcb_util.Image.{Image, ImageOrder, msb_first, lsb_first}
use xcb_util.Image.Pixel.{put_pixel, get_pixel, is_set, xy_image_byte, xy_image_bit}
use xcb_util.Image.Pixel.Plane.{differ_one, general_get, general_put}
use xcb_util.Image.Fast.{
  put_pixel_xy32m, put_pixel_xy32l, get_pixel_xy32m, get_pixel_xy32l, address_m, bit_m, bit_l,
}

-- A bitmap of 32-bit units with the low byte first.
pub record IsLsbBitmap (image : Image) : Type 0 where
  pub one_bit : image.bpp ≡ 1
  pub unit : image.unit ≡ 32
  pub low_byte_first : image.byte_order ≡ lsb_first
  pub plane : is_set image.plane_mask 0 ≡ true

-- Counting the four bytes of a unit from its end changes two digits of the address.
from_end : (k : ℕ) → k < 2 ^ 32 → bit_or (bit_and k (not32 3)) (sub32 3 (bit_and k 3)) ≡ bit_xor k 3
from_end k small =
    let low = bit_and_mask 2 k in
    let high : bit_and k (not32 3) ≡ k / 4 * 2 ^ 2 =
      omega (arith, and_neg k 2 small (omega arith)) in
    let byte : sub32 3 (bit_and k 3) ≡ 3 - k % 4 = omega (arith, low) in
    rw (high, byte, bit_or_fields 2 (k / 4) (3 - k % 4) (omega arith))
      (omega (
        arith,
        bit_xor_step k 3,
        bit_xor_step (k / 2) 1,
        bit_xor-zero (k / 2 / 2),
        differ_one (k % 2) (omega arith),
        differ_one (k / 2 % 2) (omega arith),
      ))

low_bits : (x : ℕ) → sub32 7 (bit_and x 7) ≡ 7 - bit_and x 7
low_bits x = omega (arith, bit_and_mask 3 x)

module _ (image : Image) (x y pixel : ℕ) (b : IsLsbBitmap image) (hx : x < image.width)
    (hy : y < image.height) where
  byte_m : image.bit_order ≡ msb_first → xy_image_byte image x ≡ bit_xor (x >>> 3) 3
  unfolding xy_image_byte
  byte_m o = rw (o, b.low_byte_first, b.unit)

  byte_l : image.bit_order ≡ lsb_first → xy_image_byte image x ≡ x >>> 3
  unfolding xy_image_byte
  byte_l o = rw (o, b.low_byte_first)

  bit_m_lem : image.bit_order ≡ msb_first → xy_image_bit image x ≡ bit_m x
  unfolding xy_image_bit mask
  bit_m_lem o = rw o (sym (low_bits x))

  bit_l_lem : image.bit_order ≡ lsb_first → xy_image_bit image x ≡ bit_l x
  unfolding xy_image_bit mask
  bit_l_lem o = rw o

  agree_m :
      image.bit_order ≡ msb_first
      → x < 2 ^ 32
      → pixel < 2
      → (get_pixel_xy32m image x y ≡ get_pixel image x y)
        × (put_pixel_xy32m image x y pixel ≡ put_pixel image x y pixel)
  unfolding get_pixel_xy32m put_pixel_xy32m mask
  agree_m o word small =
      let address : mul32 y image.stride + xy_image_byte image x ≡ address_m image x y =
        ap (λ k. mul32 y image.stride + k) (byte_m o ∙ sym (from_end (x >>> 3) (omega arith))) in
      (
        sym (general_get image x y pixel b.one_bit b.plane hx hy ∙ rw (address, bit_m_lem o)),
        sym (general_put image x y pixel b.one_bit b.plane hx hy small ∙ rw (address, bit_m_lem o)),
      )

  agree_l :
      image.bit_order ≡ lsb_first
      → pixel < 2
      → (get_pixel_xy32l image x y ≡ get_pixel image x y)
        × (put_pixel_xy32l image x y pixel ≡ put_pixel image x y pixel)
  unfolding get_pixel_xy32l put_pixel_xy32l mask
  agree_l o small = (
    sym (general_get image x y pixel b.one_bit b.plane hx hy ∙ rw (byte_l o, bit_l_lem o)),
    sym (general_put image x y pixel b.one_bit b.plane hx hy small ∙ rw (byte_l o, bit_l_lem o)),
  )

-- The function for a bit order.
abbrev pub fast_get_xy : Image → ℕ → ℕ → Outcome ℕ
fast_get_xy image x y = elim (image.bit_order) [
  | msb_first ↦ get_pixel_xy32m image x y
  | lsb_first ↦ get_pixel_xy32l image x y
]

abbrev pub fast_put_xy : Image → ℕ → ℕ → ℕ → Outcome Image
fast_put_xy image x y pixel = elim (image.bit_order) [
  | msb_first ↦ put_pixel_xy32m image x y pixel
  | lsb_first ↦ put_pixel_xy32l image x y pixel
]

by_order :
    (image : Image) (x y pixel : ℕ)
    → IsLsbBitmap image
    → x < image.width
    → y < image.height
    → x < 2 ^ 32
    → pixel < 2
    → (o : ImageOrder) → image.bit_order ≡ o
    → ((elim o [ msb_first ↦ get_pixel_xy32m image x y | lsb_first ↦ get_pixel_xy32l image x y ])
        ≡ get_pixel image x y)
      × ((elim o [
        | msb_first ↦ put_pixel_xy32m image x y pixel
        | lsb_first ↦ put_pixel_xy32l image x y pixel
      ])
          ≡ put_pixel image x y pixel)
by_order image x y pixel b hx hy word small msb_first o =
    agree_m image x y pixel b hx hy o word small
by_order image x y pixel b hx hy word small lsb_first o = agree_l image x y pixel b hx hy o small

-- On an image of one bit per pixel with 32-bit units and the low byte first, the fast functions for
-- its bit order (M or L) return what the general ones return, at every position inside the image and
-- for the pixels 0 and 1. The functions M are so for a unit whose bytes are reversed.
pub fast_xy-agree :
    (image : Image) (x y pixel : ℕ)
    → IsLsbBitmap image
    → x < image.width
    → y < image.height
    → x < 2 ^ 32
    → pixel < 2
    → (fast_get_xy image x y ≡ get_pixel image x y)
      × (fast_put_xy image x y pixel ≡ put_pixel image x y pixel)
fast_xy-agree image x y pixel b hx hy word small =
    by_order image x y pixel b hx hy word small image.bit_order refl
