-- ===== src/Image/Format/Geometry.antt =====
-- `xcb_image_annotate` gives every row of an image room for its pixels, in whole units of the
-- scanline padding and with less than one such unit to spare.
use xcb_util.Prelude.{
  ℕ, ◌+◌, ◌*◌, ◌%◌, ◌^◌, ◌≤◌, ◌<◌, ◌≡◌, refl, ◌⊎◌, inl, inr, arith, mul32, ◌>>>◌,
}
use xcb_util.Bitops.{roundup}
use xcb_util.Bitops.Round.{roundup-IsRoundUp}
use xcb_util.Image.{Image, xy_pixmap, z_pixmap}
use xcb_util.Image.Format.{effective_format, annotate}

-- The paddings that image/xcb_image.h calls valid.
abbrev pub IsPad : ℕ → Type 0
IsPad p = (p ≡ 8) ⊎ (p ≡ 16) ⊎ (p ≡ 32)

-- A row of `bits` bits in `stride` bytes.
abbrev pub IsRow : ℕ → ℕ → ℕ → Type 0
IsRow bits pad stride = (8 * stride % pad ≡ 0) × (bits ≤ 8 * stride) × (8 * stride < bits + pad)

stride-IsRow : (bits pad : ℕ) → bits < 2 ^ 22 → IsPad pad → IsRow bits pad (roundup bits pad >>> 3)
stride-IsRow bits pad h (inl e) =
    rw e (omega (arith, roundup-IsRoundUp bits 8 (omega arith) (omega arith) (omega arith)))
stride-IsRow bits pad h (inr (inl e)) =
    rw e (omega (arith, roundup-IsRoundUp bits 16 (omega arith) (omega arith) (omega arith)))
stride-IsRow bits pad h (inr (inr e)) =
    rw e (omega (arith, roundup-IsRoundUp bits 32 (omega arith) (omega arith) (omega arith)))

-- For a z-pixmap of up to 32 bits per pixel a row of `xcb_image_annotate` is the least whole number
-- of padding units that holds the pixels, and the size is that of all rows, if 32 bits hold it.
pub annotate_z :
    (image : Image)
    → effective_format image.format image.bpp ≡ z_pixmap
    → image.width < 2 ^ 16
    → image.bpp ≤ 32
    → IsPad image.scanline_pad
    → let a = annotate image in
      IsRow (image.width * image.bpp) image.scanline_pad a.stride
      × (a.size ≡ image.height * a.stride % 2 ^ 32)
unfolding annotate
annotate_z image z hw hb pad =
    let area : image.width * image.bpp ≤ 2 ^ 16 * 32 = grind arith in
    let e : mul32 image.width image.bpp ≡ image.width * image.bpp = omega arith in
    rw (annotate, z, e)
      (stride-IsRow (image.width * image.bpp) image.scanline_pad (omega arith) pad, refl)

-- For an xy image a row holds one bit of each pixel, and the size counts one such area for each bit
-- of depth, in 32-bit arithmetic.
annotate_xy :
    (image : Image)
    → effective_format image.format image.bpp ≡ xy_pixmap
    → image.width < 2 ^ 16
    → IsPad image.scanline_pad
    → let a = annotate image in
      IsRow image.width image.scanline_pad a.stride
      × (a.size ≡ image.height * a.stride % 2 ^ 32 * image.depth % 2 ^ 32)
unfolding annotate
annotate_xy image xy hw pad =
    rw (annotate, xy) (stride-IsRow image.width image.scanline_pad (omega arith) pad, refl)
