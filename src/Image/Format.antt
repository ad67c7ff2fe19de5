-- ===== src/Image/Format.antt =====
-- The formats of image/xcb_image.c: which combinations of depth, bits per pixel, unit and padding
-- are valid, and the size of the data that they imply.
pub mod Geometry
use xcb_util.Prelude.{
  ℕ, ◌+◌, Bool, true, false, ◌&&◌, ◌||◌, not, ltb, ◌==◌, if◌then◌else◌, mul32, ◌>>>◌,
}
use xcb_util.Bitops.{roundup}
use xcb_util.Image.{Image, ImageFormat, xy_bitmap, xy_pixmap, z_pixmap, same_format}

-- `effective_format`
unfoldable pub effective_format : ImageFormat → ℕ → ImageFormat
effective_format format bpp =
    if same_format format z_pixmap && not (bpp == 1) then format else xy_pixmap

-- The `switch` over 8, 16 and 32.
abbrev is_8_16_32 : ℕ → Bool
is_8_16_32 n = n == 8 || (n == 16 || n == 32)

abbrev xy_valid : ℕ → ℕ → ℕ → Bool
xy_valid bpp unit xpad =
    if not (is_8_16_32 unit) then false else if ltb xpad bpp then false else is_8_16_32 xpad

abbrev z_valid : ℕ → ℕ → Bool
z_valid bpp unit =
    if bpp == 4
    then unit == 8
    else if bpp == 8 || (bpp == 16 || (bpp == 24 || bpp == 32))
    then unit == bpp
    else false

-- `format_valid`. The padding of a z-pixmap is not looked at.
unfoldable pub format_valid : ℕ → ℕ → ℕ → ImageFormat → ℕ → Bool
unfolding effective_format
format_valid depth bpp unit format xpad =
    if ltb bpp depth then false else elim (effective_format format bpp) [
      | xy_pixmap ↦ xy_valid bpp unit xpad
      | z_pixmap ↦ z_valid bpp unit
      | xy_bitmap ↦ false
    ]

unfoldable pub image_format_valid : Image → Bool
unfolding format_valid
image_format_valid i = format_valid i.depth i.bpp i.unit i.format i.scanline_pad

-- `xcb_image_annotate`, in 32-bit arithmetic.
unfoldable pub annotate : Image → Image
annotate i =
    let xy_stride = roundup i.width i.scanline_pad >>> 3 in
    let z_stride = roundup (mul32 i.width i.bpp) i.scanline_pad >>> 3 in
    elim (effective_format i.format i.bpp) [
      | z_pixmap ↦ record i { stride = z_stride; size = mul32 i.height z_stride }
      | _ ↦ record i { stride = xy_stride; size = mul32 (mul32 i.height xy_stride) i.depth }
    ]
