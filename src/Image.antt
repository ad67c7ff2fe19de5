-- ===== src/Image.antt =====
-- image/xcb_image.h and image/xcb_image.c: the image header and what it points at. The children
-- follow the functions of image/xcb_image.c and prove what they do.
pub mod Format
pub mod Pixel
pub mod Create
pub mod Convert
pub mod Fast
pub mod Requests
use xcb_util.Prelude.{ℕ, List, [], Bool, Option, none, some}

-- `xcb_image_format_t` and `xcb_image_order_t` have these values; the `default: assert(0)` of a
-- switch over all of them is not reached.
pub data ImageFormat : Type 0 where
  xy_bitmap xy_pixmap z_pixmap : ImageFormat

pub data ImageOrder : Type 0 where
  lsb_first msb_first : ImageOrder

-- `xcb_image_t`. The field `data` is `none` for a null pointer, and else the bytes from that
-- address to the end of the storage, however many the header says; `base` tells whether the image
-- has storage of its own to free.
pub record Image : Type 0 where
  pub width : ℕ
  pub height : ℕ
  pub format : ImageFormat
  pub scanline_pad : ℕ
  pub depth : ℕ
  pub bpp : ℕ
  pub unit : ℕ
  pub plane_mask : ℕ
  pub byte_order : ImageOrder
  pub bit_order : ImageOrder
  pub stride : ℕ
  pub size : ℕ
  pub base : Bool
  pub data' : Option (List ℕ)

-- The bytes that can be accessed: none through a null pointer.
abbrev pub bytes : Image → List ℕ
bytes image = elim (image.data') [ none ↦ [] | some m ↦ m ]

-- `==` of the two orders.
abbrev pub same_order : ImageOrder → ImageOrder → Bool
same_order lsb_first lsb_first = Bool.true
same_order msb_first msb_first = Bool.true
same_order _ _ = Bool.false

abbrev pub same_format : ImageFormat → ImageFormat → Bool
same_format xy_bitmap xy_bitmap = Bool.true
same_format xy_pixmap xy_pixmap = Bool.true
same_format z_pixmap z_pixmap = Bool.true
same_format _ _ = Bool.false
