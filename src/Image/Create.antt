-- ===== src/Image/Create.antt =====
-- `xcb_image_create` and the functions of image/xcb_image.c that choose its arguments from what
-- the server's setup says.
pub mod Storage
use xcb_util.Prelude.{
  ℕ, ◌^◌, ◌-◌, List, [], ◌∷◌, Bool, true, false, ◌&&◌, ◌||◌, not, ltb, ◌==◌, if◌then◌else◌, Option,
  some, none, u16,
}
use xcb_util.Bitops.{mask}
use xcb_util.Image.{
  Image, ImageFormat, xy_bitmap, xy_pixmap, z_pixmap, ImageOrder, lsb_first, msb_first,
}
use xcb_util.Image.Format.{format_valid, annotate}

-- `malloc`: whether the header can be allocated, and the storage for a size, if there is any.
pub record Malloc : Type 0 where
  pub header : Bool
  pub storage : ℕ → Option (List ℕ)

-- What the code reads of `xcb_format_t` and `xcb_setup_t`.
pub record PixmapFormat : Type 0 where
  pub depth : ℕ
  pub bits_per_pixel : ℕ
  pub scanline_pad : ℕ

pub record Setup : Type 0 where
  pub formats : List PixmapFormat
  pub scanline_pad : ℕ
  pub scanline_unit : ℕ
  pub byte_order : ImageOrder
  pub bit_order : ImageOrder

-- `find_format_by_depth`
unfoldable pub find_format_by_depth : List PixmapFormat → ℕ → Option PixmapFormat
find_format_by_depth [] depth = none
find_format_by_depth (f ∷ fs) depth =
    if f.depth == depth then some f else find_format_by_depth fs depth

-- The unit that `create` takes for 0.
unfoldable pub default_unit : ImageFormat → ℕ → ℕ
default_unit z_pixmap bpp = if bpp == 1 then 32 else if ltb bpp 8 then 8 else bpp
default_unit _ bpp = 32

abbrev pub is_null : Option (List ℕ) → Bool
is_null none = true
is_null (some m) = false

-- The header with its cached sizes, before `base` and `data` are set.
unfoldable pub header : ℕ → ℕ → ImageFormat → ℕ → ℕ → ℕ → ℕ → ImageOrder → ImageOrder → Image
header width height format xpad depth bpp unit byte_order bit_order = annotate (record {
  width = width;
  height = height;
  format = format;
  scanline_pad = xpad;
  depth = depth;
  bpp = bpp;
  unit = unit;
  plane_mask = mask depth;
  byte_order = byte_order;
  bit_order = bit_order;
  stride = 0;
  size = 0;
  base = false;
  data' = none;
})

-- The last test of `create`.
abbrev pub if_enough : Image → ℕ → Option Image
if_enough image bytes = if is_null image.data' || ltb bytes image.size then none else some image

-- The storage: the caller's data, the caller's block, or a new block.
unfoldable pub attach : Malloc → Image → Option (List ℕ) → ℕ → Option (List ℕ) → Option Image
attach malloc image base bytes none =
    let fresh = malloc.storage image.size in
    if is_null base
    then if_enough (record image { base = not (is_null fresh); data' = fresh }) image.size
    else if_enough (record image { base = true; data' = base }) bytes
attach malloc image base bytes (some m) =
    let bytes' = if is_null base && bytes == 0 then image.size else bytes in
    if_enough (record image { base = not (is_null base); data' = some m }) bytes'

-- `xcb_image_create`: `base` and `data` are null or the memory at that address, and `bytes` is the
-- size that the caller states. With `bytes` = ~0 and no memory the image is left without any.
unfoldable pub create :
    Malloc
    → ℕ
    → ℕ
    → ImageFormat
    → ℕ
    → ℕ
    → ℕ
    → ℕ
    → ImageOrder
    → ImageOrder
    → Option (List ℕ)
    → ℕ
    → Option (List ℕ)
    → Option Image
unfolding default_unit
create malloc width height format xpad depth bpp unit byte_order bit_order base bytes data' =
    let unit' = if unit == 0 then default_unit format bpp else unit in
    let image = header width height format xpad depth bpp unit' byte_order bit_order in
    if not (format_valid depth bpp unit' format xpad)
    then none
    else if not malloc.header
    then none
    else if is_null base && (is_null data' && bytes == 2 ^ 32 - 1)
    then some image
    else attach malloc image base bytes data'

-- `xcb_image_create_native`
unfoldable pub create_native :
    Malloc → Setup → ℕ → ℕ → ImageFormat → ℕ → Option (List ℕ) → ℕ → Option (List ℕ) → Option Image
create_native malloc setup width height format depth base bytes data' =
    let xy =
      create malloc width height format setup.scanline_pad depth depth setup.scanline_unit
        setup.byte_order setup.bit_order base bytes data' in
    let found = find_format_by_depth setup.formats depth in
    let xy_checked : Option Image =
      if ltb 1 depth then (elim found [ none ↦ none | some f ↦ xy ]) else xy in
    let z : Option Image = elim found [
      | none ↦ none
      | some f ↦
          create malloc width height format f.scanline_pad f.depth f.bits_per_pixel 0
            setup.byte_order msb_first base bytes data'
    ] in
    elim format [
      | xy_bitmap ↦ if depth == 1 then xy_checked else none
      | xy_pixmap ↦ xy_checked
      | z_pixmap ↦ if depth == 1 then xy_checked else z
    ]

-- `xcb_image_create_from_bitmap_data`: width and height are cut to 16 bits by the call.
unfoldable pub create_from_bitmap_data : Malloc → Option (List ℕ) → ℕ → ℕ → Option Image
create_from_bitmap_data malloc data' width height =
    create malloc (u16 width) (u16 height) xy_pixmap 8 1 1 8 lsb_first lsb_first none 0 data'
