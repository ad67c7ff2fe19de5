-- ===== src/Image/Convert.antt =====
-- `xcb_image_convert`, `xcb_image_subimage` and the helpers of image/xcb_image.c that they call.
-- The two images of a call do not share storage.
pub mod Copy
use xcb_util.Prelude.{
  ℕ, zero, suc, ◌+◌, ◌-◌, ◌*◌, List, [], ◌∷◌, Bool, true, false, ◌&&◌, ◌||◌, not, ltb, leb, ◌==◌,
  if◌then◌else◌, mul32, add32, ◌>>>◌, ◌<<<◌, u8, u16, bit_or, bit_xor, Option, some, none, length,
  Outcome, done, aborted, fault, ◌>>=◌, ◌>>◌, assert, load, store, memcpy,
}
use xcb_util.Bitops.{bit_reverse}
use xcb_util.Image.{
  Image, ImageOrder, ImageFormat, lsb_first, msb_first, xy_bitmap, xy_pixmap, z_pixmap, same_order,
  same_format, bytes,
}
use xcb_util.Image.Format.{effective_format, image_format_valid}
use xcb_util.Image.Pixel.{put_pixel, get_pixel}
use xcb_util.Image.Create.{Malloc, create}

-- One byte of `swap_image`.
unfoldable pub swap_byte : Bool → Bool → ℕ → Outcome ℕ
swap_byte bitswap nibbleswap b = do
  b1 ← (if bitswap then (do r ← bit_reverse b 8; done (u8 r)) else done b)
  done (if nibbleswap then u8 (bit_or (b1 <<< 4) (b1 >>> 4)) else b1)

-- The inner loop of `swap_image` at byte `s` of a row, with `left` rounds to go. The guard compares
-- by `>`, as the source does.
unfoldable pub swap_row : ℕ → ℕ → Bool → Bool → List ℕ → ℕ → ℕ → ℕ → ℕ → List ℕ → Outcome (List ℕ)
swap_row dst_stride byteswap bitswap nibbleswap src from to zero s dst = done dst
swap_row dst_stride byteswap bitswap nibbleswap src from to (suc left) s dst = do
  let d = bit_xor s byteswap
  dst' ←
      (if ltb dst_stride d then done dst else (do
        b ← load src (from + s)
        b' ← swap_byte bitswap nibbleswap b
        store dst (to + d) b'))
  swap_row dst_stride byteswap bitswap nibbleswap src from to left (s + 1) dst'

-- `swap_image`
unfoldable pub swap_image : ℕ → ℕ → ℕ → Bool → Bool → List ℕ → ℕ → ℕ → ℕ → List ℕ → Outcome (List ℕ)
swap_image src_stride dst_stride byteswap bitswap nibbleswap src from to zero dst = done dst
swap_image src_stride dst_stride byteswap bitswap nibbleswap src from to (suc height) dst = do
  dst' ← swap_row dst_stride byteswap bitswap nibbleswap src from to src_stride 0 dst
  swap_image src_stride dst_stride byteswap bitswap nibbleswap src (from + src_stride)
      (to + dst_stride) height dst'

-- `flip` and `flip | (flip << 1)`
abbrev pub flip_16 : Bool → ℕ
flip_16 flip = if flip then 1 else 0

abbrev pub flip_32 : Bool → ℕ
flip_32 flip = bit_or (flip_16 flip) (flip_16 flip <<< 1)

-- `byte_order`
unfoldable pub byte_order : Image → ℕ
byte_order i =
    let flip = same_order i.byte_order msb_first in
    if i.bpp == 16 then flip_16 flip else if i.bpp == 32 then flip_32 flip else 0

-- `bit_order`
unfoldable pub bit_order : Image → ℕ
bit_order i =
    let flip = not (same_order i.byte_order i.bit_order) in
    if i.unit == 16 then flip_16 flip else if i.unit == 32 then flip_32 flip else 0

-- `conversion_byte_swap`
unfoldable pub conversion_byte_swap : Image → Image → ℕ
conversion_byte_swap src dst = elim (effective_format src.format src.bpp) [
  | xy_pixmap ↦ bit_xor (bit_order src) (bit_order dst)
  | _ ↦ bit_xor (byte_order src) (byte_order dst)
]

-- The two loops over the pixels: `left` columns from `x` on, and `left` rows from `y` on; the pixel
-- at (x, y) of the target is the one at (x0 + x, y0 + y) of the source.
unfoldable pub copy_row : Image → ℕ → ℕ → ℕ → ℕ → ℕ → Image → Outcome Image
copy_row src x0 y0 y zero x dst = done dst
copy_row src x0 y0 y (suc left) x dst = do
  pixel ← get_pixel src (add32 x0 x) (add32 y0 y)
  dst' ← put_pixel dst x y pixel
  copy_row src x0 y0 y left (x + 1) dst'

unfoldable pub copy_rows : Image → ℕ → ℕ → ℕ → ℕ → ℕ → Image → Outcome Image
copy_rows src x0 y0 width zero y dst = done dst
copy_rows src x0 y0 width (suc left) y dst = do
  dst' ← copy_row src x0 y0 y width 0 dst
  copy_rows src x0 y0 width left (y + 1) dst'

-- Do the two images store their pixels alike?
unfoldable pub same_layout : Image → Image → Bool
same_layout src dst =
    src.unit == dst.unit
    && (src.scanline_pad == dst.scanline_pad
        && (same_order src.byte_order dst.byte_order
            && (same_format (effective_format src.format src.bpp) z_pixmap
                || same_order src.bit_order dst.bit_order)))

-- The swaps that turn one layout into the other.
unfoldable pub convert_layout : Image → Image → Outcome (List ℕ)
convert_layout src dst =
    let is_z = same_format (effective_format src.format src.bpp) z_pixmap in
    let nibbleswap = is_z && (src.bpp == 4 && not (same_order src.byte_order dst.byte_order)) in
    let bitswap = not is_z && not (same_order src.bit_order dst.bit_order) in
    let height = if is_z then src.height else mul32 src.height src.depth in
    swap_image src.stride dst.stride (conversion_byte_swap src dst) bitswap nibbleswap (bytes src) 0
      0 height (bytes dst)

-- `xcb_image_convert`: `none` where the sizes differ.
unfoldable pub convert : Image → Image → Outcome (Option Image)
convert src dst =
    let alike =
      same_format (effective_format src.format src.bpp) (effective_format dst.format dst.bpp)
      && src.bpp == dst.bpp in
    let copied =
      if same_layout src dst
      then memcpy src.size (bytes src) (bytes dst)
      else convert_layout src dst in
    let by_layout : Outcome (Option Image) = (do
      m ← copied
      done (some (record dst { data' = some m }))) in
    let by_pixel : Outcome (Option Image) = (do
      dst' ← copy_rows src 0 0 src.width src.height 0 dst
      done (some dst')) in
    let differ = not (src.width == dst.width) || not (src.height == dst.height) in
    assert (image_format_valid src)
    >> (assert (image_format_valid dst)
        >> (if differ then done none else if alike then by_layout else by_pixel))

-- `xcb_image_subimage`: the sums and the call's 16-bit width and height wrap. Here too the loops
-- run over the full 32-bit numbers.
unfoldable pub subimage :
    Malloc → Image → ℕ → ℕ → ℕ → ℕ → Option (List ℕ) → ℕ → Option (List ℕ) → Outcome (Option Image)
subimage malloc image x y width height base n data' =
    let created =
      create malloc (u16 width) (u16 height) image.format image.scanline_pad image.depth image.bpp
        image.unit image.byte_order image.bit_order base n data' in
    if ltb image.width (add32 x width)
    then done none
    else if ltb image.height (add32 y height)
    then done none
    else elim created [
      | none ↦ done none
      | some result ↦ (do result' ← copy_rows image x y width height 0 result; done (some result'))
    ]
