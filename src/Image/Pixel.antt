-- ===== src/Image/Pixel.antt =====
-- `xcb_image_put_pixel` and `xcb_image_get_pixel` of image/xcb_image.c, by address.
pub mod Write
pub mod Cell
pub mod Bytewise
pub mod Nibble
pub mod Z
pub mod Plane
pub mod Bitmap
use xcb_util.Prelude.{
  ℕ, zero, suc, ◌+◌, ◌-◌, ◌*◌, List, [], ◌∷◌, Bool, true, false, ◌&&◌, ◌||◌, not, ltb, ◌==◌,
  if◌then◌else◌, mul32, ◌>>>◌, ◌<<<◌, u8, not32, bit_and, bit_or, bit_xor, Option, some, none,
  Outcome, done, aborted, fault, ◌>>=◌, ◌>>◌, assert, load, store,
}
use xcb_util.Image.{
  Image, ImageOrder, lsb_first, msb_first, xy_bitmap, xy_pixmap, z_pixmap, same_order, bytes,
}
use xcb_util.Image.Format.{effective_format}

-- Is digit `p` of `m` set? `(m >> p) & 1`
abbrev pub is_set : ℕ → ℕ → Bool
is_set m p = not (bit_and (m >>> p) 1 == 0)

-- `row[k] = v; row[k + 1] = v'; ...`, each value cut to a byte.
unfoldable pub store_bytes : List ℕ → ℕ → List ℕ → Outcome (List ℕ)
store_bytes m p [] = done m
store_bytes m p (v ∷ vs) = do m' ← store m p (u8 v); store_bytes m' (p + 1) vs

-- `xy_image_byte`
unfoldable pub xy_image_byte : Image → ℕ → ℕ
xy_image_byte image x =
    let k = x >>> 3 in
    if same_order image.byte_order image.bit_order
    then k
    else if image.unit == 16
    then bit_xor k 1
    else if image.unit == 32
    then bit_xor k 3
    else k

-- `xy_image_bit`
unfoldable pub xy_image_bit : Image → ℕ → ℕ
xy_image_bit image x =
    let k = bit_and x 7 in elim (image.bit_order) [ msb_first ↦ 7 - k | lsb_first ↦ k ]

-- The loop over the planes, from plane `p - 1` down: `plane` is the address of its row, `step` the
-- size of a plane.
unfoldable pub put_planes : ℕ → ℕ → ℕ → ℕ → ℕ → ℕ → ℕ → List ℕ → Outcome (List ℕ)
put_planes plane_mask pixel byte bit step zero plane m = done m
put_planes plane_mask pixel byte bit step (suc p) plane m = do
  let mask = u8 (1 <<< bit)
  let this_bit = u8 (bit_and (pixel >>> p) 1 <<< bit)
  m' ← elim (is_set plane_mask p) [
    | true ↦ do
      v ← load m (plane + byte)
      store m (plane + byte) (u8 (bit_or (bit_and v (not32 mask)) this_bit))
    | false ↦ done m
  ]
  put_planes plane_mask pixel byte bit step p (plane + step) m'

unfoldable pub get_planes : ℕ → ℕ → ℕ → ℕ → ℕ → ℕ → List ℕ → ℕ → Outcome ℕ
get_planes plane_mask byte bit step zero plane m pixel = done pixel
get_planes plane_mask byte bit step (suc p) plane m pixel = do
  pixel' ← elim (is_set plane_mask p) [
    | true ↦ do v ← load m (plane + byte); done (bit_or (pixel <<< 1) (bit_and (v >>> bit) 1))
    | false ↦ done (pixel <<< 1)
  ]
  get_planes plane_mask byte bit step p (plane + step) m pixel'

-- `(x & 1) == (image->byte_order == XCB_IMAGE_ORDER_MSB_FIRST)`: the pixel is the high nibble.
abbrev pub high_nibble : ImageOrder → ℕ → Bool
high_nibble order x = elim order [ msb_first ↦ bit_and x 1 == 1 | lsb_first ↦ bit_and x 1 == 0 ]

-- The bytes of a pixel in the order of their addresses.
abbrev pub bytes_16 : ImageOrder → ℕ → List ℕ
bytes_16 lsb_first pixel = pixel ∷ pixel >>> 8 ∷ []
bytes_16 msb_first pixel = pixel >>> 8 ∷ pixel ∷ []

abbrev pub bytes_24 : ImageOrder → ℕ → List ℕ
bytes_24 lsb_first pixel = pixel ∷ pixel >>> 8 ∷ pixel >>> 16 ∷ []
bytes_24 msb_first pixel = pixel >>> 16 ∷ pixel >>> 8 ∷ pixel ∷ []

abbrev pub bytes_32 : ImageOrder → ℕ → List ℕ
bytes_32 lsb_first pixel = pixel ∷ pixel >>> 8 ∷ pixel >>> 16 ∷ pixel >>> 24 ∷ []
bytes_32 msb_first pixel = pixel >>> 24 ∷ pixel >>> 16 ∷ pixel >>> 8 ∷ pixel ∷ []

-- The `switch` over the bits per pixel of a z-pixmap, on the row at address `row`.
unfoldable pub put_z : ℕ → ImageOrder → ℕ → ℕ → ℕ → List ℕ → Outcome (List ℕ)
unfolding store_bytes
put_z bpp order row x pixel m =
    if bpp == 4
    then (do
      let shift = if high_nibble order x then 4 else 0
      let mask = 0xf <<< shift
      v ← load m (row + (x >>> 1))
      store m (row + (x >>> 1))
          (u8 (bit_or (bit_and v (not32 mask)) (bit_and pixel 0xf <<< shift))))
    else if bpp == 8
    then store_bytes m (row + x) (pixel ∷ [])
    else if bpp == 16
    then store_bytes m (row + (x <<< 1)) (bytes_16 order pixel)
    else if bpp == 24
    then store_bytes m (row + mul32 x 3) (bytes_24 order pixel)
    else if bpp == 32
    then store_bytes m (row + (x <<< 2)) (bytes_32 order pixel)
    else aborted

unfoldable pub get_z : ℕ → ImageOrder → ℕ → ℕ → List ℕ → Outcome ℕ
get_z bpp order row x m =
    if bpp == 4
    then (do
      v ← load m (row + (x >>> 1))
      done (if high_nibble order x then v >>> 4 else bit_and v 0xf))
    else if bpp == 8
    then load m (row + x)
    else if bpp == 16
    then (do
      b0 ← load m (row + (x <<< 1))
      b1 ← load m (row + (x <<< 1) + 1)
      done (elim order [ lsb_first ↦ bit_or b0 (b1 <<< 8) | msb_first ↦ bit_or (b0 <<< 8) b1 ]))
    else if bpp == 24
    then (do
      b0 ← load m (row + mul32 x 3)
      b1 ← load m (row + mul32 x 3 + 1)
      b2 ← load m (row + mul32 x 3 + 2)
      done (elim order [
        | lsb_first ↦ bit_or (bit_or b0 (b1 <<< 8)) (b2 <<< 16)
        | msb_first ↦ bit_or (bit_or (b0 <<< 16) (b1 <<< 8)) b2
      ]))
    else if bpp == 32
    then (do
      b0 ← load m (row + (x <<< 2))
      b1 ← load m (row + (x <<< 2) + 1)
      b2 ← load m (row + (x <<< 2) + 2)
      b3 ← load m (row + (x <<< 2) + 3)
      done (elim order [
        | lsb_first ↦ bit_or (bit_or (bit_or b0 (b1 <<< 8)) (b2 <<< 16)) (b3 <<< 24)
        | msb_first ↦ bit_or (bit_or (bit_or (b0 <<< 24) (b1 <<< 16)) (b2 <<< 8)) b3
      ]))
    else aborted

-- The bytes after `xcb_image_put_pixel` on an image whose bytes are `m`.
unfoldable pub put_bytes : Image → ℕ → ℕ → ℕ → List ℕ → Outcome (List ℕ)
put_bytes image x y pixel m =
    let row = mul32 y image.stride in
    let step = mul32 image.stride image.height in
    let planes =
      put_planes image.plane_mask pixel (xy_image_byte image x) (xy_image_bit image x) step
        image.bpp row m in
    let z = put_z image.bpp image.byte_order row x pixel m in
    elim (effective_format image.format image.bpp) [ z_pixmap ↦ z | _ ↦ planes ]

-- `xcb_image_put_pixel`: the guard compares by `>`, as the source does.
unfoldable pub put_pixel : Image → ℕ → ℕ → ℕ → Outcome Image
put_pixel image x y pixel =
    if ltb image.width x || ltb image.height y
    then done image
    else (do m ← put_bytes image x y pixel (bytes image); done (record image { data' = some m }))

-- `xcb_image_get_pixel`
unfoldable pub get_pixel : Image → ℕ → ℕ → Outcome ℕ
get_pixel image x y = do
  assert (ltb x image.width && ltb y image.height)
  let m = bytes image
  let row = mul32 y image.stride
  let step = mul32 image.stride image.height
  let z = get_z image.bpp image.byte_order row x m
  let planes =
      get_planes image.plane_mask (xy_image_byte image x) (xy_image_bit image x) step image.bpp row
        m 0
  elim (effective_format image.format image.bpp) [ z_pixmap ↦ z | _ ↦ planes ]
