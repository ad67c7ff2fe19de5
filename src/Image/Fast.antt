-- ===== src/Image/Fast.antt =====
-- The inline functions of image/xcb_pixel.h, which check nothing. Memory is accessed by address, as in
-- the general functions; a sum within an index wraps, a sum with a pointer does not.
pub mod Agree
pub mod Xy
use xcb_util.Prelude.{
  ℕ, ◌+◌, List, [], ◌∷◌, add32, sub32, mul32, not32, u8, ◌<<<◌, ◌>>>◌, bit_and, bit_or, Option,
  some, Outcome, done, ◌>>=◌, load, store,
}
use xcb_util.Bitops.{mask}
use xcb_util.Image.{Image, bytes}

-- `*bp = (*bp & ~m) | p`
abbrev pub put_bit : Image → ℕ → ℕ → ℕ → Outcome Image
put_bit image address bit pixel = do
  v ← load (bytes image) address
  m ←
      store (bytes image) address
        (u8 (bit_or (bit_and v (not32 (u8 (1 <<< bit)))) (u8 (pixel <<< bit))))
  done (record image { data' = some m })

-- The address and the place of a bit.
abbrev pub address_m : Image → ℕ → ℕ → ℕ
address_m image x y =
    let unit = bit_and (x >>> 3) (not32 (mask 2)) in
    let byte = sub32 (mask 2) (bit_and (x >>> 3) (mask 2)) in
    mul32 y image.stride + bit_or unit byte

abbrev pub bit_m : ℕ → ℕ
bit_m x = sub32 (mask 3) (bit_and x (mask 3))

abbrev pub bit_l : ℕ → ℕ
bit_l x = bit_and x (mask 3)

unfoldable pub put_pixel_xy32m : Image → ℕ → ℕ → ℕ → Outcome Image
put_pixel_xy32m image x y pixel = put_bit image (address_m image x y) (bit_m x) pixel

unfoldable pub put_pixel_xy32l : Image → ℕ → ℕ → ℕ → Outcome Image
put_pixel_xy32l image x y pixel = put_bit image (mul32 y image.stride + (x >>> 3)) (bit_l x) pixel

unfoldable pub get_pixel_xy32m : Image → ℕ → ℕ → Outcome ℕ
get_pixel_xy32m image x y = do
  v ← load (bytes image) (address_m image x y)
  done (bit_and (v >>> bit_m x) 1)

unfoldable pub get_pixel_xy32l : Image → ℕ → ℕ → Outcome ℕ
get_pixel_xy32l image x y = do
  v ← load (bytes image) (mul32 y image.stride + (x >>> 3))
  done (bit_and (v >>> bit_l x) 1)

-- The pixel is cut to a byte by the call.
unfoldable pub put_pixel_z8 : Image → ℕ → ℕ → ℕ → Outcome Image
put_pixel_z8 image x y pixel = do
  m ← store (bytes image) (add32 x (mul32 y image.stride)) (u8 pixel)
  done (record image { data' = some m })

unfoldable pub get_pixel_z8 : Image → ℕ → ℕ → Outcome ℕ
get_pixel_z8 image x y = load (bytes image) (add32 x (mul32 y image.stride))

-- `row[x << 2] = a; row[(x << 2) + 1] = b; ...`, each value cut to a byte.
abbrev pub put_four : Image → ℕ → ℕ → ℕ → ℕ → ℕ → Outcome Image
put_four image p a b c d = do
  m0 ← store (bytes image) p (u8 a)
  m1 ← store m0 (p + 1) (u8 b)
  m2 ← store m1 (p + 1 + 1) (u8 c)
  m3 ← store m2 (p + 1 + 1 + 1) (u8 d)
  done (record image { data' = some m3 })

unfoldable pub put_pixel_z32m : Image → ℕ → ℕ → ℕ → Outcome Image
put_pixel_z32m image x y pixel =
    put_four image (mul32 y image.stride + (x <<< 2)) (pixel >>> 24) (pixel >>> 16) (pixel >>> 8)
      pixel

unfoldable pub put_pixel_z32l : Image → ℕ → ℕ → ℕ → Outcome Image
put_pixel_z32l image x y pixel =
    put_four image (mul32 y image.stride + (x <<< 2)) pixel (pixel >>> 8) (pixel >>> 16)
      (pixel >>> 24)

unfoldable pub get_pixel_z32m : Image → ℕ → ℕ → Outcome ℕ
get_pixel_z32m image x y = do
  let p = mul32 y image.stride + (x <<< 2)
  b0 ← load (bytes image) p
  b1 ← load (bytes image) (p + 1)
  b2 ← load (bytes image) (p + 2)
  b3 ← load (bytes image) (p + 3)
  done (bit_or (bit_or (bit_or (b0 <<< 24) (b1 <<< 16)) (b2 <<< 8)) b3)

unfoldable pub get_pixel_z32l : Image → ℕ → ℕ → Outcome ℕ
get_pixel_z32l image x y = do
  let p = mul32 y image.stride + (x <<< 2)
  b0 ← load (bytes image) p
  b1 ← load (bytes image) (p + 1)
  b2 ← load (bytes image) (p + 2)
  b3 ← load (bytes image) (p + 3)
  done (bit_or (bit_or (bit_or b0 (b1 <<< 8)) (b2 <<< 16)) (b3 <<< 24))
