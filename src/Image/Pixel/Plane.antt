-- ===== src/Image/Pixel/Plane.antt =====
-- The pixel functions on images of one bit per pixel: one bit of one byte is read and written.
use xcb_util.Prelude.{
  ℕ, zero, suc, ◌+◌, ◌-◌, ◌<◌, ◌≡◌, refl, ap, ◌∙◌, true, List, not32, mul32, u8, ◌<<<◌, ◌>>>◌,
  bit_and, bit_or, done, ◌>>=◌, load, store, bind_assoc, bind_done, arith,
}
use Prim.Native.Nat.{differ}
use xcb_util.Bits.{bit_and_mask, zero-bit_or}
use xcb_util.Image.{Image, ImageFormat, xy_bitmap, xy_pixmap, z_pixmap, bytes}
use mathlib.Core.Path.{fun_ext}
use xcb_util.Image.Format.{effective_format}
use xcb_util.Image.Pixel.{
  put_pixel, get_pixel, put_bytes, put_planes, get_planes, is_set, xy_image_byte, xy_image_bit,
}
use xcb_util.Image.Fast.Agree.{inside_get, inside_put}
use xcb_util.Image.Fast.{put_bit}

pub differ_one : (d : ℕ) → d < 2 → differ d 1 ≡ 1 - d
differ_one zero h = refl
differ_one (suc zero) h = refl
differ_one (suc (suc d)) h = absurd (omega arith)

-- Only the first digit of a pixel is looked at.
first_digit : (pixel : ℕ) → pixel < 2 → bit_and (pixel >>> 0) 1 ≡ pixel
first_digit pixel h = omega (arith, bit_and_mask 1 (pixel >>> 0))

-- One plane, the first.
module _ (planes plane_mask byte bit step row : ℕ) (m : List ℕ) (one : planes ≡ 1)
    (set : is_set plane_mask 0 ≡ true) where
  one_plane_get :
      get_planes plane_mask byte bit step planes row m 0
      ≡ (load m (row + byte) >>= λ v. done (bit_and (v >>> bit) 1))
  unfolding get_planes
  one_plane_get =
      rw (one, set)
        (bind_done (load m (row + byte) >>= λ v. done (bit_or 0 (bit_and (v >>> bit) 1)))
          ∙ ap (λ f. load m (row + byte) >>= f)
              (fun_ext λ v. ap done (zero-bit_or (bit_and (v >>> bit) 1))))

  one_plane_put :
      (pixel : ℕ)
      → pixel < 2
      → put_planes plane_mask pixel byte bit step planes row m ≡ (
          load m (row + byte) >>= λ v.
          store m
            (row + byte)
            (u8 (bit_or (bit_and v (not32 (u8 (1 <<< bit)))) (u8 (pixel <<< bit)))))
  unfolding put_planes
  one_plane_put pixel small = rw (one, set, first_digit pixel small) (bind_done _)

is_xy : (f : ImageFormat) (bpp : ℕ) → bpp ≡ 1 → effective_format f bpp ≡ xy_pixmap
unfolding effective_format
is_xy xy_bitmap bpp e = refl
is_xy xy_pixmap bpp e = refl
is_xy z_pixmap bpp e = rw e

module _ (image : Image) (x y pixel : ℕ) (one : image.bpp ≡ 1)
    (plane : is_set image.plane_mask 0 ≡ true) (hx : x < image.width) (hy : y < image.height) where
  -- Both general functions at the byte and the bit of the position.
  pub general_get : get_pixel image x y ≡ (
      load (bytes image) (mul32 y image.stride + xy_image_byte image x) >>= λ v.
      done (bit_and (v >>> xy_image_bit image x) 1))
  unfolding get_pixel
  general_get =
      rw (inside_get image x y hx hy, is_xy image.format image.bpp one)
        (one_plane_get image.bpp image.plane_mask (xy_image_byte image x) (xy_image_bit image x)
          (mul32 image.stride image.height) (mul32 y image.stride) (bytes image) one plane)

  pub general_put :
      pixel < 2
      → put_pixel image x y pixel
        ≡ put_bit image (mul32 y image.stride + xy_image_byte image x) (xy_image_bit image x) pixel
  unfolding put_pixel put_bytes
  general_put small =
      rw
        (
          inside_put image x y hx hy,
          put_bytes,
          is_xy image.format image.bpp one,
          one_plane_put image.bpp image.plane_mask (xy_image_byte image x) (xy_image_bit image x)
              (mul32 image.stride image.height) (mul32 y image.stride) (bytes image) one plane pixel
              small,
        )
        (bind_assoc (load (bytes image) _) _ _)
