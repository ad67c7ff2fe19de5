-- ===== src/Image/Pixel/Z.antt =====
-- `xcb_image_put_pixel` and `xcb_image_get_pixel` on z-pixmaps of every depth and both byte orders.
use xcb_util.Prelude.{
  ℕ, ◌+◌, ◌*◌, ◌%◌, ◌^◌, ◌≤◌, ◌<◌, ◌≡◌, refl, sym, ◌∙◌, subst, ◌⊎◌, inl, inr, ◌≢◌, List, arith,
  length, true, false, ltb, some, done, dec_lt, mul32, lt→ltb,
}
use xcb_util.Image.{Image, ImageOrder, z_pixmap, bytes}
use xcb_util.Image.Format.{effective_format, image_format_valid}
use xcb_util.Image.Pixel.{get_z, put_bytes, put_pixel, get_pixel}
use xcb_util.Image.Pixel.Cell.{IsInside, IsApart, IsBytes, IsPut}
use xcb_util.Image.Pixel.Bytewise.{one_byte, two_bytes, three_bytes, four_bytes}
use xcb_util.Image.Pixel.Bytewise.Cells.{bytewise-IsPut}
use xcb_util.Image.Pixel.Nibble.{nibble-IsPut}

abbrev pub IsZBpp : ℕ → Type 0
IsZBpp b = (b ≡ 4) ⊎ (b ≡ 8) ⊎ (b ≡ 16) ⊎ (b ≡ 24) ⊎ (b ≡ 32)

-- A valid z-pixmap whose rows hold its pixels and whose storage holds its rows, with an area that
-- 32 bits can count. `annotate` and `create` establish this.
pub record IsZImage (image : Image) : Type 0 where
  pub valid : image_format_valid image ≡ true
  pub is_z : effective_format image.format image.bpp ≡ z_pixmap
  pub small : (image.width < 2 ^ 16) × (image.height < 2 ^ 16)
  pub row_fits : image.width * image.bpp ≤ 8 * image.stride
  pub storage : image.height * image.stride ≤ length (bytes image)
  pub no_wrap : image.height * image.stride < 2 ^ 32
  pub are_bytes : IsBytes (bytes image)

pub z_bpp :
    (image : Image)
    → image_format_valid image ≡ true
    → effective_format image.format image.bpp ≡ z_pixmap
    → IsZBpp image.bpp
unfolding image_format_valid
z_bpp image v z = ground arith

module _ (order : ImageOrder) (row x pixel : ℕ) (m : List ℕ) (small : x < 2 ^ 16) where
  abbrev Puts : ℕ → Type 0
  Puts b = IsInside b row x m → (m' : List ℕ) × IsPut b order row x pixel m m'

  z_put : (b : ℕ) → IsZBpp b → Puts b
  z_put b (inl e) = subst Puts (sym e) (λ i. (_, nibble-IsPut order row x pixel m small i))
  z_put b (inr (inl e)) =
      subst Puts (sym e)
        (λ i. (_, bytewise-IsPut 8 order 1 (one_byte order) refl row x pixel m small i))
  z_put b (inr (inr (inl e))) =
      subst Puts (sym e)
        (λ i. (_, bytewise-IsPut 16 order 2 (two_bytes order) refl row x pixel m small i))
  z_put b (inr (inr (inr (inl e)))) =
      subst Puts (sym e)
        (λ i. (_, bytewise-IsPut 24 order 3 (three_bytes order) refl row x pixel m small i))
  z_put b (inr (inr (inr (inr e)))) =
      subst Puts (sym e)
        (λ i. (_, bytewise-IsPut 32 order 4 (four_bytes order) refl row x pixel m small i))

-- The cells of an image: each lies in its row, and two of them are apart.
pub row_inside : (y h s : ℕ) → y < h → y * s + s ≤ h * s
row_inside y h s p = grind arith

cell_inside : (x w b s : ℕ) → x < w → w * b ≤ 8 * s → x * b + b ≤ 8 * s
cell_inside x w b s p q = grind arith

cells-IsApart :
    (x y x' y' w b s : ℕ)
    → w * b ≤ 8 * s
    → x < w
    → x' < w
    → (x' ≢ x) ⊎ (y' ≢ y)
    → IsApart b (y * s) x (y' * s) x'
cells-IsApart x y x' y' w b s fits hx hx' ne = elim (dec_lt y y') [
  | yes p ↦ inl (omega (arith, row_inside y y' s p, cell_inside x w b s hx fits))
  | no p ↦ elim (dec_lt y' y) [
    | yes q ↦ inr (omega (arith, row_inside y' y s q, cell_inside x' w b s hx' fits))
    | no q ↦
        let e : y' ≡ y = omega arith in
        rw e (elim (dec_lt x x') [
          | yes r ↦ inl (omega (arith, row_inside x x' b r))
          | no r ↦ inr (omega (arith, row_inside x' x b (omega arith)))
        ])
  ]
]

not_above : (w x : ℕ) → x ≤ w → ltb w x ≡ false
not_above w x h = ground arith

done-injective {ℓ} : {A : Type ℓ} {a b : A} → done a ≡ done b → a ≡ b
done-injective e = cc

get_pixel-z :
    (image : Image) (x y : ℕ)
    → effective_format image.format image.bpp ≡ z_pixmap
    → x < image.width
    → y < image.height
    → mul32 y image.stride ≡ y * image.stride
    → get_pixel image x y ≡ get_z image.bpp image.byte_order (y * image.stride) x (bytes image)
unfolding get_pixel
get_pixel-z image x y is_z hx hy row = rw (lt→ltb _ _ hx, lt→ltb _ _ hy, is_z, row)

module _ (image : Image) (z : IsZImage image) where
  row_address : (y : ℕ) → y < image.height → mul32 y image.stride ≡ y * image.stride
  row_address y h = omega (arith, row_inside y image.height image.stride h, z.no_wrap)

  inside :
      (x y : ℕ)
      → x < image.width
      → y < image.height
      → IsInside image.bpp (y * image.stride) x (bytes image)
  inside x y hx hy = omega (
    arith,
    row_inside y image.height image.stride hy,
    cell_inside x image.width image.bpp image.stride hx z.row_fits,
    z.storage,
  )

  module _ (x y pixel : ℕ) (hx : x < image.width) (hy : y < image.height) where
    put :
        (m' : List ℕ) × IsPut image.bpp image.byte_order (y * image.stride) x pixel (bytes image) m'
    put =
        z_put image.byte_order (y * image.stride) x pixel (bytes image) (omega (arith, z.small))
          image.bpp (z_bpp image z.valid z.is_z) (inside x y hx hy)

    put_pixel-z : put_pixel image x y pixel ≡ done (record image { data' = some put.0 })
    unfolding put_pixel put_bytes
    put_pixel-z = rw (
      not_above image.width x (omega arith),
      not_above image.height y (omega arith),
      put_bytes,
      z.is_z,
      row_address y hy,
      put.1.stored,
    )

-- The image after a pixel is put: only its bytes differ, and it is well-formed again.
pub put_pixel-IsZImage :
    (image : Image) (x y pixel : ℕ)
    → IsZImage image
    → x < image.width
    → y < image.height
    → (m' : List ℕ) × (put_pixel image x y pixel ≡ done (record image { data' = some m' }))
      × IsZImage (record image { data' = some m' })
      × (get_pixel (record image { data' = some m' }) x y ≡ done (pixel % 2 ^ image.bpp))
unfolding image_format_valid
put_pixel-IsZImage image x y pixel z hx hy =
    let p = put image z x y pixel hx hy in
    let after : Image = record image { data' = some p.0 } in
    (
      p.0,
      put_pixel-z image z x y pixel hx hy,
      record {
        valid = z.valid;
        is_z = z.is_z;
        small = z.small;
        row_fits = z.row_fits;
        storage = rw p.1.same_length z.storage;
        no_wrap = z.no_wrap;
        are_bytes = p.1.is_bytes z.are_bytes;
      },
      get_pixel-z after x y z.is_z hx hy (row_address image z y hy) ∙ p.1.reads_back,
    )

-- `xcb_image_put_pixel` on a z-pixmap of 4, 8, 16, 24 or 32 bits per pixel and either byte order,
-- at a position inside it, succeeds, and `xcb_image_get_pixel` then returns the pixel that was put,
-- cut to the bits of a pixel.
pub get-put_z :
    (image : Image) (x y pixel : ℕ)
    → IsZImage image
    → x < image.width
    → y < image.height
    → (image' : Image) × (put_pixel image x y pixel ≡ done image')
      × (get_pixel image' x y ≡ done (pixel % 2 ^ image.bpp))
get-put_z image x y pixel z hx hy =
    let p = put_pixel-IsZImage image x y pixel z hx hy in
    (record image { data' = some p.0 }, p.1, p.3)

-- Putting a pixel into a z-pixmap changes no other pixel, of its row or of another: whatever
-- `xcb_image_put_pixel` returns, `xcb_image_get_pixel` reads there what it read before.
pub get-put_z_other :
    (image image' : Image) (x y x' y' pixel : ℕ)
    → IsZImage image
    → x < image.width
    → y < image.height
    → x' < image.width
    → y' < image.height
    → (x' ≢ x) ⊎ (y' ≢ y)
    → put_pixel image x y pixel ≡ done image'
    → get_pixel image' x' y' ≡ get_pixel image x' y'
get-put_z_other image image' x y x' y' pixel z hx hy hx' hy' ne e =
    let p = put image z x y pixel hx hy in
    let after : Image = record image { data' = some p.0 } in
    let same : image' ≡ after = done-injective (sym e ∙ put_pixel-z image z x y pixel hx hy) in
    rw same (
      get_pixel-z after x' y' z.is_z hx' hy' (row_address image z y' hy')
      ∙ p.1.others z.are_bytes (y' * image.stride) x' (omega (arith, z.small))
          (inside image z x' y' hx' hy')
          (cells-IsApart x y x' y' image.width image.bpp image.stride z.row_fits hx hx' ne)
      ∙ sym (get_pixel-z image x' y' z.is_z hx' hy' (row_address image z y' hy')))
