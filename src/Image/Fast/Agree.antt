-- ===== src/Image/Fast/Agree.antt =====
-- The fast functions do what the general ones do, on the images that they are for.
use xcb_util.Prelude.{
  ℕ, ◌+◌, ◌*◌, ◌^◌, ◌≤◌, ◌<◌, ◌≡◌, refl, sym, subst, ap, ◌∙◌, ◌⊎◌, inl, inr, true, false, ◌&&◌,
  ◌||◌, ltb, ◌==◌, ==_iff, if◌then◌else◌, add32, mul32, u8, ◌<<<◌, ◌>>>◌, some, Outcome, done,
  ◌>>=◌, store, bind_assoc, arith,
}
use native.Mathlib.Nat.{mul-le-mul_right, add-mul}
use mathlib.Core.Path.{fun_ext}
use mathlib.Core.List.{List, [], ◌∷◌}
use xcb_util.Image.{Image, ImageOrder, msb_first, lsb_first, z_pixmap, bytes}
use xcb_util.Image.Format.{effective_format}
use xcb_util.Image.Pixel.{put_pixel, get_pixel, put_bytes, put_z, get_z, store_bytes}
use xcb_util.Image.Pixel.Z.{IsZImage}
use xcb_util.Image.Fast.{
  put_pixel_z8, get_pixel_z8, put_pixel_z32m, put_pixel_z32l, get_pixel_z32m, get_pixel_z32l,
  put_four,
}

-- The function for an image of 8 or of 32 bits per pixel.
abbrev pub fast_get_z : Image → ℕ → ℕ → Outcome ℕ
fast_get_z image x y = if image.bpp == 8 then get_pixel_z8 image x y else elim (image.byte_order) [
  | msb_first ↦ get_pixel_z32m image x y
  | lsb_first ↦ get_pixel_z32l image x y
]

abbrev pub fast_put_z : Image → ℕ → ℕ → ℕ → Outcome Image
fast_put_z image x y pixel =
    if image.bpp == 8 then put_pixel_z8 image x y pixel else elim (image.byte_order) [
      | msb_first ↦ put_pixel_z32m image x y pixel
      | lsb_first ↦ put_pixel_z32l image x y pixel
    ]

four_binds :
    (a : Outcome (List ℕ)) (b c d : List ℕ → Outcome (List ℕ)) (k : List ℕ → Outcome Image)
    → ((do m0 ← a; m1 ← b m0; m2 ← c m1; m3 ← d m2; done m3) >>= k)
      ≡ (do m0 ← a; m1 ← b m0; m2 ← c m1; m3 ← d m2; k m3)
four_binds a b c d k =
    bind_assoc a _ k
    ∙ ap (λ f. a >>= f)
        (fun_ext λ m0.
          bind_assoc (b m0) _ k
          ∙ ap (λ f. b m0 >>= f)
              (fun_ext λ m1.
                bind_assoc (c m1) _ k
                ∙ ap (λ f. c m1 >>= f) (fun_ext λ m2. bind_assoc (d m2) done k)))

-- The four stores, then the image that has the bytes.
four_stores :
    (image : Image) (p a b c d : ℕ)
    → (store_bytes (bytes image) p (a ∷ b ∷ c ∷ d ∷ []) >>= λ m.
        done (record image { data' = some m }))
      ≡ put_four image p a b c d
unfolding store_bytes
four_stores image p a b c d =
    four_binds (store (bytes image) p (u8 a)) (λ m. store m (p + 1) (u8 b))
      (λ m. store m (p + 1 + 1) (u8 c)) (λ m. store m (p + 1 + 1 + 1) (u8 d))
      (λ m. done (record image { data' = some m }))

pub inside_get :
    (image : Image) (x y : ℕ)
    → x < image.width
    → y < image.height
    → (ltb x image.width && ltb y image.height) ≡ true
inside_get image x y hx hy = ground arith

pub inside_put :
    (image : Image) (x y : ℕ)
    → x < image.width
    → y < image.height
    → (ltb image.width x || ltb image.height y) ≡ false
inside_put image x y hx hy = ground arith

module _ (image : Image) (x y pixel : ℕ) (z : effective_format image.format image.bpp ≡ z_pixmap)
    (hx : x < image.width) (hy : y < image.height) where
  general_get :
      get_pixel image x y ≡ get_z image.bpp image.byte_order (mul32 y image.stride) x (bytes image)
  unfolding get_pixel
  general_get = rw (inside_get image x y hx hy, z)

  general_put : put_pixel image x y pixel ≡ (
      put_z image.bpp image.byte_order (mul32 y image.stride) x pixel (bytes image) >>= λ m.
      done (record image { data' = some m }))
  unfolding put_pixel put_bytes
  general_put = rw (inside_put image x y hx hy, put_bytes, z)

  agree_8 :
      image.bpp ≡ 8
      → mul32 y image.stride + x < 2 ^ 32
      → (get_pixel_z8 image x y ≡ get_pixel image x y)
        × (put_pixel_z8 image x y pixel ≡ put_pixel image x y pixel)
  unfolding get_pixel_z8 put_pixel_z8 put_z get_z store_bytes
  agree_8 e small =
      let a : add32 x (mul32 y image.stride) ≡ mul32 y image.stride + x = omega arith in
      (
        sym (general_get ∙ rw (e, a)),
        sym (
            general_put
            ∙ rw (e, a)
                (bind_assoc (store (bytes image) (mul32 y image.stride + x) (u8 pixel)) done
                  (λ m. done (record image { bpp = 8; data' = some m })))),
      )

  agree_32m :
      image.bpp ≡ 32
      → image.byte_order ≡ msb_first
      → (get_pixel_z32m image x y ≡ get_pixel image x y)
        × (put_pixel_z32m image x y pixel ≡ put_pixel image x y pixel)
  unfolding get_pixel_z32m put_pixel_z32m put_z get_z
  agree_32m e o = (
    sym (general_get ∙ rw (e, o)),
    sym (
        general_put
        ∙ rw (e, o)
            (four_stores (record image { bpp = 32; byte_order = msb_first })
              (mul32 y image.stride + (x <<< 2)) (pixel >>> 24) (pixel >>> 16) (pixel >>> 8)
              pixel)),
  )

  agree_32l :
      image.bpp ≡ 32
      → image.byte_order ≡ lsb_first
      → (get_pixel_z32l image x y ≡ get_pixel image x y)
        × (put_pixel_z32l image x y pixel ≡ put_pixel image x y pixel)
  unfolding get_pixel_z32l put_pixel_z32l put_z get_z
  agree_32l e o = (
    sym (general_get ∙ rw (e, o)),
    sym (
        general_put
        ∙ rw (e, o)
            (four_stores (record image { bpp = 32; byte_order = lsb_first })
              (mul32 y image.stride + (x <<< 2)) pixel (pixel >>> 8) (pixel >>> 16)
              (pixel >>> 24))),
  )

row_small :
    (image : Image) (x y : ℕ)
    → IsZImage image
    → image.bpp ≡ 8
    → x < image.width
    → y < image.height
    → mul32 y image.stride + x < 2 ^ 32
row_small image x y z e hx hy =
    let bits : image.width * 8 ≤ 8 * image.stride =
      subst (λ b. image.width * b ≤ 8 * image.stride) e z.row_fits in
    let rows : (y + 1) * image.stride ≤ image.height * image.stride =
      mul-le-mul_right image.stride (omega arith) in
    omega (arith, bits, rows, add-mul y 1 image.stride, z.no_wrap)

by_order :
    (image : Image) (x y pixel : ℕ)
    → effective_format image.format image.bpp ≡ z_pixmap
    → x < image.width
    → y < image.height
    → image.bpp ≡ 32
    → (o : ImageOrder) → image.byte_order ≡ o
    → ((elim o [ msb_first ↦ get_pixel_z32m image x y | lsb_first ↦ get_pixel_z32l image x y ])
        ≡ get_pixel image x y)
      × ((elim o [
        | msb_first ↦ put_pixel_z32m image x y pixel
        | lsb_first ↦ put_pixel_z32l image x y pixel
      ])
          ≡ put_pixel image x y pixel)
by_order image x y pixel z hx hy e lsb_first o = agree_32l image x y pixel z hx hy e o
by_order image x y pixel z hx hy e msb_first o = agree_32m image x y pixel z hx hy e o

-- On a z-pixmap of 8 bits per pixel, or of 32 in either byte order, the fast functions for it return
-- what the general ones return, at every position inside the image.
pub fast_z-agree :
    (image : Image) (x y pixel : ℕ)
    → IsZImage image
    → (image.bpp ≡ 8) ⊎ (image.bpp ≡ 32)
    → x < image.width
    → y < image.height
    → (fast_get_z image x y ≡ get_pixel image x y)
      × (fast_put_z image x y pixel ≡ put_pixel image x y pixel)
fast_z-agree image x y pixel z (inl e) hx hy =
    let t : (image.bpp == 8) ≡ true = (==_iff image.bpp 8).1 e in
    rw t (agree_8 image x y pixel z.is_z hx hy e (row_small image x y z e hx hy))
fast_z-agree image x y pixel z (inr e) hx hy =
    let t : (image.bpp == 8) ≡ false = ground arith in
    rw t (by_order image x y pixel z.is_z hx hy e image.byte_order refl)
