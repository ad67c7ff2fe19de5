-- ===== src/Image/Convert/Copy.antt =====
-- The pixel by pixel copy of `xcb_image_convert` and `xcb_image_subimage` into a z-pixmap.
use xcb_util.Prelude.{
  ℕ, zero, suc, ◌+◌, ◌%◌, ◌^◌, ◌<◌, ◌≡◌, refl, sym, ◌∙◌, ◌⊎◌, inl, inr, ◌≢◌, List, arith, some,
  true, false, subst, ◌==◌, ==_iff, Bool, ◌&&◌, done, add32, ℕ_discrete,
}
use mathlib.Core.Path.{subst₂}
use xcb_util.Image.{Image}
use xcb_util.Image.Format.{image_format_valid}
use xcb_util.Image.Pixel.{put_pixel, get_pixel}
use xcb_util.Image.Pixel.Z.{IsZImage, put_pixel-IsZImage, get-put_z_other}
use xcb_util.Image.Convert.{copy_row, copy_rows, convert}

-- The source has the pixel `source x y` where the target's (x, y) comes from.
abbrev pub Reads : Image → ℕ → ℕ → ℕ → ℕ → (ℕ → ℕ → ℕ) → Type 0
Reads src x0 y0 width height source =
    (x y : ℕ) → x < width → y < height → get_pixel src (add32 x0 x) (add32 y0 y) ≡ done (source x y)

and_false : (a : Bool) → (a && false) ≡ false
and_false true = refl
and_false false = refl

at_position : (x' y' x y : ℕ) → ((x' ≡ x) × (y' ≡ y)) ⊎ ((x' ≢ x) ⊎ (y' ≢ y))
at_position x' y' x y = elim (ℕ_discrete x' x) [
  | yes p ↦ elim (ℕ_discrete y' y) [ yes q ↦ inl (p, q) | no q ↦ inr (inr q) ]
  | no p ↦ inr (inl p)
]

module _ (src : Image) (x0 y0 : ℕ) (dst : Image) (source : ℕ → ℕ → ℕ)
    (reads : Reads src x0 y0 dst.width dst.height source) where
  abbrev pub with_bytes : List ℕ → Image
  with_bytes m = record dst { data' = some m }

  -- The rows above `y`, and row `y` up to column `x`, have been copied.
  pub record IsCopied (m : List ℕ) (y x : ℕ) : Type 0 where
    pub z : IsZImage (with_bytes m)
    pub copied :
        (x' y' : ℕ)
        → x' < dst.width
        → y' < dst.height
        → (y' < y) ⊎ (y' ≡ y) × (x' < x)
        → get_pixel (with_bytes m) x' y' ≡ done (source x' y' % 2 ^ dst.bpp)

  widen :
      (m : List ℕ) (y x v u : ℕ)
      → IsCopied m y x
      → ((x' y' : ℕ)
          → x' < dst.width
          → y' < dst.height
          → (y' < v) ⊎ (y' ≡ v) × (x' < u)
          → (y' < y) ⊎ (y' ≡ y) × (x' < x))
      → IsCopied m v u
  widen m y x v u c back = record {
    z = c.z;
    copied = λ x' y' hx' hy' b. c.copied x' y' hx' hy' (back x' y' hx' hy' b);
  }

  step :
      (m : List ℕ) (y x : ℕ)
      → x < dst.width
      → y < dst.height
      → IsCopied m y x
      → (m' : List ℕ) × (put_pixel (with_bytes m) x y (source x y) ≡ done (with_bytes m'))
        × IsCopied m' y (x + 1)
  step m y x hx hy c =
      let (m', e, z', back) = put_pixel-IsZImage (with_bytes m) x y (source x y) c.z hx hy in
      (
        m',
        e,
        record {
          z = z';
          copied = λ x' y' hx' hy' before. elim (at_position x' y' x y) [
            | inl here ↦ rw (here.0, here.1) back
            | inr ne ↦
                get-put_z_other (with_bytes m) (with_bytes m') x y x' y' (source x y) c.z hx hy hx'
                  hy' ne e
                ∙ c.copied x' y' hx' hy' (omega arith)
          ];
        },
      )

  pub copy_row-IsCopied :
      (left x y : ℕ) (m : List ℕ)
      → x + left ≡ dst.width
      → y < dst.height
      → IsCopied m y x
      → (m' : List ℕ) × (copy_row src x0 y0 y left x (with_bytes m) ≡ done (with_bytes m'))
        × IsCopied m' y dst.width
  unfolding copy_row
  copy_row-IsCopied zero x y m e hy c =
      (m, refl, widen m y x y dst.width c (λ x' y' hx' hy' b. omega arith))
  copy_row-IsCopied (suc left) x y m e hy c =
      let hx : x < dst.width = omega arith in
      let (m1, put, c1) = step m y x hx hy c in
      let (m2, rest, c2) = copy_row-IsCopied left (x + 1) y m1 (omega arith) hy c1 in
      (m2, rw (reads x y hx hy, put) rest, c2)

  pub copy_rows-IsCopied :
      (left y : ℕ) (m : List ℕ)
      → y + left ≡ dst.height
      → IsCopied m y 0
      → (m' : List ℕ) × (copy_rows src x0 y0 dst.width left y (with_bytes m) ≡ done (with_bytes m'))
        × IsCopied m' dst.height 0
  unfolding copy_rows
  copy_rows-IsCopied zero y m e c =
      (m, refl, widen m y 0 dst.height 0 c (λ x' y' hx' hy' b. omega arith))
  copy_rows-IsCopied (suc left) y m e c =
      let (m1, row, c1) = copy_row-IsCopied dst.width 0 y m (omega arith) (omega arith) c in
      let next : IsCopied m1 (y + 1) 0 =
        widen m1 y dst.width (y + 1) 0 c1 (λ x' y' hx' hy' b. omega arith) in
      let (m2, rest, c2) = copy_rows-IsCopied left (y + 1) m1 (omega arith) next in
      (m2, rw row rest, c2)

module _ (src dst : Image) (m : List ℕ) (source : ℕ → ℕ → ℕ)
    (source_valid : image_format_valid src ≡ true) (z : IsZImage dst) (stored : dst.data' ≡ some m)
    (same_width : src.width ≡ dst.width) (same_height : src.height ≡ dst.height)
    (other_bpp : src.bpp ≢ dst.bpp)
    (reads : (x y : ℕ)
      → x < dst.width
      → y < dst.height
      → get_pixel src x y ≡ done (source x y)) where
  from_origin : Reads src 0 0 dst.width dst.height source
  from_origin x y hx hy =
      let ex : add32 0 x ≡ x = omega (arith, z.small) in
      let ey : add32 0 y ≡ y = omega (arith, z.small) in rw (ex, ey) (reads x y hx hy)

  start : dst ≡ record dst { data' = some m }
  start = λ i. record dst { data' = stored i }

  result :
      (m' : List ℕ) × (copy_rows src 0 0 dst.width dst.height 0 dst
        ≡ done (record dst { data' = some m' }))
      × IsCopied src 0 0 dst source from_origin m' dst.height 0
  result =
      let begun : IsCopied src 0 0 dst source from_origin m 0 0 = record {
        z = subst IsZImage start z;
        copied = λ x' y' hx' hy' before. absurd (omega arith);
      } in
      let (m', e, c) =
        copy_rows-IsCopied src 0 0 dst source from_origin dst.height 0 m (omega arith) begun in
      (
        m',
        subst
            (λ d.
              copy_rows src 0 0 dst.width dst.height 0 d ≡ done (record dst { data' = some m' }))
            (sym start) e,
        c,
      )

  by_pixel :
      (dst' : Image)
      → copy_rows src 0 0 dst.width dst.height 0 dst ≡ done dst'
      → convert src dst ≡ done (some dst')
  unfolding convert
  by_pixel dst' e =
      let w : (src.width == dst.width) ≡ true = (==_iff _ _).1 same_width in
      let h : (src.height == dst.height) ≡ true = (==_iff _ _).1 same_height in
      let b : (src.bpp == dst.bpp) ≡ false = ground arith in
      let copied : copy_rows src 0 0 src.width src.height 0 dst ≡ done dst' =
        subst₂ (λ s t. copy_rows src 0 0 s t 0 dst ≡ done dst') (sym same_width) (sym same_height)
          e in
      rw (source_valid, z.valid, w, h, b, and_false, copied)

-- `xcb_image_convert` to a z-pixmap with another number of bits per pixel copies every pixel: the
-- target at (x, y) then has the source's pixel, cut to the target's bits. The source may have any
-- valid format, as long as its pixels can be read.
pub convert_pixels :
    (src dst : Image) (m : List ℕ) (source : ℕ → ℕ → ℕ) (x y : ℕ)
    → image_format_valid src ≡ true
    → IsZImage dst
    → dst.data' ≡ some m
    → src.width ≡ dst.width
    → src.height ≡ dst.height
    → src.bpp ≢ dst.bpp
    → ((x' y' : ℕ) → x' < dst.width → y' < dst.height → get_pixel src x' y' ≡ done (source x' y'))
    → x < dst.width
    → y < dst.height
    → (dst' : Image) × (convert src dst ≡ done (some dst'))
      × (get_pixel dst' x y ≡ done (source x y % 2 ^ dst.bpp))
convert_pixels src dst m source x y valid z stored ew eh eb reads hx hy =
    let (m', e, c) = result src dst m source valid z stored ew eh eb reads in
    (
      record dst { data' = some m' },
      by_pixel src dst m source valid z stored ew eh eb reads (record dst { data' = some m' }) e,
      c.copied x y hx hy (omega arith),
    )
