-- ===== src/Image/Requests/Agree.antt =====
-- Does `xcb_image_native` take what `xcb_image_create_native` makes for native?
use xcb_util.Prelude.{
  ℕ, ◌<◌, ◌≡◌, ◌≢◌, inl, inr, refl, sym, ap, ◌∙◌, List, [], ◌∷◌, Bool, true, false, ◌&&◌, ◌||◌, not,
  ltb, ◌==◌, if◌then◌else◌, u8, Option, some, none, done, arith, Bool-cases, Option-cases, subst,
  All,
}
use xcb_util.Image.{
  Image, ImageFormat, ImageOrder, lsb_first, msb_first, xy_bitmap, xy_pixmap, z_pixmap, same_order,
  same_format,
}
use xcb_util.Image.Format.{effective_format, format_valid}
use xcb_util.Image.Create.{
  Malloc, Setup, PixmapFormat, find_format_by_depth, create, create_native, default_unit,
}
use xcb_util.Image.Requests.{native, xy_differs, z_differs, convert_to}
use xcb_util.Image.Requests.Native.{Layout, IsLike, create-IsLike, none-some, some_inj}

order-same : (o : ImageOrder) → same_order o o ≡ true
order-same lsb_first = refl
order-same msb_first = refl

abbrev pub xy_layout : Setup → ImageFormat → ℕ → Layout
xy_layout setup format depth = record {
  format = format;
  pad = setup.scanline_pad;
  depth = depth;
  bpp = depth;
  unit = setup.scanline_unit;
  byte_order = setup.byte_order;
  bit_order = setup.bit_order;
}

xy_differs_lem :
    (setup : Setup) (format : ImageFormat) (depth bpp : ℕ) (image : Image)
    → IsLike (xy_layout setup format depth) image
    → xy_differs setup image bpp ≡ not (bpp == depth)
xy_differs_lem setup format depth bpp image h =
    let unit : (setup.scanline_unit == setup.scanline_unit) ≡ true = ground arith in
    let pad : (setup.scanline_pad == setup.scanline_pad) ≡ true = ground arith in
    rw
      (
        h.unit_is,
        h.pad_is,
        h.byte_is,
        h.bit_is,
        h.bpp_is,
        unit,
        pad,
        order-same setup.byte_order,
        order-same setup.bit_order,
      )
      refl

convert_to-false : (image : Image) (o : Option Image) → convert_to image false o ≡ done none
convert_to-false image none = refl
convert_to-false image (some i) = refl

-- The formats of a setup: the bits of a pixel are a byte.
abbrev pub IsSetup : Setup → Type 0
IsSetup setup =
    (setup.scanline_unit ≢ 0) × All (λ (f : PixmapFormat). f.bits_per_pixel < 256) setup.formats

find_format_lem :
    (fs : List PixmapFormat) (depth : ℕ) (f : PixmapFormat)
    → All (λ (g : PixmapFormat). g.bits_per_pixel < 256) fs
    → find_format_by_depth fs depth ≡ some f
    → (f.depth ≡ depth) × (f.bits_per_pixel < 256)
unfolding find_format_by_depth
find_format_lem [] depth f h e = absurd (none-some e)
find_format_lem (g ∷ fs) depth f (one, h) e = elim (Bool-cases (g.depth == depth)) [
  | inl q ↦
      let is : g ≡ f = some_inj (rw q at e) in
      (
        ap (λ (k : PixmapFormat). k.depth) (sym is) ∙ ground (arith, q),
        subst (λ (k : PixmapFormat). k.bits_per_pixel < 256) is one,
      )
  | inr q ↦ find_format_lem fs depth f h (rw q at e)
]

-- Images of one plane and z-pixmaps are native, and an xy-pixmap is where the server's pixels of its
-- depth have as many bits as the depth.
abbrev pub agrees : Setup → ImageFormat → ℕ → Bool
agrees setup format depth =
    depth == 1
    || (same_format format z_pixmap || elim (find_format_by_depth setup.formats depth) [
      | none ↦ false
      | some f ↦ f.bits_per_pixel == depth
    ])

plane_format :
    (format : ImageFormat)
    → (if same_format format z_pixmap && false then format else xy_pixmap) ≡ xy_pixmap
plane_format xy_bitmap = refl
plane_format xy_pixmap = refl
plane_format z_pixmap = refl

module _ (malloc : Malloc) (setup : Setup) (image : Image) where
  -- One plane.
  native_plane :
      (format : ImageFormat)
      → IsLike (xy_layout setup format 1) image
      → native malloc setup image false ≡ done (some image)
  unfolding native effective_format
  native_plane format h =
      let xy : effective_format image.format image.bpp ≡ xy_pixmap =
        rw (effective_format, h.bpp_is) (plane_format image.format) in
      let one : ltb 1 image.depth ≡ false = rw h.depth_is refl in
      let same = xy_differs_lem setup format 1 1 image h in rw (native, xy, one, same) refl

  native_xy :
      (depth : ℕ) (f : PixmapFormat)
      → 1 < depth
      → f.bits_per_pixel < 256
      → find_format_by_depth setup.formats depth ≡ some f
      → IsLike (xy_layout setup xy_pixmap depth) image
      → native malloc setup image false
        ≡ done (if f.bits_per_pixel == depth then some image else none)
  unfolding native effective_format
  native_xy depth f deep small found h =
      let xy : effective_format image.format image.bpp ≡ xy_pixmap =
        rw (effective_format, h.format_is) refl in
      let several : ltb 1 image.depth ≡ true = rw h.depth_is (ground (arith, deep)) in
      let same = xy_differs_lem setup xy_pixmap depth (u8 f.bits_per_pixel) image h in
      let cut : u8 f.bits_per_pixel ≡ f.bits_per_pixel = omega (arith, small) in
      let there = ap (find_format_by_depth setup.formats) h.depth_is ∙ found in
      elim (Bool-cases (f.bits_per_pixel == depth)) [
        | inl q ↦ rw (native, xy, several, there) (rw (same, cut, q) refl)
        | inr q ↦ rw (native, xy, several, there) (rw (same, cut, q) (convert_to-false image _))
      ]

  native_z :
      (depth unit : ℕ) (f : PixmapFormat)
      → 1 < f.bits_per_pixel
      → f.bits_per_pixel < 256
      → find_format_by_depth setup.formats depth ≡ some f
      → IsLike
          (record {
            format = z_pixmap;
            pad = f.scanline_pad;
            depth = depth;
            bpp = f.bits_per_pixel;
            unit = unit;
            byte_order = setup.byte_order;
            bit_order = msb_first;
          })
          image
      → native malloc setup image false ≡ done (some image)
  unfolding native effective_format
  native_z depth unit f deep small found h =
      let z : effective_format image.format image.bpp ≡ z_pixmap =
        let several : (f.bits_per_pixel == 1) ≡ false = ground (arith, deep) in
        rw (effective_format, h.format_is, h.bpp_is, several) refl in
      let cut : u8 f.bits_per_pixel ≡ f.bits_per_pixel = omega (arith, small) in
      let pad : (f.scanline_pad == f.scanline_pad) ≡ true = ground arith in
      let bits : (f.bits_per_pixel == f.bits_per_pixel) ≡ true = ground arith in
      let same : z_differs setup f image ≡ false =
        rw (h.pad_is, h.byte_is, h.bpp_is, cut, pad, bits, order-same setup.byte_order) refl in
      let there = ap (find_format_by_depth setup.formats) h.depth_is ∙ found in
      rw (native, z, there) (rw same refl)

-- The layout of a z-pixmap of the server's format `f`.
abbrev z_layout : Setup → PixmapFormat → ℕ → Layout
z_layout setup f unit = record {
  format = z_pixmap;
  pad = f.scanline_pad;
  depth = f.depth;
  bpp = f.bits_per_pixel;
  unit = unit;
  byte_order = setup.byte_order;
  bit_order = msb_first;
}

same_depth :
    (setup : Setup) (f : PixmapFormat) (unit depth : ℕ) (image : Image)
    → f.depth ≡ depth
    → IsLike (z_layout setup f unit) image
    → IsLike (record (z_layout setup f unit) { depth = depth }) image
same_depth setup f unit depth image e h = record {
  format_is = h.format_is;
  pad_is = h.pad_is;
  depth_is = h.depth_is ∙ e;
  bpp_is = h.bpp_is;
  unit_is = h.unit_is;
  byte_is = h.byte_is;
  bit_is = h.bit_is;
}

valid-fits :
    (depth bpp unit : ℕ) (format : ImageFormat) (xpad : ℕ)
    → format_valid depth bpp unit format xpad ≡ true
    → ltb bpp depth ≡ false
unfolding format_valid
valid-fits depth bpp unit format xpad e = elim (Bool-cases (ltb bpp depth)) [
  | inr q ↦ q
  | inl q ↦ q ∙ sym (rw q at e)
]

module _ (malloc malloc' : Malloc) (setup : Setup) (width height : ℕ) (base : Option (List ℕ))
    (n : ℕ) (memory : Option (List ℕ)) (image : Image) (ok : IsSetup setup) where
  created_xy :
      (format : ImageFormat) (depth : ℕ)
      → create malloc width height format setup.scanline_pad depth depth setup.scanline_unit
          setup.byte_order setup.bit_order base n memory
        ≡ some image
      → IsLike (xy_layout setup format depth) image
  created_xy format depth e =
      let unit : (setup.scanline_unit == 0) ≡ false = ground (arith, ok.0) in
      rw unit at
        (create-IsLike malloc width height (xy_layout setup format depth) base n memory e).0

  agree_plane :
      (format : ImageFormat)
      → create_native malloc setup width height format 1 base n memory ≡ some image
      → native malloc' setup image false ≡ done (some image)
  unfolding create_native
  agree_plane xy_bitmap e = native_plane malloc' setup image xy_bitmap (created_xy xy_bitmap 1 e)
  agree_plane xy_pixmap e = native_plane malloc' setup image xy_pixmap (created_xy xy_pixmap 1 e)
  agree_plane z_pixmap e = native_plane malloc' setup image z_pixmap (created_xy z_pixmap 1 e)

  agree_planes :
      (format : ImageFormat) (depth : ℕ)
      → 1 < depth
      → create_native malloc setup width height format depth base n memory ≡ some image
      → native malloc' setup image false
        ≡ done (if agrees setup format depth then some image else none)
  unfolding create_native
  agree_planes xy_bitmap depth deep e =
      let several : (depth == 1) ≡ false = ground (arith, deep) in
      absurd (none-some (rw several at e))
  agree_planes xy_pixmap depth deep e =
      let one : (depth == 1) ≡ false = ground (arith, deep) in
      let several : ltb 1 depth ≡ true = ground (arith, deep) in
      elim (Option-cases (find_format_by_depth setup.formats depth)) [
        | inl q ↦ absurd (none-some (rw (several, q) at e))
        | inr (f, q) ↦
            let (same, small) = find_format_lem setup.formats depth f ok.1 q in
            rw (one, q)
              (native_xy malloc' setup image depth f deep small q
                (created_xy xy_pixmap depth (rw (several, q) at e)))
      ]
  agree_planes z_pixmap depth deep e =
      let one : (depth == 1) ≡ false = ground (arith, deep) in
      elim (Option-cases (find_format_by_depth setup.formats depth)) [
        | inl q ↦ absurd (none-some (rw (one, q) at e))
        | inr (f, q) ↦
            let (same, small) = find_format_lem setup.formats depth f ok.1 q in
            let l : Layout = z_layout setup f 0 in
            let made = create-IsLike malloc width height l base n memory (rw (one, q) at e) in
            let fits : ltb f.bits_per_pixel f.depth ≡ false =
              valid-fits f.depth f.bits_per_pixel _ z_pixmap f.scanline_pad made.1 in
            rw one (
              native_z malloc' setup image depth (default_unit z_pixmap f.bits_per_pixel) f
                (ground (arith, fits, same, deep)) small q
                (same_depth setup f _ depth image same made.0))
      ]

-- An image that `xcb_image_create_native` returns is taken for native by `xcb_image_native` if it has one plane,
-- if it is a z-pixmap, or if the server uses as many bits for a pixel of its depth as the depth; any other
-- xy-pixmap is refused as not native. The depth is not 0, the setup's unit of bitmaps is not 0, and its bits per
-- pixel are bytes.
pub create_native-native :
    (malloc malloc' : Malloc) (setup : Setup) (width height : ℕ) (format : ImageFormat) (depth : ℕ)
    (base : Option (List ℕ)) (n : ℕ) (memory : Option (List ℕ)) (image : Image)
    → IsSetup setup
    → 0 < depth
    → create_native malloc setup width height format depth base n memory ≡ some image
    → native malloc' setup image false
      ≡ done (if agrees setup format depth then some image else none)
create_native-native malloc malloc' setup width height format depth base n memory image ok positive
      e =
    elim (Bool-cases (depth == 1)) [
      | inl q ↦
          let is : depth ≡ 1 = ground (arith, q) in
          rw q (
            agree_plane malloc malloc' setup width height base n memory image ok format
              (rw is at e))
      | inr q ↦
          agree_planes malloc malloc' setup width height base n memory image ok format depth
            (ground (arith, q, positive)) e
    ]
