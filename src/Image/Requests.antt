-- ===== src/Image/Requests.antt =====
-- The functions of image/xcb_image.c that speak to the server: `xcb_image_get`, `xcb_image_put`, their
-- variants in shared memory, and `xcb_image_native`.
pub mod Native
pub mod Agree
pub mod Partial
use xcb_util.Prelude.{
  ℕ, zero, suc, ◌+◌, ◌-◌, ◌*◌, List, [], ◌∷◌, ◌++◌, Bool, true, false, ◌&&◌, ◌||◌, not, ltb, ◌==◌,
  if◌then◌else◌, mul32, u8, u16, bit_and, Option, some, none, Outcome, done, fault, aborted, ◌>>=◌,
  ◌>>◌, assert, length, drop,
}
use xcb_util.Bitops.{mask, bit_reverse}
use xcb_util.Memory.{copy_to}
use xcb_util.Request.{
  Request, get_image, put_image, create_pixmap, free_gc, shm_get_image, shm_put_image,
}
use xcb_util.Image.{
  Image, ImageFormat, ImageOrder, msb_first, xy_bitmap, xy_pixmap, z_pixmap, same_order,
  same_format, bytes,
}
use xcb_util.Image.Format.{effective_format}
use xcb_util.Image.Create.{
  Malloc, Setup, PixmapFormat, find_format_by_depth, create, create_native, create_from_bitmap_data,
}
use xcb_util.Aux.Values.{add_param, aux_create_gc}
use xcb_util.Image.Convert.{convert}

-- The test by which `xcb_image_native` finds an xy-pixmap unlike the server's.
abbrev pub xy_differs : Setup → Image → ℕ → Bool
xy_differs setup image bpp =
    not (setup.scanline_unit == image.unit)
    || (not (setup.scanline_pad == image.scanline_pad)
        || (not (same_order setup.byte_order image.byte_order)
            || (not (same_order setup.bit_order image.bit_order) || not (bpp == image.bpp))))

-- The same for a z-pixmap of the server's format `f`.
abbrev pub z_differs : Setup → PixmapFormat → Image → Bool
z_differs setup f image =
    not (f.scanline_pad == image.scanline_pad)
    || (not (same_order setup.byte_order image.byte_order)
        || not (u8 f.bits_per_pixel == image.bpp))

-- The end of `xcb_image_native`, where the image is to be converted to a new one.
abbrev pub convert_to : Image → Bool → Option Image → Outcome (Option Image)
convert_to image wanted none = done none
convert_to image wanted (some tmp_image) = if wanted then convert image tmp_image else done none

-- `xcb_image_native`
unfoldable pub native : Malloc → Setup → Image → Bool → Outcome (Option Image)
native malloc setup image wanted =
    let ef = effective_format image.format image.bpp in
    let found = find_format_by_depth setup.formats image.depth in
    let xy = λ (bpp : ℕ).
      if xy_differs setup image bpp
      then convert_to image wanted (
          create malloc image.width image.height image.format setup.scanline_pad image.depth bpp
            setup.scanline_unit setup.byte_order setup.bit_order none 0 none)
      else done (some image) in
    let z = λ (f : PixmapFormat).
      if z_differs setup f image
      then convert_to image wanted (
          create malloc image.width image.height image.format f.scanline_pad image.depth
            (u8 f.bits_per_pixel) 0 setup.byte_order msb_first none 0 none)
      else done (some image) in
    elim ef [
      | xy_pixmap ↦
          if ltb 1 image.depth
          then elim found [ none ↦ done none | some f ↦ xy (u8 f.bits_per_pixel) ]
          else xy 1
      | z_pixmap ↦ elim found [ none ↦ done none | some f ↦ z f ]
      | xy_bitmap ↦ aborted
    ]

-- What the code reads of `xcb_get_image_reply_t`: the depth, and the data with its length.
pub record ImageReply : Type 0 where
  pub depth : ℕ
  pub length' : ℕ
  pub memory : List ℕ

-- `p->…`, where `p` may be null.
abbrev pub at_pointer : Option Image → Outcome Image
at_pointer none = fault
at_pointer (some image) = done image

-- `memset` to 0.
unfoldable pub zeros : ℕ → List ℕ
zeros zero = []
zeros (suc n) = 0 ∷ zeros n

-- The loop over the planes: those of the mask come from the reply, and the others are zero. The mask is
-- not shifted.
unfoldable pub copy_planes : ℕ → ℕ → List ℕ → ℕ → ℕ → List ℕ → Outcome (List ℕ)
copy_planes rpm size src zero to dst = done dst
copy_planes rpm size src (suc left) to dst =
    let is_set = bit_and rpm 1 == 1 in
    let plane = if is_set then src else zeros size in
    let src' = if is_set then drop size src else src in
    do dst' ← copy_to to size plane dst; copy_planes rpm size src' left (to + size) dst'

-- The part of `xcb_image_get` for a mask without some of the planes, on the variable `image` and the new
-- image: both are read before the test that there is a new image.
unfoldable pub get_partial : Option Image → Option Image → ℕ → ℕ → Outcome (Option Image)
get_partial image tmp_image plane_mask depth = do
  i ← at_pointer image
  tmp ← at_pointer tmp_image
  let size = mul32 i.height i.stride
  rpm ←
      (if same_order tmp.bit_order msb_first then bit_reverse plane_mask depth else done plane_mask)
  m ← copy_planes rpm size (bytes i) depth 0 (bytes tmp)
  done (some (record tmp { data' = some m; plane_mask = plane_mask }))

-- `assert(bytes == image->size)`
abbrev pub assert_size : ℕ → Option Image → Outcome (Option Image)
assert_size n none = done none
assert_size n (some image) = assert (n == image.size) >> done (some image)

-- `xcb_image_get` after its request, which has this reply if any.
unfoldable pub get_reply :
    Malloc → Setup → ℕ → ℕ → ℕ → ImageFormat → Option ImageReply → Outcome (Option Image)
get_reply malloc setup width height plane_mask format none = done none
get_reply malloc setup width height plane_mask format (some imrep) =
    let planes = bit_and plane_mask (mask imrep.depth) in
    let tmp_image = create_native malloc setup width height format imrep.depth none 0 none in
    let whole = assert_size imrep.length' (
      create_native malloc setup width height format imrep.depth (some imrep.memory) imrep.length'
        (some imrep.memory)) in
    elim format [
      | xy_pixmap ↦
          if not (planes == mask imrep.depth)
          then get_partial none tmp_image planes imrep.depth >>= assert_size imrep.length'
          else whole
      | z_pixmap ↦ whole
      | xy_bitmap ↦ aborted
    ]

-- `XYBitmap`, `XYPixmap` and `ZPixmap` of the protocol.
abbrev pub format_number : ImageFormat → ℕ
format_number xy_bitmap = 0
format_number xy_pixmap = 1
format_number z_pixmap = 2

-- The request of `xcb_image_get`.
unfoldable pub get : ImageFormat → ℕ → ℕ → ℕ → ℕ → ℕ → ℕ → Request
get format draw x y width height plane_mask =
    get_image (format_number format) draw x y width height plane_mask

-- `xcb_image_put`
unfoldable pub put : ℕ → ℕ → Image → ℕ → ℕ → ℕ → Request
put draw gc image x y left_pad =
    put_image (format_number image.format) draw gc image.width image.height x y left_pad image.depth
      image.size (bytes image)

-- `xcb_create_pixmap_from_bitmap_data`: the pixmap and the requests in their order. `pix` and `gc` are the
-- ids that `xcb_generate_id` gives, `gcv` is what the structure on the stack holds before, and `kept` tells
-- whether `gcp` is not null. The calls cut depth, width and height to their types.
unfoldable pub create_pixmap_from_bitmap_data :
    Malloc
    → Setup
    → ℕ
    → ℕ
    → List ℕ
    → Bool
    → ℕ
    → Option (List ℕ)
    → ℕ
    → ℕ
    → ℕ
    → ℕ
    → ℕ
    → Outcome (Option (ℕ × List Request))
create_pixmap_from_bitmap_data malloc setup pix gc gcv kept d memory width height depth fg bg =
    let of_format =
      λ (image : Image). if ltb 1 depth then record image { format = xy_bitmap } else image in
    let params = add_param (add_param (0, gcv) 2 fg) 3 bg in
    let requests = λ (final_image : Image) (created : Request).
      create_pixmap (u8 depth) pix d (u16 width) (u16 height)
      ∷ created
      ∷ put pix gc final_image 0 0 0
      ∷ (if kept then [] else free_gc gc ∷ []) in
    elim (create_from_bitmap_data malloc memory width height) [
      | none ↦ done none
      | some image ↦ native malloc setup (of_format image) true >>= λ converted. elim converted [
        | none ↦ done none
        | some final_image ↦ (do
          created ← aux_create_gc false gc pix params.0 params.1
          done (some (pix, requests final_image created)))
      ]
    ]

-- `xcb_shm_segment_info_t`, and where the image's data lies in it: `none` where `shmaddr` is null.
pub record Segment : Type 0 where
  pub shmseg : ℕ
  pub offset : Option ℕ

-- `xcb_image_shm_put`: the request, unless the image is not native or there is no memory.
unfoldable pub shm_put :
    Malloc → Setup → ℕ → ℕ → Image → Segment → ℕ → ℕ → ℕ → ℕ → ℕ → ℕ → ℕ → Outcome (Option Request)
shm_put malloc setup draw gc image info src_x src_y dest_x dest_y src_width src_height send_event =
    do
      checked ← native malloc setup image false
      done (elim checked [
        | none ↦ none
        | some i ↦ elim info.offset [
          | none ↦ none
          | some offset ↦ some (
              shm_put_image draw gc image.width image.height src_x src_y src_width src_height dest_x
                dest_y image.depth (format_number image.format) send_event info.shmseg offset)
        ]
      ])

-- The request of `xcb_image_shm_get`, which returns whether the reply is no error.
unfoldable pub shm_get : ℕ → Image → Segment → ℕ → ℕ → ℕ → Option Request
shm_get draw image info x y plane_mask = elim info.offset [
  | none ↦ none
  | some offset ↦ some (
      shm_get_image draw x y image.width image.height plane_mask (format_number image.format)
        info.shmseg offset)
]
