-- ===== src/Image/Requests/Native.antt =====
-- An image that `xcb_image_create_native` makes, and whether `xcb_image_native` takes it for native.
use xcb_util.Prelude.{
  ℕ, ◌-◌, ◌^◌, ◌≡◌, ◌⊎◌, inl, inr, refl, List, Bool, true, ◌&&◌, ◌||◌, not, ltb, ◌==◌,
  if◌then◌else◌, Option, some, none, arith, Bool-cases, subst,
}
use xcb_util.Image.{Image, ImageFormat, ImageOrder, xy_bitmap, xy_pixmap, z_pixmap}
use xcb_util.Image.Format.{effective_format, annotate, format_valid}
use xcb_util.Image.Create.{Malloc, create, header, attach, if_enough, is_null, default_unit}

-- What of a header is compared with the setup.
pub record Layout : Type 0 where
  pub format : ImageFormat
  pub pad : ℕ
  pub depth : ℕ
  pub bpp : ℕ
  pub unit : ℕ
  pub byte_order : ImageOrder
  pub bit_order : ImageOrder

pub record IsLike (l : Layout) (image : Image) : Type 0 where
  pub format_is : image.format ≡ l.format
  pub pad_is : image.scanline_pad ≡ l.pad
  pub depth_is : image.depth ≡ l.depth
  pub bpp_is : image.bpp ≡ l.bpp
  pub unit_is : image.unit ≡ l.unit
  pub byte_is : image.byte_order ≡ l.byte_order
  pub bit_is : image.bit_order ≡ l.bit_order

pub none-some {ℓ} : {A : Type ℓ} {x : A} → none ≡ some x → ⊥
none-some e = cc

pub some_inj {ℓ} : {A : Type ℓ} {x y : A} → some x ≡ some y → x ≡ y
some_inj e = cc

module _ (l : Layout) where
  with_storage :
      (image : Image) (stride size : ℕ) (base : Bool) (memory : Option (List ℕ))
      → IsLike l image
      → IsLike l (record image { stride = stride; size = size; base = base; data' = memory })
  with_storage image stride size base memory h = record {
    format_is = h.format_is;
    pad_is = h.pad_is;
    depth_is = h.depth_is;
    bpp_is = h.bpp_is;
    unit_is = h.unit_is;
    byte_is = h.byte_is;
    bit_is = h.bit_is;
  }

  if_enough-IsLike :
      (image : Image) (n : ℕ) {result : Image}
      → IsLike l image
      → if_enough image n ≡ some result
      → IsLike l result
  if_enough-IsLike image n h e = elim (Bool-cases (is_null image.data' || ltb n image.size)) [
    | inl q ↦ absurd (none-some (rw q at e))
    | inr q ↦ subst (IsLike l) (some_inj (rw q at e)) h
  ]

  attach-IsLike :
      (malloc : Malloc) (image : Image) (base : Option (List ℕ)) (n : ℕ) (memory : Option (List ℕ))
      {result : Image}
      → IsLike l image
      → attach malloc image base n memory ≡ some result
      → IsLike l result
  unfolding attach
  attach-IsLike malloc image none n none h e =
      let fresh = malloc.storage image.size in
      if_enough-IsLike (record image { base = not (is_null fresh); data' = fresh }) image.size
        (with_storage image image.stride image.size (not (is_null fresh)) fresh h) e
  attach-IsLike malloc image (some b) n none h e =
      if_enough-IsLike (record image { base = true; data' = some b }) n
        (with_storage image image.stride image.size true (some b) h) e
  attach-IsLike malloc image base n (some m) h e =
      let own = not (is_null base) in
      if_enough-IsLike (record image { base = own; data' = some m }) _
        (with_storage image image.stride image.size own (some m) h) e

format_cases : (ef : ImageFormat) → (ef ≡ xy_bitmap) ⊎ ((ef ≡ xy_pixmap) ⊎ (ef ≡ z_pixmap))
format_cases xy_bitmap = inl refl
format_cases xy_pixmap = inr (inl refl)
format_cases z_pixmap = inr (inr refl)

header-IsLike :
    (l : Layout) (width height : ℕ)
    → IsLike l (header width height l.format l.pad l.depth l.bpp l.unit l.byte_order l.bit_order)
unfolding header annotate
header-IsLike l width height = elim (format_cases (effective_format l.format l.bpp)) [
  | inl e ↦
      rw (header, annotate, e)
        (record {
          format_is = refl;
          pad_is = refl;
          depth_is = refl;
          bpp_is = refl;
          unit_is = refl;
          byte_is = refl;
          bit_is = refl;
        })
  | inr (inl e) ↦
      rw (header, annotate, e)
        (record {
          format_is = refl;
          pad_is = refl;
          depth_is = refl;
          bpp_is = refl;
          unit_is = refl;
          byte_is = refl;
          bit_is = refl;
        })
  | inr (inr e) ↦
      rw (header, annotate, e)
        (record {
          format_is = refl;
          pad_is = refl;
          depth_is = refl;
          bpp_is = refl;
          unit_is = refl;
          byte_is = refl;
          bit_is = refl;
        })
]

tests_passed :
    (valid room left : Bool) (image : Image) (rest : Option Image) {result : Image}
    → (if not valid then none else if not room then none else if left then some image else rest)
      ≡ some result
    → ((rest ≡ some result) ⊎ (image ≡ result)) × (valid ≡ true)
tests_passed valid room left image rest e = ground arith

-- The image has the layout that was asked for, with the default unit where the unit is 0, and it is
-- valid.
pub create-IsLike :
    (malloc : Malloc) (width height : ℕ) (l : Layout) (base : Option (List ℕ)) (n : ℕ)
    (memory : Option (List ℕ)) {result : Image}
    → create malloc width height l.format l.pad l.depth l.bpp l.unit l.byte_order l.bit_order base n
        memory
      ≡ some result
    → let unit' = if l.unit == 0 then default_unit l.format l.bpp else l.unit in
      IsLike (record l { unit = unit' }) result
      × (format_valid l.depth l.bpp unit' l.format l.pad ≡ true)
unfolding create
create-IsLike malloc width height l base n memory {result} e =
    let unit' = if l.unit == 0 then default_unit l.format l.bpp else l.unit in
    let l' : Layout = record l { unit = unit' } in
    let image = header width height l.format l.pad l.depth l.bpp unit' l.byte_order l.bit_order in
    let start = header-IsLike l' width height in
    let (made, valid) =
      tests_passed (format_valid l.depth l.bpp unit' l.format l.pad) malloc.header
        (is_null base && (is_null memory && n == 2 ^ 32 - 1)) image
        (attach malloc image base n memory) e in
    (
      elim made [
        | inl attached ↦ attach-IsLike l' malloc image base n memory start attached
        | inr is ↦ subst (IsLike l') is start
      ],
      valid,
    )
