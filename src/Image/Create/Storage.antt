-- ===== src/Image/Create/Storage.antt =====
-- What `xcb_image_create` promises: the header that it returns describes the image that was asked
-- for, and its storage is as large as the header says.
use xcb_util.Prelude.{
  ℕ, ◌-◌, ◌^◌, ◌≤◌, ◌≡◌, ◌≢◌, refl, inl, inr, List, Option, some, none, Bool, true, false, arith,
  length, ◌==◌, not, ◌&&◌, if◌then◌else◌, Option-cases,
}
use xcb_util.Image.{Image, ImageFormat, ImageOrder, bytes}
use xcb_util.Image.Format.{format_valid}
use xcb_util.Image.Create.{Malloc, create, header, attach, is_null, default_unit}

-- `malloc` gives at least the storage that it is asked for.
abbrev pub IsMalloc : Malloc → Type 0
IsMalloc malloc = (n : ℕ) (m : List ℕ) → malloc.storage n ≡ some m → n ≤ length m

-- The caller's memory is as large as the caller states.
abbrev pub IsStated : Option (List ℕ) → ℕ → Type 0
IsStated none n = Unit
IsStated (some m) n = n ≤ length m

-- `result` is `image` with storage of its size.
abbrev pub HasStorage : Image → Image → Type 0
HasStorage image result =
    (record result { base = image.base; data' = image.data' } ≡ image)
    × (result.size ≤ length (bytes result))

module _ (malloc : Malloc) (image : Image) (n : ℕ) {result : Image} where
  attach-fresh :
      IsMalloc malloc → attach malloc image none n none ≡ some result → HasStorage image result
  unfolding attach
  attach-fresh ok e = elim (Option-cases (malloc.storage image.size)) [
    | inl q ↦ ground arith
    | inr (m, q) ↦ ground (arith, ok image.size m q)
  ]

  attach-base :
      (b : List ℕ)
      → n ≤ length b
      → attach malloc image (some b) n none ≡ some result
      → HasStorage image result
  unfolding attach
  attach-base b stated e = ground arith

  attach-data :
      (base : Option (List ℕ)) (m : List ℕ)
      → n ≤ length m
      → (base ≡ none → n ≡ 0 → image.size ≤ length m)
      → attach malloc image base n (some m) ≡ some result
      → HasStorage image result
  unfolding attach
  attach-data none m stated whole e = ground (arith, whole refl)
  attach-data (some b) m stated whole e = ground arith

-- The caller's data is as large as stated, or as the image where the caller leaves the size open.
abbrev pub IsGiven : Option (List ℕ) → Option (List ℕ) → ℕ → ℕ → Type 0
IsGiven base none n size = Unit
IsGiven base (some m) n size = (n ≤ length m) × (base ≡ none → n ≡ 0 → size ≤ length m)

attach-HasStorage :
    (malloc : Malloc) (image : Image) (n : ℕ) (base data'' : Option (List ℕ)) {result : Image}
    → IsMalloc malloc
    → IsStated base n
    → IsGiven base data'' n image.size
    → attach malloc image base n data'' ≡ some result
    → HasStorage image result
attach-HasStorage malloc image n none none ok b d e = attach-fresh malloc image n ok e
attach-HasStorage malloc image n (some m) none ok b d e = attach-base malloc image n m b e
attach-HasStorage malloc image n base (some m) ok b d e =
    attach-data malloc image n base m d.0 d.1 e

past_tests :
    (valid room left : Bool) (image : Image) (rest : Option Image) {result : Image}
    → left ≡ false
    → (if not valid then none else if not room then none else if left then some image else rest)
      ≡ some result
    → (rest ≡ some result) × (valid ≡ true)
past_tests valid room left image rest l e = ground arith

asks_for_storage :
    (base data'' : Option (List ℕ)) (n : ℕ)
    → n ≢ 2 ^ 32 - 1
    → (is_null base && (is_null data'' && n == 2 ^ 32 - 1)) ≡ false
asks_for_storage base data'' n h = ground arith

-- An image that `xcb_image_create` returns has a valid format, the header that was asked for, with
-- the default unit where the unit is 0, and storage for its whole size, as long as the caller's
-- memory is as large as stated and the call is not the one that asks for no storage.
pub create-HasStorage :
    (malloc : Malloc) (width height : ℕ) (format : ImageFormat) (xpad depth bpp unit : ℕ)
    (byte_order bit_order : ImageOrder) (base : Option (List ℕ)) (n : ℕ) (data'' : Option (List ℕ))
    (result : Image)
    → let unit' = if unit == 0 then default_unit format bpp else unit in
      let image = header width height format xpad depth bpp unit' byte_order bit_order in
      IsMalloc malloc
      → IsStated base n
      → IsGiven base data'' n image.size
      → n ≢ 2 ^ 32 - 1
      → create malloc width height format xpad depth bpp unit byte_order bit_order base n data''
        ≡ some result
      → HasStorage image result × (format_valid depth bpp unit' format xpad ≡ true)
unfolding create
create-HasStorage malloc width height format xpad depth bpp unit byte_order bit_order base n data''
      result ok b d whole e =
    let unit' = if unit == 0 then default_unit format bpp else unit in
    let image = header width height format xpad depth bpp unit' byte_order bit_order in
    let (attached, valid) =
      past_tests (format_valid depth bpp unit' format xpad) malloc.header
        (is_null base && (is_null data'' && n == 2 ^ 32 - 1)) image
        (attach malloc image base n data'') (asks_for_storage base data'' n whole) e in
    (attach-HasStorage malloc image n base data'' ok b d attached, valid)
