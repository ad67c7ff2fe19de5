-- ===== src/Renderutil/Formats.antt =====
-- renderutil/util.c: the searches through the reply to `QueryPictFormats`.
pub mod Search
pub mod Standard
use xcb_util.Prelude.{
  ℕ, zero, suc, ◌^◌, List, [], ◌∷◌, Bool, ◌&&◌, ◌||◌, not, ◌==◌, if◌then◌else◌, bit_and, bit_or,
  Option, some, none, get_elem?, ℤ, pos, negsuc,
}

-- What the code reads of `xcb_render_pictforminfo_t`, its `direct` included.
pub record FormatInfo : Type 0 where
  pub id : ℕ
  pub type : ℕ
  pub depth : ℕ
  pub red_shift : ℕ
  pub red_mask : ℕ
  pub green_shift : ℕ
  pub green_mask : ℕ
  pub blue_shift : ℕ
  pub blue_mask : ℕ
  pub alpha_shift : ℕ
  pub alpha_mask : ℕ
  pub colormap : ℕ

pub record PictVisual : Type 0 where
  pub visual : ℕ
  pub format : ℕ

-- `xcb_render_query_pict_formats_reply_t`: a screen is the list of its depths, and a depth the list
-- of its visuals.
pub record PictFormats : Type 0 where
  pub formats : List FormatInfo
  pub screens : List (List (List PictVisual))
  pub num_subpixel : ℕ

-- `xcb_pict_format_t`
abbrev pub format_id : ℕ
format_id = 0x1

abbrev pub format_type : ℕ
format_type = 0x2

abbrev pub format_depth : ℕ
format_depth = 0x4

abbrev pub format_red : ℕ
format_red = 0x8

abbrev pub format_red_mask : ℕ
format_red_mask = 0x10

abbrev pub format_green : ℕ
format_green = 0x20

abbrev pub format_green_mask : ℕ
format_green_mask = 0x40

abbrev pub format_blue : ℕ
format_blue = 0x80

abbrev pub format_blue_mask : ℕ
format_blue_mask = 0x100

abbrev pub format_alpha : ℕ
format_alpha = 0x200

abbrev pub format_alpha_mask : ℕ
format_alpha_mask = 0x400

abbrev pub format_colormap : ℕ
format_colormap = 0x800

-- `if (mask & flag) if (a != b) continue;`: does the search go on to the next test?
abbrev pub passes : ℕ → ℕ → ℕ → ℕ → Bool
passes mask flag a b = bit_and mask flag == 0 || a == b

-- The twelve tests of `xcb_render_util_find_format`.
unfoldable pub accepted : ℕ → FormatInfo → FormatInfo → Bool
accepted mask t f =
    passes mask format_id t.id f.id
    && (passes mask format_type t.type f.type
        && (passes mask format_depth t.depth f.depth
            && (passes mask format_red t.red_shift f.red_shift
                && (passes mask format_red_mask t.red_mask f.red_mask
                    && (passes mask format_green t.green_shift f.green_shift
                        && (passes mask format_green_mask t.green_mask f.green_mask
                            && (passes mask format_blue t.blue_shift f.blue_shift
                                && (passes mask format_blue_mask t.blue_mask f.blue_mask
                                    && (passes mask format_alpha t.alpha_shift f.alpha_shift
                                        && (passes mask format_alpha_mask t.alpha_mask f.alpha_mask
                                            && passes mask format_colormap t.colormap
                                                f.colormap))))))))))

-- The loop, with `count` formats still to be passed over. A negative `count` is never counted down to
-- 0: a reply has fewer formats than an `int` has values.
unfoldable pub find_from : ℕ → FormatInfo → List FormatInfo → ℤ → Option FormatInfo
find_from mask t [] count = none
find_from mask t (f ∷ fs) (negsuc n) = find_from mask t fs (negsuc n)
find_from mask t (f ∷ fs) (pos zero) =
    let rest = find_from mask t fs (pos zero) in if accepted mask t f then some f else rest
find_from mask t (f ∷ fs) (pos (suc n)) =
    find_from mask t fs (if accepted mask t f then pos n else pos (suc n))

unfoldable pub find_format : Option PictFormats → ℕ → FormatInfo → ℤ → Option FormatInfo
find_format none mask template count = none
find_format (some reply) mask template count = find_from mask template reply.formats count

-- `xcb_render_util_find_visual_format`, by its three loops.
unfoldable pub visual_in : List PictVisual → ℕ → Option PictVisual
visual_in [] visual = none
visual_in (v ∷ vs) visual = if v.visual == visual then some v else visual_in vs visual

unfoldable pub visual_in_depths : List (List PictVisual) → ℕ → Option PictVisual
visual_in_depths [] visual = none
visual_in_depths (d ∷ ds) visual = elim (visual_in d visual) [
  | some v ↦ some v
  | none ↦ visual_in_depths ds visual
]

unfoldable pub visual_in_screens : List (List (List PictVisual)) → ℕ → Option PictVisual
visual_in_screens [] visual = none
visual_in_screens (s ∷ ss) visual = elim (visual_in_depths s visual) [
  | some v ↦ some v
  | none ↦ visual_in_screens ss visual
]

unfoldable pub find_visual_format : Option PictFormats → ℕ → Option PictVisual
find_visual_format none visual = none
find_visual_format (some reply) visual = visual_in_screens reply.screens visual

-- XCB_RENDER_PICT_TYPE_DIRECT
abbrev pub type_direct : ℕ
type_direct = 1

-- An entry of `standardFormats` of type direct with the id and the colormap 0: depth, and shift and
-- mask of red, green, blue and alpha.
abbrev pub direct : ℕ → ℕ → ℕ → ℕ → ℕ → ℕ → ℕ → ℕ → ℕ → FormatInfo
direct depth red red_mask green green_mask blue blue_mask alpha alpha_mask = record {
  id = 0;
  type = type_direct;
  depth = depth;
  red_shift = red;
  red_mask = red_mask;
  green_shift = green;
  green_mask = green_mask;
  blue_shift = blue;
  blue_mask = blue_mask;
  alpha_shift = alpha;
  alpha_mask = alpha_mask;
  colormap = 0;
}

abbrev pub joined : List ℕ → ℕ
joined [] = 0
joined (b ∷ bs) = bit_or b (joined bs)

abbrev pub alpha_flags : ℕ
alpha_flags = joined (
    format_type ∷ format_depth ∷ format_red_mask ∷ format_green_mask ∷ format_blue_mask
    ∷ format_alpha ∷ format_alpha_mask ∷ [])

-- `standardFormats`
abbrev pub standard_formats : List (FormatInfo × ℕ)
standard_formats =
    (
      direct 32 16 0xff 8 0xff 0 0xff 24 0xff,
      joined (
          format_type ∷ format_depth ∷ format_red ∷ format_red_mask ∷ format_green
          ∷ format_green_mask ∷ format_blue ∷ format_blue_mask ∷ format_alpha ∷ format_alpha_mask
          ∷ []),
    )
    ∷ (
      direct 24 16 0xff 8 0xff 0 0xff 0 0x00,
      joined (
          format_type ∷ format_depth ∷ format_red ∷ format_red_mask ∷ format_green
          ∷ format_green_mask ∷ format_blue ∷ format_blue_mask ∷ format_alpha_mask ∷ []),
    )
    ∷ (direct 8 0 0x00 0 0x00 0 0x00 0 0xff, alpha_flags)
    ∷ (direct 4 0 0x00 0 0x00 0 0x00 0 0x0f, alpha_flags)
    ∷ (direct 1 0 0x00 0 0x00 0 0x00 0 0x01, alpha_flags)
    ∷ []

-- `xcb_render_util_find_standard_format`: a number past the table gives a null pointer.
unfoldable pub find_standard_format : Option PictFormats → ℕ → Option FormatInfo
find_standard_format formats format = elim (get_elem? standard_formats format) [
  | none ↦ none
  | some (templ, mask) ↦ find_format formats mask templ (pos 0)
]
