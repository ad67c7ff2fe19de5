-- ===== src/Tests.antt =====
-- The theorems at concrete inputs, and runs of the functions. The images are a 2 by 2 z-pixmap of
-- 16 bits per pixel with 32-bit rows, and one of 8 bits per pixel.
mod Icccm
mod Handlers
mod Replies
mod Keyboard
mod Displays
mod Render
mod Requests
use xcb_util.Prelude.{
  ℕ, zero, suc, All, ◌*◌, ◌%◌, ◌^◌, ◌<◌, ◌≡◌, refl, inl, inr, List, [], ◌∷◌, some, none, true,
  arith, length, if◌then◌else◌, leb, ◌-◌, bit_and, done, load, store,
}
use xcb_util.Bitops.{popcount, roundup, rounddown, roundup_2, rounddown_2, mask, bit_reverse}
use xcb_util.Bitops.Count.{ones, popcount-eq-ones}
use xcb_util.Bitops.Reversed.{reversed}
use xcb_util.Bitops.Reverse.{bit_reverse-eq-reversed}
use xcb_util.Bitops.Round.{IsRoundUp, IsRoundDown, roundup-IsRoundUp}
use xcb_util.Image.{Image, z_pixmap, xy_pixmap, msb_first}
use xcb_util.Image.Format.{annotate, effective_format, image_format_valid, format_valid}
use xcb_util.Image.Format.Geometry.{IsRow, annotate_z}
use xcb_util.Image.Pixel.{put_pixel, put_bytes, put_z, get_pixel, get_z}
use xcb_util.Image.Pixel.Cell.{IsBytes}
use xcb_util.Image.Pixel.Z.{IsZImage, get-put_z, get-put_z_other}
use xcb_util.Image.Create.{Malloc, create, attach, header, default_unit}
use xcb_util.Image.Create.Storage.{IsMalloc, HasStorage, create-HasStorage}
use xcb_util.Image.Convert.{convert}
use xcb_util.Image.Convert.Copy.{convert_pixels}
use xcb_util.Aux.{pack_list, parse_color, hex_digit}
use xcb_util.Aux.Pack.{selected, pack_list-eq-selected}
use xcb_util.Aux.Color.{hex_value, parse_color-eq-hex_values}
use xcb_util.Event.{
  Event, EventHandler, EventHandlers, get_event_handler, handle, call, set_handler,
  set_error_handler,
}
use xcb_util.Event.Dispatch.{handle-set_handler}
use xcb_util.Prelude.{replicate, set, ◌+◌}
use xcb_util.Reply.{ReplyNode, add_handler}
use xcb_util.Reply.Sorted.{IsSorted, add_handler-IsSorted}
use xcb_util.Property.{PropertyHandler, PropertyHandlers, call_handler, property_changed}
use xcb_util.Property.Latest.{set_all, latest, property_changed-set_all}
use xcb_util.Property.Events.{handlers_init, due, handle-handlers_init}
use xcb_util.Prelude.{◌++◌, false, ◌>>=◌, get_or}

abbrev memory : List ℕ
memory = 1 ∷ 2 ∷ 3 ∷ 4 ∷ 5 ∷ 6 ∷ 7 ∷ 8 ∷ []

abbrev deep : Image
deep = record {
  width = 2;
  height = 2;
  format = z_pixmap;
  scanline_pad = 32;
  depth = 16;
  bpp = 16;
  unit = 16;
  plane_mask = 0xffff;
  byte_order = msb_first;
  bit_order = msb_first;
  stride = 4;
  size = 8;
  base = true;
  data' = some (1 ∷ 2 ∷ 3 ∷ 4 ∷ 5 ∷ 6 ∷ 7 ∷ 8 ∷ []);
}

abbrev shallow : Image
shallow = record deep { depth = 8; bpp = 8; unit = 8; plane_mask = 0xff }

abbrev flat : Image
flat = record shallow { format = xy_pixmap; depth = 1; bpp = 1 }

small-IsBytes : (m : List ℕ) → All (λ b. b < 256) m → IsBytes m
small-IsBytes [] h i = omega arith
small-IsBytes (b ∷ m) h zero = h.0
small-IsBytes (b ∷ m) h (suc i) = small-IsBytes m h.1 i

memory_small : All (λ b. b < 256) memory
memory_small = (
  omega arith,
  (
    omega arith,
    (omega arith, (omega arith, (omega arith, (omega arith, (omega arith, (omega arith, tt)))))),
  ),
)

deep-IsZImage : IsZImage deep
unfolding image_format_valid format_valid effective_format
deep-IsZImage = record {
  valid = refl;
  is_z = refl;
  small = (omega arith, omega arith);
  row_fits = omega arith;
  storage = omega arith;
  no_wrap = omega arith;
  are_bytes = small-IsBytes memory memory_small;
}

shallow-IsZImage : IsZImage shallow
unfolding image_format_valid format_valid effective_format
shallow-IsZImage = record {
  valid = refl;
  is_z = refl;
  small = (omega arith, omega arith);
  row_fits = omega arith;
  storage = omega arith;
  no_wrap = omega arith;
  are_bytes = small-IsBytes memory memory_small;
}

abbrev after : Image
after = record deep { data' = some (1 ∷ 2 ∷ 3 ∷ 4 ∷ 5 ∷ 6 ∷ 0xbe ∷ 0xef ∷ []) }

get-put_z_example :
    (image' : Image) × (put_pixel deep 1 1 0x1_beef ≡ done image')
    × (get_pixel image' 1 1 ≡ done (0x1_beef % 2 ^ 16))
get-put_z_example = get-put_z deep 1 1 0x1_beef deep-IsZImage (omega arith) (omega arith)

put_deep : put_pixel deep 1 1 0x1_beef ≡ done after
unfolding put_pixel put_bytes effective_format put_z store
put_deep = refl

get-put_z_other_example : get_pixel after 0 1 ≡ get_pixel deep 0 1
get-put_z_other_example =
    get-put_z_other deep after 1 1 0 1 0x1_beef deep-IsZImage (omega arith) (omega arith)
      (omega arith) (omega arith) (inl (omega arith)) put_deep

-- The 16-bit pixels of `deep`.
abbrev pixels : ℕ → ℕ → ℕ
pixels zero zero = 0x0102
pixels (suc x) zero = 0x0304
pixels zero (suc y) = 0x0506
pixels (suc x) (suc y) = 0x0708

reads_pixels :
    (x y : ℕ) → x < shallow.width → y < shallow.height → get_pixel deep x y ≡ done (pixels x y)
unfolding get_pixel get_z load effective_format
reads_pixels zero zero hx hy = refl
reads_pixels zero (suc zero) hx hy = refl
reads_pixels (suc zero) zero hx hy = refl
reads_pixels (suc zero) (suc zero) hx hy = refl
reads_pixels (suc (suc x)) y hx hy = absurd (omega arith)
reads_pixels zero (suc (suc y)) hx hy = absurd (omega arith)
reads_pixels (suc zero) (suc (suc y)) hx hy = absurd (omega arith)

convert_pixels_example :
    (dst' : Image) × (convert deep shallow ≡ done (some dst'))
    × (get_pixel dst' 1 0 ≡ done (0x0304 % 2 ^ 8))
convert_pixels_example =
    convert_pixels deep shallow _ pixels 1 0 deep-IsZImage.valid shallow-IsZImage refl refl refl
      (omega arith) reads_pixels (omega arith) (omega arith)

-- A heap that gives eight bytes, when no more are asked for.
abbrev heap : Malloc
heap = record {
  header = true;
  storage = λ n. if leb n 8 then some (1 ∷ 2 ∷ 3 ∷ 4 ∷ 5 ∷ 6 ∷ 7 ∷ 8 ∷ []) else none;
}

heap-IsMalloc : IsMalloc heap
heap-IsMalloc n m e = ground arith

abbrev created : Image
created = record deep { unit = 16 }

create_deep : create heap 2 2 z_pixmap 32 16 16 0 msb_first msb_first none 0 none ≡ some created
unfolding create format_valid attach header annotate roundup mask
create_deep = refl

create-HasStorage_example :
    HasStorage (header 2 2 z_pixmap 32 16 16 16 msb_first msb_first) created
    × (format_valid 16 16 16 z_pixmap 32 ≡ true)
unfolding default_unit
create-HasStorage_example =
    create-HasStorage heap 2 2 z_pixmap 32 16 16 0 msb_first msb_first none 0 none created
      heap-IsMalloc tt tt (omega arith) create_deep

annotate_z_example :
    IsRow (2 * 16) 32 (annotate deep).stride
    × ((annotate deep).size ≡ 2 * (annotate deep).stride % 2 ^ 32)
annotate_z_example = annotate_z deep deep-IsZImage.is_z (omega arith) (omega arith) (inr (inr refl))

flat_is_xy : effective_format flat.format flat.bpp ≡ xy_pixmap
unfolding effective_format
flat_is_xy = refl

bit_reverse-eq-reversed_example : bit_reverse 0b1101 6 ≡ done (reversed 6 0b1101)
bit_reverse-eq-reversed_example = bit_reverse-eq-reversed 0b1101 6 (omega arith)

popcount-eq-ones_example : popcount 0xf00d ≡ ones 32 0xf00d
popcount-eq-ones_example = popcount-eq-ones 0xf00d (omega arith)

abbrev values : List ℕ
values = 7 ∷ 8 ∷ 9 ∷ []

parse_color-eq-hex_values_example :
    parse_color (b'#' ∷ b'f' ∷ b'0' ∷ b'A' ∷ [])
    ≡ some (
      hex_value 0 (b'f' ∷ []) * 2 ^ (16 - 1 * 4),
      hex_value 0 (b'0' ∷ []) * 2 ^ (16 - 1 * 4),
      hex_value 0 (b'A' ∷ []) * 2 ^ (16 - 1 * 4),
    )
parse_color-eq-hex_values_example =
    parse_color-eq-hex_values 1 (b'f' ∷ []) b'0' [] b'A' [] (omega arith) (omega arith) refl refl
      refl ((15, ground arith), tt) ((0, ground arith), tt) ((10, ground arith), tt)
