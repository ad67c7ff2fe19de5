-- ===== src/Tests/Requests.antt =====
-- Images that are made for a server of the depths 1 and 24, whose pixels of depth 24 have 32 bits.
use xcb_util.Prelude.{
  [], ◌∷◌, ◌≡◌, refl, true, false, some, none, if◌then◌else◌, done, fault, arith,
}
use xcb_util.Image.{Image, xy_pixmap, lsb_first}
use xcb_util.Image.Create.{
  Malloc, Setup, create_native, create, find_format_by_depth, header, attach,
}
use xcb_util.Bitops.{mask, roundup}
use xcb_util.Image.Format.{annotate, effective_format, format_valid}
use xcb_util.Bits.Flags.{has}
use xcb_util.Image.Requests.{native, get_reply}
use xcb_util.Image.Requests.Agree.{agrees, create_native-native}
use xcb_util.Image.Requests.Partial.{get_reply-partial}

abbrev setup : Setup
setup = record {
  formats =
      record { depth = 1; bits_per_pixel = 1; scanline_pad = 32 }
      ∷ record { depth = 24; bits_per_pixel = 32; scanline_pad = 32 }
      ∷ [];
  scanline_pad = 32;
  scanline_unit = 32;
  byte_order = lsb_first;
  bit_order = lsb_first;
}

abbrev malloc : Malloc
malloc = record { header = true; storage = λ n. some [] }

get_reply-partial_example :
    get_reply malloc setup 4 4 0xffff xy_pixmap
      (some (record { depth = 24; length' = 0; memory = [] }))
    ≡ fault
unfolding has
get_reply-partial_example =
    get_reply-partial malloc setup 4 4 0xffff 20 (record { depth = 24; length' = 0; memory = [] })
      (omega arith) (omega arith) refl

-- What `xcb_image_create_native` makes of an xy-pixmap of 4 by 4 pixels of depth 24.
abbrev image : Image
image = record {
  width = 4;
  height = 4;
  format = xy_pixmap;
  scanline_pad = 32;
  depth = 24;
  bpp = 24;
  unit = 32;
  plane_mask = 0xffffff;
  byte_order = lsb_first;
  bit_order = lsb_first;
  stride = 4;
  size = 384;
  base = true;
  data' = some [];
}

created : create_native malloc setup 4 4 xy_pixmap 24 none 0 none ≡ some image
unfolding create_native find_format_by_depth create format_valid effective_format header annotate
    attach mask roundup
created = refl

create_native-native_example :
    native malloc setup image false ≡ done (if agrees setup xy_pixmap 24 then some image else none)
create_native-native_example =
    create_native-native malloc malloc setup 4 4 xy_pixmap 24 none 0 none image
      ((λ e. absurd (omega arith)), (omega arith, (omega arith, tt))) (omega arith) created
