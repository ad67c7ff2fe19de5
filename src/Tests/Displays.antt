-- ===== src/Tests/Displays.antt =====
-- Value lists, screens and the fast pixel functions at concrete inputs.
use xcb_util.Prelude.{
  first_match, if◌then◌else◌, ℕ, zero, suc, ◌≡◌, refl, ◌+◌, ◌/◌, ◌&&◌, ◌==◌, inr, List, [], ◌∷◌,
  length, take, replicate, some, none, done, true, pos, negsuc, arith,
}
use xcb_util.Request.{
  create_window, change_window_attributes, configure_window, create_gc, change_gc,
  change_keyboard_control,
}
use xcb_util.Aux.Pack.{selected}
use xcb_util.Aux.Values.{
  aux_create_window, aux_change_window_attributes, aux_configure_window, aux_create_gc,
  aux_change_gc, aux_change_keyboard_control, requests-send_selected,
}
use xcb_util.Aux.Screens.{
  Visual, Depth, Screen, find_visual_by_id, get_depth_of_visual, find_visual_by_attrs,
  get_visualtype, get_screen, nth_screen, fits,
}
use xcb_util.Aux.Screens.Search.{
  pairs, visual_of, depth_of, searches-eq-first_match, get_visualtype-half,
}
use xcb_util.Image.{Image, z_pixmap, xy_bitmap, msb_first, lsb_first}
use xcb_util.Image.Format.{image_format_valid, format_valid, effective_format}
use xcb_util.Image.Pixel.{put_pixel, get_pixel}
use xcb_util.Image.Pixel.Bitmap.{get-put_bitmap}
use xcb_util.Image.Pixel.Z.{IsZImage}
use xcb_util.Image.Pixel.Cell.{IsBytes}
use xcb_util.Image.Fast.Xy.{fast_get_xy, fast_put_xy, fast_xy-agree}
use xcb_util.Image.Fast.Agree.{fast_get_z, fast_put_z, fast_z-agree}

abbrev fields : ℕ → List ℕ
fields n = replicate n 7

requests-send_selected_example :
    (aux_create_window true 24 6 1 0 0 10 10 1 1 0x21 0x802 (fields 15)
      ≡ done (create_window true 24 6 1 0 0 10 10 1 1 0x21 0x802 (selected 0x802 (fields 15))))
    × (aux_change_window_attributes 6 0x802 (fields 15)
        ≡ done (change_window_attributes 6 0x802 (selected 0x802 (fields 15))))
    × (aux_configure_window 6 0xc (fields 7)
        ≡ done (configure_window 6 0xc (selected 0xc (fields 7))))
    × (aux_create_gc true 6 3 0x1_0004 (fields 23)
        ≡ done (create_gc true 6 3 0x1_0004 (selected 0x1_0004 (fields 23))))
    × (aux_change_gc true 6 0x1_0004 (fields 23)
        ≡ done (change_gc true 6 0x1_0004 (selected 0x1_0004 (fields 23))))
    × (aux_change_keyboard_control 0x3 (fields 8)
        ≡ done (change_keyboard_control 0x3 (selected 0x3 (fields 8))))
requests-send_selected_example =
    requests-send_selected 0x802 0xc 0x1_0004 0x3 (fields 15) (fields 7) (fields 23) (fields 8) true
      24 6 1 0 0 10 10 1 1 0x21 3 refl refl refl refl (omega arith) (omega arith) (omega arith)
      (omega arith)

abbrev visuals : List Visual
visuals =
    record { visual_id = 0x21; class = 4 }
    ∷ record { visual_id = 0x22; class = 5 }
    ∷ record { visual_id = 0x23; class = 4 }
    ∷ []

abbrev deep : Depth
deep = record { depth = 24; visuals = visuals }

abbrev screen : Screen
screen = record { allowed_depths = deep ∷ [] }

searches-eq-first_match_example :
    (find_visual_by_id screen 0x22
      ≡ visual_of (first_match (λ p. p.1.visual_id == 0x22) (pairs screen.allowed_depths)))
    × (get_depth_of_visual screen 0x22
        ≡ depth_of (first_match (λ p. p.1.visual_id == 0x22) (pairs screen.allowed_depths)))
    × (find_visual_by_attrs screen (pos 5) (negsuc 0)
        ≡ visual_of (
            first_match
              (λ p. fits (negsuc 0) p.0 && fits (pos 5) p.1.class)
              (pairs screen.allowed_depths)))
searches-eq-first_match_example = searches-eq-first_match screen 0x22 (pos 5) (negsuc 0)

-- The third visual is not found.
get_visualtype-half_example :
    get_visualtype (screen ∷ []) (pos 0) 0x23
    ≡ done (first_match (λ v. 0x23 == v.visual_id) (take ((length visuals + 1) / 2) visuals))
unfolding get_screen nth_screen
get_visualtype-half_example =
    get_visualtype-half (screen ∷ []) (pos 0) 0x23 screen deep [] refl refl

missed :
    done (first_match (λ v. 0x23 == v.visual_id) (take ((length visuals + 1) / 2) visuals))
    ≡ done none
unfolding first_match
missed = refl

-- A column of two pixels of 32 bits.
abbrev column : Image
column = record {
  width = 1;
  height = 2;
  format = z_pixmap;
  scanline_pad = 32;
  depth = 24;
  bpp = 32;
  unit = 32;
  plane_mask = 0xff_ffff;
  byte_order = msb_first;
  bit_order = msb_first;
  stride = 4;
  size = 8;
  base = true;
  data' = some (replicate 8 3);
}

threes : (n : ℕ) → IsBytes (replicate n 3)
threes zero i = omega arith
threes (suc n) zero = omega arith
threes (suc n) (suc i) = threes n i

column-IsZImage : IsZImage column
unfolding image_format_valid format_valid effective_format
column-IsZImage = record {
  valid = refl;
  is_z = refl;
  small = (omega arith, omega arith);
  row_fits = omega arith;
  storage = omega arith;
  no_wrap = omega arith;
  are_bytes = threes 8;
}

fast_z-agree_example :
    (fast_get_z column 0 1 ≡ get_pixel column 0 1)
    × (fast_put_z column 0 1 0x8899aa ≡ put_pixel column 0 1 0x8899aa)
fast_z-agree_example =
    fast_z-agree column 0 1 0x8899aa column-IsZImage (inr refl) (omega arith) (omega arith)

-- A bitmap of one row, its bits from the most significant.
abbrev bitmap : Image
bitmap = record {
  width = 20;
  height = 1;
  format = xy_bitmap;
  scanline_pad = 32;
  depth = 1;
  bpp = 1;
  unit = 32;
  plane_mask = 1;
  byte_order = lsb_first;
  bit_order = msb_first;
  stride = 4;
  size = 4;
  base = true;
  data' = some (1 ∷ 2 ∷ 3 ∷ 4 ∷ []);
}

bitmap-IsBytes : IsBytes (1 ∷ 2 ∷ 3 ∷ 4 ∷ [])
bitmap-IsBytes zero = omega arith
bitmap-IsBytes (suc zero) = omega arith
bitmap-IsBytes (suc (suc zero)) = omega arith
bitmap-IsBytes (suc (suc (suc zero))) = omega arith
bitmap-IsBytes (suc (suc (suc (suc i)))) = omega arith

fast_xy-agree_example :
    (fast_get_xy bitmap 17 0 ≡ get_pixel bitmap 17 0)
    × (fast_put_xy bitmap 17 0 1 ≡ put_pixel bitmap 17 0 1)
fast_xy-agree_example =
    fast_xy-agree bitmap 17 0 1
      (record { one_bit = refl; unit = refl; low_byte_first = refl; plane = refl }) (omega arith)
      (omega arith) (omega arith) (omega arith)

-- The bits before and after in the same byte, which stands last in its unit.
get-put_bitmap_example :
    (image' : Image) × (put_pixel bitmap 6 0 1 ≡ done image')
    × (get_pixel image' 7 0 ≡ (if 7 == 6 && 0 == 0 then done 1 else get_pixel bitmap 7 0))
get-put_bitmap_example =
    get-put_bitmap bitmap 6 0 7 0 1
      (record {
        one_bit = refl;
        plane = refl;
        whole_units = inr (inr (refl, refl));
        row_fits = omega arith;
        storage = omega arith;
        no_wrap = omega arith;
        are_bytes = bitmap-IsBytes;
      })
      (omega arith) (omega arith) (omega arith) (omega arith) (omega arith)
