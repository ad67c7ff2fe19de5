-- ===== src/Aux/Values.antt =====
-- The requests of aux/xcb_aux.c whose value lists are given as structures.
use xcb_util.Prelude.{
  ℕ, ◌^◌, ◌≤◌, ◌<◌, ◌≡◌, refl, List, [], ◌∷◌, length, set, Bool, true, Outcome, done, ◌>>=◌, bit_or,
  arith,
}
use xcb_util.Request.{
  Request, create_window, change_window_attributes, configure_window, create_gc, change_gc,
  change_keyboard_control, clear_area,
}
use xcb_util.Bitops.Count.{ones-le}
use xcb_util.Aux.{pack_list}
use xcb_util.Aux.Pack.{selected, pack_list-eq-selected}

-- `value_list` has 16, 8 or 32 words. Only its first words, those that are set, are passed on.
unfoldable pub aux_create_window :
    Bool → ℕ → ℕ → ℕ → ℕ → ℕ → ℕ → ℕ → ℕ → ℕ → ℕ → ℕ → List ℕ → Outcome Request
aux_create_window checked depth wid parent x y width height border_width class visual mask params =
    do
      values ← pack_list 32 mask params 16
      done (
          create_window checked depth wid parent x y width height border_width class visual mask
            values)

unfoldable pub aux_change_window_attributes : ℕ → ℕ → List ℕ → Outcome Request
aux_change_window_attributes window mask params = do
  values ← pack_list 32 mask params 16
  done (change_window_attributes window mask values)

unfoldable pub aux_configure_window : ℕ → ℕ → List ℕ → Outcome Request
aux_configure_window window mask params = do
  values ← pack_list 32 mask params 8
  done (configure_window window mask values)

unfoldable pub aux_create_gc : Bool → ℕ → ℕ → ℕ → List ℕ → Outcome Request
aux_create_gc checked gid drawable mask params = do
  values ← pack_list 32 mask params 32
  done (create_gc checked gid drawable mask values)

unfoldable pub aux_change_gc : Bool → ℕ → ℕ → List ℕ → Outcome Request
aux_change_gc checked gc mask params = do
  values ← pack_list 32 mask params 32
  done (change_gc checked gc mask values)

unfoldable pub aux_change_keyboard_control : ℕ → List ℕ → Outcome Request
aux_change_keyboard_control mask params = do
  values ← pack_list 32 mask params 16
  done (change_keyboard_control mask values)

unfoldable pub aux_clear_window : ℕ → Request
aux_clear_window w = clear_area 0 w 0 0 0 0

-- `XCB_AUX_ADD_PARAM` for the field at word `i` of the structure.
unfoldable pub add_param : ℕ × List ℕ → ℕ → ℕ → ℕ × List ℕ
add_param (mask, params) i value = (bit_or mask (2 ^ i), set params i value)

-- `xcb_aux_set_line_attributes_checked`: `gv` is what the structure on the stack holds before, and the
-- words 4 to 7 of it are the line's width, its style and its cap and join styles.
unfoldable pub set_line_attributes : List ℕ → ℕ → ℕ → ℕ → ℕ → ℕ → Outcome Request
set_line_attributes gv gc linewidth linestyle capstyle joinstyle =
    let p0 = add_param (0, gv) 4 linewidth in
    let p1 = add_param p0 5 linestyle in
    let p2 = add_param p1 6 capstyle in
    let p3 = add_param p2 7 joinstyle in aux_change_gc true gc p3.0 p3.1

-- The line attributes are sent with the four values that are given, in this order and under the mask
-- of their four fields, whatever the structure of 23 words on the stack held before.
set_line_attributes-sends :
    (gv : List ℕ) (gc linewidth linestyle capstyle joinstyle : ℕ)
    → length gv ≡ 23
    → set_line_attributes gv gc linewidth linestyle capstyle joinstyle
      ≡ done (change_gc true gc 0xf0 (linewidth ∷ linestyle ∷ capstyle ∷ joinstyle ∷ []))
unfolding set_line_attributes aux_change_gc add_param pack_list
set_line_attributes-sends (a ∷ b ∷ c ∷ d ∷ e ∷ f ∷ g ∷ h ∷ rest) gc linewidth linestyle capstyle
      joinstyle len =
    refl
set_line_attributes-sends _ gc linewidth linestyle capstyle joinstyle len = absurd (omega arith)

packed :
    (n room mask : ℕ) (params : List ℕ)
    → length params ≡ n
    → n ≤ 32
    → n ≤ room
    → mask < 2 ^ n
    → pack_list 32 mask params room ≡ done (selected mask params)
packed n room mask params len words enough low =
    let bits = ones-le (length params) mask in
    (pack_list-eq-selected mask params room (omega arith) (rw len low) (omega arith)).0

-- Each request is made with the values at the bits of its mask, in their order, if the mask has no
-- bit beyond the fields of its structure: no word outside the structure is read, and none outside the
-- list of values is written.
pub requests-send_selected :
    (window_mask configure_mask gc_mask keyboard_mask : ℕ)
    (window_params configure_params gc_params keyboard_params : List ℕ) (checked : Bool)
    (depth wid parent x y width height border_width class visual drawable : ℕ)
    → length window_params ≡ 15
    → length configure_params ≡ 7
    → length gc_params ≡ 23
    → length keyboard_params ≡ 8
    → window_mask < 2 ^ 15
    → configure_mask < 2 ^ 7
    → gc_mask < 2 ^ 23
    → keyboard_mask < 2 ^ 8
    → (aux_create_window checked depth wid parent x y width height border_width class visual
          window_mask window_params
        ≡ done (
            create_window checked depth wid parent x y width height border_width class visual
              window_mask
              (selected window_mask window_params)))
      × (aux_change_window_attributes wid window_mask window_params
          ≡ done (change_window_attributes wid window_mask (selected window_mask window_params)))
      × (aux_configure_window wid configure_mask configure_params
          ≡ done (configure_window wid configure_mask (selected configure_mask configure_params)))
      × (aux_create_gc checked wid drawable gc_mask gc_params
          ≡ done (create_gc checked wid drawable gc_mask (selected gc_mask gc_params)))
      × (aux_change_gc checked wid gc_mask gc_params
          ≡ done (change_gc checked wid gc_mask (selected gc_mask gc_params)))
      × (aux_change_keyboard_control keyboard_mask keyboard_params
          ≡ done (change_keyboard_control keyboard_mask (selected keyboard_mask keyboard_params)))
unfolding aux_create_window aux_change_window_attributes aux_configure_window aux_create_gc
    aux_change_gc aux_change_keyboard_control
requests-send_selected window_mask configure_mask gc_mask keyboard_mask window_params
      configure_params gc_params keyboard_params checked depth wid parent x y width height
      border_width class visual drawable lw lc lg lk hw hc hg hk =
    let w = packed 15 16 window_mask window_params lw (omega arith) (omega arith) hw in
    let c = packed 7 8 configure_mask configure_params lc (omega arith) (omega arith) hc in
    let g = packed 23 32 gc_mask gc_params lg (omega arith) (omega arith) hg in
    let k = packed 8 16 keyboard_mask keyboard_params lk (omega arith) (omega arith) hk in
    (rw w, rw w, rw c, rw g, rw g, rw k)
