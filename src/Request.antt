-- ===== src/Request.antt =====
-- The requests of libxcb that the libraries make, each with the arguments of the call. A function
-- that ends in such a call is modelled by the request that it makes, and its variants `_checked` and
-- `_unchecked` by a Boolean. `data` and `values` are the memory at the pointer that is passed.
use xcb_util.Prelude.{ℕ, List, Bool}

pub data Request : Type 0 where
  -- mode, window, property, type, format, data_len, data
  change_property : Bool → ℕ → ℕ → ℕ → ℕ → ℕ → ℕ → List ℕ → Request
  -- delete, window, property, type, long_offset, long_length
  get_property : Bool → ℕ → ℕ → ℕ → ℕ → ℕ → ℕ → Request
  -- depth, wid, parent, x, y, width, height, border_width, class, visual, value_mask, values
  create_window : Bool → ℕ → ℕ → ℕ → ℕ → ℕ → ℕ → ℕ → ℕ → ℕ → ℕ → ℕ → List ℕ → Request
  -- window, value_mask, values
  change_window_attributes configure_window : ℕ → ℕ → List ℕ → Request
  -- gc, drawable, value_mask, values
  create_gc : Bool → ℕ → ℕ → ℕ → List ℕ → Request
  -- gc, value_mask, values
  change_gc : Bool → ℕ → ℕ → List ℕ → Request
  -- value_mask, values
  change_keyboard_control : ℕ → List ℕ → Request
  -- exposures, window, x, y, width, height
  clear_area : ℕ → ℕ → ℕ → ℕ → ℕ → ℕ → Request
  -- first_keycode, count
  get_keyboard_mapping : ℕ → ℕ → Request
  -- the bits of a glyph, op, src, dst, mask_format, glyphset, src_x, src_y, glyphcmds_len, glyphcmds
  composite_glyphs : Bool → ℕ → ℕ → ℕ → ℕ → ℕ → ℕ → ℕ → ℕ → ℕ → List ℕ → Request
  no_operation : Bool → Request
  -- depth, pid, drawable, width, height
  create_pixmap : ℕ → ℕ → ℕ → ℕ → ℕ → Request
  free_gc : ℕ → Request
  -- format, drawable, x, y, width, height, plane_mask
  get_image : ℕ → ℕ → ℕ → ℕ → ℕ → ℕ → ℕ → Request
  -- format, drawable, gc, width, height, dst_x, dst_y, left_pad, depth, data_len, data
  put_image : ℕ → ℕ → ℕ → ℕ → ℕ → ℕ → ℕ → ℕ → ℕ → ℕ → List ℕ → Request
  -- drawable, gc, total_width, total_height, src_x, src_y, src_width, src_height, dst_x, dst_y, depth,
  -- format, send_event, shmseg, offset
  shm_put_image : ℕ → ℕ → ℕ → ℕ → ℕ → ℕ → ℕ → ℕ → ℕ → ℕ → ℕ → ℕ → ℕ → ℕ → ℕ → Request
  -- drawable, x, y, width, height, plane_mask, format, shmseg, offset
  shm_get_image : ℕ → ℕ → ℕ → ℕ → ℕ → ℕ → ℕ → ℕ → ℕ → Request

-- `xcb_get_property_reply_t`: the value is the memory from its address to the end of the reply.
pub record PropertyReply : Type 0 where
  pub format : ℕ
  pub length : ℕ
  pub type : ℕ
  pub value_len : ℕ
  pub value : List ℕ
