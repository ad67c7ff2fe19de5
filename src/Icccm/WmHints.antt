-- ===== src/Icccm/WmHints.antt =====
-- WM_HINTS of icccm/xcb_icccm.h and icccm/icccm.c.
pub mod View
pub mod Reply
use xcb_util.Prelude.{
  ℕ, ◌-◌, ◌*◌, List, [], ◌∷◌, Bool, true, false, ◌||◌, not, ltb, ◌==◌, if◌then◌else◌, bit_and,
  bit_or, not32, ◌>>>◌, Option, some, none, Outcome, done, fault, ◌>>=◌, mul_int, memcpy,
}
use xcb_util.Request.{Request, PropertyReply, change_property, get_property}
use xcb_util.Icccm.{wm_hints_atom, mode_replace}
use xcb_util.Memory.{word_bytes, words}

-- `xcb_wm_t`
abbrev pub hint_input : ℕ
hint_input = 0x1

abbrev pub hint_state : ℕ
hint_state = 0x2

abbrev pub hint_icon_pixmap : ℕ
hint_icon_pixmap = 0x4

abbrev pub hint_icon_window : ℕ
hint_icon_window = 0x8

abbrev pub hint_icon_mask : ℕ
hint_icon_mask = 0x20

abbrev pub hint_window_group : ℕ
hint_window_group = 0x40

abbrev pub hint_urgency : ℕ
hint_urgency = 0x100

-- `xcb_wm_state_t`
abbrev pub state_withdrawn : ℕ
state_withdrawn = 0

abbrev pub state_normal : ℕ
state_normal = 1

abbrev pub state_iconic : ℕ
state_iconic = 3

-- `XCB_NUM_WM_HINTS_ELEMENTS`
abbrev pub num_elements : ℕ
num_elements = 9

-- `xcb_wm_hints_t`: nine 32-bit words.
pub record WmHints : Type 0 where
  pub flags : ℕ
  pub input : ℕ
  pub initial_state : ℕ
  pub icon_pixmap : ℕ
  pub icon_window : ℕ
  pub icon_x : ℕ
  pub icon_y : ℕ
  pub icon_mask : ℕ
  pub window_group : ℕ

unfoldable pub get_urgency : WmHints → ℕ
get_urgency hints = bit_and hints.flags hint_urgency

unfoldable pub set_input : WmHints → ℕ → WmHints
set_input hints input = record hints { input = input; flags = bit_or hints.flags hint_input }

unfoldable pub set_iconic : WmHints → WmHints
set_iconic hints = record hints {
  initial_state = state_iconic;
  flags = bit_or hints.flags hint_state;
}

unfoldable pub set_normal : WmHints → WmHints
set_normal hints = record hints {
  initial_state = state_normal;
  flags = bit_or hints.flags hint_state;
}

unfoldable pub set_withdrawn : WmHints → WmHints
set_withdrawn hints = record hints {
  initial_state = state_withdrawn;
  flags = bit_or hints.flags hint_state;
}

unfoldable pub set_none : WmHints → WmHints
set_none hints = record hints { flags = bit_and hints.flags (not32 hint_state) }

unfoldable pub set_icon_pixmap : WmHints → ℕ → WmHints
set_icon_pixmap hints icon_pixmap = record hints {
  icon_pixmap = icon_pixmap;
  flags = bit_or hints.flags hint_icon_pixmap;
}

unfoldable pub set_icon_mask : WmHints → ℕ → WmHints
set_icon_mask hints icon_mask = record hints {
  icon_mask = icon_mask;
  flags = bit_or hints.flags hint_icon_mask;
}

unfoldable pub set_icon_window : WmHints → ℕ → WmHints
set_icon_window hints icon_window = record hints {
  icon_window = icon_window;
  flags = bit_or hints.flags hint_icon_window;
}

unfoldable pub set_window_group : WmHints → ℕ → WmHints
set_window_group hints window_group = record hints {
  window_group = window_group;
  flags = bit_or hints.flags hint_window_group;
}

unfoldable pub set_urgency : WmHints → WmHints
set_urgency hints = record hints { flags = bit_or hints.flags hint_urgency }

-- The structure in memory, and back.
abbrev pub hint_words : WmHints → List ℕ
hint_words h =
    h.flags ∷ h.input ∷ h.initial_state ∷ h.icon_pixmap ∷ h.icon_window ∷ h.icon_x ∷ h.icon_y
    ∷ h.icon_mask ∷ h.window_group ∷ []

abbrev pub hints_of : List ℕ → Outcome WmHints
hints_of (f ∷ a ∷ b ∷ c ∷ d ∷ e ∷ g ∷ h ∷ i ∷ []) = done (record {
  flags = f;
  input = a;
  initial_state = b;
  icon_pixmap = c;
  icon_window = d;
  icon_x = e;
  icon_y = g;
  icon_mask = h;
  window_group = i;
})
hints_of _ = fault

-- `sizeof(*hints) >> 2` is 9.
unfoldable pub set_wm_hints : Bool → ℕ → WmHints → Request
set_wm_hints checked window hints =
    change_property checked mode_replace window wm_hints_atom wm_hints_atom 32 9
      (word_bytes (hint_words hints))

unfoldable pub get_wm_hints : Bool → ℕ → Request
get_wm_hints checked window =
    get_property checked 0 window wm_hints_atom wm_hints_atom 0 num_elements

-- What the library takes of `xcb_get_property_value_length`.
module _ (value_length : PropertyReply → ℕ) where
  -- `xcb_get_wm_hints_from_reply`: the result, and the structure that it has written to.
  unfoldable pub hints_from_reply : WmHints → Option PropertyReply → Outcome (Bool × WmHints)
  hints_from_reply hints none = done (false, hints)
  hints_from_reply hints (some reply) =
      let length = value_length reply in
      let refused =
        not (reply.type == wm_hints_atom)
        || (ltb length (num_elements - 1) || not (reply.format == 32)) in
      let copied : Outcome (Bool × WmHints) = (do
        bits ← mul_int length reply.format
        m ← memcpy (bits >>> 3) reply.value (word_bytes (hint_words hints))
        read ← hints_of (words m)
        done
            (true, (if ltb length num_elements then record read { window_group = 0 } else read))) in
      if refused then done (false, hints) else copied
