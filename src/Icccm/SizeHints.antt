-- ===== src/Icccm/SizeHints.antt =====
-- WM_SIZE_HINTS of icccm/xcb_icccm.h and icccm/icccm.c, and WM_NORMAL_HINTS.
pub mod View
pub mod Reply
use xcb_util.Prelude.{
  ℕ, ◌*◌, ◌/◌, List, [], ◌∷◌, Bool, true, false, ◌&&◌, ◌||◌, not, leb, ◌==◌, if◌then◌else◌, bit_and,
  bit_or, not32, ◌>>>◌, Option, some, none, Outcome, done, fault, ◌>>=◌, mul_int, memcpy,
}
use xcb_util.Request.{Request, PropertyReply, change_property, get_property}
use xcb_util.Icccm.{wm_size_hints_atom, wm_normal_hints_atom, mode_replace}
use xcb_util.Memory.{word_bytes, words}

-- `xcb_size_hints_flags_t`
abbrev pub us_position : ℕ
us_position = 0x1

abbrev pub us_size : ℕ
us_size = 0x2

abbrev pub p_position : ℕ
p_position = 0x4

abbrev pub p_size : ℕ
p_size = 0x8

abbrev pub p_min_size : ℕ
p_min_size = 0x10

abbrev pub p_max_size : ℕ
p_max_size = 0x20

abbrev pub p_resize_inc : ℕ
p_resize_inc = 0x40

abbrev pub p_aspect : ℕ
p_aspect = 0x80

abbrev pub base_size : ℕ
base_size = 0x100

abbrev pub p_win_gravity : ℕ
p_win_gravity = 0x200

-- `xcb_size_hints_t`: eighteen 32-bit words.
pub record SizeHints : Type 0 where
  pub flags : ℕ
  pub x : ℕ
  pub y : ℕ
  pub width : ℕ
  pub height : ℕ
  pub min_width : ℕ
  pub min_height : ℕ
  pub max_width : ℕ
  pub max_height : ℕ
  pub width_inc : ℕ
  pub height_inc : ℕ
  pub min_aspect_num : ℕ
  pub min_aspect_den : ℕ
  pub max_aspect_num : ℕ
  pub max_aspect_den : ℕ
  pub base_width : ℕ
  pub base_height : ℕ
  pub win_gravity : ℕ

unfoldable pub set_position : SizeHints → Bool → ℕ → ℕ → SizeHints
set_position hints user_specified x y =
    let cleared = bit_and hints.flags (not32 (bit_or us_position p_position)) in
    record hints {
      flags = bit_or cleared (if user_specified then us_position else p_position);
      x = x;
      y = y;
    }

unfoldable pub set_size : SizeHints → Bool → ℕ → ℕ → SizeHints
set_size hints user_specified width height =
    let cleared = bit_and hints.flags (not32 (bit_or us_size p_size)) in
    record hints {
      flags = bit_or cleared (if user_specified then us_size else p_size);
      width = width;
      height = height;
    }

unfoldable pub set_min_size : SizeHints → ℕ → ℕ → SizeHints
set_min_size hints min_width min_height = record hints {
  flags = bit_or hints.flags p_min_size;
  min_width = min_width;
  min_height = min_height;
}

unfoldable pub set_max_size : SizeHints → ℕ → ℕ → SizeHints
set_max_size hints max_width max_height = record hints {
  flags = bit_or hints.flags p_max_size;
  max_width = max_width;
  max_height = max_height;
}

unfoldable pub set_resize_inc : SizeHints → ℕ → ℕ → SizeHints
set_resize_inc hints width_inc height_inc = record hints {
  flags = bit_or hints.flags p_resize_inc;
  width_inc = width_inc;
  height_inc = height_inc;
}

unfoldable pub set_aspect : SizeHints → ℕ → ℕ → ℕ → ℕ → SizeHints
set_aspect hints min_aspect_num min_aspect_den max_aspect_num max_aspect_den = record hints {
  flags = bit_or hints.flags p_aspect;
  min_aspect_num = min_aspect_num;
  min_aspect_den = min_aspect_den;
  max_aspect_num = max_aspect_num;
  max_aspect_den = max_aspect_den;
}

unfoldable pub set_base_size : SizeHints → ℕ → ℕ → SizeHints
set_base_size hints base_width base_height = record hints {
  flags = bit_or hints.flags base_size;
  base_width = base_width;
  base_height = base_height;
}

unfoldable pub set_win_gravity : SizeHints → ℕ → SizeHints
set_win_gravity hints win_gravity = record hints {
  flags = bit_or hints.flags p_win_gravity;
  win_gravity = win_gravity;
}

-- The structure in memory, and back.
abbrev pub hint_words : SizeHints → List ℕ
hint_words h =
    h.flags ∷ h.x ∷ h.y ∷ h.width ∷ h.height ∷ h.min_width ∷ h.min_height ∷ h.max_width
    ∷ h.max_height ∷ h.width_inc ∷ h.height_inc ∷ h.min_aspect_num ∷ h.min_aspect_den
    ∷ h.max_aspect_num ∷ h.max_aspect_den ∷ h.base_width ∷ h.base_height ∷ h.win_gravity ∷ []

abbrev pub hints_of : List ℕ → Outcome SizeHints
hints_of (f ∷ a ∷ b ∷ c ∷ d ∷ e ∷ g ∷ h ∷ i ∷ j ∷ k ∷ l ∷ m ∷ n ∷ o ∷ p ∷ q ∷ r ∷ []) =
    done (record {
      flags = f;
      x = a;
      y = b;
      width = c;
      height = d;
      min_width = e;
      min_height = g;
      max_width = h;
      max_height = i;
      width_inc = j;
      height_inc = k;
      min_aspect_num = l;
      min_aspect_den = m;
      max_aspect_num = n;
      max_aspect_den = o;
      base_width = p;
      base_height = q;
      win_gravity = r;
    })
hints_of _ = fault

-- `sizeof(*hints) >> 2` is 18.
unfoldable pub set_wm_size_hints : Bool → ℕ → ℕ → SizeHints → Request
set_wm_size_hints checked window property hints =
    change_property checked mode_replace window property wm_size_hints_atom 32 18
      (word_bytes (hint_words hints))

unfoldable pub get_wm_size_hints : Bool → ℕ → ℕ → Request
get_wm_size_hints checked window property =
    get_property checked 0 window property wm_size_hints_atom 0 18

unfoldable pub set_wm_normal_hints : Bool → ℕ → SizeHints → Request
set_wm_normal_hints checked window hints =
    set_wm_size_hints checked window wm_normal_hints_atom hints

unfoldable pub get_wm_normal_hints : Bool → ℕ → Request
get_wm_normal_hints checked window = get_wm_size_hints checked window wm_normal_hints_atom

-- The flags that a reply may set, without the elements of ICCCM version 1 and with them.
abbrev pub old_flags : ℕ
old_flags = 0xff

abbrev pub all_flags : ℕ
all_flags = 0x3ff

-- What the library takes of `xcb_get_property_value_length`.
module _ (value_length : PropertyReply → ℕ) where
  -- `xcb_get_wm_size_hints_from_reply`: the result, and the structure that it has written to.
  unfoldable pub size_hints_from_reply :
      SizeHints → Option PropertyReply → Outcome (Bool × SizeHints)
  size_hints_from_reply hints none = done (false, hints)
  size_hints_from_reply hints (some reply) =
      let length = value_length reply in
      let accepted =
        reply.type == wm_size_hints_atom
        && ((reply.format == 8 || (reply.format == 16 || reply.format == 32)) && leb 15 length) in
      let copied : Outcome (Bool × SizeHints) = (do
        bits ← mul_int length reply.format
        m ← memcpy (bits >>> 3) reply.value (word_bytes (hint_words hints))
        read ← hints_of (words m)
        done (
          true,
          (if leb 18 length
              then record read { flags = bit_and read.flags all_flags }
              else record read {
                flags = bit_and read.flags old_flags;
                base_width = 0;
                base_height = 0;
                win_gravity = 0;
              }),
        )) in
      if accepted then copied else done (false, hints)
