-- ===== src/Tests/Icccm.antt =====
-- Hints and names at concrete inputs, with a server that keeps a list of properties.
use xcb_util.Prelude.{
  ℕ, ◌*◌, ◌/◌, ◌^◌, ◌≤◌, ◌≡◌, ◌⊎◌, refl, sym, List, [], ◌∷◌, ◌++◌, length, take, Bool, true, false,
  ◌&&◌, ◌||◌, ◌==◌, ==_iff, ltb, not, if◌then◌else◌, Option, some, none, done, fault, arith,
}
use mathlib.Core.List.{append-nil}
use xcb_util.Request.{Request, PropertyReply, change_property, get_property}
use xcb_util.Icccm.{string_atom, wm_size_hints_atom}
use xcb_util.Memory.{IsWords, word_bytes}
use xcb_util.Icccm.Server.{Server, IsStored, IsByteLength}
use xcb_util.Icccm.Text.{
  text_property_reply, class_from_reply, set_wm_name, get_wm_name, set_wm_icon_name,
  get_wm_icon_name, set_wm_client_machine, get_wm_client_machine, WmClass,
}
use xcb_util.Icccm.Text.Reply.{
  IsText, IsName, outside, names-round_trip, class_from_reply-strings, c_string,
}
use xcb_util.Icccm.SizeHints.{
  SizeHints, hint_words as size_words, size_hints_from_reply, set_wm_normal_hints,
  get_wm_normal_hints,
}
use xcb_util.Icccm.SizeHints.Reply.{normal_hints-overrun, size_hints_overrun}
use xcb_util.Icccm.SizeHints.View as size
use xcb_util.Icccm.WmHints.{WmHints, set_wm_hints, get_wm_hints, hints_from_reply}
use xcb_util.Icccm.WmHints.Reply.{wm_hints-overrun}
use xcb_util.Icccm.WmHints.View as window

record Kept : Type 0 where
  window : ℕ
  property : ℕ
  type : ℕ
  format : ℕ
  elements : ℕ
  bytes : List ℕ

unfoldable find : List Kept → ℕ → ℕ → Option Kept
find [] w p = none
find (k ∷ ks) w p =
    let rest = find ks w p in if k.window == w && k.property == p then some k else rest

abbrev reply_of : Kept → PropertyReply
reply_of k = record {
  format = k.format;
  length = k.elements * k.format / 32;
  type = k.type;
  value_len = k.elements;
  value = take (k.elements * k.format / 8) k.bytes;
}

unfoldable send : List Kept → Request → List Kept
send s (change_property checked mode w p t f n bytes) =
    record { window = w; property = p; type = t; format = f; elements = n; bytes = bytes } ∷ s
send s _ = s

unfoldable fetch : List Kept → Request → Option PropertyReply
fetch s (get_property checked del w p t offset len) = elim (find s w p) [
  | none ↦ none
  | some k ↦ if t == 0 || t == k.type then some (reply_of k) else none
]
fetch s _ = none

unfoldable all : (ℕ → Bool) → List ℕ → Bool
all test [] = true
all test (x ∷ xs) = test x && all test xs

and_true : (a b : Bool) → (a && b) ≡ true → (a ≡ true) × (b ≡ true)
and_true true b e = (refl, e)
and_true false b e = (e, absurd (cc))

same : (n : ℕ) → (n == n) ≡ true
same n = (==_iff n n).1 refl

any : (t t' : ℕ) → (t' ≡ 0) ⊎ (t' ≡ t) → (t' == 0 || t' == t) ≡ true
any t t' h = ground arith

stored :
    (s : List Kept) (checked : Bool) (w p type format n : ℕ) (bytes : List ℕ) (checked' : Bool)
    (type' long_length : ℕ)
    → n * format / 8 ≤ length bytes
    → n * format / 8 ≤ 4 * long_length
    → (type' ≡ 0) ⊎ (type' ≡ type)
    → (reply : PropertyReply) × (fetch
          (send s (change_property checked 0 w p type format n bytes))
          (get_property checked' 0 w p type' 0 long_length)
        ≡ some reply)
      × IsStored type format n bytes reply
unfolding fetch send find
stored s checked w p type format n bytes checked' type' long_length enough fits h = (
  reply_of (record {
    window = w;
    property = p;
    type = type;
    format = format;
    elements = n;
    bytes = bytes;
  }),
  rw (fetch, send, find, same w, same p, any type type' h),
  record {
    same_type = refl;
    same_format = refl;
    elements = refl;
    rest = [];
    same_value = sym (append-nil (take (n * format / 8) bytes));
  },
)

abbrev server : Server
server = record { State = List Kept; send = send; fetch = fetch; stored = stored }

words : (ws : List ℕ) → all (λ w. ltb w (2 ^ 32)) ws ≡ true → IsWords ws
unfolding all
words [] e = tt
words (w ∷ ws) e =
    let (now, later) = and_true (ltb w (2 ^ 32)) (all (λ w. ltb w (2 ^ 32)) ws) e in
    (ground (arith, now), words ws later)

names : (ws : List ℕ) → all (λ w. not (w == 0)) ws ≡ true → IsName ws
unfolding all
names [] e = tt
names (w ∷ ws) e =
    let (now, later) = and_true (not (w == 0)) (all (λ w. not (w == 0)) ws) e in
    (ground (arith, now), names ws later)

abbrev xterm : List ℕ
xterm = 120 ∷ 116 ∷ 101 ∷ 114 ∷ 109 ∷ []

abbrev byte_length : PropertyReply → ℕ
byte_length r = r.value_len * (r.format / 8)

byte_length-IsByteLength : IsByteLength byte_length
byte_length-IsByteLength r = refl

names-round_trip_example :
    IsText 31 5 xterm (
      text_property_reply byte_length
        (fetch (send [] (set_wm_name true 7 31 5 xterm)) (get_wm_name false 7)))
    × IsText 31 5 xterm (
        text_property_reply byte_length
          (fetch (send [] (set_wm_icon_name true 7 31 5 xterm)) (get_wm_icon_name false 7)))
    × IsText 31 5 xterm (
        text_property_reply byte_length (
          fetch
            (send [] (set_wm_client_machine true 7 31 5 xterm))
            (get_wm_client_machine false 7)))
names-round_trip_example =
    names-round_trip server byte_length [] true false 7 31 5 xterm byte_length-IsByteLength
      (omega arith) (omega arith)

-- "xterm" with its end and nothing behind it in the property; "x" follows in memory.
abbrev class_reply : PropertyReply
class_reply = record {
  format = 8;
  length = 2;
  type = string_atom;
  value_len = 6;
  value = (xterm ++ (0 ∷ [])) ++ ((120 ∷ []) ++ (0 ∷ []));
}

class_from_reply-strings_example :
    (w : WmClass) × (class_from_reply byte_length (some class_reply) ≡ done (some w))
    × (c_string w.instance_name ≡ xterm)
    × (c_string w.class_name ≡ 120 ∷ [])
unfolding all
class_from_reply-strings_example =
    class_from_reply-strings byte_length class_reply (xterm ++ (0 ∷ [])) ((120 ∷ []) ++ (0 ∷ []))
      xterm (120 ∷ []) byte_length-IsByteLength refl refl refl refl (names xterm refl)
      (names (120 ∷ []) refl) (outside xterm (120 ∷ []) [])

-- A minimal size, and a flag that is no hint.
abbrev hints : SizeHints
hints = record {
  flags = 0x1010;
  x = 0;
  y = 0;
  width = 0;
  height = 0;
  min_width = 80;
  min_height = 24;
  max_width = 0;
  max_height = 0;
  width_inc = 0;
  height_inc = 0;
  min_aspect_num = 0;
  min_aspect_den = 0;
  max_aspect_num = 0;
  max_aspect_den = 0;
  base_width = 0;
  base_height = 0;
  win_gravity = 0;
}

abbrev changes : List size.Change
changes = size.position true 3 4 ∷ size.max_size 800 600 ∷ size.position false 5 6 ∷ []

view-apply_all_example :
    size.view (size.apply_all changes hints) ≡ size.apply_view_all changes (size.view hints)
view-apply_all_example = size.view-apply_all changes hints

normal_hints-overrun_example :
    size_hints_from_reply byte_length
      (record hints { x = 9; flags = 1 })
      (fetch (send [] (set_wm_normal_hints false 7 hints)) (get_wm_normal_hints true 7))
    ≡ fault
normal_hints-overrun_example =
    normal_hints-overrun server byte_length [] false true 7 hints
      (record hints { x = 9; flags = 1 }) byte_length-IsByteLength

-- The words of the hints, as bytes.
abbrev byte_reply : PropertyReply
byte_reply = record {
  format = 8;
  length = 18;
  type = wm_size_hints_atom;
  value_len = 72;
  value = word_bytes (size_words hints) ++ [];
}

-- Five elements of format 32.
abbrev short_reply : PropertyReply
short_reply = record {
  format = 32;
  length = 5;
  type = wm_size_hints_atom;
  value_len = 5;
  value = [];
}

size_hints_overrun_example : size_hints_from_reply byte_length hints (some short_reply) ≡ fault
size_hints_overrun_example =
    size_hints_overrun byte_length hints short_reply byte_length-IsByteLength refl refl
      (omega arith) (omega arith)

abbrev wm_hints : WmHints
wm_hints = record {
  flags = 0x103;
  input = 1;
  initial_state = 3;
  icon_pixmap = 0;
  icon_window = 0;
  icon_x = 0;
  icon_y = 0;
  icon_mask = 0;
  window_group = 0x12_3456;
}

abbrev wm_changes : List window.Change
wm_changes = window.no_state ∷ window.input 0 ∷ window.iconic ∷ window.window_group 8 ∷ []

wm_view-apply_all_example :
    window.view (window.apply_all wm_changes wm_hints)
    ≡ window.apply_view_all wm_changes (window.view wm_hints)
wm_view-apply_all_example = window.wm_view-apply_all wm_changes wm_hints

wm_hints-overrun_example :
    hints_from_reply byte_length
      (record wm_hints { flags = 0; input = 7 })
      (fetch (send [] (set_wm_hints true 7 wm_hints)) (get_wm_hints false 7))
    ≡ fault
wm_hints-overrun_example =
    wm_hints-overrun server byte_length [] true false 7 wm_hints
      (record wm_hints { flags = 0; input = 7 }) byte_length-IsByteLength
