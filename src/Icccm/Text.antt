-- ===== src/Icccm/Text.antt =====
-- The text properties of icccm/icccm.c, WM_CLASS, WM_TRANSIENT_FOR and WM_PROTOCOLS.
pub mod Reply
use xcb_util.Prelude.{
  ℕ, suc, ◌+◌, ◌-◌, ◌*◌, ◌/◌, ◌^◌, ◌>>>◌, List, [], ◌∷◌, Bool, true, false, ◌&&◌, ◌||◌, not, ◌==◌,
  if◌then◌else◌, Option, some, none, Outcome, done, fault, ◌>>=◌, mul_int, drop, map,
}
use xcb_util.Request.{Request, PropertyReply, change_property, get_property}
use xcb_util.Property.{PropertyHandler, PropertyHandlers, property_set_handler, get_any_property}
use xcb_util.Icccm.{
  atom_atom, string_atom, window_atom, wm_name_atom, wm_icon_name_atom, wm_client_machine_atom,
  wm_class_atom, wm_transient_for_atom, mode_replace, uint_max, strlen,
}
use xcb_util.Memory.{words}

-- `xcb_get_text_property_reply_t`
pub record TextProperty : Type 0 where
  pub encoding : ℕ
  pub name_len : ℕ
  pub name : List ℕ
  pub format : ℕ

unfoldable pub get_text_property : Bool → ℕ → ℕ → Request
get_text_property checked window property = get_any_property checked 0 window property uint_max

-- `xcb_set_wm_name`, `xcb_get_wm_name`, and the like of the other text properties.
unfoldable pub set_wm_name : Bool → ℕ → ℕ → ℕ → List ℕ → Request
set_wm_name checked window encoding name_len name =
    change_property checked mode_replace window wm_name_atom encoding 8 name_len name

unfoldable pub get_wm_name : Bool → ℕ → Request
get_wm_name checked window = get_text_property checked window wm_name_atom

unfoldable pub set_wm_icon_name : Bool → ℕ → ℕ → ℕ → List ℕ → Request
set_wm_icon_name checked window encoding name_len name =
    change_property checked mode_replace window wm_icon_name_atom encoding 8 name_len name

unfoldable pub get_wm_icon_name : Bool → ℕ → Request
get_wm_icon_name checked window = get_text_property checked window wm_icon_name_atom

unfoldable pub set_wm_client_machine : Bool → ℕ → ℕ → ℕ → List ℕ → Request
set_wm_client_machine checked window encoding name_len name =
    change_property checked mode_replace window wm_client_machine_atom encoding 8 name_len name

unfoldable pub get_wm_client_machine : Bool → ℕ → Request
get_wm_client_machine checked window = get_text_property checked window wm_client_machine_atom

-- `xcb_watch_wm_name` and the like: the result of `xcb_property_set_handler` is dropped.
module _ {D R S : Type 0} where
  unfoldable pub watch_wm_name :
      PropertyHandlers D R S → Bool → PropertyHandler D R S → PropertyHandlers D R S
  watch_wm_name prophs allocated h = (property_set_handler prophs allocated wm_name_atom h).1

  unfoldable pub watch_wm_icon_name :
      PropertyHandlers D R S → Bool → PropertyHandler D R S → PropertyHandlers D R S
  watch_wm_icon_name prophs allocated h =
      (property_set_handler prophs allocated wm_icon_name_atom h).1

  unfoldable pub watch_wm_client_machine :
      PropertyHandlers D R S → Bool → PropertyHandler D R S → PropertyHandlers D R S
  watch_wm_client_machine prophs allocated h =
      (property_set_handler prophs allocated wm_client_machine_atom h).1

unfoldable pub get_wm_class : Bool → ℕ → Request
get_wm_class checked window = get_property checked 0 window wm_class_atom string_atom 0 2048

unfoldable pub get_wm_transient_for : Bool → ℕ → Request
get_wm_transient_for checked window =
    get_property checked 0 window wm_transient_for_atom window_atom 0 1

unfoldable pub set_wm_protocols : Bool → ℕ → ℕ → ℕ → List ℕ → Request
set_wm_protocols checked wm_protocols window list_len list =
    change_property checked mode_replace window wm_protocols atom_atom 32 list_len list

unfoldable pub get_wm_protocols : Bool → ℕ → ℕ → Request
get_wm_protocols checked window wm_protocol_atom =
    get_property checked 0 window wm_protocol_atom atom_atom 0 uint_max

-- `xcb_get_wm_class_reply_t`: both pointers by the memory from there on.
pub record WmClass : Type 0 where
  pub instance_name : List ℕ
  pub class_name : List ℕ

-- `xcb_get_wm_protocols_reply_t`
pub record WmProtocols : Type 0 where
  pub atoms_len : ℕ
  pub atoms : List ℕ

-- `xcb_get_wm_transient_for_from_reply`
unfoldable pub transient_for_from_reply : Option PropertyReply → Outcome (Option ℕ)
transient_for_from_reply none = done none
transient_for_from_reply (some reply) =
    let refused =
      not (reply.type == window_atom) || (not (reply.format == 32) || reply.length == 0) in
    let read : Outcome (Option ℕ) = elim (words reply.value) [
      | [] ↦ fault
      | w ∷ ws ↦ done (some w)
    ] in
    if refused then done none else read

-- What the library takes of `xcb_get_property_value_length`.
module _ (value_length : PropertyReply → ℕ) where
  -- `xcb_get_text_property_reply`, on the reply or the null pointer that libxcb returns.
  unfoldable pub text_property_reply : Option PropertyReply → Outcome (Option TextProperty)
  text_property_reply none = done none
  text_property_reply (some reply) = do
    bits ← mul_int (value_length reply) reply.format
    done (
        some (record {
          encoding = reply.type;
          name_len = bits >>> 3;
          name = reply.value;
          format = reply.format;
        }))

  -- `xcb_get_wm_class_from_reply`
  unfoldable pub class_from_reply : Option PropertyReply → Outcome (Option WmClass)
  class_from_reply none = done none
  class_from_reply (some reply) =
      let read : Outcome (Option WmClass) = (do
        n ← strlen reply.value
        -- `name_len--`, then `+ name_len + 1`
        let offset = if n == value_length reply then n else n + 1
        done (
            some (record { instance_name = reply.value; class_name = drop offset reply.value }))) in
      if not (reply.type == string_atom) || not (reply.format == 8) then done none else read

  -- `xcb_get_wm_protocols_reply`
  unfoldable pub protocols_reply : Option PropertyReply → Option WmProtocols
  protocols_reply none = none
  protocols_reply (some reply) =
      if not (reply.type == atom_atom) || not (reply.format == 32)
      then none
      else some (record { atoms_len = value_length reply; atoms = words reply.value })
