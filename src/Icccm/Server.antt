-- ===== src/Icccm/Server.antt =====
-- The X server, as far as properties go: it keeps what `ChangeProperty` sets, and `GetProperty`
-- returns it. Its code is not part of the repository, so it is an interface.
use xcb_util.Prelude.{ℕ, ◌*◌, ◌/◌, ◌≤◌, ◌≡◌, ◌⊎◌, List, ◌++◌, Bool, Option, some, length, take}
use xcb_util.Request.{Request, PropertyReply, change_property, get_property}
use xcb_util.Icccm.{mode_replace}

-- A reply holds `n` elements of `format` bits, the first ones of `bytes`; what follows in memory is
-- open.
pub record IsStored (type format n : ℕ) (bytes : List ℕ) (reply : PropertyReply) : Type 0 where
  pub same_type : reply.type ≡ type
  pub same_format : reply.format ≡ format
  pub elements : reply.value_len ≡ n
  pub rest : List ℕ
  pub same_value : reply.value ≡ take (n * format / 8) bytes ++ rest

-- What libxcb documents of `xcb_get_property_value_length`: it is the length of the value in bytes.
abbrev pub IsByteLength : (PropertyReply → ℕ) → Type 0
IsByteLength value_length = (r : PropertyReply) → value_length r ≡ r.value_len * (r.format / 8)

pub record Server : Type 1 where
  pub State : Type 0
  pub send : State → Request → State
  pub fetch : State → Request → Option PropertyReply
  -- A property that was replaced is read back, by its type or by any type, if it is not longer
  -- than the number of words asked for.
  pub stored :
      (s : State) (checked : Bool) (window property type format n : ℕ) (bytes : List ℕ)
      (checked' : Bool) (type' long_length : ℕ)
      → n * format / 8 ≤ length bytes
      → n * format / 8 ≤ 4 * long_length
      → (type' ≡ 0) ⊎ (type' ≡ type)
      → (reply : PropertyReply) × (fetch
            (send s (change_property checked mode_replace window property type format n bytes))
            (get_property checked' 0 window property type' 0 long_length)
          ≡ some reply)
        × IsStored type format n bytes reply
