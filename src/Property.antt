-- ===== src/Property.antt =====
-- property/xcb_property.h and property/property.c: the handlers of property changes by atom.
pub mod Latest
pub mod Events
use xcb_util.Prelude.{
  ℕ, List, [], ◌∷◌, Bool, ◌==◌, if◌then◌else◌, Option, some, none, Outcome, done, fault,
}
use xcb_util.Request.{Request, get_property}

-- `xcb_get_any_property` and its variant; XCB_GET_PROPERTY_TYPE_ANY is 0.
unfoldable pub get_any_property : Bool → ℕ → ℕ → ℕ → ℕ → Request
get_any_property checked del window name long_len =
    get_property checked del window name 0 0 long_len

-- `D` is what a `data` pointer points at, `R` a property reply, and `S` what the handlers and the
-- server change. An `int` is returned as its 32-bit word.
module _ (D R S : Type 0) where
  -- The data, the state, the window, the atom and the reply.
  abbrev pub Action : Type 0
  Action = D → ℕ → ℕ → ℕ → Option R → S → Outcome (ℕ × S)

  -- `xcb_property_handler_t`, with `none` for a null function.
  pub record PropertyHandler : Type 0 where
    pub long_len : ℕ
    pub handler : Option Action
    pub data' : D

  -- `xcb_property_handler_node_t`
  pub record PropertyHandlerNode : Type 0 where
    pub name : ℕ
    pub h : PropertyHandler

  -- `xcb_property_handlers_t`, without the event handlers that it is registered with.
  pub record PropertyHandlers : Type 0 where
    pub head : List PropertyHandlerNode
    pub fallback : PropertyHandler

module _ {D R S : Type 0} where
  -- The loop of `xcb_property_changed`.
  unfoldable pub find_handler :
      List (PropertyHandlerNode D R S) → ℕ → Option (PropertyHandler D R S)
  find_handler [] atom = none
  find_handler (cur ∷ rest) atom = if cur.name == atom then some cur.h else find_handler rest atom

  -- `xcb_property_set_handler`, by whether `malloc` succeeds.
  unfoldable pub property_set_handler :
      PropertyHandlers D R S → Bool → ℕ → PropertyHandler D R S → ℕ × PropertyHandlers D R S
  property_set_handler prophs allocated name h =
      if allocated
      then (1, record prophs { head = record { name = name; h = h } ∷ prophs.head })
      else (0, prophs)

  -- `xcb_property_set_default_handler`
  unfoldable pub property_set_default_handler :
      PropertyHandlers D R S → PropertyHandler D R S → ℕ × PropertyHandlers D R S
  property_set_default_handler prophs h = (1, record prophs { fallback = h })

  -- What the server returns for a window, an atom and a length: a request of libxcb.
  module _ (get_property : ℕ → ℕ → ℕ → S → Option R) where
    -- `call_handler`; XCB_PROPERTY_DELETE is 1.
    unfoldable pub call_handler : ℕ → ℕ → ℕ → PropertyHandler D R S → S → Outcome (ℕ × S)
    call_handler state window atom h s =
        let propr = if state == 1 then none else get_property window atom h.long_len s in
        elim (h.handler) [ none ↦ fault | some f ↦ f h.data' state window atom propr s ]

    -- `xcb_property_changed`
    unfoldable pub property_changed : PropertyHandlers D R S → ℕ → ℕ → ℕ → S → Outcome (ℕ × S)
    property_changed prophs state window atom s =
        let fallback : Outcome (ℕ × S) = elim (prophs.fallback.handler) [
          | none ↦ done (0, s)
          | some f ↦ call_handler state window atom prophs.fallback s
        ] in
        elim (find_handler prophs.head atom) [
          | some h ↦ call_handler state window atom h s
          | none ↦ fallback
        ]
