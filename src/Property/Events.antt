-- ===== src/Property/Events.antt =====
-- The property handlers of property/property.c as a client of the event handlers of event/event.c.
use xcb_util.Prelude.{
  ℕ, List, [], ◌%◌, ◌<◌, ◌≡◌, refl, ap, ◌∙◌, length, Option, some, none, Option-cases, inl, inr,
  Outcome, done, ◌>>=◌, arith,
}
use xcb_util.Event.{Event, EventHandler, EventHandlers, handle, set_handler}
use xcb_util.Event.Dispatch.{handle-set_handler}
use xcb_util.Property.{PropertyHandler, PropertyHandlers, find_handler, property_changed}
use xcb_util.Property.Latest.{set_all, latest, notified, called_lem, property_changed-set_all}

-- XCB_PROPERTY_NOTIFY
abbrev pub property_notify : ℕ
property_notify = 28

-- The property handlers are an object that the event handlers share with the client, so they stand in
-- what these change. The functions of the event are the fields of `xcb_property_notify_event_t`, and
-- `prophs` is what the `data` pointer of the handler is.
module _ {D R S : Type 0} (state window atom : Event → ℕ)
    (get_property : ℕ → ℕ → ℕ → S → Option R) where
  -- What is due for an event after these registrations: the latest for its atom, or the default.
  abbrev pub due :
      PropertyHandler D R S → List (ℕ × PropertyHandler D R S) → Event → S → Outcome (ℕ × S)
  due fallback calls e s =
      let default : Outcome (ℕ × S) = elim (fallback.handler) [
        | none ↦ done (0, s)
        | some f ↦ notified get_property (state e) (window e) (atom e) fallback s
      ] in
      elim (latest calls (atom e)) [
        | some h ↦ notified get_property (state e) (window e) (atom e) h s
        | none ↦ default
      ]

  default_lem :
      (old : PropertyHandlers D R S) (e : Event) (s : S)
      → property_changed get_property (record old { head = [] }) (state e) (window e) (atom e) s
        ≡ elim (old.fallback.handler) [
          | none ↦ done (0, s)
          | some f ↦ notified get_property (state e) (window e) (atom e) old.fallback s
        ]
  unfolding property_changed find_handler
  default_lem old e s = elim (Option-cases (old.fallback.handler)) [
    | inl q ↦ rw q refl
    | inr (f, q) ↦ rw q (called_lem get_property (state e) (window e) (atom e) old.fallback s)
  ]

  changed-due :
      (old : PropertyHandlers D R S) (calls : List (ℕ × PropertyHandler D R S)) (e : Event) (s : S)
      → property_changed get_property
          (set_all (record old { head = [] }) calls)
          (state e)
          (window e)
          (atom e)
          s
        ≡ due old.fallback calls e s
  unfolding property_changed find_handler
  changed-due old calls e s =
      property_changed-set_all get_property (record old { head = [] }) calls (state e) (window e)
        (atom e) s
      ∙ (elim (Option-cases (latest calls (atom e))) [
        | inl q ↦ rw (due, q) (default_lem old e s)
        | inr (h, q) ↦ rw (due, q) refl
      ])

  -- `P` is the type of the `data` pointer.
  module _ {P : Type 0} where
    unfoldable pub handle_property_notify_event :
        P → Event → PropertyHandlers D R S × S → Outcome (ℕ × (PropertyHandlers D R S × S))
    handle_property_notify_event pointer e (prophs, s) = do
      r ← property_changed get_property prophs (state e) (window e) (atom e) s
      done (r.0, (prophs, r.1))

    -- `xcb_property_handlers_init` on the memory `prophs`: `memset` clears as many bytes as a pointer
    -- has, and so the head of the list alone.
    unfoldable pub handlers_init :
        P
        → PropertyHandlers D R S
        → EventHandlers P (PropertyHandlers D R S × S)
        → Outcome (PropertyHandlers D R S × EventHandlers P (PropertyHandlers D R S × S))
    handlers_init pointer prophs evenths = do
      let h : EventHandler P (PropertyHandlers D R S × S) = record {
        handler = some handle_property_notify_event;
        data' = pointer;
      }
      evenths' ← set_handler evenths property_notify h
      done (record prophs { head = [] }, evenths')

    -- After `xcb_property_handlers_init` and any calls of `xcb_property_set_handler`, a property event,
    -- sent by the server or by a client, that `xcb_event_handle` gets goes to the handler that was set
    -- last for its atom, with the event's state and window, and the result of that handler is returned.
    -- Where none was set, the default handler that stood in the memory before the initialisation has it.
    pub handle-handlers_init :
        (pointer : P) (old : PropertyHandlers D R S)
        (evenths : EventHandlers P (PropertyHandlers D R S × S))
        (calls : List (ℕ × PropertyHandler D R S)) (e : Event) (s : S)
        → length evenths.event ≡ 126
        → e.response_type < 256
        → e.response_type % 128 ≡ property_notify
        → (prophs : PropertyHandlers D R S) × (evenths' : EventHandlers P
            (PropertyHandlers D R S × S))
          × (handlers_init pointer old evenths ≡ done (prophs, evenths'))
          × (handle evenths' e (set_all prophs calls, s)
              ≡ (due old.fallback calls e s >>= λ r. done (r.0, (set_all prophs calls, r.1))))
    unfolding handlers_init handle_property_notify_event
    handle-handlers_init pointer old evenths calls e s full small kind =
        let h : EventHandler P (PropertyHandlers D R S × S) = record {
          handler = some handle_property_notify_event;
          data' = pointer;
        } in
        let prophs : PropertyHandlers D R S = record old { head = [] } in
        let (evenths', set_it, same, handled) =
          handle-set_handler evenths property_notify h e (set_all prophs calls, s) full
            (omega arith) (omega arith) small kind in
        (
          prophs,
          evenths',
          rw set_it,
          handled
              ∙ ap (λ o. o >>= λ r. done (r.0, (set_all prophs calls, r.1)))
                  (changed-due old calls e s),
        )
