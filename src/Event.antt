-- ===== src/Event.antt =====
-- event/xcb_event.h and event/event.c: the tables of handlers and the dispatch of events to them.
pub mod Dispatch
pub mod Labels
use xcb_util.Prelude.{
  ℕ, zero, suc, ◌-◌, List, [], ◌∷◌, Bool, not, ltb, leb, ◌==◌, if◌then◌else◌, bit_and, Option, some,
  none, get_elem?, set, Outcome, done, aborted, fault, ◌>>=◌, ◌>>◌, assert,
}

-- What the dispatch reads of an event, `response_type`, and `error_code` where it is an error, and the
-- other bytes, which the handlers read.
pub record Event : Type 0 where
  pub response_type : ℕ
  pub error_code : ℕ
  pub body : List ℕ

-- `D` is what a `data` pointer points at, `S` what the handlers change. An `int` is returned as its
-- 32-bit word.
module _ (D S : Type 0) where
  abbrev pub Action : Type 0
  Action = D → Event → S → Outcome (ℕ × S)

  -- `xcb_event_handler_t`, with `none` for a null function.
  pub record EventHandler : Type 0 where
    pub handler : Option Action
    pub data' : D

  -- `xcb_event_handlers_t`, without the connection.
  pub record EventHandlers : Type 0 where
    pub event : List EventHandler
    pub error : List EventHandler

-- The place in the table that `get_event_handler` returns.
unfoldable pub get_event_handler : ℕ → Outcome ℕ
get_event_handler event = do
  assert (ltb event 256)
  let kind = bit_and event 0x7f
  assert (leb 2 kind)
  done (kind - 2)

unfoldable pub get_error_handler : ℕ → Outcome ℕ
get_error_handler error = do assert (ltb error 256); done error

module _ {D S : Type 0} where
  -- The entry at a place of a table.
  abbrev pub entry : List (EventHandler D S) → ℕ → Outcome (EventHandler D S)
  entry table i = elim (get_elem? table i) [ none ↦ fault | some h ↦ done h ]

  -- The call of a handler, if there is one.
  abbrev pub call : EventHandler D S → Event → S → Outcome (ℕ × S)
  call h e s = elim (h.handler) [ none ↦ done (0, s) | some f ↦ f h.data' e s ]

  -- `xcb_event_handle`
  unfoldable pub handle : EventHandlers D S → Event → S → Outcome (ℕ × S)
  handle hs e s = do
    assert (not (e.response_type == 1))
    h ←
        (if e.response_type == 0
          then (do i ← get_error_handler e.error_code; entry hs.error i)
          else (do i ← get_event_handler e.response_type; entry hs.event i))
    call h e s

  -- `xcb_event_set_handler`, for an event number that is not negative.
  unfoldable pub set_handler :
      EventHandlers D S → ℕ → EventHandler D S → Outcome (EventHandlers D S)
  set_handler hs event h = do
    i ← get_event_handler event
    done (record hs { event = set hs.event i h })

  -- `xcb_event_set_error_handler`
  unfoldable pub set_error_handler :
      EventHandlers D S → ℕ → EventHandler D S → Outcome (EventHandlers D S)
  set_error_handler hs error h = do
    i ← get_error_handler error
    done (record hs { error = set hs.error i h })

  -- Both loops, `xcb_event_wait_for_event_loop` and `xcb_event_poll_for_event_loop`, on the events
  -- that the connection gives before it gives a null pointer.
  unfoldable pub event_loop : EventHandlers D S → List Event → S → Outcome S
  event_loop hs [] s = done s
  event_loop hs (e ∷ es) s = do r ← handle hs e s; event_loop hs es r.1
