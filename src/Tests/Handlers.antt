-- ===== src/Tests/Handlers.antt =====
-- Event, reply and property handlers at concrete inputs.
use xcb_util.Prelude.{ℕ, All, ◌<◌, ◌≡◌, refl, List, [], ◌∷◌, some, none, true, arith, length, done}
use xcb_util.Event.{
  Event, EventHandler, EventHandlers, get_event_handler, handle, call, set_handler,
}
use xcb_util.Event.Dispatch.{handle-set_handler}
use xcb_util.Prelude.{replicate, set, ◌+◌}
use xcb_util.Reply.{ReplyNode, add_handler}
use xcb_util.Reply.Sorted.{IsSorted, add_handler-IsSorted}
use xcb_util.Property.{PropertyHandler, PropertyHandlers}
use xcb_util.Property.Latest.{set_all, latest, notified, reply_for}
use xcb_util.Property.Events.{handlers_init, due, handle-handlers_init}
use xcb_util.Prelude.{◌++◌, false, ◌>>=◌, get_or}

-- A handler that counts its calls, and the tables without a handler.
abbrev counter : EventHandler ℕ ℕ
counter = record { handler = some (λ d e s. done (d, s + 1)); data' = 7 }

abbrev no_handlers : EventHandlers ℕ ℕ
no_handlers = record {
  event = replicate 126 (record { handler = none; data' = 0 });
  error = replicate 256 (record { handler = none; data' = 0 });
}

-- A key press that a client has sent, a key release, and an error.
abbrev key_press : Event
key_press = record { response_type = 0x82; error_code = 0; body = [] }

abbrev key_release : Event
key_release = record { response_type = 3; error_code = 0; body = [] }

abbrev bad_window : Event
bad_window = record { response_type = 0; error_code = 3; body = [] }

handle-set_handler_example :
    (hs' : EventHandlers ℕ ℕ) × (set_handler no_handlers 2 counter ≡ done hs')
    × (length hs'.event ≡ 126)
    × (handle hs' key_press 0 ≡ call counter key_press 0)
handle-set_handler_example =
    handle-set_handler no_handlers 2 counter key_press 0 refl (omega arith) (omega arith)
      (omega arith) (omega arith)

abbrev with_counter : EventHandlers ℕ ℕ
with_counter = record no_handlers { event = set no_handlers.event 0 counter }

set_counter : set_handler no_handlers 2 counter ≡ done with_counter
unfolding set_handler get_event_handler
set_counter = refl

-- Two replies that are waited for, and one between them.
abbrev waiting : List (ReplyNode ℕ)
waiting =
    record { request = 4; handler = 1; handled = true }
    ∷ record { request = 9; handler = 2; handled = false }
    ∷ []

add_handler-IsSorted_example :
    let cur : ReplyNode ℕ = record { request = 6; handler = 3; handled = false } in
    (before : List (ReplyNode ℕ)) × (behind : List (ReplyNode ℕ)) × (waiting ≡ before ++ behind)
    × (add_handler waiting 6 3 ≡ before ++ (cur ∷ behind))
    × All (λ k. k.request < 6) before
    × IsSorted (add_handler waiting 6 3)
add_handler-IsSorted_example = add_handler-IsSorted waiting 6 3 ((omega arith, tt), (tt, tt))

-- A handler that answers its data, on a server where every property is its atom.
abbrev answer : ℕ → PropertyHandler ℕ ℕ ℕ
answer n = record {
  long_len = 8;
  handler = some (λ d state window atom p s. done (d, s + 1));
  data' = n;
}

abbrev unanswered : PropertyHandlers ℕ ℕ ℕ
unanswered = record { head = []; fallback = record { long_len = 0; handler = none; data' = 0 } }

abbrev calls : List (ℕ × PropertyHandler ℕ ℕ ℕ)
calls = (39, answer 1) ∷ (40, answer 2) ∷ (39, answer 3) ∷ []

-- The change of the property 39 of window 5, in the bytes of the event.
abbrev name_changed : Event
name_changed = record { response_type = 28; error_code = 0; body = 5 ∷ 39 ∷ 0 ∷ [] }

abbrev byte : ℕ → Event → ℕ
byte i e = get_or e.body i 0

abbrev no_events : EventHandlers ℕ (PropertyHandlers ℕ ℕ ℕ × ℕ)
no_events = record {
  event = replicate 126 (record { handler = none; data' = 0 });
  error = replicate 256 (record { handler = none; data' = 0 });
}

handle-handlers_init_example :
    (prophs : PropertyHandlers ℕ ℕ ℕ) × (evenths' : EventHandlers ℕ (PropertyHandlers ℕ ℕ ℕ × ℕ))
    × (handlers_init (byte 2) (byte 0) (byte 1) (λ w a l s. some a) 0 unanswered no_events
        ≡ done (prophs, evenths'))
    × (handle evenths' name_changed (set_all prophs calls, 0) ≡ (
        due (byte 2) (byte 0) (byte 1) (λ w a l s. some a) unanswered.fallback calls name_changed 0
        >>= λ r. done (r.0, (set_all prophs calls, r.1))))
handle-handlers_init_example =
    handle-handlers_init (byte 2) (byte 0) (byte 1) (λ w a l s. some a) 0 unanswered no_events calls
      name_changed 0 refl (omega arith) (omega arith)

-- The handler that was set last for the atom answers.
due_third :
    due (byte 2) (byte 0) (byte 1) (λ w a l s. some a) unanswered.fallback calls name_changed 0
    ≡ done (3, 1)
unfolding latest notified reply_for
due_third = refl
