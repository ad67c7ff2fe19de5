-- ===== src/Icccm/WmHints/Reply.antt =====
-- What `xcb_get_wm_hints_from_reply` makes of what the server keeps.
use xcb_util.Prelude.{ℕ, ◌≡◌, refl, inr, Bool, length, fault, arith}
use xcb_util.Request.{PropertyReply}
use xcb_util.Icccm.{wm_hints_atom}
use xcb_util.Memory.{word_bytes}
use xcb_util.Memory.{length-word_bytes, memcpy_past}
use xcb_util.Icccm.Server.{Server, IsByteLength}
use xcb_util.Icccm.WmHints.{WmHints, hint_words, hints_from_reply, set_wm_hints, get_wm_hints}

-- Window manager hints that are set for a window cannot be read back from the server: whatever the
-- hints are, the function that reads the reply takes the length in bytes for a number of elements, and writes
-- past the end of the structure that it is given.
pub wm_hints-overrun :
    (server : Server) (value_length : PropertyReply → ℕ) (s : server.State)
    (checked checked' : Bool) (window : ℕ) (hints old : WmHints)
    → IsByteLength value_length
    → hints_from_reply value_length old (
        server.fetch
          (server.send s (set_wm_hints checked window hints))
          (get_wm_hints checked' window))
      ≡ fault
unfolding set_wm_hints get_wm_hints hints_from_reply word_bytes
wm_hints-overrun server value_length s checked checked' window hints old documented =
    let bytes = word_bytes (hint_words hints) in
    let len : length bytes ≡ 36 = length-word_bytes (hint_words hints) in
    let (reply, e, stored) =
      server.stored s checked window wm_hints_atom wm_hints_atom 32 9 bytes checked' wm_hints_atom 9
        (omega (arith, len)) (omega arith) (inr refl) in
    let count : value_length reply ≡ 36 =
      rw (documented reply, stored.same_format, stored.elements) refl in
    rw (
      e,
      count,
      stored.same_type,
      stored.same_format,
      memcpy_past 144 reply.value (word_bytes (hint_words old)) (omega arith),
    )
