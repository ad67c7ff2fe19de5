-- ===== src/Icccm/SizeHints/Reply.antt =====
-- What `xcb_get_wm_size_hints_from_reply` makes of a reply, and the way through the server.
use xcb_util.Prelude.{
  ℕ, ◌*◌, ◌^◌, ◌≤◌, ◌<◌, ◌≡◌, refl, inr, ltb, mul_int, Bool, true, leb, length, some, done, fault,
  ◌>>>◌, arith,
}
use xcb_util.Request.{PropertyReply}
use xcb_util.Icccm.{wm_size_hints_atom, wm_normal_hints_atom}
use xcb_util.Memory.{word_bytes}
use xcb_util.Memory.{length-word_bytes, memcpy_past}
use xcb_util.Icccm.Server.{Server, IsByteLength}
use xcb_util.Icccm.SizeHints.{
  SizeHints, hint_words, size_hints_from_reply, set_wm_size_hints, get_wm_size_hints,
  set_wm_normal_hints, get_wm_normal_hints,
}

-- A reply of the right type, whose value has `n` bytes.
pub record IsSizeHints (value_length : PropertyReply → ℕ) (n format : ℕ) (reply : PropertyReply)
    : Type 0 where
  pub right_type : reply.type ≡ wm_size_hints_atom
  pub right_format : reply.format ≡ format
  pub count : value_length reply ≡ n

module _ (value_length : PropertyReply → ℕ) (old : SizeHints) where
  overrun_lem :
      (n b : ℕ) (reply : PropertyReply)
      → n * 32 ≡ b
      → IsSizeHints value_length n 32 reply
      → 18 < n
      → n < 2 ^ 26
      → size_hints_from_reply value_length old (some reply) ≡ fault
  unfolding size_hints_from_reply word_bytes
  overrun_lem n b reply e r big small =
      let enough : leb 15 n ≡ true = ground (arith, big) in
      let fits : ltb b (2 ^ 31) ≡ true = ground (arith, small, e) in
      let bits : mul_int (value_length reply) reply.format ≡ done b =
        rw (r.count, r.right_format, e, fits) refl in
      let long : 72 < b >>> 3 = omega (arith, e, big) in
      rw
        (
          bits,
          r.count,
          r.right_type,
          r.right_format,
          enough,
          memcpy_past (b >>> 3) reply.value (word_bytes (hint_words old)) long,
        )
        refl

-- A reply with size hints of format 32, in at least five elements and less than 2 ^ 24, makes `memcpy` write
-- past the end of the structure: the length of its value in bytes is taken for a number of elements.
pub size_hints_overrun :
    (value_length : PropertyReply → ℕ) (old : SizeHints) (reply : PropertyReply)
    → IsByteLength value_length
    → reply.type ≡ wm_size_hints_atom
    → reply.format ≡ 32
    → 5 ≤ reply.value_len
    → reply.value_len < 2 ^ 24
    → size_hints_from_reply value_length old (some reply) ≡ fault
size_hints_overrun value_length old reply documented t f many few =
    let bytes : value_length reply ≡ reply.value_len * 4 = rw (documented reply, f) refl in
    overrun_lem value_length old (value_length reply) (value_length reply * 32) reply refl
      (record { right_type = t; right_format = f; count = refl }) (omega (arith, bytes, many))
      (omega (arith, bytes, few))

-- Size hints that are set for a window as WM_NORMAL_HINTS, with the checked request or the other, cannot
-- be read back from the server: whatever the hints are, the function that reads the reply writes past the end
-- of the structure that it is given.
pub normal_hints-overrun :
    (server : Server) (value_length : PropertyReply → ℕ) (s : server.State)
    (checked checked' : Bool) (window : ℕ) (hints old : SizeHints)
    → IsByteLength value_length
    → size_hints_from_reply value_length old (
        server.fetch
          (server.send s (set_wm_normal_hints checked window hints))
          (get_wm_normal_hints checked' window))
      ≡ fault
unfolding set_wm_normal_hints get_wm_normal_hints set_wm_size_hints get_wm_size_hints
normal_hints-overrun server value_length s checked checked' window hints old documented =
    let bytes = word_bytes (hint_words hints) in
    let len : length bytes ≡ 72 = length-word_bytes (hint_words hints) in
    let (reply, e, stored) =
      server.stored s checked window wm_normal_hints_atom wm_size_hints_atom 32 18 bytes checked'
        wm_size_hints_atom 18 (omega (arith, len)) (omega arith) (inr refl) in
    rw e (
      size_hints_overrun value_length old reply documented stored.same_type stored.same_format
        (omega (arith, stored.elements)) (omega (arith, stored.elements)))
