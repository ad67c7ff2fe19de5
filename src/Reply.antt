-- ===== src/Reply.antt =====
-- reply/xcb_reply.h and reply/reply.c: the list of handlers, in the order of their requests.
pub mod Sorted
pub mod Process
use xcb_util.Prelude.{ℕ, List, [], ◌∷◌, Bool, ltb, if◌then◌else◌}

-- `struct xcb_reply_node`. A pending reply is known by its request number; `H` is the handler with
-- its data.
pub record ReplyNode (H : Type 0) : Type 0 where
  pub request : ℕ
  pub handler : H
  pub handled : Bool

-- `insert_handler`: the walk stops at the first node whose request is not smaller.
unfoldable pub insert_handler : {H : Type 0} → List (ReplyNode H) → ReplyNode H → List (ReplyNode H)
insert_handler [] cur = cur ∷ []
insert_handler (n ∷ ns) cur =
    let rest = insert_handler ns cur in
    if ltb n.request cur.request then n ∷ rest else cur ∷ (n ∷ ns)

-- `xcb_reply_add_handler`, where `malloc` succeeds.
unfoldable pub add_handler : {H : Type 0} → List (ReplyNode H) → ℕ → H → List (ReplyNode H)
add_handler head request handler =
    insert_handler head (record { request = request; handler = handler; handled = Bool.false })
