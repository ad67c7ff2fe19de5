-- ===== src/Reply/Process.antt =====
-- The loop of reply/reply.c that waits for replies and gives them to their handlers, without its
-- locks: no other thread changes the list while it runs, and handlers do not add handlers.
pub mod Run
use xcb_util.Prelude.{
  ℕ, zero, suc, List, [], ◌∷◌, ◌⊎◌, inl, inr, Bool, true, false, ◌||◌, not, ltb, ◌==◌,
  if◌then◌else◌, Option, some, none, Outcome, done, fault,
}
use xcb_util.Reply.{ReplyNode}

-- What the call of libxcb gives for a request: `xcb_poll_for_reply` returns 0 if nothing has come yet,
-- and both calls else set a reply and an error, or null pointers.
pub data Answer (R E : Type 0) : Type 0 where
  pending : Answer R E
  answered : Option R → Option E → Answer R E

-- A handler with its data.
abbrev pub Handler : Type 0 → Type 0 → Type 0 → Type 0
Handler R E S = Option R → Option E → S → S

-- The variable `handled`, the list, and what the handlers and the connection change.
pub record Config (R E S : Type 0) : Type 0 where
  pub handled : Bool
  pub head : List (ReplyNode (Handler R E S))
  pub state : S

-- Where the loop ends: it returns `handled`, or waits for a handler to be added.
pub data Progress (R E S : Type 0) : Type 0 where
  returned waiting : Config R E S → Progress R E S

-- `remove_handler`, by the request of `cur`: the first node of that request is taken out.
unfoldable pub remove_handler : {H : Type 0} → List (ReplyNode H) → ℕ → List (ReplyNode H)
remove_handler [] request = []
remove_handler (n ∷ ns) request =
    let rest = remove_handler ns request in
    if ltb n.request request then n ∷ rest else if n.request == request then ns else n ∷ ns

module _ {R E S : Type 0} where
  -- The node, the state and `handled` after an answer. The handler is called unless both are null.
  unfoldable pub answer_node :
      Option R
      → Option E
      → ReplyNode (Handler R E S)
      → Bool
      → S
      → ReplyNode (Handler R E S) × Bool × S
  answer_node none none cur handled s = (cur, handled || cur.handled, s)
  answer_node reply error cur handled s =
      (record cur { handled = true }, true, cur.handler reply error s)

  -- The list, which loses the node if the reply is null.
  unfoldable pub next_head :
      Option R
      → ReplyNode (Handler R E S)
      → List (ReplyNode (Handler R E S))
      → List (ReplyNode (Handler R E S))
  next_head none cur rest = remove_handler (cur ∷ rest) cur.request
  next_head (some r) cur rest = cur ∷ rest

  -- `if(!h->head)`: the end of a round, where the loop ends or goes on.
  unfoldable pub settle : Bool → Config R E S → Progress R E S ⊎ Config R E S
  settle block config = elim (config.head) [
    | [] ↦ inl (if block then waiting config else returned config)
    | n ∷ ns ↦ inr config
  ]

  -- `ask` stands for `xcb_wait_for_reply` or `xcb_poll_for_reply`.
  module _ (ask : ℕ → S → Answer R E × S) where
    -- One round on the node `cur` at the head of the list: where the loop ends, or how it goes on.
    unfoldable pub round :
        Bool
        → Bool
        → ReplyNode (Handler R E S)
        → List (ReplyNode (Handler R E S))
        → S
        → Progress R E S ⊎ Config R E S
    round block handled cur rest s =
        let (answer, s1) = ask cur.request s in
        elim answer [
          | pending ↦ inl (returned (record { handled = handled; head = cur ∷ rest; state = s1 }))
          | answered reply error ↦
              let (cur', handled', s2) = answer_node reply error cur handled s1 in
              let head' = next_head reply cur' rest in
              settle block (record { handled = handled'; head = head'; state = s2 })
        ]

    -- `process_replies`, on fuel: `none` where it runs out. The head may not be null.
    unfoldable pub process_replies : ℕ → Bool → Config R E S → Option (Outcome (Progress R E S))
    process_replies zero block c = none
    process_replies (suc fuel) block c = elim (c.head) [
      | [] ↦ some fault
      | cur ∷ rest ↦ elim (round block c.handled cur rest c.state) [
        | inl end ↦ some (done end)
        | inr next ↦ process_replies fuel block next
      ]
    ]
