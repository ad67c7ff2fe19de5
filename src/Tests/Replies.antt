-- ===== src/Tests/Replies.antt =====
-- The loop over replies on a connection that has two replies, and a handler that adds them up.
use xcb_util.Prelude.{
  ℕ, zero, suc, ◌+◌, ◌≡◌, refl, ap, ◌≤◌, ◌<◌, [], ◌∷◌, Option, some, none, done, Bool, true, false,
  arith,
}
use xcb_util.Reply.{ReplyNode}
use xcb_util.Reply.Process.{
  Answer, answered, Handler, waiting, remove_handler, answer_node, next_head, settle, round,
  process_replies,
}
use xcb_util.Reply.Process.Run.Empty.{IsAnswering, done_with, process_replies-empty}
use xcb_util.Reply.Process.Run.{IsRun, process_replies-IsRun}

-- The replies left, and the sum.
abbrev ask : ℕ → ℕ × ℕ → Answer ℕ ℕ × (ℕ × ℕ)
ask request (zero, sum) = (answered none none, (zero, sum))
ask request (suc n, sum) = (answered (some (10 + n)) none, (n, sum))

abbrev left : ℕ × ℕ → ℕ
left (n, sum) = n

abbrev add : Handler ℕ ℕ (ℕ × ℕ)
add (some r) e (n, sum) = (n, sum + r)
add none e (n, sum) = (n, sum)

abbrev node : ReplyNode (Handler ℕ ℕ (ℕ × ℕ))
node = record { request = 5; handler = add; handled = false }

quiet : (r : Option ℕ) (e : Option ℕ) (s : ℕ × ℕ) → left (add r e s) ≤ left s
quiet none e (n, sum) = omega arith
quiet (some r) e (n, sum) = omega arith

lowered :
    (request : ℕ) (s s1 : ℕ × ℕ) (r : ℕ) (e : Option ℕ)
    → ask request s ≡ (answered (some r) e, s1)
    → left s1 < left s
lowered request (zero, sum) s1 r e h = absurd (cc)
lowered request (suc n, sum) s1 r e h = let q : n ≡ left s1 = ap (λ p. left p.1) h in omega arith

not_raised :
    (request : ℕ) (s s1 : ℕ × ℕ) (e : Option ℕ)
    → ask request s ≡ (answered none e, s1)
    → left s1 ≤ left s
not_raised request (zero, sum) s1 e h = let q : 0 ≡ left s1 = ap (λ p. left p.1) h in omega arith
not_raised request (suc n, sum) s1 e h = let q : n ≡ left s1 = ap (λ p. left p.1) h in omega arith

process_replies-IsRun_example :
    IsRun ask 3 true (record { handled = false; head = node ∷ []; state = (2, 0) })
process_replies-IsRun_example =
    process_replies-IsRun ask left true false node [] (2, 0) 3
      (record { lowered = lowered; not_raised = not_raised }) (quiet, tt) (omega arith)

adds_up :
    process_replies ask 3 true (record { handled = false; head = node ∷ []; state = (2, 0) })
    ≡ some (done (waiting (record { handled = true; head = []; state = (0, 21) })))
unfolding process_replies round answer_node next_head settle remove_handler
adds_up = refl

answers : IsAnswering ask
answers request (zero, sum) = (none, none, refl)
answers request (suc n, sum) = (some (10 + n), none, refl)

process_replies-empty_example :
    (handled' : Bool) × (s' : ℕ × ℕ) × (process_replies ask 3 true
        (record { handled = false; head = node ∷ []; state = (2, 0) })
      ≡ some (done (done_with true handled' s')))
process_replies-empty_example =
    process_replies-empty ask left true false node [] (2, 0) 3
      (record { lowered = lowered; not_raised = not_raised }) (quiet, tt) (omega arith) answers
