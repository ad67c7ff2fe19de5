-- ===== src/Reply/Process/Run/Empty.antt =====
-- A connection on which every request is answered.
use xcb_util.Prelude.{
  ℕ, ◌+◌, ◌≤◌, ◌≡◌, refl, sym, ap, ◌∙◌, List, [], ◌∷◌, length, All, Bool, if◌then◌else◌, Option,
  some, done,
}
use xcb_util.Reply.{ReplyNode}
use xcb_util.Reply.Process.{
  Answer, pending, answered, Handler, Config, Progress, returned, waiting, process_replies,
}
use xcb_util.Reply.Process.Run.{IsFinite, IsQuiet, IsEnd, empty, unanswered, process_replies-IsRun}

-- There is always a reply, an error, or the answer that nothing more comes.
abbrev pub IsAnswering : {R E S : Type 0} → (ℕ → S → Answer R E × S) → Type 0
IsAnswering {R} {E} {S} ask =
    (request : ℕ) (s : S) → (r : Option R) × (e : Option E) × ((ask request s).0 ≡ answered r e)

answered-pending : {R E : Type 0} {r : Option R} {e : Option E} → answered r e ≡ pending → ⊥
answered-pending e = cc

-- The loop has no handler left: it waits for one, or returns where it only polls.
abbrev pub done_with : {R E S : Type 0} → Bool → Bool → S → Progress R E S
done_with {R} {E} {S} block handled s =
    let c : Config R E S = record { handled = handled; head = []; state = s } in
    if block then waiting c else returned c

end-empty :
    {R E S : Type 0} (ask : ℕ → S → Answer R E × S) (block : Bool) (c : Config R E S)
    (p : Progress R E S)
    → IsAnswering ask
    → IsEnd ask block c p
    → (handled : Bool) × (s : S) × (p ≡ done_with block handled s)
end-empty ask block c p answers (empty handled s) = (handled, s, refl)
end-empty ask block c p answers (unanswered handled cur rest s s1 e) =
    let (r, err, a) = answers cur.request s in absurd (answered-pending (sym a ∙ ap (λ q. q.0) e))

-- If every request is answered sooner or later, the loop of `process_replies` gets through all handlers in the
-- list: none is left, and it waits for another, or returns where it only polls. The handlers make no requests,
-- the list does not change meanwhile, and the replies to come are finitely many.
pub process_replies-empty :
    {R E S : Type 0} (ask : ℕ → S → Answer R E × S) (left : S → ℕ) (block handled : Bool)
    (cur : ReplyNode (Handler R E S)) (rest : List (ReplyNode (Handler R E S))) (s : S) (fuel : ℕ)
    → IsFinite ask left
    → All (IsQuiet ask left) (cur ∷ rest)
    → left s + length (cur ∷ rest) ≤ fuel
    → IsAnswering ask
    → (handled' : Bool) × (s' : S) × (process_replies ask fuel block
          (record { handled = handled; head = cur ∷ rest; state = s })
        ≡ some (done (done_with block handled' s')))
process_replies-empty ask left block handled cur rest s fuel finite quiet le answers =
    let run = process_replies-IsRun ask left block handled cur rest s fuel finite quiet le in
    let (handled', s', e) = end-empty ask block run.last run.progress answers run.ends in
    (handled', s', run.result ∙ ap (λ p. some (done p)) e)
