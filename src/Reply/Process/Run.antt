-- ===== src/Reply/Process/Run.antt =====
-- The loop over replies as steps of the list of handlers, and that it comes to an end.
pub mod Empty
use xcb_util.Prelude.{
  ℕ, zero, suc, ◌+◌, ◌≤◌, ◌<◌, ◌≡◌, refl, ap, List, [], ◌∷◌, length, All, Bool, true, false, ◌||◌,
  ltb, ◌==◌, ==_iff, if◌then◌else◌, Option, some, none, done, arith,
}
use xcb_util.Reply.{ReplyNode}
use xcb_util.Reply.Process.{
  Answer, pending, answered, Handler, Config, Progress, returned, waiting, remove_handler,
  answer_node, next_head, settle, round, process_replies,
}

remove_head :
    {H : Type 0} (n : ReplyNode H) (ns : List (ReplyNode H)) (request : ℕ)
    → n.request ≡ request
    → remove_handler (n ∷ ns) request ≡ ns
unfolding remove_handler
remove_head n ns request e =
    let lt : ltb n.request request ≡ false = ground arith in
    let eq : (n.request == request) ≡ true = (==_iff n.request request).1 e in rw (lt, eq)

module _ {R E S : Type 0} (ask : ℕ → S → Answer R E × S) where
  abbrev config : Bool → List (ReplyNode (Handler R E S)) → S → Config R E S
  config handled head s = record { handled = handled; head = head; state = s }

  -- A reply goes to the first handler, which stays for the next one; an error ends its request, and so
  -- does the answer that there is nothing more.
  pub data Step : Config R E S → Config R E S → Type 0 where
    reply :
        (handled : Bool) (cur : ReplyNode (Handler R E S)) (rest : List (ReplyNode (Handler R E S)))
        (s s1 : S) (r : R) (e : Option E)
        → ask cur.request s ≡ (answered (some r) e, s1)
        → Step
            (config handled (cur ∷ rest) s)
            (config true (record cur { handled = true } ∷ rest) (cur.handler (some r) e s1))
    error :
        (handled : Bool) (cur : ReplyNode (Handler R E S)) (rest : List (ReplyNode (Handler R E S)))
        (s s1 : S) (e : E)
        → ask cur.request s ≡ (answered none (some e), s1)
        → Step (config handled (cur ∷ rest) s) (config true rest (cur.handler none (some e) s1))
    finished :
        (handled : Bool) (cur : ReplyNode (Handler R E S)) (rest : List (ReplyNode (Handler R E S)))
        (s s1 : S)
        → ask cur.request s ≡ (answered none none, s1)
        → Step (config handled (cur ∷ rest) s) (config (handled || cur.handled) rest s1)

  pub data Steps : Config R E S → Config R E S → Type 0 where
    here : {c : Config R E S} → Steps c c
    next : {c d f : Config R E S} → Step c d → Steps d f → Steps c f

  -- The loop ends where no handler is left, or where the first one has no answer yet.
  pub data IsEnd (block : Bool) : Config R E S → Progress R E S → Type 0 where
    empty :
        (handled : Bool) (s : S)
        → IsEnd block
            (config handled [] s)
            (if block then waiting (config handled [] s) else returned (config handled [] s))
    unanswered :
        (handled : Bool) (cur : ReplyNode (Handler R E S)) (rest : List (ReplyNode (Handler R E S)))
        (s s1 : S)
        → ask cur.request s ≡ (pending, s1)
        → IsEnd block (config handled (cur ∷ rest) s) (returned (config handled (cur ∷ rest) s1))

  -- The replies that are to come are finitely many: a number of them that every reply lowers, and no
  -- other answer raises.
  pub record IsFinite (left : S → ℕ) : Type 0 where
    pub lowered :
        (request : ℕ) (s s1 : S) (r : R) (e : Option E)
        → ask request s ≡ (answered (some r) e, s1)
        → left s1 < left s
    pub not_raised :
        (request : ℕ) (s s1 : S) (e : Option E)
        → ask request s ≡ (answered none e, s1)
        → left s1 ≤ left s

  -- A handler that makes no requests.
  abbrev pub IsQuiet : (S → ℕ) → ReplyNode (Handler R E S) → Type 0
  IsQuiet left n = (r : Option R) (e : Option E) (s : S) → left (n.handler r e s) ≤ left s

  -- A run of the loop, by what it comes to.
  pub record IsRun (fuel : ℕ) (block : Bool) (c : Config R E S) : Type 0 where
    pub last : Config R E S
    pub progress : Progress R E S
    pub result : process_replies ask fuel block c ≡ some (done progress)
    pub steps : Steps c last
    pub ends : IsEnd block last progress

  module _ (left : S → ℕ) (finite : IsFinite left) (block : Bool) where
    -- After a step the loop ends, or goes on with one unit of fuel less.
    after :
        (fuel : ℕ)
        → ((handled : Bool) (n : ReplyNode (Handler R E S)) (ns : List (ReplyNode (Handler R E S)))
              (s : S)
            → left s + length (n ∷ ns) ≤ fuel
            → All (IsQuiet left) (n ∷ ns)
            → IsRun fuel block (config handled (n ∷ ns) s))
        → (before : Bool) (cur : ReplyNode (Handler R E S))
          (rest : List (ReplyNode (Handler R E S))) (s0 : S) (handled : Bool)
          (head : List (ReplyNode (Handler R E S))) (s : S)
        → Step (config before (cur ∷ rest) s0) (config handled head s)
        → left s + length head ≤ fuel
        → All (IsQuiet left) head
        → round ask block before cur rest s0 ≡ settle block (config handled head s)
        → IsRun (suc fuel) block (config before (cur ∷ rest) s0)
    unfolding process_replies settle
    after fuel more before cur rest s0 handled [] s st le quiet e = record {
      last = config handled [] s;
      progress = if block then waiting (config handled [] s) else returned (config handled [] s);
      result = rw (process_replies, e);
      steps = next st here;
      ends = empty handled s;
    }
    after fuel more before cur rest s0 handled (n ∷ ns) s st le quiet e =
        let run = more handled n ns s le quiet in
        record {
          last = run.last;
          progress = run.progress;
          result = rw (process_replies, e) run.result;
          steps = next st run.steps;
          ends = run.ends;
        }

    -- The round on the first handler, by the answer for it.
    by_answer :
        (fuel : ℕ)
        → ((handled : Bool) (n : ReplyNode (Handler R E S)) (ns : List (ReplyNode (Handler R E S)))
              (s : S)
            → left s + length (n ∷ ns) ≤ fuel
            → All (IsQuiet left) (n ∷ ns)
            → IsRun fuel block (config handled (n ∷ ns) s))
        → (handled : Bool) (cur : ReplyNode (Handler R E S))
          (rest : List (ReplyNode (Handler R E S))) (s : S)
        → left s + length (cur ∷ rest) ≤ suc fuel
        → All (IsQuiet left) (cur ∷ rest)
        → (a : Answer R E) (s1 : S) → ask cur.request s ≡ (a, s1)
        → IsRun (suc fuel) block (config handled (cur ∷ rest) s)
    unfolding process_replies round answer_node next_head
    by_answer fuel more handled cur rest s le quiet pending s1 e = record {
      last = config handled (cur ∷ rest) s;
      progress = returned (config handled (cur ∷ rest) s1);
      result = rw (process_replies, round, ap (λ p. p.0) e, ap (λ p. p.1) e);
      steps = here;
      ends = unanswered handled cur rest s s1 e;
    }
    by_answer fuel more handled cur rest s le quiet (answered (some r) error') s1 e =
        let fewer = finite.lowered cur.request s s1 r error' e in
        let calm = quiet.0 (some r) error' s1 in
        after fuel more handled cur rest s true (record cur { handled = true } ∷ rest)
          (cur.handler (some r) error' s1) (reply handled cur rest s s1 r error' e) (omega arith)
          (quiet.0, quiet.1) (rw (round, ap (λ p. p.0) e, ap (λ p. p.1) e))
    by_answer fuel more handled cur rest s le quiet (answered none (some x)) s1 e =
        let fewer = finite.not_raised cur.request s s1 (some x) e in
        let calm = quiet.0 none (some x) s1 in
        after fuel more handled cur rest s true rest (cur.handler none (some x) s1)
          (error handled cur rest s s1 x e) (omega arith) quiet.1
          (rw (
            round,
            ap (λ p. p.0) e,
            ap (λ p. p.1) e,
            remove_head (record cur { handled = true }) rest cur.request refl,
          ))
    by_answer fuel more handled cur rest s le quiet (answered none none) s1 e =
        let fewer = finite.not_raised cur.request s s1 none e in
        after fuel more handled cur rest s (handled || cur.handled) rest s1
          (finished handled cur rest s s1 e) (omega arith) quiet.1
          (rw (round, ap (λ p. p.0) e, ap (λ p. p.1) e, remove_head cur rest cur.request refl))

    run_lem :
        (fuel : ℕ) (handled : Bool) (cur : ReplyNode (Handler R E S))
        (rest : List (ReplyNode (Handler R E S))) (s : S)
        → left s + length (cur ∷ rest) ≤ fuel
        → All (IsQuiet left) (cur ∷ rest)
        → IsRun fuel block (config handled (cur ∷ rest) s)
    run_lem zero handled cur rest s le quiet = absurd (omega arith)
    run_lem (suc fuel) handled cur rest s le quiet =
        by_answer fuel (run_lem fuel) handled cur rest s le quiet (ask cur.request s).0
          (ask cur.request s).1 refl

-- The loop of `process_replies`, begun with at least one handler, comes to an end, reads no null pointer,
-- and ends after a sequence of rounds: a reply goes to the first handler, an error to it for the last
-- time, and the answer that there is nothing more takes the node out. It ends where no handler is left,
-- in waiting for one (or with a return if it only polls), or where the first handler has no answer yet.
-- The handlers make no requests, the list does not change meanwhile, and the replies to come are finitely
-- many; as many rounds as there are replies and handlers are enough.
pub process_replies-IsRun :
    {R E S : Type 0} (ask : ℕ → S → Answer R E × S) (left : S → ℕ) (block handled : Bool)
    (cur : ReplyNode (Handler R E S)) (rest : List (ReplyNode (Handler R E S))) (s : S) (fuel : ℕ)
    → IsFinite ask left
    → All (IsQuiet ask left) (cur ∷ rest)
    → left s + length (cur ∷ rest) ≤ fuel
    → IsRun ask fuel block (record { handled = handled; head = cur ∷ rest; state = s })
process_replies-IsRun ask left block handled cur rest s fuel finite quiet le =
    run_lem ask left finite block fuel handled cur rest s le quiet
