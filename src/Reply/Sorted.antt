-- ===== src/Reply/Sorted.antt =====
-- The list of reply handlers stays in the order of the requests.
use xcb_util.Prelude.{
  ℕ, List, [], ◌∷◌, ◌++◌, ◌≤◌, ◌<◌, ◌≡◌, ltb, false, refl, ap, arith, All, Bool-cases, inl, inr,
}
use xcb_util.Reply.{ReplyNode, insert_handler, add_handler}

-- The requests do not decrease along the list.
abbrev pub IsSorted : {H : Type 0} → List (ReplyNode H) → Type 0
IsSorted [] = Unit
IsSorted (n ∷ ns) = All (λ k. n.request ≤ k.request) ns × IsSorted ns

module _ {H : Type 0} where
  insert-All :
      (P : ReplyNode H → Type 0) (ns : List (ReplyNode H)) (cur : ReplyNode H)
      → P cur
      → All P ns
      → All P (insert_handler ns cur)
  unfolding insert_handler
  insert-All P [] cur p h = (p, tt)
  insert-All P (n ∷ ns) cur p h = elim (Bool-cases (ltb n.request cur.request)) [
    | inl q ↦ rw q (h.0, insert-All P ns cur p h.1)
    | inr q ↦ rw q (p, h)
  ]

  weaken :
      (low high : ℕ) (ns : List (ReplyNode H))
      → low ≤ high
      → All (λ k. high ≤ k.request) ns
      → All (λ k. low ≤ k.request) ns
  weaken low high [] le h = tt
  weaken low high (n ∷ ns) le h = (omega (arith, h.0), weaken low high ns le h.1)

  insert-IsSorted :
      (ns : List (ReplyNode H)) (cur : ReplyNode H) → IsSorted ns → IsSorted (insert_handler ns cur)
  unfolding insert_handler
  insert-IsSorted [] cur s = (tt, tt)
  insert-IsSorted (n ∷ ns) cur s = elim (Bool-cases (ltb n.request cur.request)) [
    | inl q ↦
        let lt : n.request ≤ cur.request = ground arith in
        rw q (insert-All (λ k. n.request ≤ k.request) ns cur lt s.0, insert-IsSorted ns cur s.1)
    | inr q ↦
        let le : cur.request ≤ n.request = ground arith in
        rw q ((le, weaken cur.request n.request ns le s.0), s)
  ]

  -- The list is cut in two at the first request that is not smaller, and the node put in between.
  record IsInserted (ns : List (ReplyNode H)) (cur : ReplyNode H) : Type 0 where
    before : List (ReplyNode H)
    behind : List (ReplyNode H)
    whole : ns ≡ before ++ behind
    result : insert_handler ns cur ≡ before ++ (cur ∷ behind)
    smaller : All (λ k. k.request < cur.request) before

  inserted : (ns : List (ReplyNode H)) (cur : ReplyNode H) → IsInserted ns cur
  unfolding insert_handler
  inserted [] cur = record { before = []; behind = []; whole = refl; result = refl; smaller = tt }
  inserted (n ∷ ns) cur = elim (Bool-cases (ltb n.request cur.request)) [
    | inl q ↦
        let r = inserted ns cur in
        record {
          before = n ∷ r.before;
          behind = r.behind;
          whole = ap (λ l. n ∷ l) r.whole;
          result = rw q (ap (λ l. n ∷ l) r.result);
          smaller = (ground arith, r.smaller);
        }
    | inr q ↦ record {
      before = [];
      behind = n ∷ ns;
      whole = refl;
      result = rw q refl;
      smaller = tt;
    }
  ]

  -- `xcb_reply_add_handler` on a list in the order of the requests leaves it in that order: the new
  -- node, which is not marked as handled, stands behind the nodes of smaller requests, and all other
  -- nodes keep their places among each other.
  pub add_handler-IsSorted :
      (head : List (ReplyNode H)) (request : ℕ) (handler : H)
      → IsSorted head
      → let cur : ReplyNode H = record { request = request; handler = handler; handled = false } in
        (before : List (ReplyNode H)) × (behind : List (ReplyNode H)) × (head ≡ before ++ behind)
        × (add_handler head request handler ≡ before ++ (cur ∷ behind))
        × All (λ k. k.request < request) before
        × IsSorted (add_handler head request handler)
  unfolding add_handler
  add_handler-IsSorted head request handler s =
      let cur : ReplyNode H = record { request = request; handler = handler; handled = false } in
      let r = inserted head cur in
      (r.before, r.behind, r.whole, r.result, r.smaller, insert-IsSorted head cur s)
