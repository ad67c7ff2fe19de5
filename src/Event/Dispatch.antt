-- ===== src/Event/Dispatch.antt =====
-- Which handler `xcb_event_handle` calls.
use xcb_util.Prelude.{
  ℕ, zero, suc, ◌-◌, ◌%◌, ◌≤◌, ◌<◌, ◌≡◌, ◌≢◌, refl, sym, ap, ◌∙◌, arith, List, [], ◌∷◌, length, set,
  length-set, get_elem?, some, done, aborted, Bool-cases, inl, inr, dec_lt, ltb, leb, ◌==◌, true,
  false, bit_and,
}
use xcb_util.Bits.{bit_and_mask}
use xcb_util.Event.{
  Event, EventHandler, EventHandlers, get_event_handler, get_error_handler, entry, call, handle,
  set_handler, set_error_handler,
}

module _ {A : Type 0} where
  get_elem?-set_self :
      (xs : List A) (i : ℕ) (v : A) → i < length xs → get_elem? (set xs i v) i ≡ some v
  get_elem?-set_self [] i v h = absurd (omega arith)
  get_elem?-set_self (x ∷ xs) zero v h = refl
  get_elem?-set_self (x ∷ xs) (suc i) v h = get_elem?-set_self xs i v (omega arith)

  get_elem?-set_ne :
      (xs : List A) (i j : ℕ) (v : A) → i ≢ j → get_elem? (set xs i v) j ≡ get_elem? xs j
  get_elem?-set_ne [] i j v h = refl
  get_elem?-set_ne (x ∷ xs) zero zero v h = absurd (h refl)
  get_elem?-set_ne (x ∷ xs) zero (suc j) v h = refl
  get_elem?-set_ne (x ∷ xs) (suc i) zero v h = refl
  get_elem?-set_ne (x ∷ xs) (suc i) (suc j) v h = get_elem?-set_ne xs i j v (λ e. h (ap suc e))

-- An event whose number without the bit of `SendEvent` is 2 or more has a place in the table.
place :
    (event : ℕ) → event < 256 → 2 ≤ event % 128 → get_event_handler event ≡ done (event % 128 - 2)
unfolding get_event_handler
place event small big =
    let m : bit_and event 0x7f ≡ event % 128 = bit_and_mask 7 event in
    let l : ltb event 256 ≡ true = ground arith in
    let g : leb 2 (event % 128) ≡ true = ground arith in rw (l, m, g)

no_place : (event : ℕ) → event < 256 → event % 128 < 2 → get_event_handler event ≡ aborted
unfolding get_event_handler
no_place event small low =
    let m : bit_and event 0x7f ≡ event % 128 = bit_and_mask 7 event in
    let l : ltb event 256 ≡ true = ground arith in
    let g : leb 2 (event % 128) ≡ false = ground arith in rw (l, m, g)

done_injective {ℓ} : {A : Type ℓ} {a b : A} → done a ≡ done b → a ≡ b
done_injective e = cc

module _ {D S : Type 0} where
  handle_event :
      (hs : EventHandlers D S) (e : Event) (s : S) (h : EventHandler D S)
      → e.response_type < 256
      → 2 ≤ e.response_type % 128
      → get_elem? hs.event (e.response_type % 128 - 2) ≡ some h
      → handle hs e s ≡ call h e s
  unfolding handle
  handle_event hs e s h small big found =
      let a : (e.response_type == 1) ≡ false = ground arith in
      let b : (e.response_type == 0) ≡ false = ground arith in
      rw (a, b, place e.response_type small big, entry, found)

  -- After `xcb_event_set_handler` for an event number from 2 to 127, an event of that number, sent by
  -- the server or by a client, goes to the handler that was set, whose result is returned.
  pub handle-set_handler :
      (hs : EventHandlers D S) (event : ℕ) (h : EventHandler D S) (e : Event) (s : S)
      → length hs.event ≡ 126
      → 2 ≤ event
      → event < 128
      → e.response_type < 256
      → e.response_type % 128 ≡ event
      → (hs' : EventHandlers D S) × (set_handler hs event h ≡ done hs')
        × (length hs'.event ≡ 126)
        × (handle hs' e s ≡ call h e s)
  unfolding set_handler
  handle-set_handler hs event h e s full low high small same =
      let k : event % 128 ≡ event = omega arith in
      let at : event - 2 < length hs.event = omega arith in
      let hs' : EventHandlers D S = record hs { event = set hs.event (event - 2) h } in
      (
        hs',
        rw (place event (omega arith) (omega arith), k),
        length-set hs.event (event - 2) h ∙ full,
        handle_event hs' e s h small (omega arith)
            (rw same (get_elem?-set_self hs.event (event - 2) h at)),
      )

  handle_same :
      (a b : EventHandlers D S) (e : Event) (s : S)
      → e.response_type < 256
      → a.error ≡ b.error
      → (2 ≤ e.response_type % 128
          → entry a.event (e.response_type % 128 - 2) ≡ entry b.event (e.response_type % 128 - 2))
      → handle a e s ≡ handle b e s
  unfolding handle
  handle_same a b e s small errors events = elim (Bool-cases (e.response_type == 0)) [
    | inl q ↦ rw (q, errors)
    | inr q ↦ elim (dec_lt (e.response_type % 128) 2) [
      | yes low ↦ rw (q, no_place e.response_type small low)
      | no high ↦
          let big : 2 ≤ e.response_type % 128 = omega arith in
          rw (q, place e.response_type small big, events big)
    ]
  ]

  -- After `xcb_event_set_handler` every other event, and every error, is handled as before: with the
  -- same result, the same changes and the same failures.
  handle-set_handler_other :
      (hs hs' : EventHandlers D S) (event : ℕ) (h : EventHandler D S) (e : Event) (s : S)
      → 2 ≤ event
      → event < 128
      → e.response_type < 256
      → e.response_type % 128 ≢ event
      → set_handler hs event h ≡ done hs'
      → handle hs' e s ≡ handle hs e s
  unfolding set_handler
  handle-set_handler_other hs hs' event h e s low high small other set_it =
      let k : event % 128 ≡ event = omega arith in
      let after : EventHandlers D S = record hs { event = set hs.event (event - 2) h } in
      let p : set_handler hs event h ≡ done after =
        rw (place event (omega arith) (omega arith), k) in
      let same : hs' ≡ after = done_injective (sym set_it ∙ p) in
      rw same (
        handle_same after hs e s small refl (λ big. rw (
          entry,
          entry,
          get_elem?-set_ne hs.event (event - 2) (e.response_type % 128 - 2) h (omega arith),
        )))

  -- After `xcb_event_set_error_handler` for a code below 256, an error of that code goes to the
  -- handler that was set.
  handle-set_error_handler :
      (hs : EventHandlers D S) (error : ℕ) (h : EventHandler D S) (e : Event) (s : S)
      → length hs.error ≡ 256
      → error < 256
      → e.response_type ≡ 0
      → e.error_code ≡ error
      → (hs' : EventHandlers D S) × (set_error_handler hs error h ≡ done hs')
        × (length hs'.error ≡ 256)
        × (handle hs' e s ≡ call h e s)
  unfolding set_error_handler handle get_error_handler
  handle-set_error_handler hs error h e s full small kind same =
      let at : error < length hs.error = omega arith in
      let l : ltb error 256 ≡ true = ground arith in
      (
        record hs { error = set hs.error error h },
        rw l,
        length-set hs.error error h ∙ full,
        rw (kind, same, l, entry, get_elem?-set_self hs.error error h at),
      )
