-- ===== src/Property/Latest.antt =====
-- Of the handlers set for an atom, the one set last is called.
use xcb_util.Prelude.{
  ℕ, List, [], ◌∷◌, ◌==◌, ◌≡◌, refl, Option, some, none, Outcome, fault, if◌then◌else◌, true,
  Bool-cases, inl, inr, Option-cases, ◌∙◌,
}
use xcb_util.Property.{
  PropertyHandler, PropertyHandlers, find_handler, property_set_handler, call_handler,
  property_changed,
}

-- The reply to a change: none to a property that is deleted, which is state 1, and to any other the
-- server's answer to a request for so many words.
unfoldable pub reply_for :
    {R S : Type 0} → (ℕ → ℕ → ℕ → S → Option R) → ℕ → ℕ → ℕ → ℕ → S → Option R
reply_for get_property state window atom long_len s =
    if state == 1 then none else get_property window atom long_len s

module _ {D R S : Type 0} where
  -- The registrations of a client, in the order of the calls.
  unfoldable pub set_all :
      PropertyHandlers D R S → List (ℕ × PropertyHandler D R S) → PropertyHandlers D R S
  set_all prophs [] = prophs
  set_all prophs ((name, h) ∷ rest) = set_all (property_set_handler prophs true name h).1 rest

  unfoldable pub latest : List (ℕ × PropertyHandler D R S) → ℕ → Option (PropertyHandler D R S)
  latest [] atom = none
  latest ((name, h) ∷ rest) atom = elim (latest rest atom) [
    | some h' ↦ some h'
    | none ↦ if name == atom then some h else none
  ]

  -- What a client expects of a change: the handler that is set gets its data, the change and the reply.
  -- A null handler is called all the same.
  unfoldable pub notified :
      (ℕ → ℕ → ℕ → S → Option R) → ℕ → ℕ → ℕ → PropertyHandler D R S → S → Outcome (ℕ × S)
  notified get_property state window atom h s = elim (h.handler) [
    | none ↦ fault
    | some f ↦ f h.data' state window atom (reply_for get_property state window atom h.long_len s) s
  ]

  pub called_lem :
      (get_property : ℕ → ℕ → ℕ → S → Option R) (state window atom : ℕ) (h : PropertyHandler D R S)
      (s : S)
      → call_handler get_property state window atom h s
        ≡ notified get_property state window atom h s
  unfolding call_handler notified reply_for
  called_lem get_property state window atom h s = refl

  set_one :
      (get_property : ℕ → ℕ → ℕ → S → Option R) (prophs : PropertyHandlers D R S) (name : ℕ)
      (h : PropertyHandler D R S) (state window atom : ℕ) (s : S)
      → property_changed get_property
          (property_set_handler prophs true name h).1
          state
          window
          atom
          s
        ≡ elim (if name == atom then some h else none) [
          | some h ↦ call_handler get_property state window atom h s
          | none ↦ property_changed get_property prophs state window atom s
        ]
  unfolding property_changed find_handler property_set_handler
  set_one get_property prophs name h state window atom s = elim (Bool-cases (name == atom)) [
    | inl e ↦ rw (property_changed, find_handler, e)
    | inr e ↦ rw (property_changed, find_handler, e)
  ]

  set_all_lem :
      (get_property : ℕ → ℕ → ℕ → S → Option R) (prophs : PropertyHandlers D R S)
      (calls : List (ℕ × PropertyHandler D R S)) (state window atom : ℕ) (s : S)
      → property_changed get_property (set_all prophs calls) state window atom s
        ≡ elim (latest calls atom) [
          | some h ↦ call_handler get_property state window atom h s
          | none ↦ property_changed get_property prophs state window atom s
        ]
  unfolding set_all latest
  set_all_lem get_property prophs [] state window atom s = refl
  set_all_lem get_property prophs ((name, h) ∷ rest) state window atom s =
      let first = (property_set_handler prophs true name h).1 in
      set_all_lem get_property first rest state window atom s
      ∙ (elim (Option-cases (latest rest atom)) [
        | inl e ↦ rw e (set_one get_property prophs name h state window atom s)
        | inr (h', e) ↦ rw e refl
      ])

  pub property_changed-set_all :
      (get_property : ℕ → ℕ → ℕ → S → Option R) (prophs : PropertyHandlers D R S)
      (calls : List (ℕ × PropertyHandler D R S)) (state window atom : ℕ) (s : S)
      → property_changed get_property (set_all prophs calls) state window atom s
        ≡ elim (latest calls atom) [
          | some h ↦ notified get_property state window atom h s
          | none ↦ property_changed get_property prophs state window atom s
        ]
  property_changed-set_all get_property prophs calls state window atom s =
      set_all_lem get_property prophs calls state window atom s
      ∙ (elim (Option-cases (latest calls atom)) [
        | inl e ↦ rw e refl
        | inr (h, e) ↦ rw e (called_lem get_property state window atom h s)
      ])
