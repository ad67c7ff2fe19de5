-- ===== src/Keysyms/Rules.antt =====
-- The rules for lists of key symbols, as the comment above `xcb_key_symbols_get_keysym` gives them.
use xcb_util.Prelude.{
  ℕ, ◌+◌, ◌*◌, ◌/◌, ◌%◌, ◌≡◌, inl, inr, List, get_or, Bool, true, false, ◌&&◌, not, ltb, ◌==◌,
  Bool-cases, if◌then◌else◌, arith,
}
use xcb_util.Keysyms.Case.{Letters, convert_case}
use xcb_util.Keysyms.Row.{expanded, given_of_group, given}

-- An alphabetic symbol has another form as a lower or as an upper case letter.
abbrev is_alphabetic : Letters → ℕ → Bool
is_alphabetic k s = not ((convert_case k s).0 == s && (convert_case k s).1 == s)

-- The symbol of a group of two. Where the second is empty, an alphabetic first stands for its lower and its
-- upper case form, and any other for itself in both places.
unfoldable pub of_group : Letters → ℕ → ℕ → Bool → ℕ
of_group k first second even =
    let lower = if is_alphabetic k first then (convert_case k first).0 else first in
    let upper = if is_alphabetic k first then (convert_case k first).1 else first in
    if second == 0 then (if even then lower else upper) else if even then first else second

-- The symbol that the rules give for a column: the first four columns are two groups, and the others stand
-- for themselves.
unfoldable pub symbol : Letters → List ℕ → ℕ → ℕ
symbol k row col =
    let group =
      of_group k (expanded row (col / 2 * 2)) (expanded row (col / 2 * 2 + 1)) (col % 2 == 0) in
    if ltb col 4 then group else get_or row col 0

-- The second place of a group whose second is empty and whose first has only one form: the rules repeat the
-- first there.
unfoldable pub is_repeated : Letters → List ℕ → ℕ → Bool
is_repeated k row col =
    let forms = convert_case k (expanded row (col / 2 * 2)) in
    ltb col 4 && (not (col % 2 == 0) && (expanded row (col / 2 * 2 + 1) == 0 && forms.1 == forms.0))

-- What is shown at a column: what the rules give, but nothing where they repeat a symbol.
unfoldable pub shown : Letters → List ℕ → ℕ → ℕ
shown k row col = if is_repeated k row col then 0 else symbol k row col

group_lem :
    (k : Letters) (first second : ℕ) (even : Bool)
    → given_of_group k first second even ≡ (
        if not even && (second == 0 && (convert_case k first).1 == (convert_case k first).0)
        then 0
        else of_group k first second even)
unfolding given_of_group of_group
group_lem k first second true = ground arith
group_lem k first second false = ground arith

pub given-eq-shown : (k : Letters) (row : List ℕ) (col : ℕ) → given k row col ≡ shown k row col
unfolding given shown symbol is_repeated
given-eq-shown k row col = elim (Bool-cases (ltb col 4)) [
  | inl q ↦
      rw q
        (group_lem k (expanded row (col / 2 * 2)) (expanded row (col / 2 * 2 + 1)) (col % 2 == 0))
  | inr q ↦ rw q
]
