-- ===== src/Keysyms/Codes.antt =====
-- `xcb_key_symbols_get_keycode` finds the keycodes that have a symbol.
use xcb_util.Prelude.{
  ℕ, zero, suc, ◌+◌, ◌-◌, ◌≤◌, ◌<◌, ◌≡◌, refl, sym, ap, ap₂, ◌∙◌, List, [], ◌∷◌, ◌++◌, Bool, true,
  false, ◌&&◌, ◌||◌, leb, ◌==◌, if◌then◌else◌, some, none, done, dec_le, ℕ_discrete, arith,
}
use xcb_util.Keysyms.Case.{Letters}
use xcb_util.Keysyms.{
  Connection, Mapping, KeySymbols, value, get_keycode, codes, codes_of_column, get_reply,
}
use xcb_util.Keysyms.Rules.{shown}
use xcb_util.Keysyms.Lookup.{IsMapping, row_of, has_keycode, keysym_lem}

unfoldable pub member : List ℕ → ℕ → Bool
member [] x = false
member (y ∷ ys) x = x == y || member ys x

-- Does a test hold of one of `left` numbers from `j` on?
unfoldable pub any_from : (ℕ → Bool) → ℕ → ℕ → Bool
any_from test zero j = false
any_from test (suc left) j = test j || any_from test left (j + 1)

and_or : (a b d : Bool) → ((a && b) || (a && d)) ≡ (a && (b || d))
and_or true b d = refl
and_or false b d = refl

and_false : (a : Bool) → false ≡ (a && false)
and_false true = refl
and_false false = refl

or_assoc : (a b c : Bool) → ((a || b) || c) ≡ (a || (b || c))
or_assoc true b c = refl
or_assoc false b c = refl

member-append : (xs ys : List ℕ) (x : ℕ) → member (xs ++ ys) x ≡ (member xs x || member ys x)
unfolding member
member-append [] ys x = refl
member-append (y ∷ xs) ys x =
    ap (λ b. x == y || b) (member-append xs ys x)
    ∙ sym (or_assoc (x == y) (member xs x) (member ys x))

-- Whether the loop keeps `i` decides about `i` only.
found_step :
    (here there : Bool) (more : List ℕ) (i x top : ℕ)
    → i ≤ top
    → member more x ≡ ((leb (i + 1) x && leb x top) && there)
    → (x ≡ i → there ≡ here)
    → member (if here then i ∷ more else more) x ≡ ((leb i x && leb x top) && there)
unfolding member
found_step true there more i x top h rest same = elim (ℕ_discrete x i) [
  | yes e ↦ ground (arith, same e)
  | no ne ↦ ground arith
]
found_step false there more i x top h rest same = elim (ℕ_discrete x i) [
  | yes e ↦ ground (arith, same e)
  | no ne ↦ ground arith
]

module _ (k : Letters) (c : Connection) (m : Mapping) (valid : IsMapping c m)
    (positive : 0 < c.min_keycode) (range : c.min_keycode ≤ c.max_keycode)
    (byte : c.max_keycode < 256) (keysym' : ℕ) where
  -- Does the key have the symbol in the column?
  abbrev shows : ℕ → ℕ → Bool
  shows x j = shown k (row_of c m x) j == keysym'

  column_lem :
      (j left i : ℕ)
      → i + left ≡ 256
      → c.min_keycode ≤ i
      → (found : List ℕ) × (codes_of_column k c m keysym' j left i ≡ done found)
        × ((x : ℕ) → member found x ≡ ((leb i x && leb x c.max_keycode) && shows x j))
  unfolding codes_of_column member
  column_lem j zero i e low = ([], refl, λ x. ground arith)
  column_lem j (suc left) i e low = elim (dec_le i c.max_keycode) [
    | yes at ↦
        let (more, rest, found) = column_lem j left (i + 1) (omega arith) (omega arith) in
        let here : has_keycode c i ≡ true = ground arith in
        let t : leb i c.max_keycode ≡ true = ground arith in
        let read = keysym_lem k c m valid i j in
        (
          (if shows i j then i ∷ more else more),
          rw (t, read, here, rest),
          λ x.
              found_step (shows i j) (shows x j) more i x c.max_keycode at (found x)
                (λ s. ap (λ y. shows y j) s),
        )
    | no past ↦ let t : leb i c.max_keycode ≡ false = ground arith in ([], rw t, λ x. ground arith)
  ]

  codes_lem :
      (left j : ℕ)
      → (found : List ℕ) × (codes k c m keysym' left j ≡ done found)
        × ((x : ℕ) → member found x ≡ (has_keycode c x && any_from (shows x) left j))
  unfolding codes member any_from
  codes_lem zero j = ([], refl, λ x. and_false (has_keycode c x))
  codes_lem (suc left) j =
      let t : (c.min_keycode == 0) ≡ false = ground arith in
      let (more, rest, there) = codes_lem left (j + 1) in
      let (first, column, here) =
        column_lem j (256 - c.min_keycode) c.min_keycode (omega arith) (omega arith) in
      (
        first ++ more,
        rw (t, column, rest),
        λ x.
            member-append first more x
            ∙ ap₂ (λ a b. a || b) (here x) (there x)
            ∙ and_or (has_keycode c x) (shows x j) (any_from (shows x) left (j + 1)),
      )

-- `xcb_key_symbols_get_keycode` on a whole table, for keycodes from 1 to 255: it returns a null pointer
-- or a list that ends with the empty symbol, and a keycode is listed before the end if and only if the
-- server has it and one of the columns of its list shows the symbol: the documented rules give it there, and do not
-- merely repeat the first symbol of a group that has one form.
pub get_keycode-finds :
    (k : Letters) (c : Connection) (m : Mapping) (syms : KeySymbols) (keysym' x : ℕ)
    → IsMapping c m
    → 0 < c.min_keycode
    → c.min_keycode ≤ c.max_keycode
    → c.max_keycode < 256
    → get_reply c syms ≡ value (some m)
    → (found : List ℕ) × (get_keycode k c (some syms) keysym'
        ≡ done (
          elim found [ [] ↦ none | i ∷ is ↦ some ((i ∷ is) ++ (0 ∷ [])) ],
          some (value (some m)),
        ))
      × (member found x ≡ (
          has_keycode c x
          && any_from (λ j. shown k (row_of c m x) j == keysym') m.keysyms_per_keycode 0))
unfolding get_keycode
get_keycode-finds k c m syms keysym' x valid positive range byte fetched =
    let (found, e, listed) =
      codes_lem k c m valid positive range byte keysym' m.keysyms_per_keycode 0 in
    (found, rw (fetched, e), listed x)
