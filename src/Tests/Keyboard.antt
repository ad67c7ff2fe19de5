-- ===== src/Tests/Keyboard.antt =====
-- Key symbols and labels at concrete inputs.
use xcb_util.Prelude.{
  ℕ, ◌≡◌, refl, List, [], ◌∷◌, ◌++◌, ◌&&◌, not, ◌==◌, if◌then◌else◌, some, none, done, pos, arith,
  load,
}
use xcb_util.Keysyms.{
  Mapping, Connection, value, alloc, get_reply, get_keysym, get_keycode, codes, codes_of_column,
  keysym, select, choose, trim,
}
use xcb_util.Keysyms.Case.{Letters, convert_case, latin_1}
use xcb_util.Keysyms.Case.Pairs.{documented, convert_case-forms}
use xcb_util.Keysyms.Rules.{symbol, is_repeated, shown}
use xcb_util.Keysyms.Lookup.{row_of, has_keycode, get_keysym-eq-symbol}
use xcb_util.Keysyms.Codes.{member, any_from, get_keycode-finds}

abbrev letters : Letters
letters = documented 0x14b2 0x14fd

convert_case-forms_example :
    (convert_case letters (convert_case letters 0x6c1).0 ≡ convert_case letters 0x6c1)
    × (convert_case letters (convert_case letters 0x6c1).1 ≡ convert_case letters 0x6c1)
convert_case-forms_example = convert_case-forms letters 0x6c1 refl (omega arith) refl

-- Two keycodes of four columns: the letter a, and the digit 1 with two more symbols.
abbrev keys : Mapping
keys = record {
  keysyms_per_keycode = 4;
  keysyms = 0x61 ∷ 0 ∷ 0 ∷ 0 ∷ 0x31 ∷ 0x21 ∷ 0xb9 ∷ 0xa1 ∷ [];
}

abbrev connection : Connection
connection = record { min_keycode = 8; max_keycode = 9; mapping_reply = λ r. some keys }

get_keysym-eq-symbol_example :
    get_keysym letters connection (some (alloc connection)) 8 (pos 1)
    ≡ done (
      (if has_keycode connection 8 && not (is_repeated letters (row_of connection keys 8) 1)
          then symbol letters (row_of connection keys 8) 1
          else 0),
      some (value (some keys)),
    )
unfolding get_reply alloc
get_keysym-eq-symbol_example =
    get_keysym-eq-symbol letters connection keys (alloc connection) 8 1
      (record { columns = omega arith; rows = omega arith }) refl

get_keycode-finds_example :
    (found : List ℕ) × (get_keycode letters connection (some (alloc connection)) 0x41
      ≡ done (
        elim found [ [] ↦ none | i ∷ is ↦ some ((i ∷ is) ++ (0 ∷ [])) ],
        some (value (some keys)),
      ))
    × (member found 8 ≡ (
        has_keycode connection 8
        && any_from (λ j. shown letters (row_of connection keys 8) j == 0x41) 4 0))
unfolding get_reply alloc
get_keycode-finds_example =
    get_keycode-finds letters connection keys (alloc connection) 0x41 8
      (record { columns = omega arith; rows = omega arith }) (omega arith) (omega arith)
      (omega arith) refl

-- The letter a in its columns, found from its capital, and the digit.
symbols :
    get_keycode letters connection (some (alloc connection)) 0x41
    ≡ done (some (8 ∷ 8 ∷ 0 ∷ []), some (value (some keys)))
unfolding get_keycode alloc get_reply codes codes_of_column keysym select choose trim convert_case
    latin_1 load
symbols = refl
