-- ===== src/Keysyms/Lookup.antt =====
-- `xcb_key_symbols_get_keysym` on the whole table, and its inverse.
use native.Mathlib.Nat.{mul-le-mul_right, add-mul}
use xcb_util.Prelude.{
  ℕ, ◌+◌, ◌-◌, ◌*◌, ◌≤◌, ◌<◌, ◌≡◌, refl, sym, ap, List, take, drop, length, Bool, true, false, ◌&&◌,
  ◌||◌, not, ltb, leb, Bool-cases, inl, inr, if◌then◌else◌, some, done, pos, get_or-ge, arith,
}
use xcb_util.Keysyms.Case.{Letters}
use xcb_util.Keysyms.{Connection, Mapping, KeySymbols, value, keysym, get_keysym, get_reply}
use xcb_util.Keysyms.Row.{given, select_lem, length-take-drop}
use xcb_util.Keysyms.Rules.{symbol, is_repeated, shown, given-eq-shown}

-- A reply with at least one column, and a row for every keycode of the setup.
pub record IsMapping (c : Connection) (m : Mapping) : Type 0 where
  pub columns : 0 < m.keysyms_per_keycode
  pub rows : (c.max_keycode + 1 - c.min_keycode) * m.keysyms_per_keycode ≤ length m.keysyms

-- The list of a keycode.
abbrev pub row_of : Connection → Mapping → ℕ → List ℕ
row_of c m keycode =
    take m.keysyms_per_keycode (drop ((keycode - c.min_keycode) * m.keysyms_per_keycode) m.keysyms)

abbrev pub has_keycode : Connection → ℕ → Bool
has_keycode c keycode = leb c.min_keycode keycode && leb keycode c.max_keycode

expand : (n p : ℕ) → (n + 1) * p ≡ n * p + p
expand n p = omega (arith, add-mul n 1 p)

or_true : (a : Bool) → (a || true) ≡ true
or_true true = refl
or_true false = refl

and_not :
    (a b : Bool) (n : ℕ) → (if a then (if b then 0 else n) else 0) ≡ (if a && not b then n else 0)
and_not true true n = refl
and_not true false n = refl
and_not false b n = refl

module _ (k : Letters) (c : Connection) (m : Mapping) (valid : IsMapping c m) where
  row_inside :
      (keycode : ℕ)
      → c.min_keycode ≤ keycode
      → keycode ≤ c.max_keycode
      → (keycode - c.min_keycode) * m.keysyms_per_keycode + m.keysyms_per_keycode ≤ length m.keysyms
  row_inside keycode low high =
      let area : (keycode - c.min_keycode + 1) * m.keysyms_per_keycode
          ≤ (c.max_keycode + 1 - c.min_keycode) * m.keysyms_per_keycode =
        mul-le-mul_right m.keysyms_per_keycode (omega arith) in
      omega (arith, area, valid.rows, expand (keycode - c.min_keycode) m.keysyms_per_keycode)

  given_past :
      (keycode col : ℕ)
      → c.min_keycode ≤ keycode
      → keycode ≤ c.max_keycode
      → (leb m.keysyms_per_keycode col && ltb 3 col) ≡ true
      → given k (row_of c m keycode) col ≡ 0
  unfolding given
  given_past keycode col low high far =
      let t : ltb col 4 ≡ false = ground arith in
      let long : m.keysyms_per_keycode ≤ col = ground arith in
      rw t (
        get_or-ge (row_of c m keycode) col 0 (
          rw
            (length-take-drop m.keysyms_per_keycode
              ((keycode - c.min_keycode) * m.keysyms_per_keycode) m.keysyms
              (row_inside keycode low high))
            long))

  given_lem :
      (keycode col : ℕ)
      → keysym k c m keycode (pos col)
        ≡ done (if has_keycode c keycode then given k (row_of c m keycode) col else 0)
  unfolding keysym
  given_lem keycode col = elim (Bool-cases (has_keycode c keycode)) [
    | inl here ↦
        let low : c.min_keycode ≤ keycode = ground arith in
        let high : keycode ≤ c.max_keycode = ground arith in
        let outside : (ltb keycode c.min_keycode || ltb c.max_keycode keycode) ≡ false =
          ground arith in
        elim (Bool-cases (leb m.keysyms_per_keycode col && ltb 3 col)) [
          | inl far ↦ rw (here, far) (ap done (sym (given_past keycode col low high far)))
          | inr near ↦
              rw (here, near, outside)
                (select_lem k m.keysyms ((keycode - c.min_keycode) * m.keysyms_per_keycode)
                  m.keysyms_per_keycode (row_inside keycode low high) valid.columns col
                  (ground arith))
        ]
    | inr away ↦
        let outside : (ltb keycode c.min_keycode || ltb c.max_keycode keycode) ≡ true =
          ground arith in
        rw (away, outside, or_true)
  ]

  pub keysym_lem :
      (keycode col : ℕ)
      → keysym k c m keycode (pos col)
        ≡ done (if has_keycode c keycode then shown k (row_of c m keycode) col else 0)
  keysym_lem keycode col = rw (← given-eq-shown k (row_of c m keycode) col) (given_lem keycode col)

-- `xcb_key_symbols_get_keysym` on a whole table returns the symbol that the documented rules for lists
-- give for the keycode's list and the column, with one exception: where the second symbol of a group is
-- missing and the first has only one form, the rules repeat the first, and the function returns the empty
-- symbol. It returns the empty symbol too for a keycode that the server does not have, and it reads no memory
-- outside the table. The first call takes the reply of the server and keeps it.
pub get_keysym-eq-symbol :
    (k : Letters) (c : Connection) (m : Mapping) (syms : KeySymbols) (keycode col : ℕ)
    → IsMapping c m
    → get_reply c syms ≡ value (some m)
    → get_keysym k c (some syms) keycode (pos col)
      ≡ done (
        (if has_keycode c keycode && not (is_repeated k (row_of c m keycode) col)
            then symbol k (row_of c m keycode) col
            else 0),
        some (value (some m)),
      )
unfolding get_keysym shown
get_keysym-eq-symbol k c m syms keycode col valid fetched =
    rw (fetched, keysym_lem k c m valid keycode col)
      (ap (λ n. done (n, some (value (some m))))
        (and_not (has_keycode c keycode) (is_repeated k (row_of c m keycode) col)
          (symbol k (row_of c m keycode) col)))
