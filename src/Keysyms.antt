-- ===== src/Keysyms.antt =====
-- keysyms/keysyms.c: the table of key symbols that the server keeps, its rows by keycode.
pub mod Case
pub mod Classes
pub mod Row
pub mod Rules
pub mod Lookup
pub mod Codes
use xcb_util.Prelude.{
  ℕ, zero, suc, ◌+◌, ◌-◌, ◌*◌, List, [], ◌∷◌, Bool, true, false, ◌&&◌, ◌||◌, not, ltb, leb, ◌==◌,
  if◌then◌else◌, u8, bit_and, bit_or, Option, some, none, Outcome, done, fault, ◌>>=◌, load, ℤ, pos,
  negsuc, ◌++◌, ◌^◌,
}
use xcb_util.Request.{Request, get_keyboard_mapping}
use xcb_util.Keysyms.Case.{Letters, convert_case}

-- What the code reads of `xcb_get_keyboard_mapping_reply_t`.
pub record Mapping : Type 0 where
  pub keysyms_per_keycode : ℕ
  pub keysyms : List ℕ

-- The connection: the two keycodes of the setup, and what libxcb returns for a cookie, or a null
-- pointer.
pub record Connection : Type 0 where
  pub min_keycode : ℕ
  pub max_keycode : ℕ
  pub mapping_reply : Request → Option Mapping

-- `struct _XCBKeySymbols`: the union with its tag. A cookie is known by its request.
pub data KeySymbols : Type 0 where
  cookie : Request → KeySymbols
  value : Option Mapping → KeySymbols

module _ (c : Connection) where
  abbrev pub mapping_request : Request
  mapping_request =
      get_keyboard_mapping c.min_keycode (u8 (c.max_keycode + 2 ^ 8 - c.min_keycode + 1))

  -- `xcb_key_symbols_alloc`, where `malloc` succeeds.
  unfoldable pub alloc : KeySymbols
  alloc = cookie mapping_request

  -- `xcb_key_symbols_get_reply`
  unfoldable pub get_reply : KeySymbols → KeySymbols
  get_reply (cookie r) = value (c.mapping_reply r)
  get_reply (value m) = value m

  -- `xcb_refresh_keyboard_mapping`; XCB_MAPPING_KEYBOARD is 1.
  unfoldable pub refresh : Option KeySymbols → ℕ → Bool × Option KeySymbols
  refresh none request = (false, none)
  refresh (some (cookie r)) request = (request == 1, some (cookie r))
  refresh (some (value m)) request =
      if request == 1 then (true, some (cookie mapping_request)) else (false, some (value m))

  -- The reply that the pointer leads to; a null pointer is a fault.
  abbrev pub reply_of : KeySymbols → Outcome Mapping
  reply_of (cookie r) = fault
  reply_of (value none) = fault
  reply_of (value (some m)) = done m

-- `while ((per > 2) && (keysyms[per - 1] == XCB_NO_SYMBOL)) per--;` on the row at `row`.
unfoldable pub trim : List ℕ → ℕ → ℕ → Outcome ℕ
trim keysyms row zero = done zero
trim keysyms row (suc p) =
    let shorter = trim keysyms row p in
    let next : Outcome ℕ = (do
      s ← load keysyms (row + p)
      if s == 0 then shorter else done (suc p)) in
    if ltb 2 (suc p) then next else done (suc p)

module _ (k : Letters) where
  -- The choice within a group: `col` is below 4, and `per` the length of the row.
  unfoldable pub choose : List ℕ → ℕ → ℕ → ℕ → Outcome ℕ
  choose keysyms row per col =
      let single : Outcome ℕ = (do
        s ← load keysyms (row + (col - bit_and col 1))
        let forms = convert_case k s
        done (if bit_and col 1 == 0 then forms.0 else if forms.1 == forms.0 then 0 else forms.1)) in
      if leb per (bit_or col 1) then single else (do
        second ← load keysyms (row + bit_or col 1)
        if second == 0 then single else load keysyms (row + col))

  -- The part of `xcb_key_symbols_get_keysym` behind its checks.
  unfoldable pub select : List ℕ → ℕ → ℕ → ℕ → Outcome ℕ
  select keysyms row per col =
      let second_group : Outcome ℕ = (do
        per' ← trim keysyms row per
        choose keysyms row per' (if ltb per' 3 then col - 2 else col)) in
      if ltb col 4
      then (if ltb 1 col then second_group else choose keysyms row per col)
      else load keysyms (row + col)

  -- `xcb_key_symbols_get_keysym` on the reply.
  unfoldable pub keysym : Connection → Mapping → ℕ → ℤ → Outcome ℕ
  keysym c m keycode (negsuc n) = done 0
  keysym c m keycode (pos col) =
      let per = m.keysyms_per_keycode in
      if (leb per col && ltb 3 col) || (ltb keycode c.min_keycode || ltb c.max_keycode keycode)
      then done 0
      else select m.keysyms ((keycode - c.min_keycode) * per) per col

  -- `xcb_key_symbols_get_keysym`
  unfoldable pub get_keysym :
      Connection → Option KeySymbols → ℕ → ℤ → Outcome (ℕ × Option KeySymbols)
  get_keysym c none keycode col = done (0, none)
  get_keysym c (some syms) keycode col = do
    let syms' = get_reply c syms
    m ← reply_of c syms'
    s ← keysym c m keycode col
    done (s, some syms')

  -- `xcb_key_press_lookup_keysym` and `xcb_key_release_lookup_keysym`, on the event's `detail`.
  unfoldable pub lookup_keysym :
      Connection → Option KeySymbols → ℕ → ℤ → Outcome (ℕ × Option KeySymbols)
  lookup_keysym c syms detail col = get_keysym c syms detail col

  -- The loop over the keycodes of `xcb_key_symbols_get_keycode`, from `i` on and with `left` of the
  -- 8-bit numbers to go: it ends where `i` has wrapped round to 0.
  unfoldable pub codes_of_column : Connection → Mapping → ℕ → ℕ → ℕ → ℕ → Outcome (List ℕ)
  codes_of_column c m keysym' j zero i = done []
  codes_of_column c m keysym' j (suc left) i =
      let rest = codes_of_column c m keysym' j left (i + 1) in
      if leb i c.max_keycode
      then (do
        ks ← keysym c m i (pos j)
        more ← rest
        done (if ks == keysym' then i ∷ more else more))
      else done []

  -- The loop over the columns, from column `j` on.
  unfoldable pub codes : Connection → Mapping → ℕ → ℕ → ℕ → Outcome (List ℕ)
  codes c m keysym' zero j = done []
  codes c m keysym' (suc left) j = do
    first ←
        codes_of_column c m keysym' j (if c.min_keycode == 0 then 0 else 256 - c.min_keycode)
          c.min_keycode
    rest ← codes c m keysym' left (j + 1)
    done (first ++ rest)

  -- `xcb_key_symbols_get_keycode`: the null pointer where no keycode is found.
  unfoldable pub get_keycode :
      Connection → Option KeySymbols → ℕ → Outcome (Option (List ℕ) × Option KeySymbols)
  get_keycode c none keysym' = done (none, none)
  get_keycode c (some syms) keysym' = do
    let syms' = get_reply c syms
    m ← reply_of c syms'
    found ← codes c m keysym' m.keysyms_per_keycode 0
    done (elim found [ [] ↦ none | i ∷ is ↦ some ((i ∷ is) ++ (0 ∷ [])) ], some syms')
