-- ===== src/Aux.antt =====
-- aux/xcb_aux.c: the value lists of requests and the parser of colour names.
pub mod Pack
pub mod Color
pub mod Values
pub mod Screens
use xcb_util.Prelude.{
  ℕ, zero, suc, ◌+◌, ◌-◌, ◌*◌, ◌/◌, List, [], ◌∷◌, Bool, true, false, ◌&&◌, ◌||◌, not, ltb, leb,
  ◌==◌, if◌then◌else◌, ◌<<<◌, ◌>>>◌, u16, bit_and, bit_or, Option, some, none, length, Outcome,
  done, aborted, fault, ◌>>=◌,
}

-- `pack_list`: the values of `src` at the set bits of `mask`, in order. `src` is the parameter
-- structure as an array of words, and `room` the number of words left in `dest`; to read past the
-- one or to write past the other is a fault. A 32-bit mask is 0 after 32 shifts, so 32 rounds do.
unfoldable pub pack_list : ℕ → ℕ → List ℕ → ℕ → Outcome (List ℕ)
pack_list zero mask src room = done []
pack_list (suc fuel) mask src room =
    let tail : List ℕ = elim src [ [] ↦ [] | v ∷ vs ↦ vs ] in
    let skip = pack_list fuel (mask >>> 1) tail room in
    let take : Outcome (List ℕ) = elim src [
      | [] ↦ fault
      | v ∷ vs ↦
          if room == 0
          then fault
          else (do packed ← pack_list fuel (mask >>> 1) vs (room - 1); done (v ∷ packed))
    ] in
    if mask == 0 then done [] else if bit_and mask 1 == 0 then skip else take

-- A hexadecimal digit of `xcb_aux_parse_color`, by its ASCII code.
unfoldable pub hex_digit : ℕ → Option ℕ
hex_digit c =
    if leb b'0' c && leb c b'9'
    then some (c - b'0')
    else if leb b'A' c && leb c b'F'
    then some (c - (b'A' - 10))
    else if leb b'a' c && leb c b'f'
    then some (c - (b'a' - 10))
    else none

-- The inner loop: `n` digits into `b`, and what follows them.
unfoldable pub component : ℕ → ℕ → List ℕ → Option (ℕ × List ℕ)
component zero b cs = some (b, cs)
component (suc n) b [] = none
component (suc n) b (c ∷ cs) = elim (hex_digit c) [
  | none ↦ none
  | some d ↦ component n (bit_or (b <<< 4) d) cs
]

-- The outer loop, whose three rounds shift the components up to `r`. A name has three components,
-- so three rounds of fuel reach its end.
unfoldable pub components : ℕ → ℕ → ℕ → ℕ → ℕ → List ℕ → Option (ℕ × ℕ × ℕ)
components zero n r g b cs = none
components (suc fuel) n r g b cs = elim (component n 0 cs) [
  | none ↦ none
  | some (b', []) ↦ some (g, b, b')
  | some (b', c ∷ cs') ↦ components fuel n g b b' (c ∷ cs')
]

-- `xcb_aux_parse_color` on the name's characters: the three components, each shifted to 16 bits.
unfoldable pub parse_color : List ℕ → Option (ℕ × ℕ × ℕ)
parse_color [] = none
parse_color (c ∷ cs) =
    let n = length cs in
    let shift = 16 - n / 3 * 4 in
    if not (c == b'#')
    then none
    else if n == 3 || (n == 6 || (n == 9 || n == 12))
    then (elim (components 3 (n / 3) 0 0 0 cs) [
      | none ↦ none
      | some (r, g, b) ↦ some (u16 (r <<< shift), u16 (g <<< shift), u16 (b <<< shift))
    ])
    else none
