-- ===== src/Renderutil/Glyphs/Commands.antt =====
-- What the X server reads in a stream of glyphs, and the memory that it reads so.
use xcb_util.Prelude.{
  ℕ, zero, suc, ◌+◌, ◌-◌, ◌*◌, ◌/◌, ◌%◌, ◌^◌, ◌≤◌, ◌<◌, ◌≡◌, refl, sym, ap, List, [], ◌∷◌, ◌++◌,
  length, length-append, take, drop, false, ◌==◌, if◌then◌else◌, u8, Option, some, none, arith,
}
use mathlib.Core.List.{append_assoc, append-nil}
use xcb_util.Memory.{words, word_bytes, take-prefix}
use xcb_util.Renderutil.Glyphs.{header_bytes}

-- A command: the number of glyphs, the offsets and the bytes of the glyphs; or another set of glyphs.
pub data Command : Type 0 where
  glyphs : ℕ → ℕ → ℕ → List ℕ → Command
  glyphset : ℕ → Command

abbrev pub and_then : Command → Option (List Command) → Option (List Command)
and_then c none = none
and_then c (some cs) = some (c ∷ cs)

-- The memory that glyphs take, in whole words.
abbrev pub padded : ℕ → ℕ
padded n = (n + 3) / 4 * 4

-- The commands in a list of bytes, for glyphs of `size` bytes: the count 255 stands before a set of
-- glyphs. On fuel; every command takes some bytes.
unfoldable pub decode : ℕ → ℕ → List ℕ → Option (List Command)
decode size fuel [] = some []
decode size (suc fuel) (c ∷ p0 ∷ p1 ∷ p2 ∷ x0 ∷ x1 ∷ y0 ∷ y1 ∷ rest) =
    let set : Option (List Command) = elim (words (take 4 rest)) [
      | [] ↦ none
      | g ∷ gs ↦ and_then (glyphset g) (decode size fuel (drop 4 rest))
    ] in
    let text =
      and_then (glyphs c (x0 + x1 * 256) (y0 + y1 * 256) (take (c * size) rest))
        (decode size fuel (drop (padded (c * size)) rest)) in
    if c == 255 then set else text
decode size fuel bytes = none

-- The bytes of one command, with any bytes in the place of the padding.
pub record IsGlyphs (size count dx dy : ℕ) (bytes m : List ℕ) : Type 0 where
  pub few : count < 255
  pub small : (dx < 2 ^ 16) × (dy < 2 ^ 16)
  pub length_bytes : length bytes ≡ count * size
  pub padding : List ℕ
  pub length_padding : length padding ≡ padded (count * size) - count * size
  pub layout : m ≡ header_bytes count dx dy ++ (bytes ++ padding)

abbrev pub IsCommand : ℕ → Command → List ℕ → Type 0
IsCommand size (glyphs count dx dy bytes) m = IsGlyphs size count dx dy bytes m
IsCommand size (glyphset g) m = (g < 2 ^ 32) × (m ≡ header_bytes 255 0 0 ++ word_bytes (g ∷ []))

abbrev pub IsEncoded : ℕ → List Command → List ℕ → Type 0
IsEncoded size [] m = m ≡ []
IsEncoded size (c ∷ cs) m =
    (first : List ℕ) × (rest : List ℕ) × (m ≡ first ++ rest)
    × IsCommand size c first
    × IsEncoded size cs rest

pub IsEncoded-append :
    (size : ℕ) (cs : List Command) (c : Command) (m last : List ℕ)
    → IsEncoded size cs m
    → IsCommand size c last
    → IsEncoded size (cs ++ (c ∷ [])) (m ++ last)
IsEncoded-append size [] c m last e h = (last, [], rw e (sym (append-nil last)), h, refl)
IsEncoded-append size (d ∷ cs) c m last (first, rest, e, hd, more) h = (
  first,
  rest ++ last,
  rw e (append_assoc first rest last),
  hd,
  IsEncoded-append size cs c rest last more h,
)

drop-prefix : (n : ℕ) (xs ys : List ℕ) → length xs ≡ n → drop n (xs ++ ys) ≡ ys
drop-prefix zero [] ys h = refl
drop-prefix zero (x ∷ xs) ys h = absurd (omega arith)
drop-prefix (suc n) [] ys h = absurd (omega arith)
drop-prefix (suc n) (x ∷ xs) ys h = drop-prefix n xs ys (omega arith)

pub decode-IsEncoded :
    (size fuel : ℕ) (cs : List Command) (m : List ℕ)
    → IsEncoded size cs m
    → length m ≤ fuel
    → decode size fuel m ≡ some cs
unfolding decode word_bytes words
decode-IsEncoded size fuel [] m e h = rw e
decode-IsEncoded size zero (glyphset g ∷ cs) m (first, rest, e, (small, layout), more) h =
    absurd (omega (arith, ap length e, length-append first rest, ap length layout))
decode-IsEncoded size (suc fuel) (glyphset g ∷ cs) m (first, rest, e, (small, layout), more) h =
    let word : g % 256 + g / 256 % 256 * 256 + g / 2 ^ 16 % 256 * 2 ^ 16 + g / 2 ^ 24 % 256 * 2 ^ 24
        ≡ g =
      omega arith in
    let n : length rest ≤ fuel =
      omega (arith, ap length e, length-append first rest, ap length layout) in
    rw (e, layout, word, decode-IsEncoded size fuel cs rest more n)
decode-IsEncoded size zero (glyphs count dx dy bytes ∷ cs) m (first, rest, e, g, more) h =
    absurd (omega (arith, ap length e, length-append first rest, ap length g.layout))
decode-IsEncoded size (suc fuel) (glyphs count dx dy bytes ∷ cs) m (first, rest, e, g, more) h =
    let n : length rest ≤ fuel = omega (
      arith,
      ap length e,
      length-append first rest,
      ap length g.layout,
      length-append bytes g.padding,
    ) in
    let whole : length (bytes ++ g.padding) ≡ padded (count * size) =
      omega (arith, length-append bytes g.padding, g.length_bytes, g.length_padding) in
    let text : (count == 255) ≡ false = ground (arith, g.few) in
    let count_is : u8 count ≡ count = omega (arith, g.few) in
    let x : dx % 256 + dx / 256 % 256 * 256 ≡ dx = omega (arith, g.small) in
    let y : dy % 256 + dy / 256 % 256 * 256 ≡ dy = omega (arith, g.small) in
    let behind : drop (padded (count * size)) (bytes ++ (g.padding ++ rest)) ≡ rest =
      rw (← append_assoc bytes g.padding rest)
        (drop-prefix (padded (count * size)) (bytes ++ g.padding) rest whole) in
    rw (
      e,
      g.layout,
      append_assoc bytes g.padding rest,
      count_is,
      text,
      x,
      y,
      behind,
      take-prefix (count * size) bytes (g.padding ++ rest) g.length_bytes,
      decode-IsEncoded size fuel cs rest more n,
    )
