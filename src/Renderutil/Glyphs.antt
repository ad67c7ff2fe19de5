-- ===== src/Renderutil/Glyphs.antt =====
-- renderutil/glyph.c: a stream of glyphs for the requests `CompositeGlyphs`, built in memory.
pub mod Commands
pub mod Write
pub mod Calls
pub mod Build
pub mod Text
pub mod Overrun
use xcb_util.Prelude.{
  ℕ, ◌+◌, ◌*◌, ◌/◌, ◌%◌, ◌^◌, List, [], ◌∷◌, ◌++◌, Bool, true, false, ◌&&◌, ◌||◌, not, ltb, ◌==◌,
  if◌then◌else◌, u8, mul32, ◌>>>◌, Option, some, none, Outcome, done, fault, ◌>>=◌, assert,
}
use xcb_util.Memory.{word_bytes, copy_to}
use xcb_util.Request.{Request, composite_glyphs, no_operation}
use xcb_util.Image.Create.{Malloc}

-- `xcb_render_util_composite_text_stream_t`: `current` is counted in bytes from the start of the
-- memory. A null pointer is memory of no bytes.
pub record Stream : Type 0 where
  pub glyph_size : ℕ
  pub initial_glyphset : ℕ
  pub current_glyphset : ℕ
  pub stream_len : ℕ
  pub stream : List ℕ
  pub current : ℕ

-- The size that is allocated: in 32 bits but for the factor `sizeof(uint32_t)`.
abbrev pub stream_size : ℕ → ℕ → ℕ
stream_size total_glyphs total_glyphset_changes =
    if not (total_glyphs == 0) || not (total_glyphset_changes == 0)
    then mul32 total_glyphs 3 * 4 + mul32 total_glyphset_changes 3 * 4
    else 32

-- `xcb_render_util_composite_text_stream`: the structure is written to without a look at its pointer.
unfoldable pub composite_text_stream : Malloc → ℕ → ℕ → ℕ → Outcome Stream
composite_text_stream heap initial_glyphset total_glyphs total_glyphset_changes =
    let size = stream_size total_glyphs total_glyphset_changes in
    if heap.header
    then done (record {
      glyph_size = 0;
      initial_glyphset = initial_glyphset;
      current_glyphset = initial_glyphset;
      stream_len = size;
      stream = elim (heap.storage size) [ none ↦ [] | some m ↦ m ];
      current = 0;
    })
    else fault

-- `_glyph_header_t` in memory: the count, three empty bytes, and the offsets. The host is taken to
-- store the low byte first.
abbrev pub header_bytes : ℕ → ℕ → ℕ → List ℕ
header_bytes count dx dy =
    u8 count ∷ 0 ∷ 0 ∷ 0 ∷ (dx % 256) ∷ (dx / 256 % 256) ∷ (dy % 256) ∷ (dy / 256 % 256) ∷ []

-- An array of `uint16_t` in memory.
unfoldable pub half_bytes : List ℕ → List ℕ
half_bytes [] = []
half_bytes (g ∷ gs) = (g % 256) ∷ (g / 256 % 256) ∷ half_bytes gs

-- `realloc` of some memory to a size; a null pointer where there is not enough.
module _ (realloc : List ℕ → ℕ → Option (List ℕ)) where
  -- `_grow_stream`
  unfoldable pub grow : Stream → ℕ → Stream
  grow s increase =
      let grown : Stream = elim (realloc s.stream (2 * s.stream_len)) [
        | none ↦ s
        | some m ↦ record s {
          stream_len = s.stream_len * 2;
          stream = m;
          current = (s.current >>> 2) * 4;
        }
      ] in
      if ltb s.stream_len (s.current + increase) then grown else s

  -- The common body of the three functions for glyphs of `size` bytes: the limit of the count, what
  -- `_grow_stream` is asked for, by how many words `current` goes on, and the memory at `glyphs`.
  abbrev pub put_glyphs : ℕ → ℕ → ℕ → ℕ → ℕ → ℕ → ℕ → List ℕ → Stream → Outcome Stream
  put_glyphs limit size increase words dx dy count glyphs s =
      let s1 = grow (record s { glyph_size = size }) increase in
      let put : Outcome Stream = (do
        m ← copy_to s1.current 8 (header_bytes count dx dy) s1.stream
        m' ← copy_to (s1.current + 8) (count * size) glyphs m
        done (record s1 { stream = m'; current = s1.current + 8 + words * 4 })) in
      if ltb limit count
      then done s
      else if not (s.glyph_size == size) && not (s.glyph_size == 0)
      then done s
      else put

  -- The offsets are 16-bit words. `count` passed as `uint8_t` is `count` itself below the limit.
  unfoldable pub glyphs_8 : ℕ → ℕ → ℕ → List ℕ → Stream → Outcome Stream
  glyphs_8 dx dy count glyphs s =
      put_glyphs 252 1 (8 + count + 3) ((count + 3) >>> 2) dx dy count glyphs s

  unfoldable pub glyphs_16 : ℕ → ℕ → ℕ → List ℕ → Stream → Outcome Stream
  glyphs_16 dx dy count glyphs s =
      put_glyphs 254 2 (8 + count * 2 + 1) ((count * 2 + 3) >>> 2) dx dy count (half_bytes glyphs) s

  unfoldable pub glyphs_32 : ℕ → ℕ → ℕ → List ℕ → Stream → Outcome Stream
  glyphs_32 dx dy count glyphs s =
      put_glyphs 254 4 (8 + count * 4 + 1) count dx dy count (word_bytes glyphs) s

  -- `xcb_render_util_change_glyphset`
  unfoldable pub change_glyphset : ℕ → Stream → Outcome Stream
  change_glyphset glyphset s =
      let s1 = grow s 12 in
      let put : Outcome Stream = (do
        m ← copy_to s1.current 8 (header_bytes 255 0 0) s1.stream
        m' ← copy_to (s1.current + 8) 4 (word_bytes (glyphset ∷ [])) m
        done (record s1 {
          stream = m';
          current = s1.current + 8 + 4;
          current_glyphset = glyphset;
        })) in
      if glyphset == s.current_glyphset then done s else put

-- `xcb_render_util_composite_text` and its checked variant. The length is cut to a `uint32_t`.
unfoldable pub composite_text : Bool → ℕ → ℕ → ℕ → ℕ → ℕ → ℕ → Stream → Request
composite_text checked op src dst mask_format src_x src_y s =
    let request = λ (bits : ℕ).
      composite_glyphs checked bits op src dst mask_format s.initial_glyphset src_x src_y
        (s.current % 2 ^ 32) s.stream in
    if s.glyph_size == 1
    then request 8
    else if s.glyph_size == 2
    then request 16
    else if s.glyph_size == 4
    then request 32
    else no_operation checked
