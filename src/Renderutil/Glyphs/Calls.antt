-- ===== src/Renderutil/Glyphs/Calls.antt =====
-- A program's calls on a stream of glyphs, from its creation to the request, and the text that the
-- server is then asked to draw.
use xcb_util.Prelude.{
  ℕ, zero, suc, ◌+◌, ◌*◌, ◌^◌, ◌≤◌, ◌<◌, ◌≡◌, List, [], ◌∷◌, ◌++◌, length, take, Bool, ◌&&◌, ◌||◌,
  leb, ◌==◌, if◌then◌else◌, Option, some, Outcome, done, ◌>>=◌,
}
use xcb_util.Memory.{word_bytes}
use xcb_util.Request.{Request, composite_glyphs, no_operation}
use xcb_util.Image.Create.{Malloc}
use xcb_util.Renderutil.Glyphs.{
  Stream, composite_text_stream, half_bytes, glyphs_8, glyphs_16, glyphs_32, change_glyphset,
  composite_text,
}
use xcb_util.Renderutil.Glyphs.Commands.{Command, glyphs, glyphset, decode}

-- The three widths of glyphs.
pub data Width : Type 0 where
  byte : Width
  half : Width
  word : Width

abbrev pub width : Width → ℕ
width byte = 1
width half = 2
width word = 4

abbrev pub limit : Width → ℕ
limit byte = 252
limit half = 254
limit word = 254

abbrev pub memory_of : Width → List ℕ → List ℕ
memory_of byte gs = gs
memory_of half gs = half_bytes gs
memory_of word gs = word_bytes gs

-- A call: glyphs with the offsets and the count, or a change of the set.
pub data Call : Type 0 where
  put : Width → ℕ → ℕ → ℕ → List ℕ → Call
  change : ℕ → Call

module _ (realloc : List ℕ → ℕ → Option (List ℕ)) where
  abbrev pub call : Call → Stream → Outcome Stream
  call (put byte dx dy count gs) = glyphs_8 realloc dx dy count gs
  call (put half dx dy count gs) = glyphs_16 realloc dx dy count gs
  call (put word dx dy count gs) = glyphs_32 realloc dx dy count gs
  call (change g) = change_glyphset realloc g

  unfoldable pub run : List Call → Stream → Outcome Stream
  run [] s = done s
  run (c ∷ cs) s = do s' ← call c s; run cs s'

-- What the calls mean, without a stream: glyphs are taken up to the limit of their count, and only of the
-- width of the first glyphs; a change to the set in use is left out.
abbrev pub accepted : ℕ → Width → ℕ → Bool
accepted size w count = leb count (limit w) && (size == width w || size == 0)

abbrev pub new_commands : ℕ → ℕ → Call → List Command
new_commands size set (put w dx dy count gs) =
    if accepted size w count
    then glyphs count dx dy (take (count * width w) (memory_of w gs)) ∷ []
    else []
new_commands size set (change g) = if g == set then [] else glyphset g ∷ []

abbrev pub next_size : ℕ → Call → ℕ
next_size size (put w dx dy count gs) = if accepted size w count then width w else size
next_size size (change g) = size

abbrev pub next_set : ℕ → Call → ℕ
next_set set (put w dx dy count gs) = set
next_set set (change g) = g

unfoldable pub commands : ℕ → ℕ → List Call → List Command
commands size set [] = []
commands size set (c ∷ cs) =
    new_commands size set c ++ commands (next_size size c) (next_set set c) cs

unfoldable pub final_size : ℕ → List Call → ℕ
final_size size [] = size
final_size size (c ∷ cs) = final_size (next_size size c) cs

-- What is to be declared for the calls: a text of no glyphs counts as one glyph.
unfoldable pub glyph_count : List Call → ℕ
glyph_count [] = 0
glyph_count (put w dx dy zero gs ∷ cs) = 1 + glyph_count cs
glyph_count (put w dx dy (suc n) gs ∷ cs) = suc n + glyph_count cs
glyph_count (change g ∷ cs) = glyph_count cs

unfoldable pub change_count : List Call → ℕ
change_count [] = 0
change_count (put w dx dy count gs ∷ cs) = change_count cs
change_count (change g ∷ cs) = 1 + change_count cs

-- There are as many glyphs as the count says, and the numbers have the widths of their types.
abbrev pub IsCall : Call → Type 0
IsCall (put w dx dy count gs) = (count ≤ length gs) × ((dx < 2 ^ 16) × (dy < 2 ^ 16))
IsCall (change g) = g < 2 ^ 32

-- The arguments of `xcb_render_util_composite_text`, and whether its variant is the checked one.
pub record Drawing : Type 0 where
  pub checked : Bool
  pub op : ℕ
  pub src : ℕ
  pub dst : ℕ
  pub mask_format : ℕ
  pub src_x : ℕ
  pub src_y : ℕ

abbrev pub draw : Drawing → Stream → Request
draw d = composite_text d.checked d.op d.src d.dst d.mask_format d.src_x d.src_y

-- A program's text: a stream is created, the calls are made, and the request is sent.
unfoldable pub text :
    Malloc → (List ℕ → ℕ → Option (List ℕ)) → Drawing → ℕ → ℕ → ℕ → List Call → Outcome Request
text heap realloc d set total_glyphs total_changes calls = do
  s ← composite_text_stream heap set total_glyphs total_changes
  s' ← run realloc calls s
  done (draw d s')

-- The request for glyphs of one size, with the first `n` bytes of the memory, which the server decodes to
-- these commands. Without glyphs there is nothing to draw.
abbrev pub IsDrawn : Drawing → ℕ → ℕ → List Command → Request → Type 0
IsDrawn d set zero cs r = r ≡ no_operation d.checked
IsDrawn d set (suc size) cs r =
    (n : ℕ) × (m : List ℕ) × (r
      ≡ composite_glyphs d.checked (8 * suc size) d.op d.src d.dst d.mask_format set d.src_x d.src_y
          n m)
    × (n ≤ length m)
    × (decode (suc size) n (take n m) ≡ some cs)
