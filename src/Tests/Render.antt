-- ===== src/Tests/Render.antt =====
-- Streams of glyphs, formats of pictures and the cache of connections at concrete inputs. The server has
-- one screen that advertises the depths 1, 24 and 32, and makes pixmaps of the others.
use xcb_util.Prelude.{
  ℕ, zero, suc, ◌+◌, ◌≡◌, ◌≤◌, refl, List, [], ◌∷◌, length, map, ap, sym, subst, get_elem?, filter,
  first_match, All, true, false, ◌==◌, Option, some, none, pos, done, fault, arith,
}
use xcb_util.Request.{Request}
use xcb_util.Image.Create.{Malloc}
use xcb_util.Renderutil.Formats.{
  FormatInfo, PictFormats, format_depth, find_format, find_visual_format, find_standard_format,
  direct,
}
use xcb_util.Renderutil.Formats.Search.{fields, agree, concat, find_format-eq-filter}
use xcb_util.Renderutil.Formats.Standard.{is_standard, find_standard_format-eq-first_match}
use xcb_util.Renderutil.Glyphs.{Stream}
use xcb_util.Renderutil.Glyphs.Build.{IsRealloc}
use xcb_util.Renderutil.Glyphs.Calls.{
  byte, half, put, change, call, commands, final_size, glyph_count, change_count, Drawing, text,
  IsDrawn, Call,
}
use xcb_util.Renderutil.Glyphs.Text.{text-IsDrawn}
use xcb_util.Renderutil.Glyphs.Overrun.{put-overrun}
use xcb_util.Renderutil.Cache.{Node, Connections, Peer, Query, disconnect, find_display_from}
use xcb_util.Renderutil.Cache.Depths.{Server, has_required_depths}
use xcb_util.Renderutil.Cache.Depths.Required.{
  every, supported, render_depths, IsDepth, has_required_depths-eq-every,
}
use xcb_util.Renderutil.Cache.Table.{version, formats, leave, run, answers, IsFresh}
use xcb_util.Renderutil.Cache.Table.Keys.{some_inj}
use xcb_util.Renderutil.Cache.Table.Leave.{find_display-race}
use xcb_util.Renderutil.Cache.Table.Steps.{no_connections, empty_table, run-eq-answers}

abbrev format : ℕ → FormatInfo
format depth = direct depth 16 0xff 8 0xff 0 0xff 24 0xff

abbrev reply : PictFormats
reply = record {
  formats = format 24 ∷ format 32 ∷ format 24 ∷ [];
  screens = ((record { visual = 5; format = 1 } ∷ []) ∷ []) ∷ [];
  num_subpixel = 4;
}

find_format-eq-filter_example :
    (find_format (some reply) format_depth (format 24) (pos 1)
      ≡ get_elem?
          (filter (λ f. agree format_depth (fields (format 24)) (fields f)) reply.formats)
          1)
    × (find_visual_format (some reply) 5
        ≡ first_match (λ v. v.visual == 5) (concat (map concat reply.screens)))
find_format-eq-filter_example = find_format-eq-filter reply format_depth 5 (format 24) (pos 1)

find_standard_format-eq-first_match_example :
    find_standard_format (some reply) 0 ≡ first_match (is_standard 0) reply.formats
find_standard_format-eq-first_match_example = find_standard_format-eq-first_match reply 0

-- Memory of zeros, that grows by zeros.
unfoldable zeros : ℕ → List ℕ
zeros zero = []
zeros (suc n) = 0 ∷ zeros n

length-zeros : (n : ℕ) → length (zeros n) ≡ n
unfolding zeros
length-zeros zero = refl
length-zeros (suc n) = ap suc (length-zeros n)

abbrev heap : Malloc
heap = record { header = true; storage = λ n. some (zeros n) }

abbrev no_realloc : List ℕ → ℕ → Option (List ℕ)
no_realloc m n = none

no_realloc-IsRealloc : IsRealloc no_realloc
no_realloc-IsRealloc m n m' h e = absurd (cc)

abbrev drawing : Drawing
drawing = record {
  checked = false;
  op = 3;
  src = 100;
  dst = 200;
  mask_format = 0;
  src_x = 1;
  src_y = 2;
}

abbrev calls : List Call
calls =
    put byte 1 2 3 (65 ∷ 66 ∷ 67 ∷ [])
    ∷ change 9
    ∷ put half 0 0 1 (68 ∷ [])
    ∷ put byte 4 5 1 (69 ∷ [])
    ∷ []

text-IsDrawn_example :
    (r : Request) × (text heap no_realloc drawing 7 5 1 calls ≡ done r)
    × IsDrawn drawing 7 (final_size 0 calls) (commands 0 7 calls) r
unfolding glyph_count change_count
text-IsDrawn_example =
    text-IsDrawn heap no_realloc drawing 7 5 1 calls (zeros 72) no_realloc-IsRealloc refl refl
      (length-zeros 72) (omega arith)
      (
        (omega arith, (omega arith, omega arith)),
        (
          omega arith,
          (
            (omega arith, (omega arith, omega arith)),
            ((omega arith, (omega arith, omega arith)), tt),
          ),
        ),
      )
      (omega arith) (omega arith)

-- A stream that nothing was declared for, and 60 glyphs.
abbrev stream : Stream
stream = record {
  glyph_size = 0;
  initial_glyphset = 7;
  current_glyphset = 7;
  stream_len = 32;
  stream = zeros 32;
  current = 0;
}

put-overrun_example : call no_realloc (put byte 0 0 60 (zeros 60)) stream ≡ fault
put-overrun_example =
    put-overrun no_realloc no_realloc-IsRealloc byte 0 0 60 (zeros 60) stream
      (sym (length-zeros 32)) refl refl (omega arith)

abbrev server : Server
server = record {
  screens = record { root = 40; depths = 1 ∷ 24 ∷ 32 ∷ [] } ∷ [];
  generate_id = 77;
  attempt = λ id root d. record { create_sequence = d; free_sequence = d; create_error = false };
}

depths_valid : All (λ screen. All IsDepth screen.depths) server.screens
depths_valid = (
  ((omega arith, omega arith), ((omega arith, omega arith), ((omega arith, omega arith), tt))),
  tt,
)

has_required_depths-eq-every_example :
    has_required_depths server
    ≡ done (every (λ screen. every (supported server screen) render_depths) server.screens)
has_required_depths-eq-every_example = has_required_depths-eq-every server depths_valid

abbrev peer : Peer
peer = record {
  server = server;
  version_reply = some (record { major_version = 0; minor_version = 10 });
  formats_reply = some reply;
}

-- An address above all that are in use.
unfoldable above : List ℕ → ℕ
above [] = 1
above (p ∷ ps) = p + above ps + 1

above-IsFresh : (n : ℕ) (used : List ℕ) → above used ≤ n → IsFresh n used
unfolding above
above-IsFresh n [] h = tt
above-IsFresh n (p ∷ ps) h = (ground (arith, h), above-IsFresh n ps (omega (arith, h)))

abbrev query : ℕ → Query
query c = record { c = c; memory = some above; peer = peer }

fresh :
    (malloc : List ℕ → ℕ) (used : List ℕ) → some above ≡ some malloc → IsFresh (malloc used) used
fresh malloc used e =
    subst (λ f. IsFresh (f used) used) (some_inj e) (above-IsFresh (above used) used (omega arith))

run-eq-answers_example :
    run (version (query 3) ∷ formats (query 4) ∷ leave 3 ∷ version (query 3) ∷ []) no_connections
    ≡ done (
        answers
          (version (query 3) ∷ formats (query 4) ∷ leave 3 ∷ version (query 3) ∷ [])
          empty_table)
run-eq-answers_example =
    run-eq-answers (version (query 3) ∷ formats (query 4) ∷ leave 3 ∷ version (query 3) ∷ [])
      ((depths_valid, fresh), ((depths_valid, fresh), (tt, ((depths_valid, fresh), tt))))

abbrev node : Node
node = record { at = 1; c = 3; version = none; formats = none }

abbrev one_connection : Connections
one_connection = record { nodes = node ∷ []; cur = some 1 }

find_display-race_example :
    find_display_from (some 1) (query 4) (disconnect 3 one_connection).0 ≡ fault
unfolding first_match
find_display-race_example =
    find_display-race one_connection (query 4) 1 node
      (record { by_address = (tt, tt); by_connection = (tt, tt); live = (node, refl) }) refl refl
