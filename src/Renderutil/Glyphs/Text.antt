-- ===== src/Renderutil/Glyphs/Text.antt =====
-- A text that is built and drawn within what was declared for it.
use xcb_util.Prelude.{
  ℕ, zero, suc, ◌+◌, ◌-◌, ◌*◌, ◌%◌, ◌^◌, ◌≤◌, ◌<◌, ◌≡◌, ◌⊎◌, inl, inr, refl, sym, ap, ap₂, ◌∙◌,
  Bool-cases, List, [], ◌∷◌, ◌++◌, length, take, true, Option, some, Outcome, done, ◌>>=◌, All,
  arith,
}
use mathlib.Core.List.{append_assoc, append-nil}
use xcb_util.Memory.{length-take}
use xcb_util.Request.{Request}
use xcb_util.Image.Create.{Malloc}
use xcb_util.Renderutil.Glyphs.{Stream, stream_size, composite_text_stream, composite_text}
use xcb_util.Renderutil.Glyphs.Commands.{Command, decode, decode-IsEncoded}
use xcb_util.Renderutil.Glyphs.Build.{IsRealloc, IsStream}
use xcb_util.Renderutil.Glyphs.Calls.{
  Width, byte, half, word, width, Call, put, change, run, accepted, new_commands, next_size,
  next_set, commands, final_size, glyph_count, change_count, IsCall, Drawing, draw, text, IsDrawn,
}
use xcb_util.Renderutil.Glyphs.Build.Steps.{cost, call-IsStep}

cost_lem :
    (c : Call) (cs : List Call)
    → cost c + (12 * glyph_count cs + 12 * change_count cs)
      ≡ 12 * glyph_count (c ∷ cs) + 12 * change_count (c ∷ cs)
unfolding glyph_count change_count
cost_lem (put w dx dy zero gs) cs = omega arith
cost_lem (put w dx dy (suc n) gs) cs = omega arith
cost_lem (change g) cs = omega arith

-- All calls return, and the stream then holds their commands.
record IsRun (set : ℕ × ℕ) (cs : List Command) (size : ℕ) (result : Outcome Stream) : Type 0 where
  after : Stream
  returned : result ≡ done after
  size_is : after.glyph_size ≡ size
  stream : IsStream set cs 0 after

module _ (realloc : List ℕ → ℕ → Option (List ℕ)) (sound : IsRealloc realloc) where
  run-IsRun :
      (set0 : ℕ × ℕ) (calls : List Call) (cs : List Command) (room : ℕ) (s : Stream)
      → IsStream set0 cs room s
      → All IsCall calls
      → 12 * glyph_count calls + 12 * change_count calls ≤ room
      → IsRun set0
          (cs ++ commands s.glyph_size s.current_glyphset calls)
          (final_size s.glyph_size calls)
          (run realloc calls s)
  unfolding run commands final_size glyph_count change_count
  run-IsRun set0 [] cs room s h all fits = record {
    after = s;
    returned = refl;
    size_is = refl;
    stream = rw (append-nil cs) (record {
      initial = h.initial;
      within = omega (arith, h.within);
      aligned = h.aligned;
      same_length = h.same_length;
      enough = omega (arith, h.enough);
      encoded = h.encoded;
    });
  }
  run-IsRun set0 (c ∷ calls) cs room s h all fits =
      let sum = cost_lem c calls in
      let step = call-IsStep set0 cs room s h realloc sound c all.0 (omega (arith, sum, fits)) in
      let rest =
        run-IsRun set0 calls (cs ++ new_commands s.glyph_size s.current_glyphset c) (room - cost c)
          step.after step.stream all.1 (omega (arith, sum, fits)) in
      let new = new_commands s.glyph_size s.current_glyphset c in
      let e : (cs ++ new) ++ commands step.after.glyph_size step.after.current_glyphset calls
          ≡ cs
            ++ (new ++ commands (next_size s.glyph_size c) (next_set s.current_glyphset c) calls) =
        append_assoc cs new (commands step.after.glyph_size step.after.current_glyphset calls)
        ∙ ap₂ (λ a b. cs ++ (new ++ commands a b calls)) step.size_is step.set_is in
      record {
        after = rest.after;
        returned = ap (λ r. do s' ← r; run realloc calls s') step.returned ∙ rest.returned;
        size_is = rest.size_is ∙ ap (λ n. final_size n calls) step.size_is;
        stream = rw (← e) rest.stream;
      }

abbrev IsSize : ℕ → Type 0
IsSize n = (n ≡ 0) ⊎ ((w : Width) × (n ≡ width w))

next_size-IsSize : (n : ℕ) (c : Call) → IsSize n → IsSize (next_size n c)
next_size-IsSize n (put w dx dy count gs) h = elim (Bool-cases (accepted n w count)) [
  | inl taken ↦ rw taken (inr (w, refl))
  | inr refused ↦ rw refused h
]
next_size-IsSize n (change g) h = h

final_size-IsSize : (n : ℕ) (cs : List Call) → IsSize n → IsSize (final_size n cs)
unfolding final_size
final_size-IsSize n [] h = h
final_size-IsSize n (c ∷ cs) h = final_size-IsSize (next_size n c) cs (next_size-IsSize n c h)

decode-IsStream :
    (set : ℕ × ℕ) (cs : List Command) (size : ℕ) (s : Stream)
    → IsStream set cs 0 s
    → s.glyph_size ≡ size
    → (s.current ≤ length s.stream) × (decode size s.current (take s.current s.stream) ≡ some cs)
decode-IsStream set cs size s h known =
    let n : s.current ≤ length s.stream = omega (arith, h.enough) in
    (
      n,
      decode-IsEncoded size s.current cs (take s.current s.stream) (h.encoded size (inr known))
          (omega (arith, length-take s.current s.stream n)),
    )

draw-IsDrawn :
    (d : Drawing) (set top : ℕ) (cs : List Command) (size : ℕ) (s : Stream)
    → top < 2 ^ 32
    → IsSize size
    → s.glyph_size ≡ size
    → IsStream (set, top) cs 0 s
    → IsDrawn d set size cs (draw d s)
unfolding composite_text
draw-IsDrawn d set top cs size s small (inl z) e h = rw (e, z) refl
draw-IsDrawn d set top cs size s small (inr (byte, z)) e h =
    let (n, read) = decode-IsStream (set, top) cs 1 s h (e ∙ z) in
    let cut : s.current % 2 ^ 32 ≡ s.current = omega (arith, h.within, small) in
    rw (e, z, h.initial, cut) (s.current, s.stream, refl, n, read)
draw-IsDrawn d set top cs size s small (inr (half, z)) e h =
    let (n, read) = decode-IsStream (set, top) cs 2 s h (e ∙ z) in
    let cut : s.current % 2 ^ 32 ≡ s.current = omega (arith, h.within, small) in
    rw (e, z, h.initial, cut) (s.current, s.stream, refl, n, read)
draw-IsDrawn d set top cs size s small (inr (word, z)) e h =
    let (n, read) = decode-IsStream (set, top) cs 4 s h (e ∙ z) in
    let cut : s.current % 2 ^ 32 ≡ s.current = omega (arith, h.within, small) in
    rw (e, z, h.initial, cut) (s.current, s.stream, refl, n, read)

stream_size_lem :
    (total_glyphs total_changes : ℕ)
    → total_glyphs * 3 < 2 ^ 32
    → total_changes * 3 < 2 ^ 32
    → 12 * total_glyphs + 12 * total_changes ≤ stream_size total_glyphs total_changes
stream_size_lem g c h h' = ground arith

-- Declared for so many glyphs and changes, the memory has room for all calls within them.
-- A stream of glyphs that is created for a number of glyphs and of changes of the set, and then used within
-- them, is built without an access outside its memory, and the request that is sent has the commands which
-- the calls mean: the server decodes from its bytes the glyphs of each call up to the limit of its width, those
-- of another width left out, and the sets where they change. Without glyphs no request for them is sent. The
-- memory is there, a text of no glyphs counts as one glyph, `realloc` keeps what is in memory, the arrays are
-- as long as their counts say, and twelve bytes for each glyph and each change that were declared fit 32
-- bits. Numbers of more than a byte are read low byte first, the order in which the code leaves them.
pub text-IsDrawn :
    (heap : Malloc) (realloc : List ℕ → ℕ → Option (List ℕ)) (d : Drawing)
    (set total_glyphs total_changes : ℕ) (calls : List Call) (m : List ℕ)
    → IsRealloc realloc
    → heap.header ≡ true
    → heap.storage (stream_size total_glyphs total_changes) ≡ some m
    → length m ≡ stream_size total_glyphs total_changes
    → 12 * total_glyphs + 12 * total_changes < 2 ^ 32
    → All IsCall calls
    → glyph_count calls ≤ total_glyphs
    → change_count calls ≤ total_changes
    → (r : Request) × (text heap realloc d set total_glyphs total_changes calls ≡ done r)
      × IsDrawn d set (final_size 0 calls) (commands 0 set calls) r
unfolding text composite_text_stream
text-IsDrawn heap realloc d set total_glyphs total_changes calls m sound header storage whole small
      all few few' =
    let start : Stream = record {
      glyph_size = 0;
      initial_glyphset = set;
      current_glyphset = set;
      stream_len = stream_size total_glyphs total_changes;
      stream = m;
      current = 0;
    } in
    let total = 12 * total_glyphs + 12 * total_changes in
    let ready : IsStream (set, total) [] total start = record {
      initial = refl;
      within = omega arith;
      aligned = refl;
      same_length = sym whole;
      enough = omega (
        arith,
        whole,
        stream_size_lem total_glyphs total_changes (omega (arith, small)) (omega (arith, small)),
      );
      encoded = λ w k. refl;
    } in
    let h =
      run-IsRun realloc sound (set, total) calls [] total start ready all
        (omega (arith, few, few')) in
    (
      draw d h.after,
      rw (text, composite_text_stream, header, storage, h.returned) refl,
      draw-IsDrawn d set total (commands 0 set calls) (final_size 0 calls) h.after small
          (final_size-IsSize 0 calls (inl refl)) h.size_is h.stream,
    )
