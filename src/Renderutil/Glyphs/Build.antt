-- ===== src/Renderutil/Glyphs/Build.antt =====
-- A stream of glyphs that is built within what was declared for it.
pub mod Steps
use xcb_util.Prelude.{
  ℕ, zero, suc, ◌+◌, ◌-◌, ◌*◌, ◌/◌, ◌%◌, ◌^◌, ◌≤◌, ◌<◌, ◌≡◌, ◌⊎◌, inl, inr, refl, sym, ap, ◌∙◌,
  Bool-cases, Option-cases, List, [], ◌∷◌, ◌++◌, length, take, Bool, true, false, ◌&&◌, not, ltb,
  ◌==◌, if◌then◌else◌, ◌>>>◌, Option, some, none, Outcome, done, ◌>>=◌, arith,
}
use xcb_util.Memory.{word_bytes, copy_to, length-take}
use xcb_util.Renderutil.Glyphs.{Stream, header_bytes, grow, put_glyphs, change_glyphset}
use xcb_util.Renderutil.Glyphs.Commands.{
  Command, glyphs, glyphset, padded, IsGlyphs, IsEncoded, IsEncoded-append,
}
use xcb_util.Renderutil.Glyphs.Write.{put_lem}

-- `realloc` to a larger size: the new memory has the size and begins with the old.
abbrev pub IsRealloc : (List ℕ → ℕ → Option (List ℕ)) → Type 0
IsRealloc realloc =
    (m : List ℕ) (n : ℕ) (m' : List ℕ)
    → length m ≤ n
    → realloc m n ≡ some m'
    → (length m' ≡ n) × (take (length m) m' ≡ m)

-- The stream holds these commands, and has room for so many bytes behind them, which end within the second
-- number that it starts with; the first is its set. As long as no glyphs are
-- in it, it can be read with any size of glyphs.
pub record IsStream (start : ℕ × ℕ) (cs : List Command) (room : ℕ) (s : Stream) : Type 0 where
  pub initial : s.initial_glyphset ≡ start.0
  pub aligned : s.current % 4 ≡ 0
  pub same_length : s.stream_len ≡ length s.stream
  pub within : s.current + room ≤ start.1
  pub enough : s.current + room ≤ length s.stream
  pub encoded :
      (w : ℕ) → (s.glyph_size ≡ 0) ⊎ (s.glyph_size ≡ w) → IsEncoded w cs (take s.current s.stream)

length-zero : (m : List ℕ) → length m ≡ 0 → m ≡ []
length-zero [] h = refl
length-zero (x ∷ m) h = absurd (omega arith)

same_size :
    (size new w : ℕ)
    → 0 < new
    → (size ≡ 0) ⊎ (size ≡ new)
    → (new ≡ 0) ⊎ (new ≡ w)
    → (size ≡ 0) ⊎ (size ≡ w)
same_size size new w positive (inl z) k = inl z
same_size size new w positive (inr e) k = inr (omega (arith, positive, e, k))

take-take : (a b : ℕ) (m : List ℕ) → a ≤ b → take a (take b m) ≡ take a m
take-take zero b m h = refl
take-take (suc a) zero m h = absurd (omega arith)
take-take (suc a) (suc b) [] h = refl
take-take (suc a) (suc b) (x ∷ m) h = ap (λ l. x ∷ l) (take-take a b m (omega arith))

-- Growing keeps what is in the stream, whether there is new memory or not.
record IsGrown (set0 : ℕ × ℕ) (cs : List Command) (room : ℕ) (s s' : Stream) : Type 0 where
  same_size : s'.glyph_size ≡ s.glyph_size
  same_glyphset : s'.current_glyphset ≡ s.current_glyphset
  still : IsStream set0 cs room s'

-- A call that appends one command, or none.
pub record IsStep (set0 : ℕ × ℕ) (cs new : List Command) (room size set : ℕ)
    (result : Outcome Stream) : Type 0 where
  pub after : Stream
  pub returned : result ≡ done after
  pub size_is : after.glyph_size ≡ size
  pub set_is : after.current_glyphset ≡ set
  pub stream : IsStream set0 (cs ++ new) room after

module _ (realloc : List ℕ → ℕ → Option (List ℕ)) (sound : IsRealloc realloc) where
  grow-IsGrown :
      (set0 : ℕ × ℕ) (cs : List Command) (room increase : ℕ) (s : Stream)
      → IsStream set0 cs room s
      → IsGrown set0 cs room s (grow realloc s increase)
  unfolding grow
  grow-IsGrown set0 cs room increase s h =
      elim (Bool-cases (ltb s.stream_len (s.current + increase))) [
        | inr q ↦ rw (grow, q) (record { same_size = refl; same_glyphset = refl; still = h })
        | inl q ↦ elim (Option-cases (realloc s.stream (2 * s.stream_len))) [
          | inl e ↦ rw (grow, q, e) (record { same_size = refl; same_glyphset = refl; still = h })
          | inr (m, e) ↦
              let (long, kept) =
                sound s.stream (2 * s.stream_len) m (omega (arith, h.same_length)) e in
              let at : s.current / 4 * 4 ≡ s.current = omega (arith, h.aligned) in
              let same : take s.current m ≡ take s.current s.stream =
                sym (take-take s.current (length s.stream) m (omega (arith, h.enough)))
                ∙ ap (take s.current) kept in
              rw (grow, q, e, at)
                (record {
                  same_size = refl;
                  same_glyphset = refl;
                  still = record {
                    initial = h.initial;
                    within = omega (arith, h.within);
                    aligned = h.aligned;
                    same_length = omega (arith, long);
                    enough = omega (arith, long, h.enough, h.same_length);
                    encoded = λ w known. rw same (h.encoded w known);
                  };
                })
        ]
      ]

  -- Glyphs that are not refused, of `size` bytes each.
  module _ (set0 : ℕ × ℕ) (cs : List Command) (room : ℕ) (s : Stream)
      (h : IsStream set0 cs room s) where
    put-IsStep :
        (limit size increase words cost dx dy count : ℕ) (bytes : List ℕ)
        → 0 < size
        → (s.glyph_size ≡ 0) ⊎ (s.glyph_size ≡ size)
        → count ≤ limit
        → limit < 255
        → (dx < 2 ^ 16) × (dy < 2 ^ 16)
        → count * size ≤ length bytes
        → words * 4 ≡ padded (count * size)
        → 8 + words * 4 ≤ cost
        → cost ≤ room
        → IsStep set0 cs
            (glyphs count dx dy (take (count * size) bytes) ∷ [])
            (room - cost)
            size
            s.current_glyphset
            (put_glyphs realloc limit size increase words dx dy count bytes s)
    put-IsStep limit size increase words cost dx dy count bytes positive known few below offsets
          enough whole fits left =
        let sized : Stream = record s { glyph_size = size } in
        let start : IsStream set0 cs room sized = record {
          initial = h.initial;
          within = omega (arith, h.within);
          aligned = h.aligned;
          same_length = h.same_length;
          enough = h.enough;
          encoded = λ w k. h.encoded w (same_size s.glyph_size size w positive known k);
        } in
        let grown = grow-IsGrown set0 cs room increase sized start in
        let s1 = grow realloc sized increase in
        let put =
          put_lem s1.current (count * size) (words * 4) (header_bytes count dx dy) bytes s1.stream
            refl (omega (arith, whole)) enough (omega (arith, grown.still.enough)) in
        let over : ltb limit count ≡ false = ground (arith, few) in
        let kept : (not (s.glyph_size == size) && not (s.glyph_size == 0)) ≡ false =
          ground (arith, known) in
        record {
          after = record s1 { stream = put.two.memory; current = s1.current + 8 + words * 4 };
          returned = rw (over, kept, put.one.result, put.two.result);
          size_is = grown.same_size;
          set_is = grown.same_glyphset;
          stream = record {
            initial = grown.still.initial;
            within = omega (arith, grown.still.within);
            aligned = omega (arith, grown.still.aligned);
            same_length = grown.still.same_length ∙ sym (put.two.same_length ∙ put.one.same_length);
            enough = omega (arith, grown.still.enough, put.two.same_length, put.one.same_length);
            encoded = λ w k.
                let is : w ≡ size = omega (arith, positive, k, grown.same_size) in
                rw (put.layout, is)
                  (IsEncoded-append size cs (glyphs count dx dy (take (count * size) bytes))
                    (take s1.current s1.stream)
                    (header_bytes count dx dy ++ (take (count * size) bytes ++ put.padding))
                    (grown.still.encoded size (inr grown.same_size))
                    (record {
                      few = omega (arith, few, below);
                      small = offsets;
                      length_bytes = length-take (count * size) bytes enough;
                      padding = put.padding;
                      length_padding = omega (arith, put.length_padding, whole);
                      layout = refl;
                    }));
          };
        }

    change-IsStep :
        (g : ℕ)
        → g < 2 ^ 32
        → 12 ≤ room
        → (g == s.current_glyphset) ≡ false
        → IsStep set0 cs (glyphset g ∷ []) (room - 12) s.glyph_size g (change_glyphset realloc g s)
    unfolding change_glyphset word_bytes
    change-IsStep g small left differs =
        let grown = grow-IsGrown set0 cs room 12 s h in
        let s1 = grow realloc s 12 in
        let put =
          put_lem s1.current 4 4 (header_bytes 255 0 0) (word_bytes (g ∷ [])) s1.stream refl
            (omega arith) (omega arith) (omega (arith, grown.still.enough)) in
        let none_left : put.padding ≡ [] =
          length-zero put.padding (omega (arith, put.length_padding)) in
        record {
          after = record s1 {
            stream = put.two.memory;
            current = s1.current + 8 + 4;
            current_glyphset = g;
          };
          returned = rw (change_glyphset, differs, put.one.result, put.two.result);
          size_is = grown.same_size;
          set_is = refl;
          stream = record {
            initial = grown.still.initial;
            within = omega (arith, grown.still.within);
            aligned = omega (arith, grown.still.aligned);
            same_length = grown.still.same_length ∙ sym (put.two.same_length ∙ put.one.same_length);
            enough = omega (arith, grown.still.enough, put.two.same_length, put.one.same_length);
            encoded = λ w k.
                rw (put.layout, none_left)
                  (IsEncoded-append w cs (glyphset g) (take s1.current s1.stream)
                    (header_bytes 255 0 0 ++ word_bytes (g ∷ [])) (grown.still.encoded w k)
                    (small, refl));
          };
        }
