-- ===== src/Renderutil/Glyphs/Build/Steps.antt =====
-- What each call appends to a stream of glyphs.
use xcb_util.Prelude.{
  ℕ, zero, suc, ◌+◌, ◌-◌, ◌*◌, ◌^◌, ◌≤◌, ◌<◌, ◌≡◌, ◌⊎◌, inl, inr, refl, Bool-cases, List, [], ◌∷◌,
  length, true, false, ◌&&◌, ◌||◌, not, ltb, leb, ◌==◌, if◌then◌else◌, ◌>>>◌, Option, Outcome, done,
  arith,
}
use mathlib.Core.List.{append-nil}
use xcb_util.Memory.{length-word_bytes}
use xcb_util.Renderutil.Glyphs.{
  Stream, half_bytes, put_glyphs, glyphs_8, glyphs_16, glyphs_32, change_glyphset,
}
use xcb_util.Renderutil.Glyphs.Commands.{Command, padded}
use xcb_util.Renderutil.Glyphs.Build.{IsRealloc, IsStream, IsStep, put-IsStep, change-IsStep}
use xcb_util.Renderutil.Glyphs.Calls.{
  Width, byte, half, word, width, limit, memory_of, Call, put, change, call, accepted, new_commands,
  next_size, next_set, IsCall,
}

length-half_bytes : (gs : List ℕ) → length (half_bytes gs) ≡ length gs * 2
unfolding half_bytes
length-half_bytes [] = refl
length-half_bytes (g ∷ gs) = omega (arith, length-half_bytes gs)

-- The room that a call takes at most.
abbrev pub cost : Call → ℕ
cost (put w dx dy zero gs) = 12
cost (put w dx dy (suc n) gs) = 12 * suc n
cost (change g) = 12

width_positive : (w : Width) → 0 < width w
width_positive byte = omega arith
width_positive half = omega arith
width_positive word = omega arith

limit_lt : (w : Width) → limit w < 255
limit_lt byte = omega arith
limit_lt half = omega arith
limit_lt word = omega arith

below_limit : (size w l count : ℕ) → (leb count l && (size == w || size == 0)) ≡ true → count ≤ l
below_limit size w l count taken = ground arith

same_width :
    (size w l count : ℕ)
    → (leb count l && (size == w || size == 0)) ≡ true
    → (size ≡ 0) ⊎ (size ≡ w)
same_width size w l count taken = ground arith

-- Glyphs that are not accepted are refused by one of the two conditions.
refused_lem :
    (size w l count : ℕ) (a b : Outcome Stream)
    → (leb count l && (size == w || size == 0)) ≡ false
    → (if ltb l count then a else if not (size == w) && not (size == 0) then a else b) ≡ a
refused_lem size w l count a b refused = ground arith

unchanged :
    (realloc : List ℕ → ℕ → Option (List ℕ)) (g : ℕ) (s : Stream)
    → (g == s.current_glyphset) ≡ true
    → change_glyphset realloc g s ≡ done s
unfolding change_glyphset
unchanged realloc g s same = rw same

module _ (set0 : ℕ × ℕ) (cs : List Command) (room : ℕ) (s : Stream)
    (h : IsStream set0 cs room s) where
  -- Nothing is done.
  skip-IsStep :
      (less set : ℕ)
      → less ≤ room
      → s.current_glyphset ≡ set
      → IsStep set0 cs [] less s.glyph_size set (done s)
  skip-IsStep less set fits e = record {
    after = s;
    returned = refl;
    size_is = refl;
    set_is = e;
    stream = rw (append-nil cs) (record {
      initial = h.initial;
      within = omega (arith, h.within, fits);
      aligned = h.aligned;
      same_length = h.same_length;
      enough = omega (arith, h.enough, fits);
      encoded = h.encoded;
    });
  }

  put_glyphs-IsStep :
      (realloc : List ℕ → ℕ → Option (List ℕ))
      → IsRealloc realloc
      → (w : Width) (increase words takes dx dy count : ℕ) (gs : List ℕ)
      → (dx < 2 ^ 16) × (dy < 2 ^ 16)
      → count * width w ≤ length (memory_of w gs)
      → words * 4 ≡ padded (count * width w)
      → 8 + words * 4 ≤ takes
      → takes ≤ room
      → IsStep set0 cs
          (new_commands s.glyph_size s.current_glyphset (put w dx dy count gs))
          (room - takes)
          (next_size s.glyph_size (put w dx dy count gs))
          s.current_glyphset
          (put_glyphs realloc (limit w) (width w) increase words dx dy count (memory_of w gs) s)
  put_glyphs-IsStep realloc sound w increase words takes dx dy count gs offsets enough whole fits
        left =
      elim (Bool-cases (accepted s.glyph_size w count)) [
        | inl taken ↦ rw taken (
            put-IsStep realloc sound set0 cs room s h (limit w) (width w) increase words takes dx dy
              count (memory_of w gs) (width_positive w)
              (same_width s.glyph_size (width w) (limit w) count taken)
              (below_limit s.glyph_size (width w) (limit w) count taken) (limit_lt w) offsets enough
              whole fits left)
        | inr refused ↦
            let back : put_glyphs realloc (limit w) (width w) increase words dx dy count
                  (memory_of w gs) s
                ≡ done s =
              refused_lem s.glyph_size (width w) (limit w) count (done s) _ refused in
            rw (refused, back) (skip-IsStep (room - takes) s.current_glyphset (omega arith) refl)
      ]

  pub call-IsStep :
      (realloc : List ℕ → ℕ → Option (List ℕ))
      → IsRealloc realloc
      → (c : Call) → IsCall c
      → cost c ≤ room
      → IsStep set0 cs
          (new_commands s.glyph_size s.current_glyphset c)
          (room - cost c)
          (next_size s.glyph_size c)
          (next_set s.current_glyphset c)
          (call realloc c s)
  unfolding glyphs_8 glyphs_16 glyphs_32
  call-IsStep realloc sound (put byte dx dy zero gs) (long, offsets) left =
      put_glyphs-IsStep realloc sound byte 11 ((0 + 3) >>> 2) 12 dx dy 0 gs offsets (omega arith)
        refl (omega arith) left
  call-IsStep realloc sound (put byte dx dy (suc n) gs) (long, offsets) left =
      put_glyphs-IsStep realloc sound byte (8 + suc n + 3) ((suc n + 3) >>> 2) (12 * suc n) dx dy
        (suc n) gs offsets (omega (arith, long)) (omega arith) (omega arith) left
  call-IsStep realloc sound (put half dx dy zero gs) (long, offsets) left =
      put_glyphs-IsStep realloc sound half 9 ((0 + 3) >>> 2) 12 dx dy 0 gs offsets (omega arith)
        refl (omega arith) left
  call-IsStep realloc sound (put half dx dy (suc n) gs) (long, offsets) left =
      put_glyphs-IsStep realloc sound half (8 + suc n * 2 + 1) ((suc n * 2 + 3) >>> 2) (12 * suc n)
        dx dy (suc n) gs offsets (omega (arith, long, length-half_bytes gs)) (omega arith)
        (omega arith) left
  call-IsStep realloc sound (put word dx dy zero gs) (long, offsets) left =
      put_glyphs-IsStep realloc sound word 9 0 12 dx dy 0 gs offsets (omega arith) refl
        (omega arith) left
  call-IsStep realloc sound (put word dx dy (suc n) gs) (long, offsets) left =
      put_glyphs-IsStep realloc sound word (8 + suc n * 4 + 1) (suc n) (12 * suc n) dx dy (suc n) gs
        offsets (omega (arith, long, length-word_bytes gs)) (omega arith) (omega arith) left
  call-IsStep realloc sound (change g) small left = elim (Bool-cases (g == s.current_glyphset)) [
    | inl same ↦
        rw (unchanged realloc g s same, same)
          (skip-IsStep (room - 12) g (omega arith) (ground (arith, same)))
    | inr differs ↦ rw differs (change-IsStep realloc sound set0 cs room s h g small left differs)
  ]
