-- ===== src/Renderutil/Glyphs/Overrun.antt =====
-- Glyphs behind the end of the memory: `_grow_stream` doubles it only once.
use xcb_util.Prelude.{
  ℕ, ◌+◌, ◌*◌, ◌%◌, ◌≤◌, ◌<◌, ◌≡◌, inl, inr, refl, ◌∙◌, Bool-cases, Option-cases, List, length,
  true, ltb, ◌&&◌, ◌||◌, not, ◌==◌, if◌then◌else◌, Option, Outcome, done, fault, ◌>>=◌, drop, arith,
  leb,
}
use xcb_util.Memory.{copy_to, memcpy_past, length-drop}
use xcb_util.Renderutil.Glyphs.{
  Stream, grow, header_bytes, put_glyphs, glyphs_8, glyphs_16, glyphs_32,
}
use xcb_util.Renderutil.Glyphs.Write.{copy_to_lem}
use xcb_util.Renderutil.Glyphs.Build.{IsRealloc}
use xcb_util.Renderutil.Glyphs.Calls.{Width, byte, half, word, width, limit, call, put, accepted}

copy_to_past : (p n : ℕ) (src m : List ℕ) → length m < p + n → 0 < n → copy_to p n src m ≡ fault
unfolding copy_to
copy_to_past p n src m past positive =
    rw (memcpy_past n src (drop p m) (omega (arith, length-drop p m, positive))) refl

-- A header and bytes behind it.
put_past {ℓ} :
    {A : Type ℓ} (p n : ℕ) (header bytes m : List ℕ) (k : List ℕ → Outcome A)
    → length header ≡ 8
    → length m < p + 8 + n
    → (do m1 ← copy_to p 8 header m; m2 ← copy_to (p + 8) n bytes m1; k m2) ≡ fault
put_past p n header bytes m k eight past = elim (Bool-cases (leb (p + 8) (length m))) [
  | inl fits ↦
      let first = copy_to_lem p 8 header m (ground arith) (omega (arith, eight)) in
      rw
        (
          first.result,
          copy_to_past (p + 8) n bytes first.memory (omega (arith, first.same_length))
              (ground arith),
        )
        refl
  | inr over ↦ rw (copy_to_past p 8 header m (ground arith) (omega arith)) refl
]

-- Glyphs that are accepted are not refused.
taken_lem :
    (size w l count : ℕ) (a b : Outcome Stream)
    → (leb count l && (size == w || size == 0)) ≡ true
    → (if ltb l count then a else if not (size == w) && not (size == 0) then a else b) ≡ b
taken_lem size w l count a b taken = ground arith

module _ (realloc : List ℕ → ℕ → Option (List ℕ)) (sound : IsRealloc realloc) where
  -- However much is asked for, the memory is at most doubled.
  grow-twice :
      (increase : ℕ) (s : Stream)
      → s.stream_len ≡ length s.stream
      → s.current % 4 ≡ 0
      → (length (grow realloc s increase).stream ≤ 2 * s.stream_len)
        × ((grow realloc s increase).current ≡ s.current)
  unfolding grow
  grow-twice increase s same aligned = elim (Bool-cases (ltb s.stream_len (s.current + increase))) [
    | inr q ↦ rw q (omega (arith, same), refl)
    | inl q ↦ elim (Option-cases (realloc s.stream (2 * s.stream_len))) [
      | inl e ↦ rw (q, e) (omega (arith, same), refl)
      | inr (m, e) ↦
          let (long, kept) = sound s.stream (2 * s.stream_len) m (omega (arith, same)) e in
          rw (q, e) (omega (arith, long), omega (arith, aligned))
    ]
  ]

  put_glyphs_past :
      (w : Width) (increase words dx dy count : ℕ) (bytes : List ℕ) (s : Stream)
      → s.stream_len ≡ length s.stream
      → s.current % 4 ≡ 0
      → accepted s.glyph_size w count ≡ true
      → 2 * s.stream_len < s.current + 8 + count * width w
      → put_glyphs realloc (limit w) (width w) increase words dx dy count bytes s ≡ fault
  put_glyphs_past w increase words dx dy count bytes s same aligned taken past =
      let sized : Stream = record s { glyph_size = width w } in
      let (twice, at) = grow-twice increase sized same aligned in
      let s1 = grow realloc sized increase in
      taken_lem s.glyph_size (width w) (limit w) count (done s) _ taken
      ∙ put_past s1.current (count * width w) (header_bytes count dx dy) bytes s1.stream _ refl
          (omega (arith, twice, at, past))

  -- Glyphs for which twice the memory of the stream is not enough are written past its end, whatever `realloc`
  -- returns: the stream is not grown a second time.
  pub put-overrun :
      (w : Width) (dx dy count : ℕ) (gs : List ℕ) (s : Stream)
      → s.stream_len ≡ length s.stream
      → s.current % 4 ≡ 0
      → accepted s.glyph_size w count ≡ true
      → 2 * s.stream_len < s.current + 8 + count * width w
      → call realloc (put w dx dy count gs) s ≡ fault
  unfolding glyphs_8 glyphs_16 glyphs_32
  put-overrun byte dx dy count gs s same aligned taken past =
      put_glyphs_past byte _ _ dx dy count _ s same aligned taken past
  put-overrun half dx dy count gs s same aligned taken past =
      put_glyphs_past half _ _ dx dy count _ s same aligned taken past
  put-overrun word dx dy count gs s same aligned taken past =
      put_glyphs_past word _ _ dx dy count _ s same aligned taken past
