-- ===== src/Image/Pixel/Bytewise.antt =====
-- Pixels of one to four whole bytes: what `put_z` stores is what `get_z` reads, for both byte
-- orders, and nothing else is touched.
use xcb_util.Prelude.{
  ℕ, zero, suc, ◌+◌, ◌-◌, ◌*◌, ◌/◌, ◌%◌, ◌^◌, ◌≤◌, ◌<◌, ◌≡◌, refl, ◌∙◌, ◌⊎◌, List, [], ◌∷◌, arith,
  u8, length, get_or, load, load_done, Outcome, done, inl, inr, ◌>>>◌, ◌<<<◌, ◌>>=◌, bit_or, mul32,
  sym,
}
pub mod Cells
use native.Mathlib.Nat.{add-zero}
use xcb_util.Bits.Join.{
  join_lsb_16, join_lsb_24, join_lsb_32, join_msb_16, join_msb_24, join_msb_32,
}
use xcb_util.Image.{ImageOrder, lsb_first, msb_first}
use xcb_util.Image.Pixel.{put_z, get_z, store_bytes, bytes_16, bytes_24, bytes_32}
use xcb_util.Image.Pixel.Write.{
  write, length-write, store_bytes_done, get_or-write_out, get_or-write_in,
}

-- Two memories of one size that agree on `n` bytes from `p` on.
abbrev pub Agree : List ℕ → List ℕ → ℕ → ℕ → Type 0
Agree m m' p n =
    (length m ≡ length m') × ((i : ℕ) → p ≤ i → i < p + n → get_or m i 0 ≡ get_or m' i 0)

-- A pixel format of `n` bytes to a pixel.
pub record IsBytewise (bpp : ℕ) (order : ImageOrder) (n : ℕ) : Type 0 where
  pub values : ℕ → List ℕ
  pub reads : List ℕ → ℕ → ℕ
  pub length-values : (pixel : ℕ) → length (values pixel) ≡ n
  pub put :
      (row x pixel : ℕ) (m : List ℕ)
      → x < 2 ^ 16
      → put_z bpp order row x pixel m ≡ store_bytes m (row + x * n) (values pixel)
  pub get :
      (row x : ℕ) (m : List ℕ)
      → x < 2 ^ 16
      → row + x * n + n ≤ length m
      → get_z bpp order row x m ≡ done (reads m (row + x * n))
  pub reads-Agree : (m m' : List ℕ) (p : ℕ) → Agree m m' p n → reads m p ≡ reads m' p
  pub reads-write :
      (m : List ℕ) (p pixel : ℕ)
      → p + n ≤ length m
      → reads (write m p (values pixel)) p ≡ pixel % 2 ^ (8 * n)

abbrev pub at : List ℕ → ℕ → ℕ
at m i = get_or m i 0

-- What a pixel's bytes are put together to.
abbrev join_16 : ImageOrder → List ℕ → ℕ → ℕ
join_16 lsb_first m p = bit_or (at m p) (at m (p + 1) <<< 8)
join_16 msb_first m p = bit_or (at m p <<< 8) (at m (p + 1))

abbrev join_24 : ImageOrder → List ℕ → ℕ → ℕ
join_24 lsb_first m p = bit_or (bit_or (at m p) (at m (p + 1) <<< 8)) (at m (p + 2) <<< 16)
join_24 msb_first m p = bit_or (bit_or (at m p <<< 16) (at m (p + 1) <<< 8)) (at m (p + 2))

abbrev join_32 : ImageOrder → List ℕ → ℕ → ℕ
join_32 lsb_first m p =
    bit_or (bit_or (bit_or (at m p) (at m (p + 1) <<< 8)) (at m (p + 2) <<< 16))
      (at m (p + 3) <<< 24)
join_32 msb_first m p =
    bit_or (bit_or (bit_or (at m p <<< 24) (at m (p + 1) <<< 16)) (at m (p + 2) <<< 8))
      (at m (p + 3))

-- The bytes just written, at the addresses that the readers use.
module _ (m : List ℕ) (p : ℕ) (vs : List ℕ) (fits : p + length vs ≤ length m) where
  wrote : (k : ℕ) → k < length vs → at (write m p vs) (p + k) ≡ u8 (get_or vs k 0)
  wrote k h = get_or-write_in m p vs k h fits

  wrote_head : 0 < length vs → at (write m p vs) p ≡ u8 (get_or vs 0 0)
  wrote_head h = rw add-zero at (wrote 0 h)

pub one_byte : (order : ImageOrder) → IsBytewise 8 order 1
unfolding put_z get_z
one_byte order = record {
  values = λ pixel. pixel ∷ [];
  reads = λ m p. at m p;
  length-values = λ pixel. refl;
  put = λ row x pixel m h. let e : x * 1 ≡ x = omega arith in rw e;
  get = λ row x m h fits.
      let e : x * 1 ≡ x = omega arith in rw e (load_done m (row + x) (omega arith));
  reads-Agree = λ m m' p h. h.1 p (omega arith) (omega arith);
  reads-write = λ m p pixel h. wrote_head m p (pixel ∷ []) h (omega arith);
}

length-bytes_16 : (order : ImageOrder) (pixel : ℕ) → length (bytes_16 order pixel) ≡ 2
length-bytes_16 lsb_first pixel = refl
length-bytes_16 msb_first pixel = refl

join_16-Agree :
    (order : ImageOrder) (m m' : List ℕ) (p : ℕ)
    → Agree m m' p 2
    → join_16 order m p ≡ join_16 order m' p
join_16-Agree lsb_first m m' p h =
    rw (h.1 p (omega arith) (omega arith), h.1 (p + 1) (omega arith) (omega arith))
join_16-Agree msb_first m m' p h =
    rw (h.1 p (omega arith) (omega arith), h.1 (p + 1) (omega arith) (omega arith))

join_16-write :
    (order : ImageOrder) (m : List ℕ) (p pixel : ℕ)
    → p + 2 ≤ length m
    → join_16 order (write m p (bytes_16 order pixel)) p ≡ pixel % 2 ^ 16
join_16-write lsb_first m p pixel fits =
    rw
      (
        wrote_head m p (bytes_16 lsb_first pixel) fits (omega arith),
        wrote m p (bytes_16 lsb_first pixel) fits 1 (omega arith),
        join_lsb_16 0 0 (u8 (pixel >>> 8)) (u8 pixel) (omega arith) (omega arith) (omega arith)
            (omega arith),
      )
      (omega arith)
join_16-write msb_first m p pixel fits =
    rw
      (
        wrote_head m p (bytes_16 msb_first pixel) fits (omega arith),
        wrote m p (bytes_16 msb_first pixel) fits 1 (omega arith),
        join_msb_16 0 0 (u8 (pixel >>> 8)) (u8 pixel) (omega arith) (omega arith) (omega arith)
            (omega arith),
      )
      (omega arith)

pub two_bytes : (order : ImageOrder) → IsBytewise 16 order 2
unfolding put_z get_z
two_bytes order = record {
  values = bytes_16 order;
  reads = join_16 order;
  length-values = length-bytes_16 order;
  put = λ row x pixel m h. let e : x <<< 1 ≡ x * 2 = omega arith in rw e;
  get = λ row x m h fits.
      let e : x <<< 1 ≡ x * 2 = omega arith in
      rw (e, load_done m (row + x * 2) (omega arith), load_done m (row + x * 2 + 1) (omega arith))
        (ground arith);
  reads-Agree = join_16-Agree order;
  reads-write = join_16-write order;
}

length-bytes_24 : (order : ImageOrder) (pixel : ℕ) → length (bytes_24 order pixel) ≡ 3
length-bytes_24 lsb_first pixel = refl
length-bytes_24 msb_first pixel = refl

join_24-Agree :
    (order : ImageOrder) (m m' : List ℕ) (p : ℕ)
    → Agree m m' p 3
    → join_24 order m p ≡ join_24 order m' p
join_24-Agree lsb_first m m' p h = rw (
  h.1 p (omega arith) (omega arith),
  h.1 (p + 1) (omega arith) (omega arith),
  h.1 (p + 2) (omega arith) (omega arith),
)
join_24-Agree msb_first m m' p h = rw (
  h.1 p (omega arith) (omega arith),
  h.1 (p + 1) (omega arith) (omega arith),
  h.1 (p + 2) (omega arith) (omega arith),
)

join_24-write :
    (order : ImageOrder) (m : List ℕ) (p pixel : ℕ)
    → p + 3 ≤ length m
    → join_24 order (write m p (bytes_24 order pixel)) p ≡ pixel % 2 ^ 24
join_24-write lsb_first m p pixel fits =
    rw
      (
        wrote_head m p (bytes_24 lsb_first pixel) fits (omega arith),
        wrote m p (bytes_24 lsb_first pixel) fits 1 (omega arith),
        wrote m p (bytes_24 lsb_first pixel) fits 2 (omega arith),
        join_lsb_24 0 (u8 (pixel >>> 16)) (u8 (pixel >>> 8)) (u8 pixel) (omega arith) (omega arith)
            (omega arith) (omega arith),
      )
      (omega arith)
join_24-write msb_first m p pixel fits =
    rw
      (
        wrote_head m p (bytes_24 msb_first pixel) fits (omega arith),
        wrote m p (bytes_24 msb_first pixel) fits 1 (omega arith),
        wrote m p (bytes_24 msb_first pixel) fits 2 (omega arith),
        join_msb_24 0 (u8 (pixel >>> 16)) (u8 (pixel >>> 8)) (u8 pixel) (omega arith) (omega arith)
            (omega arith) (omega arith),
      )
      (omega arith)

pub three_bytes : (order : ImageOrder) → IsBytewise 24 order 3
unfolding put_z get_z
three_bytes order = record {
  values = bytes_24 order;
  reads = join_24 order;
  length-values = length-bytes_24 order;
  put = λ row x pixel m h. let e : mul32 x 3 ≡ x * 3 = omega arith in rw e;
  get = λ row x m h fits.
      let e : mul32 x 3 ≡ x * 3 = omega arith in
      rw
        (
          e,
          load_done m (row + x * 3) (omega arith),
          load_done m (row + x * 3 + 1) (omega arith),
          load_done m (row + x * 3 + 2) (omega arith),
        )
        (ground arith);
  reads-Agree = join_24-Agree order;
  reads-write = join_24-write order;
}

length-bytes_32 : (order : ImageOrder) (pixel : ℕ) → length (bytes_32 order pixel) ≡ 4
length-bytes_32 lsb_first pixel = refl
length-bytes_32 msb_first pixel = refl

join_32-Agree :
    (order : ImageOrder) (m m' : List ℕ) (p : ℕ)
    → Agree m m' p 4
    → join_32 order m p ≡ join_32 order m' p
join_32-Agree lsb_first m m' p h = rw (
  h.1 p (omega arith) (omega arith),
  h.1 (p + 1) (omega arith) (omega arith),
  h.1 (p + 2) (omega arith) (omega arith),
  h.1 (p + 3) (omega arith) (omega arith),
)
join_32-Agree msb_first m m' p h = rw (
  h.1 p (omega arith) (omega arith),
  h.1 (p + 1) (omega arith) (omega arith),
  h.1 (p + 2) (omega arith) (omega arith),
  h.1 (p + 3) (omega arith) (omega arith),
)

join_32-write :
    (order : ImageOrder) (m : List ℕ) (p pixel : ℕ)
    → p + 4 ≤ length m
    → join_32 order (write m p (bytes_32 order pixel)) p ≡ pixel % 2 ^ 32
join_32-write lsb_first m p pixel fits =
    rw
      (
        wrote_head m p (bytes_32 lsb_first pixel) fits (omega arith),
        wrote m p (bytes_32 lsb_first pixel) fits 1 (omega arith),
        wrote m p (bytes_32 lsb_first pixel) fits 2 (omega arith),
        wrote m p (bytes_32 lsb_first pixel) fits 3 (omega arith),
        join_lsb_32 (u8 (pixel >>> 24)) (u8 (pixel >>> 16)) (u8 (pixel >>> 8)) (u8 pixel)
            (omega arith) (omega arith) (omega arith) (omega arith),
      )
      (omega arith)
join_32-write msb_first m p pixel fits =
    rw
      (
        wrote_head m p (bytes_32 msb_first pixel) fits (omega arith),
        wrote m p (bytes_32 msb_first pixel) fits 1 (omega arith),
        wrote m p (bytes_32 msb_first pixel) fits 2 (omega arith),
        wrote m p (bytes_32 msb_first pixel) fits 3 (omega arith),
        join_msb_32 (u8 (pixel >>> 24)) (u8 (pixel >>> 16)) (u8 (pixel >>> 8)) (u8 pixel)
            (omega arith) (omega arith) (omega arith) (omega arith),
      )
      (omega arith)

pub four_bytes : (order : ImageOrder) → IsBytewise 32 order 4
unfolding put_z get_z
four_bytes order = record {
  values = bytes_32 order;
  reads = join_32 order;
  length-values = length-bytes_32 order;
  put = λ row x pixel m h. let e : x <<< 2 ≡ x * 4 = omega arith in rw e;
  get = λ row x m h fits.
      let e : x <<< 2 ≡ x * 4 = omega arith in
      rw
        (
          e,
          load_done m (row + x * 4) (omega arith),
          load_done m (row + x * 4 + 1) (omega arith),
          load_done m (row + x * 4 + 2) (omega arith),
          load_done m (row + x * 4 + 3) (omega arith),
        )
        (ground arith);
  reads-Agree = join_32-Agree order;
  reads-write = join_32-write order;
}
