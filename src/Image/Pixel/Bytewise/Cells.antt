-- ===== src/Image/Pixel/Bytewise/Cells.antt =====
-- A pixel of `n` bytes is a cell, and storing it has the effect that `IsPut` names.
use native.Mathlib.Nat.{mul_left_comm}
use xcb_util.Prelude.{
  ℕ, ◌+◌, ◌*◌, ◌^◌, ◌≤◌, ◌<◌, ◌≡◌, ◌∙◌, sym, List, [], ◌∷◌, arith, u8, length, set,
}
use xcb_util.Image.{ImageOrder}
use xcb_util.Image.Pixel.{get_z}
use xcb_util.Image.Pixel.Cell.{IsInside, IsApart, IsBytes, IsPut, set-IsBytes}
use xcb_util.Image.Pixel.Bytewise.{IsBytewise}
use xcb_util.Image.Pixel.Write.{write, length-write, store_bytes_done, get_or-write_out}

write-IsBytes : (m : List ℕ) (p : ℕ) (vs : List ℕ) → IsBytes m → IsBytes (write m p vs)
write-IsBytes m p [] h = h
write-IsBytes m p (v ∷ vs) h =
    write-IsBytes (set m p (u8 v)) (p + 1) vs (set-IsBytes m p (u8 v) (omega arith) h)

module _ (bpp : ℕ) (order : ImageOrder) (n : ℕ) (f : IsBytewise bpp order n)
    (bits : bpp ≡ 8 * n) where
  address : (row x : ℕ) → row * 8 + x * bpp ≡ 8 * (row + x * n)
  address row x = rw bits (omega (arith, mul_left_comm x 8 n))

  module _ (row x pixel : ℕ) (m : List ℕ) (small : x < 2 ^ 16) (inside : IsInside bpp row x m) where
    fits : row + x * n + n ≤ length m
    fits = omega (arith, address row x, bits)

    abbrev pub written : List ℕ
    written = write m (row + x * n) (f.values pixel)

    other_cells :
        (row' x' : ℕ)
        → x' < 2 ^ 16
        → IsInside bpp row' x' m
        → IsApart bpp row x row' x'
        → get_z bpp order row' x' written ≡ get_z bpp order row' x' m
    other_cells row' x' small' inside' apart =
        let e = length-write m (row + x * n) (f.values pixel) in
        let ok : row' + x' * n + n ≤ length m = omega (arith, address row' x', bits) in
        let same = f.reads-Agree written m (row' + x' * n) (
          e,
          λ i lo hi.
              get_or-write_out m (row + x * n) (f.values pixel) i
                (omega (arith, address row x, address row' x', bits, f.length-values pixel)),
        ) in
        f.get row' x' written small' (omega (arith, e)) ∙ rw same (sym (f.get row' x' m small' ok))

    pub bytewise-IsPut : IsPut bpp order row x pixel m written
    bytewise-IsPut = record {
      stored =
          f.put row x pixel m small
          ∙ store_bytes_done m (row + x * n) (f.values pixel)
              (omega (arith, fits, f.length-values pixel));
      same_length = length-write m (row + x * n) (f.values pixel);
      is_bytes = write-IsBytes m (row + x * n) (f.values pixel);
      reads_back =
          f.get row x written small
            (omega (arith, fits, length-write m (row + x * n) (f.values pixel)))
          ∙ rw (f.reads-write m (row + x * n) pixel fits, bits);
      others = λ b row' x' small' inside' apart. other_cells row' x' small' inside' apart;
    }
