-- ===== src/Image/Pixel/Cell.antt =====
-- A pixel of a z-pixmap is a cell of `bpp` bits in a row. What it means that `put_z` has stored
-- one: it is read back, and no cell apart from it has changed.
use xcb_util.Prelude.{
  ℕ, ◌+◌, ◌*◌, ◌%◌, ◌^◌, ◌≤◌, ◌<◌, ◌≡◌, ◌⊎◌, List, length, get_or, done, set, arith, dec_lt,
  ℕ_discrete, get_or-set_self, get_or-set_ne, get_or-ge, length-set,
}
use xcb_util.Image.{ImageOrder}
use xcb_util.Image.Pixel.{put_z, get_z}

-- The cell lies in the memory.
abbrev pub IsInside : ℕ → ℕ → ℕ → List ℕ → Type 0
IsInside bpp row x m = row * 8 + x * bpp + bpp ≤ 8 * length m

-- Two cells have no bit in common.
abbrev pub IsApart : ℕ → ℕ → ℕ → ℕ → ℕ → Type 0
IsApart bpp row x row' x' =
    (row * 8 + x * bpp + bpp ≤ row' * 8 + x' * bpp)
    ⊎ (row' * 8 + x' * bpp + bpp ≤ row * 8 + x * bpp)

abbrev pub IsBytes : List ℕ → Type 0
IsBytes m = (i : ℕ) → get_or m i 0 < 256

pub record IsPut (bpp : ℕ) (order : ImageOrder) (row x pixel : ℕ) (m m' : List ℕ) : Type 0 where
  pub stored : put_z bpp order row x pixel m ≡ done m'
  pub same_length : length m' ≡ length m
  pub is_bytes : IsBytes m → IsBytes m'
  pub reads_back : get_z bpp order row x m' ≡ done (pixel % 2 ^ bpp)
  pub others :
      IsBytes m
      → (row' x' : ℕ) → x' < 2 ^ 16
      → IsInside bpp row' x' m
      → IsApart bpp row x row' x'
      → get_z bpp order row' x' m' ≡ get_z bpp order row' x' m

pub set-IsBytes : (m : List ℕ) (p v : ℕ) → v < 256 → IsBytes m → IsBytes (set m p v)
set-IsBytes m p v hv h i = elim (dec_lt p (length m)) [
  | yes q ↦ elim (ℕ_discrete p i) [
    | yes e ↦ rw (← e, get_or-set_self m p v 0 q) hv
    | no ne ↦ rw (get_or-set_ne m p i v 0 ne) (h i)
  ]
  | no q ↦ elim (ℕ_discrete p i) [
    | yes e ↦ rw (get_or-ge (set m p v) i 0 (omega (arith, length-set m p v))) (omega arith)
    | no ne ↦ rw (get_or-set_ne m p i v 0 ne) (h i)
  ]
]
