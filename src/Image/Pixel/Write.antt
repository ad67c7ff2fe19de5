-- ===== src/Image/Pixel/Write.antt =====
-- Storing a run of bytes, and what is read afterwards.
use xcb_util.Prelude.{
  ℕ, zero, suc, ◌+◌, ◌≤◌, ◌<◌, ◌≡◌, refl, ◌∙◌, ◌⊎◌, List, [], ◌∷◌, arith, u8, length, set, get_or,
  length-set, get_or-set_self, get_or-set_ne, store_done, done,
}
use native.Mathlib.Nat.{add-zero}
use xcb_util.Image.Pixel.{store_bytes}

abbrev pub write : List ℕ → ℕ → List ℕ → List ℕ
write m p [] = m
write m p (v ∷ vs) = write (set m p (u8 v)) (p + 1) vs

pub length-write : (m : List ℕ) (p : ℕ) (vs : List ℕ) → length (write m p vs) ≡ length m
length-write m p [] = refl
length-write m p (v ∷ vs) = length-write (set m p (u8 v)) (p + 1) vs ∙ length-set m p (u8 v)

pub store_bytes_done :
    (m : List ℕ) (p : ℕ) (vs : List ℕ)
    → p + length vs ≤ length m
    → store_bytes m p vs ≡ done (write m p vs)
unfolding store_bytes
store_bytes_done m p [] h = refl
store_bytes_done m p (v ∷ vs) h =
    rw (store_done m p (u8 v) (omega arith))
      (store_bytes_done (set m p (u8 v)) (p + 1) vs (omega (arith, length-set m p (u8 v))))

pub get_or-write_out :
    (m : List ℕ) (p : ℕ) (vs : List ℕ) (i : ℕ)
    → (i < p) ⊎ (p + length vs ≤ i)
    → get_or (write m p vs) i 0 ≡ get_or m i 0
get_or-write_out m p [] i h = refl
get_or-write_out m p (v ∷ vs) i h =
    get_or-write_out (set m p (u8 v)) (p + 1) vs i (omega arith)
    ∙ get_or-set_ne m p i (u8 v) 0 (omega arith)

pub get_or-write_in :
    (m : List ℕ) (p : ℕ) (vs : List ℕ) (k : ℕ)
    → k < length vs
    → p + length vs ≤ length m
    → get_or (write m p vs) (p + k) 0 ≡ u8 (get_or vs k 0)
get_or-write_in m p [] k h fits = elim h [ ]
get_or-write_in m p (v ∷ vs) zero h fits =
    get_or-write_out (set m p (u8 v)) (p + 1) vs (p + 0) (omega arith)
    ∙ rw add-zero (get_or-set_self m p (u8 v) 0 (omega arith))
get_or-write_in m p (v ∷ vs) (suc k) h fits =
    let e : p + suc k ≡ p + 1 + k = omega arith in
    rw e (
      get_or-write_in (set m p (u8 v)) (p + 1) vs k (omega arith)
        (omega (arith, length-set m p (u8 v))))
