-- ===== src/Image/Pixel/Bitmap/Byte.antt =====
-- One bit of a byte, and the places of the bytes of a unit.
use xcb_util.Prelude.{
  ℕ, ◌+◌, ◌-◌, ◌*◌, ◌/◌, ◌%◌, ◌<◌, ◌≡◌, refl, inl, inr, Bool, true, false, Bool-cases, u8, ◌<<<◌,
  ◌>>>◌, not32, bit_and, bit_or, bit_xor, ◌==◌, ==_iff, ◌&&◌, if◌then◌else◌, arith,
}
use xcb_util.Bits.{all_below, all_below_sound, bit_xor_step, bit_xor-zero}
use xcb_util.Image.Pixel.Plane.{differ_one}

-- The byte after a bit is put.
abbrev pub with_bit : ℕ → ℕ → ℕ → ℕ
with_bit v bit pixel = u8 (bit_or (bit_and v (not32 (u8 (1 <<< bit)))) (u8 (pixel <<< bit)))

abbrev pub bit_at : ℕ → ℕ → ℕ
bit_at v bit = bit_and (v >>> bit) 1

-- The place and the new value of a bit, and the other place, in one number.
abbrev bit_kept : ℕ → ℕ → Bool
bit_kept v n =
    let pixel = n % 2 in
    let bit = n / 2 % 8 in
    let other = n / 16 in
    bit_at (with_bit v bit pixel) other == (if bit == other then pixel else bit_at v other)

bits_kept : all_below 256 (λ v. all_below 128 (bit_kept v)) ≡ true
unfolding all_below
bits_kept = refl

-- After one of the eight bits of a byte is put, it has the new value, and the others are as before.
pub bit_at-with_bit :
    (v bit other pixel : ℕ)
    → v < 256
    → bit < 8
    → other < 8
    → pixel < 2
    → bit_at (with_bit v bit pixel) other ≡ (if bit == other then pixel else bit_at v other)
unfolding all_below
bit_at-with_bit v bit other pixel hv hb ho hp =
    let n : ℕ = other * 16 + (bit * 2 + pixel) in
    let p : n % 2 ≡ pixel = omega arith in
    let b : n / 2 % 8 ≡ bit = omega arith in
    let o : n / 16 ≡ other = omega arith in
    let row = all_below_sound 256 (λ v. all_below 128 (bit_kept v)) v bits_kept hv in
    (==_iff _ _).0 (rw (p, b, o) at (all_below_sound 128 (bit_kept v) n row (omega arith)))

pub xor_1 : (k : ℕ) → bit_xor k 1 ≡ k / 2 * 2 + (1 - k % 2)
xor_1 k = omega (arith, bit_xor_step k 1, bit_xor-zero (k / 2), differ_one (k % 2) (omega arith))

pub xor_3 : (k : ℕ) → bit_xor k 3 ≡ k / 4 * 4 + (3 - k % 4)
xor_3 k = omega (
  arith,
  bit_xor_step k 3,
  bit_xor_step (k / 2) 1,
  bit_xor-zero (k / 2 / 2),
  differ_one (k % 2) (omega arith),
  differ_one (k / 2 % 2) (omega arith),
)

both : (x x' y y' : ℕ) → (x' == x && y' == y) ≡ true → (x' ≡ x) × (y' ≡ y)
both x x' y y' h = (ground arith, ground arith)

pub not_both : (x x' y y' : ℕ) → ((x' ≡ x) → (y' ≡ y) → ⊥) → (x' == x && y' == y) ≡ false
not_both x x' y y' h = elim (Bool-cases (x' == x && y' == y)) [
  | inl t ↦ absurd (h ((both x x' y y' t).0) ((both x x' y y' t).1))
  | inr f ↦ f
]
