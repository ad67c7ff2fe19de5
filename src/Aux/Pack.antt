-- ===== src/Aux/Pack.antt =====
-- `pack_list` selects the values of the set bits, and needs exactly as much room as there are.
use xcb_util.Prelude.{
  ℕ, zero, suc, ◌-◌, ◌/◌, ◌%◌, ◌^◌, ◌≤◌, ◌<◌, ◌≡◌, refl, inl, inr, List, [], ◌∷◌, arith, length,
  ◌==◌, if◌then◌else◌, done, Bool-cases, ap, sym, ==_iff,
}
use native.Mathlib.Nat.{pow-suc}
use xcb_util.Bits.{bit_and_mask}
use xcb_util.Bitops.Count.{ones}
use xcb_util.Aux.{pack_list}

-- The values at the set bits, the lowest bit first.
unfoldable pub selected : ℕ → List ℕ → List ℕ
selected mask [] = []
selected mask (v ∷ vs) =
    let rest = selected (mask / 2) vs in if mask % 2 == 1 then v ∷ rest else rest

pub length-selected : (mask : ℕ) (vs : List ℕ) → length (selected mask vs) ≡ ones (length vs) mask
unfolding selected ones
length-selected mask [] = refl
length-selected mask (v ∷ vs) = ground (arith, length-selected (mask / 2) vs)

selected-zero : (vs : List ℕ) → selected 0 vs ≡ []
unfolding selected
selected-zero [] = refl
selected-zero (v ∷ vs) = selected-zero vs

pack_zero : (fuel : ℕ) (src : List ℕ) (room : ℕ) → pack_list fuel 0 src room ≡ done []
unfolding pack_list
pack_zero zero src room = refl
pack_zero (suc fuel) src room = refl

pack_selected :
    (fuel mask : ℕ) (src : List ℕ) (room : ℕ)
    → mask < 2 ^ length src
    → length src ≤ fuel
    → ones (length src) mask ≤ room
    → pack_list fuel mask src room ≡ done (selected mask src)
unfolding pack_list selected ones
pack_selected fuel mask [] room h f r =
    let e : mask ≡ 0 = omega arith in rw e (pack_zero fuel [] room)
pack_selected zero mask (v ∷ vs) room h f r = absurd (omega arith)
pack_selected (suc fuel) mask (v ∷ vs) room h f r = elim (Bool-cases (mask == 0)) [
  | inl e ↦ rw ((==_iff mask 0).0 e) (ap done (sym (selected-zero vs)))
  | inr e ↦ ground (
    arith,
    bit_and_mask 1 mask,
    pow-suc 2 (length vs),
    pack_selected fuel (mask / 2) vs room,
    pack_selected fuel (mask / 2) vs (room - 1),
  )
]

-- `pack_list` on a 32-bit mask with no bit beyond the parameters, and with room for as many values
-- as the mask has set bits, returns the values at those bits in the order of the bits; it reads and
-- writes nothing out of range.
pub pack_list-eq-selected :
    (mask : ℕ) (src : List ℕ) (room : ℕ)
    → length src ≤ 32
    → mask < 2 ^ length src
    → ones (length src) mask ≤ room
    → (pack_list 32 mask src room ≡ done (selected mask src))
      × (length (selected mask src) ≡ ones (length src) mask)
pack_list-eq-selected mask src room f h r =
    (pack_selected 32 mask src room h f r, length-selected mask src)
