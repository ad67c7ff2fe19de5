-- ===== src/Renderutil/Formats/Standard.antt =====
-- The five standard formats, by what an application wants of them.
use xcb_util.Prelude.{
  ℕ, zero, suc, ◌≡◌, refl, sym, Bool, true, false, ◌&&◌, ◌==◌, List, [], ◌∷◌, some, none,
  first_match, pos,
}
use xcb_util.Renderutil.Formats.Search.{and_unit}
use xcb_util.Renderutil.Formats.{
  FormatInfo, PictFormats, accepted, find_from, find_format, find_standard_format,
}

-- The bits of a pixel for a component: their number's mask and their place. A component that a format
-- does not have has an empty mask, and its place does not matter.
pub data Component : Type 0 where
  absent : Component
  bits_at : ℕ → ℕ → Component

abbrev pub component_is : Component → ℕ → ℕ → Bool
component_is absent place bits = 0 == bits
component_is (bits_at place' bits') place bits = place' == place && bits' == bits

-- A format of direct colours with this depth, and these components red, green, blue and alpha.
abbrev pub is_direct : ℕ → Component → Component → Component → Component → FormatInfo → Bool
is_direct depth red green blue alpha f =
    1 == f.type
    && (depth == f.depth
        && (component_is red f.red_shift f.red_mask
            && (component_is green f.green_shift f.green_mask
                && (component_is blue f.blue_shift f.blue_mask
                    && component_is alpha f.alpha_shift f.alpha_mask))))

-- The standard formats in the order of `xcb_pict_standard_t`: ARGB_32, RGB_24, A_8, A_4 and A_1.
abbrev pub is_standard : ℕ → FormatInfo → Bool
is_standard zero f =
    is_direct 32 (bits_at 16 0xff) (bits_at 8 0xff) (bits_at 0 0xff) (bits_at 24 0xff) f
is_standard (suc zero) f = is_direct 24 (bits_at 16 0xff) (bits_at 8 0xff) (bits_at 0 0xff) absent f
is_standard (suc (suc zero)) f = is_direct 8 absent absent absent (bits_at 0 0xff) f
is_standard (suc (suc (suc zero))) f = is_direct 4 absent absent absent (bits_at 0 0x0f) f
is_standard (suc (suc (suc (suc zero)))) f = is_direct 1 absent absent absent (bits_at 0 0x01) f
is_standard (suc (suc (suc (suc (suc n))))) f = false

and_assoc : (a b c : Bool) → ((a && b) && c) ≡ (a && (b && c))
and_assoc true b c = refl
and_assoc false b c = refl

first_from :
    (m : ℕ) (t : FormatInfo) (test : FormatInfo → Bool)
    → ((f : FormatInfo) → accepted m t f ≡ test f)
    → (fs : List FormatInfo) → find_from m t fs (pos zero) ≡ first_match test fs
unfolding find_from first_match
first_from m t test same [] = refl
first_from m t test same (f ∷ fs) = rw (same f, first_from m t test same fs)

none_first : (fs : List FormatInfo) → first_match (λ f. false) fs ≡ none
unfolding first_match
none_first [] = refl
none_first (f ∷ fs) = none_first fs

-- Of the formats of a reply `xcb_render_util_find_standard_format` returns the first that is of direct
-- colours and has the depth, the places and the sizes of the components that the standard format has, whatever its
-- identifier and colormap are and wherever a component without bits is placed; and a null pointer for a
-- number that names no standard format.
pub find_standard_format-eq-first_match :
    (reply : PictFormats) (format : ℕ)
    → find_standard_format (some reply) format ≡ first_match (is_standard format) reply.formats
unfolding find_standard_format find_format accepted
find_standard_format-eq-first_match reply zero =
    first_from _ _ _ (λ f. simp (and_assoc, and_unit) refl) reply.formats
find_standard_format-eq-first_match reply (suc zero) =
    first_from _ _ _ (λ f. simp (and_assoc, and_unit) refl) reply.formats
find_standard_format-eq-first_match reply (suc (suc zero)) =
    first_from _ _ _ (λ f. simp (and_assoc, and_unit) refl) reply.formats
find_standard_format-eq-first_match reply (suc (suc (suc zero))) =
    first_from _ _ _ (λ f. simp (and_assoc, and_unit) refl) reply.formats
find_standard_format-eq-first_match reply (suc (suc (suc (suc zero)))) =
    first_from _ _ _ (λ f. simp (and_assoc, and_unit) refl) reply.formats
find_standard_format-eq-first_match reply (suc (suc (suc (suc (suc n))))) =
    sym (none_first reply.formats)
