-- ===== src/Renderutil/Formats/Search.antt =====
-- The searches for formats and visuals, against filters of lists.
use xcb_util.Prelude.{
  ℕ, zero, suc, ◌/◌, ◌%◌, ◌^◌, ◌*◌, ◌<◌, ◌≡◌, ℕ_discrete, refl, sym, ap₂, ◌∙◌, Bool, true, false,
  ◌&&◌, ◌||◌, ◌==◌, List, [], ◌∷◌, ◌++◌, Option, some, none, get_elem?, first_match, filter,
  Bool-cases, inl, inr, bit_and, ℤ, pos, negsuc, map, arith,
}
use native.Mathlib.Nat.{pow-suc, one-le-pow}
use xcb_util.Bits.{bit_and_step, bit_and-zero, mul-pow-suc}
use xcb_util.Renderutil.Formats.{
  FormatInfo, PictVisual, PictFormats, accepted, find_from, find_format, visual_in,
  visual_in_depths, visual_in_screens, find_visual_format,
}

-- The fields of a format in the order of their flags.
abbrev pub fields : FormatInfo → List ℕ
fields f =
    f.id ∷ f.type ∷ f.depth ∷ f.red_shift ∷ f.red_mask ∷ f.green_shift ∷ f.green_mask ∷ f.blue_shift
    ∷ f.blue_mask ∷ f.alpha_shift ∷ f.alpha_mask ∷ f.colormap ∷ []

-- Two lists agree at the digits that are set in the mask.
unfoldable pub agree : ℕ → List ℕ → List ℕ → Bool
agree mask (x ∷ xs) (y ∷ ys) =
    let rest = agree (mask / 2) xs ys in (mask % 2 == 0 || x == y) && rest
agree mask _ _ = true

abbrev halved : ℕ → ℕ → ℕ
halved m zero = m
halved m (suc k) = halved (m / 2) k

-- A single flag under `&` is the digit of the mask.
bit_and-pow : (k m : ℕ) → bit_and m (2 ^ k) ≡ halved m k % 2 * 2 ^ k
bit_and-pow zero m = omega (arith, bit_and_step m 1, bit_and-zero (m / 2))
bit_and-pow (suc k) m =
    let half : 2 ^ suc k / 2 ≡ 2 ^ k = omega (arith, pow-suc 2 k) in
    let even : 2 ^ suc k % 2 ≡ 0 = omega (arith, pow-suc 2 k) in
    let rest : bit_and (m / 2) (2 ^ suc k / 2) ≡ halved (m / 2) k % 2 * 2 ^ k =
      rw half (bit_and-pow k (m / 2)) in
    omega (arith, bit_and_step m (2 ^ suc k), rest, even, mul-pow-suc (halved (m / 2) k % 2) k)

flag_clear : (k m : ℕ) → (bit_and m (2 ^ k) == 0) ≡ (halved m k % 2 == 0)
flag_clear k m = rw (bit_and-pow k m) (elim (ℕ_discrete (halved m k % 2) 0) [
  | yes e ↦ let z : 0 * 2 ^ k ≡ 0 = omega arith in rw (e, z)
  | no ne ↦
      let one : halved m k % 2 ≡ 1 = omega arith in
      let pos : 0 < 2 ^ k = one-le-pow k 2 (omega arith) in rw one (ground arith)
])

pub and_unit : (b : Bool) → (b && true) ≡ b
and_unit true = refl
and_unit false = refl

-- The twelve tests compare the fields whose flags are set.
accepted-agree : (m : ℕ) (t f : FormatInfo) → accepted m t f ≡ agree m (fields t) (fields f)
unfolding accepted agree
accepted-agree m t f = rw (
  flag_clear 0 m,
  flag_clear 1 m,
  flag_clear 2 m,
  flag_clear 3 m,
  flag_clear 4 m,
  flag_clear 5 m,
  flag_clear 6 m,
  flag_clear 7 m,
  flag_clear 8 m,
  flag_clear 9 m,
  flag_clear 10 m,
  flag_clear 11 m,
  and_unit (halved m 11 % 2 == 0 || t.colormap == f.colormap),
)

unfoldable nth : {A : Type 0} → ℤ → List A → Option A
nth (pos n) xs = get_elem? xs n
nth (negsuc n) xs = none

from-filter :
    (m : ℕ) (t : FormatInfo) (fs : List FormatInfo) (count : ℤ)
    → find_from m t fs count ≡ nth count (filter (λ f. agree m (fields t) (fields f)) fs)
unfolding find_from filter nth
from-filter m t [] (pos n) = refl
from-filter m t [] (negsuc n) = refl
from-filter m t (f ∷ fs) (negsuc n) = from-filter m t fs (negsuc n)
from-filter m t (f ∷ fs) (pos zero) = elim (Bool-cases (agree m (fields t) (fields f))) [
  | inl q ↦ rw (accepted-agree m t f, q)
  | inr q ↦ rw (accepted-agree m t f, q) (from-filter m t fs (pos zero))
]
from-filter m t (f ∷ fs) (pos (suc n)) = elim (Bool-cases (agree m (fields t) (fields f))) [
  | inl q ↦ rw (accepted-agree m t f, q) (from-filter m t fs (pos n))
  | inr q ↦ rw (accepted-agree m t f, q) (from-filter m t fs (pos (suc n)))
]

-- All visuals of the reply in their order.
unfoldable pub concat : {A : Type 0} → List (List A) → List A
concat [] = []
concat (xs ∷ xss) = xs ++ concat xss

first_match-append :
    {A : Type 0} (test : A → Bool) (xs ys : List A)
    → first_match test (xs ++ ys)
      ≡ elim (first_match test xs) [ some x ↦ some x | none ↦ first_match test ys ]
unfolding first_match
first_match-append test [] ys = refl
first_match-append test (x ∷ xs) ys = elim (Bool-cases (test x)) [
  | inl q ↦ rw q
  | inr q ↦ rw q (first_match-append test xs ys)
]

abbrev has_visual : ℕ → PictVisual → Bool
has_visual visual v = v.visual == visual

in_depth :
    (vs : List PictVisual) (visual : ℕ) → visual_in vs visual ≡ first_match (has_visual visual) vs
unfolding visual_in first_match
in_depth [] visual = refl
in_depth (v ∷ vs) visual = rw (in_depth vs visual)

abbrev or_else : Option PictVisual → Option PictVisual → Option PictVisual
or_else a b = elim a [ some v ↦ some v | none ↦ b ]

first_or : {a a' b b' : Option PictVisual} → a ≡ a' → b ≡ b' → or_else a b ≡ or_else a' b'
first_or p q = ap₂ or_else p q

in_depths :
    (ds : List (List PictVisual)) (visual : ℕ)
    → visual_in_depths ds visual ≡ first_match (has_visual visual) (concat ds)
unfolding visual_in_depths concat first_match
in_depths [] visual = refl
in_depths (d ∷ ds) visual =
    first_or (in_depth d visual) (in_depths ds visual)
    ∙ sym (first_match-append (has_visual visual) d (concat ds))

in_screens :
    (ss : List (List (List PictVisual))) (visual : ℕ)
    → visual_in_screens ss visual ≡ first_match (has_visual visual) (concat (map concat ss))
unfolding visual_in_screens concat first_match
in_screens [] visual = refl
in_screens (s ∷ ss) visual =
    first_or (in_depths s visual) (in_screens ss visual)
    ∙ sym (first_match-append (has_visual visual) (concat s) (concat (map concat ss)))

-- `xcb_render_util_find_format` returns, of the formats that agree with the template in every field
-- whose flag is set in the mask, the one that stands at the number asked for, counted from 0; and a null
-- pointer where there are not so many, or the number is negative. `xcb_render_util_find_visual_format`
-- returns the first of all visuals that has the identifier, screen by screen and depth by depth.
pub find_format-eq-filter :
    (reply : PictFormats) (mask visual : ℕ) (template : FormatInfo) (count : ℤ)
    → (find_format (some reply) mask template count ≡ elim count [
      | pos n ↦ get_elem? (filter (λ f. agree mask (fields template) (fields f)) reply.formats) n
      | negsuc n ↦ none
    ])
      × (find_visual_format (some reply) visual
          ≡ first_match (λ v. v.visual == visual) (concat (map concat reply.screens)))
unfolding find_format find_visual_format nth
find_format-eq-filter reply mask visual template (pos n) =
    (from-filter mask template reply.formats (pos n), in_screens reply.screens visual)
find_format-eq-filter reply mask visual template (negsuc n) =
    (from-filter mask template reply.formats (negsuc n), in_screens reply.screens visual)
