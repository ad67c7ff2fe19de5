-- ===== src/Aux/Color.antt =====
-- `xcb_aux_parse_color` reads `#RGB`, `#RRGGBB`, `#RRRGGGBBB` and `#RRRRGGGGBBBB`.
use native.Mathlib.Nat.{pow-suc, pow-le-pow_right, add-zero}
use mathlib.Core.List.{append-nil}
use xcb_util.Prelude.{
  true, ◌||◌, ℕ, zero, suc, ◌+◌, ◌-◌, ◌*◌, ◌/◌, ◌^◌, ◌≤◌, ◌<◌, ◌≡◌, ◌⊎◌, refl, leb, if◌then◌else◌,
  List, [], ◌∷◌, ◌++◌, arith, length, length-append, ◌==◌, Option, some, subst, All, u16, ◌<<<◌,
}
use xcb_util.Bits.{bit_or_fields}
use xcb_util.Aux.{hex_digit, component, components, parse_color}

-- The digits `0` to `9`, `A` to `F` and `a` to `f`, each with its value.
abbrev pub IsDigit : ℕ → ℕ → Type 0
IsDigit c d =
    ((d < 10) × (c ≡ b'0' + d))
    ⊎ ((10 ≤ d) × (d < 16) × (c + 10 ≡ b'A' + d))
    ⊎ ((10 ≤ d) × (d < 16) × (c + 10 ≡ b'a' + d))

abbrev pub IsHex : ℕ → Type 0
IsHex c = (d : ℕ) × IsDigit c d

-- The value of a digit, and of a run of digits after a number `b`.
unfoldable pub digit_value : ℕ → ℕ
digit_value c =
    if leb c b'9' then c - b'0' else if leb c b'F' then 10 + (c - b'A') else 10 + (c - b'a')

unfoldable pub hex_value : ℕ → List ℕ → ℕ
hex_value b [] = b
hex_value b (c ∷ cs) = hex_value (b * 16 + digit_value c) cs

hex_digit-lt : (c d : ℕ) → IsDigit c d → d < 16
hex_digit-lt c d h = ground arith

hex_digit_lem : (c d : ℕ) → IsDigit c d → hex_digit c ≡ some d
unfolding hex_digit
hex_digit_lem c d h = ground arith

digit_value_lem : (c d : ℕ) → IsDigit c d → digit_value c ≡ d
unfolding digit_value
digit_value_lem c d h = ground arith

component-hex :
    (ds rest : List ℕ) (b k : ℕ)
    → All IsHex ds
    → b < 16 ^ k
    → k + length ds ≤ 4
    → component (length ds) b (ds ++ rest) ≡ some (hex_value b ds, rest)
unfolding component hex_value
component-hex [] rest b k h small len = refl
component-hex (c ∷ ds) rest b k h small len =
    let (d, e) = h.0 in
    let bound : 16 ^ k ≤ 16 ^ 3 =
      pow-le-pow_right {n = 16} (omega arith) {i = k} {j = 3} (omega arith) in
    let lt : d < 16 = hex_digit-lt c d e in
    let left : b <<< 4 ≡ b * 2 ^ 4 = omega arith in
    rw (component, hex_digit_lem c d e, left, bit_or_fields 4 b d lt, digit_value_lem c d e)
      (component-hex ds rest (b * 16 + d) (suc k) h.1 (omega (arith, pow-suc 16 k)) (omega arith))

hex_value-lt :
    (ds : List ℕ) (b k : ℕ) → b < 16 ^ k → All IsHex ds → hex_value b ds < 16 ^ (k + length ds)
unfolding hex_value
hex_value-lt [] b k small h = rw add-zero small
hex_value-lt (c ∷ ds) b k small h =
    let (d, e) = h.0 in
    let lt : d < 16 = hex_digit-lt c d e in
    let s : k + suc (length ds) ≡ suc k + length ds = omega arith in
    rw (digit_value_lem c d e, s)
      (hex_value-lt ds (b * 16 + d) (suc k) (omega (arith, pow-suc 16 k)) h.1)

-- The three components, of one length and not empty.
components-hex :
    (n : ℕ) (r : List ℕ) (g : ℕ) (gs : List ℕ) (b : ℕ) (bs : List ℕ)
    → n ≤ 4
    → length r ≡ n
    → suc (length gs) ≡ n
    → suc (length bs) ≡ n
    → All IsHex r
    → All IsHex (g ∷ gs)
    → All IsHex (b ∷ bs)
    → components 3 n 0 0 0 (r ++ ((g ∷ gs) ++ (b ∷ bs)))
      ≡ some (hex_value 0 r, hex_value 0 (g ∷ gs), hex_value 0 (b ∷ bs))
unfolding components
components-hex n r g gs b bs small er eg eb hr hg hb =
    let pr : component n 0 (r ++ ((g ∷ gs) ++ (b ∷ bs)))
        ≡ some (hex_value 0 r, (g ∷ gs) ++ (b ∷ bs)) =
      subst
        (λ t.
          component t 0 (r ++ ((g ∷ gs) ++ (b ∷ bs))) ≡ some (hex_value 0 r, (g ∷ gs) ++ (b ∷ bs)))
        er (component-hex r ((g ∷ gs) ++ (b ∷ bs)) 0 0 hr (omega arith) (omega arith)) in
    let pg : component n 0 ((g ∷ gs) ++ (b ∷ bs)) ≡ some (hex_value 0 (g ∷ gs), b ∷ bs) =
      subst (λ t. component t 0 ((g ∷ gs) ++ (b ∷ bs)) ≡ some (hex_value 0 (g ∷ gs), b ∷ bs)) eg
        (component-hex (g ∷ gs) (b ∷ bs) 0 0 hg (omega arith) (omega arith)) in
    let pb : component n 0 (b ∷ bs) ≡ some (hex_value 0 (b ∷ bs), []) =
      subst (λ t. component t 0 (b ∷ bs) ≡ some (hex_value 0 (b ∷ bs), [])) eb
        (rw append-nil at (component-hex (b ∷ bs) [] 0 0 hb (omega arith) (omega arith))) in
    rw (components, pr, components, pg, components, pb)

scale : (n v : ℕ) → 1 ≤ n → n ≤ 4 → v < 16 ^ n → u16 (v <<< (16 - n * 4)) ≡ v * 2 ^ (16 - n * 4)
scale zero v h h' small = absurd (omega arith)
scale (suc zero) v h h' small = omega arith
scale (suc (suc zero)) v h h' small = omega arith
scale (suc (suc (suc zero))) v h h' small = omega arith
scale (suc (suc (suc (suc zero)))) v h h' small = omega arith
scale (suc (suc (suc (suc (suc n))))) v h h' small = absurd (omega arith)

length-name :
    (n : ℕ) (r gs bs : List ℕ) (g b : ℕ)
    → length r ≡ n
    → suc (length gs) ≡ n
    → suc (length bs) ≡ n
    → length (r ++ ((g ∷ gs) ++ (b ∷ bs))) ≡ n * 3
length-name n r gs bs g b er eg eb =
    rw (length-append r ((g ∷ gs) ++ (b ∷ bs)), length-append (g ∷ gs) (b ∷ bs)) (omega arith)

some-eq :
    {r r' g g' b b' : ℕ}
    → r ≡ r'
    → g ≡ g'
    → b ≡ b'
    → ◌≡◌ {A = Option (ℕ × ℕ × ℕ)} (some (r, g, b)) (some (r', g', b'))
some-eq er eg eb = cc

-- A name `#` followed by three runs of hexadecimal digits of one length `n` from 1 to 4 is read as
-- the three numbers the runs spell, a digit from `A` to `F` or from `a` to `f` for 10 to 15, each moved to the top `n` digits of a 16-bit component.
pub parse_color-eq-hex_values :
    (n : ℕ) (r : List ℕ) (g : ℕ) (gs : List ℕ) (b : ℕ) (bs : List ℕ)
    → 1 ≤ n
    → n ≤ 4
    → length r ≡ n
    → suc (length gs) ≡ n
    → suc (length bs) ≡ n
    → All IsHex r
    → All IsHex (g ∷ gs)
    → All IsHex (b ∷ bs)
    → parse_color (b'#' ∷ (r ++ ((g ∷ gs) ++ (b ∷ bs))))
      ≡ some (
        hex_value 0 r * 2 ^ (16 - n * 4),
        hex_value 0 (g ∷ gs) * 2 ^ (16 - n * 4),
        hex_value 0 (b ∷ bs) * 2 ^ (16 - n * 4),
      )
unfolding parse_color
parse_color-eq-hex_values n r g gs b bs low high er eg eb hr hg hb =
    let len : length (r ++ ((g ∷ gs) ++ (b ∷ bs))) ≡ n * 3 = length-name n r gs bs g b er eg eb in
    let third : n * 3 / 3 ≡ n = omega arith in
    let lengths : (n * 3 == 3 || (n * 3 == 6 || (n * 3 == 9 || n * 3 == 12))) ≡ true =
      ground arith in
    let runs = components-hex n r g gs b bs high er eg eb hr hg hb in
    let zr : 0 + length r ≡ n = omega arith in
    let zg : 0 + suc (length gs) ≡ n = omega arith in
    let zb : 0 + suc (length bs) ≡ n = omega arith in
    let bound_r : hex_value 0 r < 16 ^ n =
      subst (λ t. hex_value 0 r < 16 ^ t) zr (hex_value-lt r 0 0 (omega arith) hr) in
    let bound_g : hex_value 0 (g ∷ gs) < 16 ^ n =
      subst (λ t. hex_value 0 (g ∷ gs) < 16 ^ t) zg (hex_value-lt (g ∷ gs) 0 0 (omega arith) hg) in
    let bound_b : hex_value 0 (b ∷ bs) < 16 ^ n =
      subst (λ t. hex_value 0 (b ∷ bs) < 16 ^ t) zb (hex_value-lt (b ∷ bs) 0 0 (omega arith) hb) in
    rw (parse_color, len, lengths, third, runs, len, third)
      (some-eq (scale n (hex_value 0 r) low high bound_r)
        (scale n (hex_value 0 (g ∷ gs)) low high bound_g)
        (scale n (hex_value 0 (b ∷ bs)) low high bound_b))
