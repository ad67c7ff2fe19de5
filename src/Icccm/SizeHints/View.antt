-- ===== src/Icccm/SizeHints/View.antt =====
-- What a reader of the size hints sees: each hint with its values, or that it is not there. Every
-- setter changes the one hint that it is named for.
use xcb_util.Prelude.{
  ℕ, ◌≡◌, refl, ap, ◌∙◌, Bool, true, false, List, [], ◌∷◌, if◌then◌else◌, ◌&&◌, ◌||◌, Option, some,
  none, bit_or, bit_and,
}
use xcb_util.Bits.Flags.{has, has_or, has_and_or}
use xcb_util.Icccm.SizeHints.{
  SizeHints, set_position, set_size, set_min_size, set_max_size, set_resize_inc, set_aspect,
  set_base_size, set_win_gravity, us_position, p_position, us_size, p_size, p_min_size, p_max_size,
  p_resize_inc, p_aspect, base_size, p_win_gravity,
}

-- A position and a size come from the user (`true`) or from the program.
pub record Hints : Type 0 where
  pub position : Option (Bool × ℕ × ℕ)
  pub size : Option (Bool × ℕ × ℕ)
  pub min_size : Option (ℕ × ℕ)
  pub max_size : Option (ℕ × ℕ)
  pub resize_inc : Option (ℕ × ℕ)
  pub aspect : Option (ℕ × ℕ × ℕ × ℕ)
  pub base : Option (ℕ × ℕ)
  pub gravity : Option ℕ

abbrev pub when : {A : Type 0} → Bool → A → Option A
when b a = if b then some a else none

abbrev pub from : Bool → Bool → ℕ → ℕ → Option (Bool × ℕ × ℕ)
from user program x y =
    if user then some (true, x, y) else if program then some (false, x, y) else none

-- The hints whose flags are set.
unfoldable pub view_of : (ℕ → Bool) → SizeHints → Hints
view_of flag h = record {
  position = from (flag 0) (flag 2) h.x h.y;
  size = from (flag 1) (flag 3) h.width h.height;
  min_size = when (flag 4) (h.min_width, h.min_height);
  max_size = when (flag 5) (h.max_width, h.max_height);
  resize_inc = when (flag 6) (h.width_inc, h.height_inc);
  aspect = when (flag 7) (h.min_aspect_num, h.min_aspect_den, h.max_aspect_num, h.max_aspect_den);
  base = when (flag 8) (h.base_width, h.base_height);
  gravity = when (flag 9) h.win_gravity;
}

abbrev pub view : SizeHints → Hints
view h = view_of (has h.flags) h

-- A setter, by the hint that it changes and its new value.
pub data Change : Type 0 where
  position size : Bool → ℕ → ℕ → Change
  min_size max_size resize_inc base : ℕ → ℕ → Change
  aspect : ℕ → ℕ → ℕ → ℕ → Change
  gravity : ℕ → Change

-- The setter of the library, and the change of the one hint.
unfoldable pub apply : Change → SizeHints → SizeHints
apply (position user a b) h = set_position h user a b
apply (size user a b) h = set_size h user a b
apply (min_size a b) h = set_min_size h a b
apply (max_size a b) h = set_max_size h a b
apply (resize_inc a b) h = set_resize_inc h a b
apply (base a b) h = set_base_size h a b
apply (aspect a b c d) h = set_aspect h a b c d
apply (gravity a) h = set_win_gravity h a

unfoldable pub apply_view : Change → Hints → Hints
apply_view (position user a b) v = record v { position = some (user, a, b) }
apply_view (size user a b) v = record v { size = some (user, a, b) }
apply_view (min_size a b) v = record v { min_size = some (a, b) }
apply_view (max_size a b) v = record v { max_size = some (a, b) }
apply_view (resize_inc a b) v = record v { resize_inc = some (a, b) }
apply_view (base a b) v = record v { base = some (a, b) }
apply_view (aspect a b c d) v = record v { aspect = some (a, b, c, d) }
apply_view (gravity a) v = record v { gravity = some a }

unfoldable pub apply_all : List Change → SizeHints → SizeHints
apply_all [] h = h
apply_all (c ∷ cs) h = apply_all cs (apply c h)

unfoldable pub apply_view_all : List Change → Hints → Hints
apply_view_all [] v = v
apply_view_all (c ∷ cs) v = apply_view_all cs (apply_view c v)

module _ (h : SizeHints) where
  -- The flags of a setter that adds the flag `c`.
  added :
      (c : ℕ) (h' : SizeHints)
      → view_of (has (bit_or h.flags c)) h' ≡ view_of (λ i. has c i || has h.flags i) h'
  added c h' = ap (λ f. view_of f h') (has_or h.flags c)

  -- The flags of a setter that first clears a pair.
  moved :
      (b c : ℕ) (h' : SizeHints)
      → view_of (has (bit_or (bit_and h.flags b) c)) h'
        ≡ view_of (λ i. has c i || (has b i && has h.flags i)) h'
  moved b c h' = ap (λ f. view_of f h') (has_and_or h.flags b c)

  view-apply : (c : Change) → view (apply c h) ≡ apply_view c (view h)
  unfolding set_position set_size set_min_size set_max_size set_resize_inc set_aspect set_base_size
      set_win_gravity apply apply_view view_of has
  view-apply (position true a b) = moved 0xffff_fffa us_position (set_position h true a b) ∙ refl
  view-apply (position false a b) = moved 0xffff_fffa p_position (set_position h false a b) ∙ refl
  view-apply (size true a b) = moved 0xffff_fff5 us_size (set_size h true a b) ∙ refl
  view-apply (size false a b) = moved 0xffff_fff5 p_size (set_size h false a b) ∙ refl
  view-apply (min_size a b) = added p_min_size (set_min_size h a b) ∙ refl
  view-apply (max_size a b) = added p_max_size (set_max_size h a b) ∙ refl
  view-apply (resize_inc a b) = added p_resize_inc (set_resize_inc h a b) ∙ refl
  view-apply (base a b) = added base_size (set_base_size h a b) ∙ refl
  view-apply (aspect a b c d) = added p_aspect (set_aspect h a b c d) ∙ refl
  view-apply (gravity a) = added p_win_gravity (set_win_gravity h a) ∙ refl

-- Any sequence of calls of the setters changes what a reader of the size hints sees, as the same
-- changes of single hints do: each setter sets the hint that it is named for, a position or a size
-- with who chose it, and leaves every other hint as it was.
pub view-apply_all :
    (cs : List Change) (h : SizeHints) → view (apply_all cs h) ≡ apply_view_all cs (view h)
unfolding apply_all apply_view_all
view-apply_all [] h = refl
view-apply_all (c ∷ cs) h = view-apply_all cs (apply c h) ∙ ap (apply_view_all cs) (view-apply h c)
