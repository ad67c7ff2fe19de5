-- ===== src/Icccm/WmHints/View.antt =====
-- What a reader of the window manager hints sees, and how the setters change it.
use xcb_util.Prelude.{
  ℕ, ◌≡◌, refl, ap, ◌∙◌, Bool, true, List, [], ◌∷◌, if◌then◌else◌, ◌||◌, Option, some, none, bit_or,
}
use xcb_util.Bits.Flags.{has, has_or, has_and}
use xcb_util.Icccm.WmHints.{
  WmHints, set_input, set_iconic, set_normal, set_withdrawn, set_none, set_icon_pixmap,
  set_icon_mask, set_icon_window, set_window_group, set_urgency, hint_input, hint_state,
  hint_icon_pixmap, hint_icon_mask, hint_icon_window, hint_window_group, hint_urgency, state_iconic,
  state_normal, state_withdrawn,
}

pub record Hints : Type 0 where
  pub input : Option ℕ
  pub initial_state : Option ℕ
  pub icon_pixmap : Option ℕ
  pub icon_window : Option ℕ
  pub icon_position : Option (ℕ × ℕ)
  pub icon_mask : Option ℕ
  pub window_group : Option ℕ
  pub urgent : Bool

abbrev when : {A : Type 0} → Bool → A → Option A
when b a = if b then some a else none

-- The hints whose flags are set.
unfoldable pub view_of : (ℕ → Bool) → WmHints → Hints
view_of flag h = record {
  input = when (flag 0) h.input;
  initial_state = when (flag 1) h.initial_state;
  icon_pixmap = when (flag 2) h.icon_pixmap;
  icon_window = when (flag 3) h.icon_window;
  icon_position = when (flag 4) (h.icon_x, h.icon_y);
  icon_mask = when (flag 5) h.icon_mask;
  window_group = when (flag 6) h.window_group;
  urgent = flag 8;
}

abbrev pub view : WmHints → Hints
view h = view_of (has h.flags) h

-- A setter, by the hint that it changes.
pub data Change : Type 0 where
  iconic normal withdrawn no_state urgency : Change
  input icon_pixmap icon_mask icon_window window_group : ℕ → Change

unfoldable pub apply : Change → WmHints → WmHints
apply iconic h = set_iconic h
apply normal h = set_normal h
apply withdrawn h = set_withdrawn h
apply no_state h = set_none h
apply urgency h = set_urgency h
apply (input a) h = set_input h a
apply (icon_pixmap a) h = set_icon_pixmap h a
apply (icon_mask a) h = set_icon_mask h a
apply (icon_window a) h = set_icon_window h a
apply (window_group a) h = set_window_group h a

unfoldable pub apply_view : Change → Hints → Hints
apply_view iconic v = record v { initial_state = some state_iconic }
apply_view normal v = record v { initial_state = some state_normal }
apply_view withdrawn v = record v { initial_state = some state_withdrawn }
apply_view no_state v = record v { initial_state = none }
apply_view urgency v = record v { urgent = true }
apply_view (input a) v = record v { input = some a }
apply_view (icon_pixmap a) v = record v { icon_pixmap = some a }
apply_view (icon_mask a) v = record v { icon_mask = some a }
apply_view (icon_window a) v = record v { icon_window = some a }
apply_view (window_group a) v = record v { window_group = some a }

unfoldable pub apply_all : List Change → WmHints → WmHints
apply_all [] h = h
apply_all (c ∷ cs) h = apply_all cs (apply c h)

unfoldable pub apply_view_all : List Change → Hints → Hints
apply_view_all [] v = v
apply_view_all (c ∷ cs) v = apply_view_all cs (apply_view c v)

module _ (h : WmHints) where
  -- The flags of a setter that adds the flag `c`.
  added :
      (c : ℕ) (h' : WmHints)
      → view_of (has (bit_or h.flags c)) h' ≡ view_of (λ i. has c i || has h.flags i) h'
  added c h' = ap (λ f. view_of f h') (has_or h.flags c)

  view-apply : (c : Change) → view (apply c h) ≡ apply_view c (view h)
  unfolding set_input set_iconic set_normal set_withdrawn set_none set_icon_pixmap set_icon_mask
      set_icon_window set_window_group set_urgency apply apply_view view_of has
  view-apply iconic = added hint_state (set_iconic h) ∙ refl
  view-apply normal = added hint_state (set_normal h) ∙ refl
  view-apply withdrawn = added hint_state (set_withdrawn h) ∙ refl
  view-apply no_state = ap (λ f. view_of f (set_none h)) (has_and h.flags 0xffff_fffd) ∙ refl
  view-apply urgency = added hint_urgency (set_urgency h) ∙ refl
  view-apply (input a) = added hint_input (set_input h a) ∙ refl
  view-apply (icon_pixmap a) = added hint_icon_pixmap (set_icon_pixmap h a) ∙ refl
  view-apply (icon_mask a) = added hint_icon_mask (set_icon_mask h a) ∙ refl
  view-apply (icon_window a) = added hint_icon_window (set_icon_window h a) ∙ refl
  view-apply (window_group a) = added hint_window_group (set_window_group h a) ∙ refl

-- Any sequence of calls of the setters changes what a reader of the window manager hints sees as the
-- same changes of single hints do; `xcb_wm_hints_set_none` takes the initial state away, and no setter
-- touches a hint that it is not named for.
pub wm_view-apply_all :
    (cs : List Change) (h : WmHints) → view (apply_all cs h) ≡ apply_view_all cs (view h)
unfolding apply_all apply_view_all
wm_view-apply_all [] h = refl
wm_view-apply_all (c ∷ cs) h =
    wm_view-apply_all cs (apply c h) ∙ ap (apply_view_all cs) (view-apply h c)
