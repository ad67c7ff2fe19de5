-- ===== src/Aux/Screens.antt =====
-- The searches of aux/xcb_aux.c through the screens, depths and visuals of the setup. An iterator of
-- libxcb is the list of what is left; `rem` is its length.
pub mod Search
use xcb_util.Prelude.{
  ℕ, zero, suc, ◌+◌, ◌-◌, List, [], ◌∷◌, length, Bool, true, false, ltb, ◌==◌, if◌then◌else◌,
  Option, some, none, Outcome, done, fault, ℤ, pos, negsuc,
}

-- What the code reads of `xcb_visualtype_t`, `xcb_depth_t` and `xcb_screen_t`.
pub record Visual : Type 0 where
  pub visual_id : ℕ
  pub class : ℕ

pub record Depth : Type 0 where
  pub depth : ℕ
  pub visuals : List Visual

pub record Screen : Type 0 where
  pub allowed_depths : List Depth

-- A loop over the visuals of a depth that looks for an identifier, or for a class, where -1 stands for
-- every one.
unfoldable pub visual_by_id : List Visual → ℕ → Option Visual
visual_by_id [] id = none
visual_by_id (v ∷ vs) id = if v.visual_id == id then some v else visual_by_id vs id

abbrev pub fits : ℤ → ℕ → Bool
fits (pos n) m = n == m
fits (negsuc zero) m = true
fits (negsuc (suc n)) m = false

unfoldable pub visual_by_class : List Visual → ℤ → Option Visual
visual_by_class [] class = none
visual_by_class (v ∷ vs) class = if fits class v.class then some v else visual_by_class vs class

-- `xcb_aux_get_depth_of_visual`, from a place of the outer loop on; 0 where there is no such visual.
unfoldable pub depth_of_visual : List Depth → ℕ → ℕ
depth_of_visual [] id = 0
depth_of_visual (d ∷ ds) id = elim (visual_by_id d.visuals id) [
  | none ↦ depth_of_visual ds id
  | some v ↦ d.depth
]

unfoldable pub get_depth_of_visual : Screen → ℕ → ℕ
get_depth_of_visual screen id = depth_of_visual screen.allowed_depths id

-- `xcb_aux_find_visual_by_id`
unfoldable pub visual_of_depths : List Depth → ℕ → Option Visual
visual_of_depths [] id = none
visual_of_depths (d ∷ ds) id = elim (visual_by_id d.visuals id) [
  | none ↦ visual_of_depths ds id
  | some v ↦ some v
]

unfoldable pub find_visual_by_id : Screen → ℕ → Option Visual
find_visual_by_id screen id = visual_of_depths screen.allowed_depths id

-- `xcb_aux_find_visual_by_attrs`
unfoldable pub attrs_of_depths : List Depth → ℤ → ℤ → Option Visual
attrs_of_depths [] class depth = none
attrs_of_depths (d ∷ ds) class depth =
    let rest = attrs_of_depths ds class depth in
    let here : Option Visual = elim (visual_by_class d.visuals class) [
      | none ↦ rest
      | some v ↦ some v
    ] in
    if fits depth d.depth then here else rest

unfoldable pub find_visual_by_attrs : Screen → ℤ → ℤ → Option Visual
find_visual_by_attrs screen class depth = attrs_of_depths screen.allowed_depths class depth

-- `xcb_aux_get_screen`: a negative number is never counted down to 0.
unfoldable pub nth_screen : List Screen → ℕ → Option Screen
nth_screen [] screen = none
nth_screen (s ∷ ss) zero = some s
nth_screen (s ∷ ss) (suc screen) = nth_screen ss screen

unfoldable pub get_screen : List Screen → ℤ → Option Screen
get_screen roots (pos screen) = nth_screen roots screen
get_screen roots (negsuc n) = none

-- The loop of `xcb_aux_get_visualtype`: `cur < iter.rem` compares with what is left, and
-- `xcb_visualtype_next` makes it one less in every round.
unfoldable pub visualtype_from : ℕ → List Visual → ℕ → Option Visual
visualtype_from cur [] vid = none
visualtype_from cur (v ∷ vs) vid =
    let rest = visualtype_from (suc cur) vs vid in
    if ltb cur (suc (length vs)) then (if vid == v.visual_id then some v else rest) else none

-- `xcb_aux_get_visualtype`: it looks at the first depth of the screen. The pointer to it is not null
-- for a screen without depths, and is read all the same.
unfoldable pub get_visualtype : List Screen → ℤ → ℕ → Outcome (Option Visual)
get_visualtype roots scr vid = elim (get_screen roots scr) [
  | none ↦ done none
  | some screen ↦ elim (screen.allowed_depths) [
    | [] ↦ fault
    | depth ∷ ds ↦ done (visualtype_from 0 depth.visuals vid)
  ]
]
