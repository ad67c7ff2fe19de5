-- ===== src/Renderutil/Cache/Depths.antt =====
-- renderutil/cache.c: can pixmaps of all depths that Render requires be made on every screen?
pub mod Required
use xcb_util.Prelude.{
  ℕ, zero, suc, ◌+◌, ◌-◌, ◌*◌, ◌^◌, ◌%◌, ◌/◌, ◌≡◌, List, [], ◌∷◌, Bool, true, false, ◌&&◌, ◌||◌,
  not, ltb, ◌==◌, if◌then◌else◌, bit_and, not32, Outcome, done, fault, ◌>>=◌,
}

-- One depth: the sequence numbers of `CreatePixmap` and of `FreePixmap`, zero where the connection is
-- lost, and whether `xcb_request_check` finds an error for the first.
pub record Attempt : Type 0 where
  pub create_sequence : ℕ
  pub free_sequence : ℕ
  pub create_error : Bool

pub record Screen : Type 0 where
  pub root : ℕ
  pub depths : List ℕ

-- The server: its screens, the id that `xcb_generate_id` gives, and how it answers the requests for a
-- pixmap with this id, this root and this depth.
pub record Server : Type 0 where
  pub screens : List Screen
  pub generate_id : ℕ
  pub attempt : ℕ → ℕ → ℕ → Attempt

-- `DEPTH_MASK`: a shift by less than zero or by more than 31 bits is undefined.
unfoldable pub depth_mask : ℕ → Outcome ℕ
depth_mask d = if d == 0 || ltb 32 d then fault else done (2 ^ (d - 1))

-- `REQUIRED_DEPTHS`: 1, 4, 8, 24 and 32.
abbrev pub required_depths : ℕ
required_depths = 2 ^ 0 + 2 ^ 3 + 2 ^ 7 + 2 ^ 23 + 2 ^ 31

-- The loop over the depths that a screen advertises.
unfoldable pub missing_depths : List ℕ → ℕ → Outcome ℕ
missing_depths [] missing = done missing
missing_depths (d ∷ ds) missing = do
  mask ← depth_mask d
  missing_depths ds (bit_and missing (not32 mask))

abbrev pub is_sent : Attempt → Bool
is_sent a = not (a.create_sequence == 0) || not (a.free_sequence == 0)

abbrev pub no_attempt : Attempt
no_attempt = record { create_sequence = 0; free_sequence = 0; create_error = false }

-- The first loop, at index `i` with `n` to go: the cookies, and `success`. After `break` the other
-- cookies stay zero; they are left out.
unfoldable pub create_pixmaps : (ℕ → Attempt) → ℕ → ℕ → ℕ → List Attempt × Bool
create_pixmaps attempt missing zero i = ([], true)
create_pixmaps attempt missing (suc n) i =
    let (cookies, success) = create_pixmaps attempt missing n (i + 1) in
    let a = attempt (i + 1) in
    if bit_and missing (2 ^ i) == 0
    then (no_attempt ∷ cookies, success)
    else if a.create_sequence == 0 || a.free_sequence == 0
    then (a ∷ [], false)
    else (a ∷ cookies, success)

-- The second loop.
unfoldable pub check_pixmaps : List Attempt → Bool → Bool
check_pixmaps [] success = success
check_pixmaps (a ∷ cookies) success =
    check_pixmaps cookies (if is_sent a then success && not a.create_error else success)

unfoldable pub pixmap_depths_usable : (ℕ → Attempt) → ℕ → Bool
pixmap_depths_usable attempt missing =
    let (cookies, success) = create_pixmaps attempt missing 32 0 in check_pixmaps cookies success

module _ (server : Server) where
  -- One screen, with `pixmap` before it: `pixmap` after it, and whether the loop goes on.
  unfoldable pub check_screen : Screen → ℕ → Outcome (ℕ × Bool)
  check_screen screen pixmap =
      let p = if pixmap == 2 ^ 32 - 1 then server.generate_id else pixmap in
      do
        missing ← missing_depths screen.depths required_depths
        done (
            if missing == 0
            then (pixmap, true)
            else (p, pixmap_depths_usable (server.attempt p screen.root) missing))

  -- The loop over the screens.
  unfoldable pub check_screens : List Screen → ℕ → Outcome Bool
  check_screens [] pixmap = done true
  check_screens (screen ∷ screens) pixmap = check_screen screen pixmap >>= λ (p, usable).
      elim usable [ true ↦ check_screens screens p | false ↦ done false ]

  unfoldable pub has_required_depths : Outcome Bool
  has_required_depths = check_screens server.screens (2 ^ 32 - 1)
