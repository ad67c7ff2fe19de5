-- ===== src/Renderutil/Cache/Depths/Required.antt =====
-- The depths that are tried are the required ones that a screen does not advertise.
use xcb_util.Prelude.{
  ℕ, zero, suc, ◌+◌, ◌-◌, ◌*◌, ◌^◌, ◌%◌, ◌/◌, ◌≡◌, ◌<◌, ◌≤◌, refl, sym, ap, ◌∙◌, List, [], ◌∷◌,
  Bool, true, false, ◌&&◌, ◌||◌, not, ltb, ◌==◌, if◌then◌else◌, bit_and, not32, done, All, arith,
  Bool-cases, inl, inr, ap₂,
}
use native.Mathlib.Nat.{pow-suc}
use xcb_util.Bits.{bit_and-zero, all_below, all_below_sound, bit_and_step}
use xcb_util.Bits.Flags.{has, has-bit_and}
use xcb_util.Renderutil.Cache.Depths.{
  Attempt, Screen, Server, depth_mask, required_depths, missing_depths, create_pixmaps,
  check_pixmaps, is_sent, pixmap_depths_usable, check_screen, check_screens, has_required_depths,
}

-- One flag of a mask.
bit_and-pow : (n i : ℕ) → (bit_and n (2 ^ i) == 0) ≡ not (has n i)
unfolding has
bit_and-pow n zero = ground (arith, bit_and_step n 1, bit_and-zero (n / 2))
bit_and-pow n (suc i) =
    let half : 2 ^ suc i / 2 ≡ 2 ^ i = omega (arith, pow-suc 2 i) in
    let even : 2 ^ suc i % 2 ≡ 0 = omega (arith, pow-suc 2 i) in
    let e : bit_and n (2 ^ suc i) ≡ bit_and (n / 2) (2 ^ i) * 2 =
      bit_and_step n (2 ^ suc i) ∙ ground (arith, ap (bit_and (n / 2)) half, even) in
    ground (arith, e, bit_and-pow (n / 2) i)

abbrev same_bool : Bool → Bool → Bool
same_bool true b = b
same_bool false b = not b

same : (a b : Bool) → same_bool a b ≡ true → a ≡ b
same a b h = ground arith

-- All flags but one.
has-not32 : (i j : ℕ) → i < 32 → j < 32 → has (not32 (2 ^ i)) j ≡ not (i == j)
unfolding all_below has
has-not32 i j h h' = same _ _ (
    all_below_sound 32 (λ j'. same_bool (has (not32 (2 ^ i)) j') (not (i == j'))) j
      (all_below_sound 32
        (λ i'. all_below 32 (λ j'. same_bool (has (not32 (2 ^ i')) j') (not (i' == j')))) i refl h)
      h')

-- Is a number in a list?
unfoldable pub member : ℕ → List ℕ → Bool
member n [] = false
member n (x ∷ xs) = n == x || member n xs

-- A test on a list, on all elements.
unfoldable pub every {ℓ} : {A : Type ℓ} → (A → Bool) → List A → Bool
every test [] = true
every test (x ∷ xs) = test x && every test xs

-- A pixmap of the depth can be made.
abbrev pub works : Attempt → Bool
works a = not (a.create_sequence == 0 || a.free_sequence == 0) && not a.create_error

abbrev pub IsDepth : ℕ → Type 0
IsDepth d = (1 ≤ d) × (d ≤ 32)

and_true : (a : Bool) → a ≡ (a && true)
and_true a = ground arith

rearrange : (at a b : Bool) → ((not at && a) && not b) ≡ (a && not (at || b))
rearrange at a b = ground arith

missing_depths_lem :
    (ds : List ℕ) (m : ℕ)
    → All IsDepth ds
    → (r : ℕ) × (missing_depths ds m ≡ done r)
      × ((i : ℕ) → i < 32 → has r i ≡ (has m i && not (member (i + 1) ds)))
unfolding missing_depths member depth_mask
missing_depths_lem [] m h = (m, refl, λ i lt. and_true (has m i))
missing_depths_lem (d ∷ ds) m ((low, high), h) =
    let (r, e, f) = missing_depths_lem ds (bit_and m (not32 (2 ^ (d - 1)))) h in
    let defined : (d == 0 || ltb 32 d) ≡ false = ground (arith, low, high) in
    (
      r,
      rw (defined, e) refl,
      λ i lt.
          let at : (d - 1 == i) ≡ (i + 1 == d) = ground (arith, low) in
          f i lt
          ∙ ap (λ b. b && not (member (i + 1) ds)) (has-bit_and m (not32 (2 ^ (d - 1))) i)
          ∙ rw (has-not32 (d - 1) i (omega (arith, low, high)) lt, at)
              (rearrange (i + 1 == d) (has m i) (member (i + 1) ds)),
    )

and_comm : (a b : Bool) → (a && b) ≡ (b && a)
and_comm a b = ground arith

swap : (a b c : Bool) → ((a && b) && c) ≡ ((a && c) && b)
swap a b c = ground arith

check_pixmaps-and :
    (cookies : List Attempt) (a b : Bool)
    → check_pixmaps cookies (a && b) ≡ (check_pixmaps cookies a && b)
unfolding check_pixmaps
check_pixmaps-and [] a b = refl
check_pixmaps-and (c ∷ cookies) a b = elim (Bool-cases (is_sent c)) [
  | inr q ↦ rw q (check_pixmaps-and cookies a b)
  | inl q ↦
      let r = not c.create_error in
      rw q (
        check_pixmaps-and cookies (a && b) r
        ∙ ap (λ t. t && r) (check_pixmaps-and cookies a b)
        ∙ swap (check_pixmaps cookies a) b r
        ∙ ap (λ t. t && b) (sym (check_pixmaps-and cookies a r)))
]

-- A test on `n` numbers from `i` on.
every_from : (ℕ → Bool) → ℕ → ℕ → Bool
every_from test zero i = true
every_from test (suc n) i = test i && every_from test n (i + 1)

tried_lem :
    (attempt : ℕ → Attempt) (missing n i : ℕ)
    → (let (cookies, success) = create_pixmaps attempt missing n i in check_pixmaps cookies success)
      ≡ every_from (λ i'. not (has missing i') || works (attempt (i' + 1))) n i
unfolding create_pixmaps check_pixmaps every_from
tried_lem attempt missing zero i = refl
tried_lem attempt missing (suc n) i =
    let a = attempt (i + 1) in
    let rest = create_pixmaps attempt missing n (i + 1) in
    elim (Bool-cases (has missing i)) [
      | inr q ↦ rw (bit_and-pow missing i, q) (tried_lem attempt missing n (i + 1))
      | inl q ↦ elim (Bool-cases (a.create_sequence == 0 || a.free_sequence == 0)) [
        | inl lost ↦ rw (bit_and-pow missing i, q, lost) (ground arith)
        | inr kept ↦
            let sent : is_sent a ≡ true = ground (arith, kept) in
            let free_of = not a.create_error in
            rw (bit_and-pow missing i, q, kept, check_pixmaps, sent)
              (check_pixmaps-and rest.0 rest.1 free_of
                ∙ ap (λ t. t && free_of) (tried_lem attempt missing n (i + 1))
                ∙ and_comm _ free_of)
      ]
    ]

every_from-same :
    (f g : ℕ → Bool) (n i : ℕ)
    → ((j : ℕ) → j < i + n → f j ≡ g j)
    → every_from f n i ≡ every_from g n i
unfolding every_from
every_from-same f g zero i h = refl
every_from-same f g (suc n) i h =
    ap₂ (λ a b. a && b) (h i (omega arith))
      (every_from-same f g n (i + 1) (λ j lt. h j (omega arith)))

-- The depths that Render requires.
abbrev pub render_depths : List ℕ
render_depths = 1 ∷ 4 ∷ 8 ∷ 24 ∷ 32 ∷ []

-- A screen has a depth that it advertises, or one that a pixmap can be made of.
abbrev pub supported : Server → Screen → ℕ → Bool
supported server screen d =
    member d screen.depths || works (server.attempt server.generate_id screen.root d)

required_step : (r a w : Bool) → (not (r && not a) || w) ≡ (not r || (a || w))
required_step r a w = ground arith

usable_lem :
    (ds : List ℕ) (attempt : ℕ → Attempt) (m : ℕ)
    → ((i : ℕ) → i < 32 → has m i ≡ (has required_depths i && not (member (i + 1) ds)))
    → pixmap_depths_usable attempt m ≡ every (λ d. member d ds || works (attempt d)) render_depths
unfolding pixmap_depths_usable every_from has every
usable_lem ds attempt m h =
    tried_lem attempt m 32 0
    ∙ every_from-same _
        (λ i. not (has required_depths i) || (member (i + 1) ds || works (attempt (i + 1)))) 32 0
        (λ j lt.
          ap (λ b. not b || works (attempt (j + 1))) (h j lt)
          ∙ required_step (has required_depths j) (member (j + 1) ds) (works (attempt (j + 1))))
    ∙ refl

usable_nothing : (attempt : ℕ → Attempt) → pixmap_depths_usable attempt 0 ≡ true
unfolding pixmap_depths_usable create_pixmaps check_pixmaps
usable_nothing attempt = refl

every-cons {ℓ} :
    {A : Type ℓ} (test : A → Bool) (x : A) (xs : List A)
    → every test (x ∷ xs) ≡ (test x && every test xs)
unfolding every
every-cons test x xs = refl

every-nil {ℓ} : {A : Type ℓ} (test : A → Bool) → every test [] ≡ true
unfolding every
every-nil test = refl

again : (id : ℕ) → (if id == 2 ^ 32 - 1 then id else id) ≡ id
again id = ground arith

-- The id that is tried.
abbrev IsKnown : Server → ℕ → Type 0
IsKnown server pixmap =
    (if pixmap == 2 ^ 32 - 1 then server.generate_id else pixmap) ≡ server.generate_id

check_screen_lem :
    (server : Server) (screen : Screen) (pixmap : ℕ)
    → IsKnown server pixmap
    → All IsDepth screen.depths
    → (p : ℕ) × (check_screen server screen pixmap
        ≡ done (p, every (supported server screen) render_depths))
      × IsKnown server p
unfolding check_screen
check_screen_lem server screen pixmap known valid =
    let (m, e, f) = missing_depths_lem screen.depths required_depths valid in
    let attempt = server.attempt server.generate_id screen.root in
    let u = usable_lem screen.depths attempt m f in
    elim (Bool-cases (m == 0)) [
      | inl zero_left ↦
          let is : m ≡ 0 = ground (arith, zero_left) in
          let all = sym (sym (ap (pixmap_depths_usable attempt) is ∙ usable_nothing attempt) ∙ u) in
          (pixmap, rw e (rw (zero_left, all) refl), known)
      | inr some_left ↦
          (server.generate_id, rw e (rw (some_left, known, u) refl), again server.generate_id)
    ]

-- The id is generated at most once, and every try then uses it.
check_screens_lem :
    (server : Server) (screens : List Screen) (pixmap : ℕ)
    → IsKnown server pixmap
    → All (λ screen. All IsDepth screen.depths) screens
    → check_screens server screens pixmap
      ≡ done (every (λ screen. every (supported server screen) render_depths) screens)
unfolding check_screens
check_screens_lem server [] pixmap known h = rw every-nil refl
check_screens_lem server (screen ∷ screens) pixmap known (valid, h) =
    let all : Screen → Bool = λ screen'. every (supported server screen') render_depths in
    let (p, e, known') = check_screen_lem server screen pixmap known valid in
    let rest = check_screens_lem server screens p known' h in
    elim (Bool-cases (all screen)) [
      | inl q ↦ rw (every-cons all screen screens, e, q) rest
      | inr q ↦ rw (every-cons all screen screens, e, q) refl
    ]

-- `has_required_depths` finds out whether every screen has the depths 1, 4, 8, 24 and 32: the screen
-- advertises the depth, or a pixmap of it can be made and freed, where the connection is not lost and the
-- server reports no error. The depths that the server advertises are from 1 to 32.
pub has_required_depths-eq-every :
    (server : Server)
    → All (λ screen. All IsDepth screen.depths) server.screens
    → has_required_depths server
      ≡ done (every (λ screen. every (supported server screen) render_depths) server.screens)
unfolding has_required_depths
has_required_depths-eq-every server h = check_screens_lem server server.screens (2 ^ 32 - 1) refl h
