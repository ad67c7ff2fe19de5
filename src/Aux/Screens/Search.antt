-- ===== src/Aux/Screens/Search.antt =====
-- The searches through the visuals of a screen, against one search through all pairs of a depth and a
-- visual, in their order.
use xcb_util.Prelude.{
  first_match, take-nil, ℕ, suc, ◌+◌, ◌-◌, ◌/◌, ◌≡◌, refl, ap, List, [], ◌∷◌, ◌++◌, map, length,
  take, true, false, ◌&&◌, ltb, ◌==◌, dec_lt, Option-cases, Bool-cases, inl, inr, if◌then◌else◌,
  Option, some, none, done, ℤ, arith,
}
use xcb_util.Aux.Screens.{
  Visual, Depth, Screen, fits, visual_by_id, visual_by_class, depth_of_visual, get_depth_of_visual,
  visual_of_depths, find_visual_by_id, attrs_of_depths, find_visual_by_attrs, get_screen,
  visualtype_from, get_visualtype,
}

-- The pairs of a depth and one of its visuals.
unfoldable pub pairs : List Depth → List (ℕ × Visual)
pairs [] = []
pairs (d ∷ ds) = map (λ v. (d.depth, v)) d.visuals ++ pairs ds

abbrev pub visual_of : Option (ℕ × Visual) → Option Visual
visual_of none = none
visual_of (some p) = some p.1

abbrev pub depth_of : Option (ℕ × Visual) → ℕ
depth_of none = 0
depth_of (some p) = p.0

-- The pairs of one depth, and then the others.
match-id :
    (d id : ℕ) (vs : List Visual) (rest : List (ℕ × Visual))
    → first_match (λ p. p.1.visual_id == id) (map (λ v. (d, v)) vs ++ rest)
      ≡ elim (visual_by_id vs id) [
        | none ↦ first_match (λ p. p.1.visual_id == id) rest
        | some v ↦ some (d, v)
      ]
unfolding first_match visual_by_id
match-id d id [] rest = refl
match-id d id (v ∷ vs) rest = elim (Bool-cases (v.visual_id == id)) [
  | inl q ↦ rw q
  | inr q ↦ rw q (match-id d id vs rest)
]

match-attrs :
    (class depth : ℤ) (d : ℕ) (vs : List Visual) (rest : List (ℕ × Visual))
    → first_match (λ p. fits depth p.0 && fits class p.1.class) (map (λ v. (d, v)) vs ++ rest) ≡ (
        if fits depth d
        then elim (visual_by_class vs class) [
          | none ↦ first_match (λ p. fits depth p.0 && fits class p.1.class) rest
          | some v ↦ some (d, v)
        ]
        else first_match (λ p. fits depth p.0 && fits class p.1.class) rest)
unfolding first_match visual_by_class
match-attrs class depth d [] rest = elim (Bool-cases (fits depth d)) [ inl q ↦ rw q | inr q ↦ rw q ]
match-attrs class depth d (v ∷ vs) rest =
    let others = match-attrs class depth d vs rest in
    elim (Bool-cases (fits depth d)) [
      | inl q ↦ elim (Bool-cases (fits class v.class)) [
        | inl r ↦ rw (q, r)
        | inr r ↦ rw (q, r) (rw q at others)
      ]
      | inr q ↦ rw q (rw q at others)
    ]

depths_by_id :
    (ds : List Depth) (id : ℕ)
    → (visual_of_depths ds id ≡ visual_of (first_match (λ p. p.1.visual_id == id) (pairs ds)))
      × (depth_of_visual ds id ≡ depth_of (first_match (λ p. p.1.visual_id == id) (pairs ds)))
unfolding visual_of_depths depth_of_visual pairs first_match
depths_by_id [] id = (refl, refl)
depths_by_id (d ∷ ds) id =
    let (v, n) = depths_by_id ds id in
    rw (match-id d.depth id d.visuals (pairs ds)) (elim (Option-cases (visual_by_id d.visuals id)) [
      | inl q ↦ rw (visual_of_depths, depth_of_visual, q) (v, n)
      | inr (w, q) ↦ rw (visual_of_depths, depth_of_visual, q) (refl, refl)
    ])

depths_by_attrs :
    (ds : List Depth) (class depth : ℤ)
    → attrs_of_depths ds class depth
      ≡ visual_of (first_match (λ p. fits depth p.0 && fits class p.1.class) (pairs ds))
unfolding attrs_of_depths pairs first_match
depths_by_attrs [] class depth = refl
depths_by_attrs (d ∷ ds) class depth =
    let others = depths_by_attrs ds class depth in
    rw (match-attrs class depth d.depth d.visuals (pairs ds))
      (elim (Bool-cases (fits depth d.depth)) [
        | inl q ↦ elim (Option-cases (visual_by_class d.visuals class)) [
          | inl r ↦ rw (q, r) others
          | inr (w, r) ↦ rw (q, r)
        ]
        | inr q ↦ rw q others
      ])

-- The three searches through a screen are searches through the pairs of a depth and one of its
-- visuals: the visual with an identifier and its depth are those of the first pair with it (0 is the
-- depth if there is none), and the visual with a class and a depth, either of which -1 leaves open,
-- is that of the first pair with both.
pub searches-eq-first_match :
    (screen : Screen) (id : ℕ) (class depth : ℤ)
    → (find_visual_by_id screen id
        ≡ visual_of (first_match (λ p. p.1.visual_id == id) (pairs screen.allowed_depths)))
      × (get_depth_of_visual screen id
          ≡ depth_of (first_match (λ p. p.1.visual_id == id) (pairs screen.allowed_depths)))
      × (find_visual_by_attrs screen class depth
          ≡ visual_of (
              first_match
                (λ p. fits depth p.0 && fits class p.1.class)
                (pairs screen.allowed_depths)))
unfolding find_visual_by_id get_depth_of_visual find_visual_by_attrs
searches-eq-first_match screen id class depth =
    let (v, n) = depths_by_id screen.allowed_depths id in
    (v, n, depths_by_attrs screen.allowed_depths class depth)

half_from :
    (vs : List Visual) (cur vid : ℕ)
    → visualtype_from cur vs vid
      ≡ first_match (λ v. vid == v.visual_id) (take ((length vs - cur + 1) / 2) vs)
unfolding visualtype_from first_match
half_from [] cur vid = rw (take-nil ((0 - cur + 1) / 2))
half_from (v ∷ vs) cur vid = elim (dec_lt cur (suc (length vs))) [
  | yes lt ↦
      let t : ltb cur (suc (length vs)) ≡ true = ground arith in
      let n : (suc (length vs) - cur + 1) / 2 ≡ suc ((length vs - suc cur + 1) / 2) = omega arith in
      rw (t, n, half_from vs (suc cur) vid)
  | no ge ↦
      let t : ltb cur (suc (length vs)) ≡ false = ground arith in
      let n : (suc (length vs) - cur + 1) / 2 ≡ 0 = omega arith in rw (t, n)
]

-- `xcb_aux_get_visualtype` looks at no more than the first half of the visuals of a screen's first
-- depth, the middle one included: its loop counts up while the iterator's `rem` counts down.
pub get_visualtype-half :
    (roots : List Screen) (scr : ℤ) (vid : ℕ) (screen : Screen) (depth : Depth)
    (others : List Depth)
    → get_screen roots scr ≡ some screen
    → screen.allowed_depths ≡ depth ∷ others
    → get_visualtype roots scr vid
      ≡ done (
          first_match
            (λ v. vid == v.visual_id)
            (take ((length depth.visuals + 1) / 2) depth.visuals))
unfolding get_visualtype
get_visualtype-half roots scr vid screen depth others found first =
    let z : length depth.visuals - 0 + 1 ≡ length depth.visuals + 1 = omega arith in
    rw (get_visualtype, found, first) (rw z at (ap done (half_from depth.visuals 0 vid)))
