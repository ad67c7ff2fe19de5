-- ===== src/Keysyms/Row.antt =====
-- The choice of `xcb_key_symbols_get_keysym` on one row of the table.
use xcb_util.Prelude.{
  ℕ, zero, suc, ◌+◌, ◌*◌, ◌/◌, ◌%◌, ◌≤◌, ◌<◌, ◌≡◌, refl, sym, ap, ◌∙◌, inl, inr, List, [], ◌∷◌,
  length, take, drop, get_or, get_or-ge, Bool, true, false, ◌&&◌, ltb, leb, ◌==◌, Bool-cases,
  if◌then◌else◌, min, done, load, load_done, ℕ_discrete, dec_lt, dec_le, arith,
}
use xcb_util.Keysyms.Case.{Letters, convert_case}
use xcb_util.Keysyms.{trim, choose, select}

-- The length of a list without the trailing empty symbols.
unfoldable pub significant : List ℕ → ℕ
significant [] = 0
significant (s ∷ ss) = let rest = significant ss in if rest == 0 && s == 0 then 0 else suc rest

-- The same by places, from the end.
last_used : (ℕ → ℕ) → ℕ → ℕ
last_used f zero = 0
last_used f (suc p) = let before = last_used f p in if f p == 0 then before else suc p

-- A list of one or two symbols stands for the list that repeats it.
unfoldable pub expanded : List ℕ → ℕ → ℕ
expanded row i = get_or row (if leb (significant row) 2 then i % 2 else i) 0

-- What the function makes of a group of two.
unfoldable pub given_of_group : Letters → ℕ → ℕ → Bool → ℕ
given_of_group k first second even =
    let forms = convert_case k first in
    if second == 0
    then (if even then forms.0 else if forms.1 == forms.0 then 0 else forms.1)
    else if even
    then first
    else second

-- What the function makes of a column of a key's list.
unfoldable pub given : Letters → List ℕ → ℕ → ℕ
given k row col =
    let group =
      given_of_group k (expanded row (col / 2 * 2)) (expanded row (col / 2 * 2 + 1))
        (col % 2 == 0) in
    if ltb col 4 then group else get_or row col 0

-- From the front and from the end the same places count.
last_used-front :
    (f : ℕ → ℕ) (n : ℕ)
    → last_used f (suc n) ≡ (
        if last_used (λ i. f (suc i)) n == 0 && f 0 == 0
        then 0
        else suc (last_used (λ i. f (suc i)) n))
unfolding last_used
last_used-front f zero = ground arith
last_used-front f (suc n) = ground (arith, last_used-front f n)

significant_lem : (row : List ℕ) → significant row ≡ last_used (λ i. get_or row i 0) (length row)
unfolding significant last_used
significant_lem [] = refl
significant_lem (s ∷ ss) =
    rw (significant_lem ss) (sym (last_used-front (λ i. get_or (s ∷ ss) i 0) (length ss)))

last_used-le : (f : ℕ → ℕ) (p : ℕ) → last_used f p ≤ p
unfolding last_used
last_used-le f zero = omega arith
last_used-le f (suc p) = ground (arith, last_used-le f p)

-- Behind the last used place all are empty.
beyond : (f : ℕ → ℕ) (p j : ℕ) → last_used f p ≤ j → j < p → f j ≡ 0
unfolding last_used
beyond f zero j h lt = absurd (omega arith)
beyond f (suc p) j h lt = elim (ℕ_discrete j p) [
  | yes e ↦ rw e (ground (arith, last_used-le f p))
  | no ne ↦ ground (arith, beyond f p j)
]

-- A row of the table at an address, by its places.
module _ (keysyms : List ℕ) (base : ℕ) (f : ℕ → ℕ) (per : ℕ)
    (row : (j : ℕ) → j < per → load keysyms (base + j) ≡ done (f j)) where
  trim_lem :
      (p : ℕ)
      → p ≤ per
      → trim keysyms base p ≡ done (if leb (last_used f p) 2 then min p 2 else last_used f p)
  unfolding trim last_used
  trim_lem zero h = refl
  trim_lem (suc p) h =
      let read = row p (omega arith) in
      let before = trim_lem p (omega arith) in
      let most = last_used-le f p in ground (arith, read, before, most)

  module _ (k : Letters) where
    choose_0 :
        (used : ℕ)
        → used ≤ per
        → 0 < per
        → (used ≤ 1 → f 1 ≡ 0)
        → (choose k keysyms base used 0 ≡ done (given_of_group k (f 0) (f 1) true))
          × (choose k keysyms base used 1 ≡ done (given_of_group k (f 0) (f 1) false))
    unfolding choose given_of_group
    choose_0 used h lt empty = elim (dec_le used 1) [
      | yes few ↦
          let t : leb used 1 ≡ true = ground arith in
          let read = row 0 lt in let none_there = empty few in rw (t, read, none_there) (refl, refl)
      | no many ↦
          let t : leb used 1 ≡ false = ground arith in
          let read = row 0 lt in
          let next = row 1 (omega arith) in
          elim (Bool-cases (f 1 == 0)) [
            | inl q ↦ rw (t, read, next, q) (refl, refl)
            | inr q ↦ rw (t, read, next, q) (refl, refl)
          ]
    ]

    choose_2 :
        (used : ℕ)
        → used ≤ per
        → 2 < per
        → (used ≤ 3 → f 3 ≡ 0)
        → (choose k keysyms base used 2 ≡ done (given_of_group k (f 2) (f 3) true))
          × (choose k keysyms base used 3 ≡ done (given_of_group k (f 2) (f 3) false))
    unfolding choose given_of_group
    choose_2 used h lt empty = elim (dec_le used 3) [
      | yes few ↦
          let t : leb used 3 ≡ true = ground arith in
          let read = row 2 lt in let none_there = empty few in rw (t, read, none_there) (refl, refl)
      | no many ↦
          let t : leb used 3 ≡ false = ground arith in
          let read = row 2 lt in
          let next = row 3 (omega arith) in
          elim (Bool-cases (f 3 == 0)) [
            | inl q ↦ rw (t, read, next, q) (refl, refl)
            | inr q ↦ rw (t, read, next, q) (refl, refl)
          ]
    ]

get_or-drop : (n : ℕ) (xs : List ℕ) (j d : ℕ) → get_or (drop n xs) j d ≡ get_or xs (n + j) d
get_or-drop zero xs j d = ap (λ i. get_or xs i d) (omega arith)
get_or-drop (suc n) [] j d = refl
get_or-drop (suc n) (x ∷ xs) j d =
    let s : suc n + j ≡ suc (n + j) = omega arith in rw s (get_or-drop n xs j d)

get_or-take : (n : ℕ) (xs : List ℕ) (j d : ℕ) → j < n → get_or (take n xs) j d ≡ get_or xs j d
get_or-take zero xs j d h = absurd (omega arith)
get_or-take (suc n) [] j d h = refl
get_or-take (suc n) (x ∷ xs) zero d h = refl
get_or-take (suc n) (x ∷ xs) (suc j) d h = get_or-take n xs j d (omega arith)

pub length-take-drop : (n b : ℕ) (xs : List ℕ) → b + n ≤ length xs → length (take n (drop b xs)) ≡ n
length-take-drop zero zero xs h = refl
length-take-drop (suc n) zero [] h = absurd (omega arith)
length-take-drop (suc n) zero (x ∷ xs) h = ap suc (length-take-drop n zero xs (omega arith))
length-take-drop zero (suc b) [] h = refl
length-take-drop (suc n) (suc b) [] h = absurd (omega arith)
length-take-drop n (suc b) (x ∷ xs) h = length-take-drop n b xs (omega arith)

module _ (k : Letters) (keysyms : List ℕ) (base per : ℕ) (inside : base + per ≤ length keysyms)
    (some_column : 0 < per) where
  abbrev row : List ℕ
  row = take per (drop base keysyms)

  abbrev f : ℕ → ℕ
  f i = get_or row i 0

  read_row : (j : ℕ) → j < per → load keysyms (base + j) ≡ done (f j)
  read_row j h =
      load_done keysyms (base + j) (omega arith)
      ∙ ap done (sym (get_or-take per (drop base keysyms) j 0 h ∙ get_or-drop base keysyms j 0))

  used : significant row ≡ last_used f per
  used = significant_lem row ∙ ap (last_used f) (length-take-drop per base keysyms inside)

  past : (j : ℕ) → per ≤ j → f j ≡ 0
  past j h = get_or-ge row j 0 (rw (length-take-drop per base keysyms inside) h)

  empty_3 : last_used f per ≤ 3 → f 3 ≡ 0
  empty_3 few = elim (dec_lt 3 per) [
    | yes lt ↦ beyond f per 3 few lt
    | no ge ↦ past 3 (omega arith)
  ]

  first_group :
      (even : Bool)
      → given_of_group k (expanded row 0) (expanded row 1) even ≡ given_of_group k (f 0) (f 1) even
  unfolding expanded
  first_group even = elim (Bool-cases (leb (significant row) 2)) [ inl q ↦ rw q | inr q ↦ rw q ]

  select_0 :
      (select k keysyms base per 0 ≡ done (given k row 0))
      × (select k keysyms base per 1 ≡ done (given k row 1))
  unfolding select given
  select_0 =
      let c = choose_0 keysyms base f per read_row k per (omega arith) some_column (past 1) in
      (c.0 ∙ ap done (sym (first_group true)), c.1 ∙ ap done (sym (first_group false)))

  select_2 :
      (select k keysyms base per 2 ≡ done (given k row 2))
      × (select k keysyms base per 3 ≡ done (given k row 3))
  unfolding select given expanded
  select_2 = elim (Bool-cases (leb (last_used f per) 2)) [
    | inl q ↦
        let short : ltb (min per 2) 3 ≡ true = ground arith in
        let c =
          choose_0 keysyms base f per read_row k (min per 2) (omega arith) some_column
            (λ few. past 1 (omega arith)) in
        rw (trim_lem keysyms base f per read_row per (omega arith), used, q, short) (c.0, c.1)
    | inr q ↦
        let long : ltb (last_used f per) 3 ≡ false = ground arith in
        let most = last_used-le f per in
        let c =
          choose_2 keysyms base f per read_row k (last_used f per) most (ground arith) empty_3 in
        rw (trim_lem keysyms base f per read_row per (omega arith), used, q, long) (c.0, c.1)
  ]

  far : (col : ℕ) → 4 ≤ col → col < per → select k keysyms base per col ≡ done (given k row col)
  unfolding select given
  far col big lt = let t : ltb col 4 ≡ false = ground arith in rw (t, read_row col lt)

  pub select_lem :
      (col : ℕ) → (4 ≤ col → col < per) → select k keysyms base per col ≡ done (given k row col)
  select_lem zero h = select_0.0
  select_lem (suc zero) h = select_0.1
  select_lem (suc (suc zero)) h = select_2.0
  select_lem (suc (suc (suc zero))) h = select_2.1
  select_lem (suc (suc (suc (suc n)))) h =
      far (suc (suc (suc (suc n)))) (omega arith) (h (omega arith))
