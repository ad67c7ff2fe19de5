-- ===== src/Renderutil/Cache/Table/Keys.antt =====
-- Lists of which no two elements have the same key. No code of the libraries is modelled here.
use xcb_util.Prelude.{
  ℕ, ◌≡◌, inl, inr, sym, ap, ◌∙◌, List, [], ◌∷◌, true, false, ◌==◌, some, none, first_match, All,
  arith, Bool-cases,
}

-- No two elements have the same key.
abbrev pub IsDistinct {ℓ} : {A : Type ℓ} → (A → ℕ) → List A → Type ℓ
IsDistinct key [] = Unit
IsDistinct key (x ∷ xs) = All (λ y. (key y == key x) ≡ false) xs × IsDistinct key xs

pub none-some {ℓ} : {A : Type ℓ} {x : A} → none ≡ some x → ⊥
none-some e = cc

pub some_inj {ℓ} : {A : Type ℓ} {x y : A} → some x ≡ some y → x ≡ y
some_inj e = cc

module _ {ℓ} {A : Type ℓ} where
  -- What is found has the key, and is nothing that was left out.
  pub found-key :
      (key : A → ℕ) (k : ℕ) (xs : List A) (x : A)
      → first_match (λ y. key y == k) xs ≡ some x
      → key x ≡ k
  unfolding first_match
  found-key key k [] x e = absurd (none-some e)
  found-key key k (y ∷ xs) x e = elim (Bool-cases (key y == k)) [
    | inl q ↦ let is : y ≡ x = some_inj (rw q at e) in ap key (sym is) ∙ ground (arith, q)
    | inr q ↦ found-key key k xs x (rw q at e)
  ]

  pub found-apart :
      (key other : A → ℕ) (k j : ℕ) (xs : List A) (x : A)
      → All (λ y. (other y == j) ≡ false) xs
      → first_match (λ y. key y == k) xs ≡ some x
      → (other x == j) ≡ false
  unfolding first_match
  found-apart key other k j [] x h e = absurd (none-some e)
  found-apart key other k j (y ∷ xs) x (h, hs) e = elim (Bool-cases (key y == k)) [
    | inl q ↦ let is : y ≡ x = some_inj (rw q at e) in ap (λ z. other z == j) (sym is) ∙ h
    | inr q ↦ found-apart key other k j xs x hs (rw q at e)
  ]

  -- An element that is found by one key is found by the other.
  pub found-other :
      (key other : A → ℕ) (k : ℕ) (xs : List A) (x : A)
      → IsDistinct other xs
      → first_match (λ y. key y == k) xs ≡ some x
      → first_match (λ y. other y == other x) xs ≡ some x
  unfolding first_match
  found-other key other k [] x h e = absurd (none-some e)
  found-other key other k (y ∷ xs) x (h, hs) e = elim (Bool-cases (key y == k)) [
    | inl q ↦
        let is : y ≡ x = some_inj (rw q at e) in
        let same : (other y == other x) ≡ true = rw is (ground arith) in rw same (ap some is)
    | inr q ↦
        let e' = rw q at e in
        let apart : (other y == other x) ≡ false =
          ground (arith, found-apart key other k (other y) xs x h e') in
        rw apart (found-other key other k xs x hs e')
  ]

-- Nothing is found: no element has the key.
pub missing-All {ℓ} :
    {A : Type ℓ} (key : A → ℕ) (k : ℕ) (xs : List A)
    → first_match (λ y. key y == k) xs ≡ none
    → All (λ y. (key y == k) ≡ false) xs
unfolding first_match
missing-All key k [] e = tt
missing-All key k (x ∷ xs) e = elim (Bool-cases (key x == k)) [
  | inl q ↦ absurd (none-some (sym (rw q at e)))
  | inr q ↦ (q, missing-All key k xs (rw q at e))
]
