-- ===== src/Memory.antt =====
-- Structures of 32-bit words in memory, and copies of memory. No code of the libraries is modelled here.
use xcb_util.Prelude.{
  ℕ, zero, suc, ◌+◌, ◌*◌, ◌/◌, ◌%◌, ◌^◌, ◌≤◌, ◌<◌, ◌≡◌, refl, ap, ap₂, List, [], ◌∷◌, ◌++◌, All,
  length, take, drop, Outcome, ◌>>=◌, ◌-◌, done, fault, memcpy, arith,
}

-- The words of a structure in memory, each as four bytes. The host is taken to store the low byte
-- first.
unfoldable pub word_bytes : List ℕ → List ℕ
word_bytes [] = []
word_bytes (w ∷ ws) =
    (w % 256) ∷ (w / 256 % 256) ∷ (w / 2 ^ 16 % 256) ∷ (w / 2 ^ 24 % 256) ∷ word_bytes ws

unfoldable pub words : List ℕ → List ℕ
words (a ∷ b ∷ c ∷ d ∷ bs) = (a + b * 256 + c * 2 ^ 16 + d * 2 ^ 24) ∷ words bs
words _ = []

abbrev pub IsWords : List ℕ → Type 0
IsWords ws = All (λ w. w < 2 ^ 32) ws

word_of :
    (w : ℕ)
    → w < 2 ^ 32
    → w % 256 + w / 256 % 256 * 256 + w / 2 ^ 16 % 256 * 2 ^ 16 + w / 2 ^ 24 % 256 * 2 ^ 24 ≡ w
word_of w h = omega arith

pub words-word_bytes : (ws : List ℕ) → IsWords ws → words (word_bytes ws) ≡ ws
unfolding words word_bytes
words-word_bytes [] h = refl
words-word_bytes (w ∷ ws) h = ap₂ (λ a b. a ∷ b) (word_of w h.0) (words-word_bytes ws h.1)

pub length-word_bytes : (ws : List ℕ) → length (word_bytes ws) ≡ 4 * length ws
unfolding word_bytes
length-word_bytes [] = refl
length-word_bytes (w ∷ ws) = omega (arith, length-word_bytes ws)

-- What `memcpy` leaves: the source's first bytes, and the target's others.
pub memcpy_lem :
    (n : ℕ) (src dst : List ℕ)
    → n ≤ length src
    → n ≤ length dst
    → memcpy n src dst ≡ done (take n src ++ drop n dst)
unfolding memcpy
memcpy_lem zero src dst h h' = refl
memcpy_lem (suc n) [] dst h h' = absurd (omega arith)
memcpy_lem (suc n) (b ∷ src) [] h h' = absurd (omega arith)
memcpy_lem (suc n) (b ∷ src) (c ∷ dst) h h' = rw (memcpy_lem n src dst (omega arith) (omega arith))

-- A copy that is longer than the target writes past it, unless it has read past the source.
pub memcpy_past : (n : ℕ) (src dst : List ℕ) → length dst < n → memcpy n src dst ≡ fault
unfolding memcpy
memcpy_past zero src dst h = absurd (omega arith)
memcpy_past (suc n) [] dst h = refl
memcpy_past (suc n) (b ∷ src) [] h = refl
memcpy_past (suc n) (b ∷ src) (c ∷ dst) h = rw (memcpy_past n src dst (omega arith))

pub take-prefix : (n : ℕ) (xs ys : List ℕ) → length xs ≡ n → take n (xs ++ ys) ≡ xs
take-prefix zero [] ys h = refl
take-prefix zero (x ∷ xs) ys h = absurd (omega arith)
take-prefix (suc n) [] ys h = absurd (omega arith)
take-prefix (suc n) (x ∷ xs) ys h = ap (λ l. x ∷ l) (take-prefix n xs ys (omega arith))

pub take-all : (n : ℕ) (xs : List ℕ) → length xs ≡ n → take n xs ≡ xs
take-all zero [] h = refl
take-all zero (x ∷ xs) h = absurd (omega arith)
take-all (suc n) [] h = absurd (omega arith)
take-all (suc n) (x ∷ xs) h = ap (λ l. x ∷ l) (take-all n xs (omega arith))

pub drop-all : (n : ℕ) (xs : List ℕ) → length xs ≤ n → drop n xs ≡ []
drop-all zero [] h = refl
drop-all zero (x ∷ xs) h = absurd (omega arith)
drop-all (suc n) [] h = refl
drop-all (suc n) (x ∷ xs) h = drop-all n xs (omega arith)

pub length-take_prefix : (n : ℕ) (xs ys : List ℕ) → length xs ≡ n → n ≤ length (xs ++ ys)
length-take_prefix zero xs ys h = omega arith
length-take_prefix (suc n) [] ys h = absurd (omega arith)
length-take_prefix (suc n) (x ∷ xs) ys h = omega (arith, length-take_prefix n xs ys (omega arith))

pub length-take : (n : ℕ) (xs : List ℕ) → n ≤ length xs → length (take n xs) ≡ n
length-take zero xs h = refl
length-take (suc n) [] h = absurd (omega arith)
length-take (suc n) (x ∷ xs) h = ap suc (length-take n xs (omega arith))

pub length-drop : (n : ℕ) (xs : List ℕ) → length (drop n xs) ≡ length xs - n
length-drop zero xs = omega arith
length-drop (suc n) [] = omega arith
length-drop (suc n) (x ∷ xs) = omega (arith, length-drop n xs)

-- `memcpy` of `n` bytes from `src` to the address `p`.
unfoldable pub copy_to : ℕ → ℕ → List ℕ → List ℕ → Outcome (List ℕ)
copy_to p n src m = do m' ← memcpy n src (drop p m); done (take p m ++ m')
