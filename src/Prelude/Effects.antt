-- ===== src/Prelude/Effects.antt =====
-- What a C function does: it returns, an `assert` stops it, or it is a fault: it accesses memory that it
-- does not own, or does what C leaves undefined. Memory is a list of bytes, and an address is an index into it.
use Prim.Native.Nat.{ℕ, zero, suc, ◌<◌, ◌*◌, ◌^◌}
use mathlib.Core.Path.{◌≡◌, refl}
use mathlib.Core.Bool.{Bool, true, false}
use mathlib.Core.Option.{none, some}
use mathlib.Core.List.{List, [], ◌∷◌}
use native.Mathlib.Omega.{arith}
use xcb_util.Prelude.Tests.{if◌then◌else◌, ltb}
use xcb_util.Prelude.Lists.{length, get_elem?, set, get_or, get_elem?-eq-get_or}

pub data Outcome {ℓ} (A : Type ℓ) : Type ℓ where
  done : A → Outcome A
  aborted fault : Outcome A

infixl 5 ◌>>=◌ ◌>>◌
abbrev pub ◌>>=◌ {ℓ κ} : {A : Type ℓ} {B : Type κ} → Outcome A → (A → Outcome B) → Outcome B
done a >>= f = f a
aborted >>= f = aborted
fault >>= f = fault

abbrev pub ◌>>◌ {ℓ} : {B : Type ℓ} → Outcome (Unit {0}) → Outcome B → Outcome B
m >> k = m >>= λ _. k

-- `assert(b)`
abbrev pub assert : Bool → Outcome (Unit {0})
assert true = done tt
assert false = aborted

-- The product of two numbers of type `int` that are not negative: an overflow is undefined, and counts as
-- a fault.
abbrev pub mul_int : ℕ → ℕ → Outcome ℕ
mul_int a b = if ltb (a * b) (2 ^ 31) then done (a * b) else fault

-- `*p`, and `*p = v`.
unfoldable pub load : List ℕ → ℕ → Outcome ℕ
load m p = elim (get_elem? m p) [ none ↦ fault | some v ↦ done v ]

unfoldable pub store : List ℕ → ℕ → ℕ → Outcome (List ℕ)
store m p v = if ltb p (length m) then done (set m p v) else fault

-- `memcpy` of `n` bytes from the start of `src` to the start of `dst`.
unfoldable pub memcpy : ℕ → List ℕ → List ℕ → Outcome (List ℕ)
memcpy zero src dst = done dst
memcpy (suc n) [] dst = fault
memcpy (suc n) (b ∷ src) [] = fault
memcpy (suc n) (b ∷ src) (c ∷ dst) = do dst' ← memcpy n src dst; done (b ∷ dst')

pub load_done : (m : List ℕ) (p : ℕ) → p < length m → load m p ≡ done (get_or m p 0)
unfolding load
load_done m p h = ground (arith, get_elem?-eq-get_or m p 0)

pub store_done : (m : List ℕ) (p v : ℕ) → p < length m → store m p v ≡ done (set m p v)
unfolding store
store_done m p v h = ground arith

pub bind_assoc {ℓ κ μ} :
    {A : Type ℓ} {B : Type κ} {C : Type μ} (m : Outcome A) (f : A → Outcome B) (g : B → Outcome C)
    → ((m >>= f) >>= g) ≡ (m >>= λ x. f x >>= g)
bind_assoc (done a) f g = refl
bind_assoc aborted f g = refl
bind_assoc fault f g = refl

pub bind_done {ℓ} : {A : Type ℓ} (m : Outcome A) → (m >>= done) ≡ m
bind_done (done a) = refl
bind_done aborted = refl
bind_done fault = refl
