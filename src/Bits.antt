-- ===== src/Bits.antt =====
-- `&`, `|` and `^` of C on native numbers: the law for the lowest digit, the law for two halves
-- of a word, masks of low bits, and tables over small ranges. The proofs about aux/xcb_bitops.h
-- and image/xcb_image.c rest on these.
mod Digit
pub mod Bytes
pub mod Join
pub mod Flags
pub use Digit.{bit_and_step, bit_or_step, bit_xor_step}
use Prim.Native.Nat.{bit_and-bitwise, bit_or-bitwise, differ}
use native.Mathlib.Nat.{pow-suc, one-le-pow}
use xcb_util.Prelude.{
  ℕ, zero, suc, ◌+◌, ◌-◌, ◌*◌, ◌/◌, ◌%◌, ◌^◌, ◌≤◌, ◌<◌, ◌≡◌, refl, ap, ◌∙◌, arith, bit_and, bit_or,
  bit_xor, max, min, Bool, true, ◌&&◌, ◌==◌, ==_iff,
}

pub mul-pow-suc : (q k : ℕ) → q * 2 ^ suc k ≡ 2 * (q * 2 ^ k)
mul-pow-suc q k = omega (arith, ap (λ (t : ℕ). q * t) (pow-suc 2 k))

pub two-pow-add : (k j : ℕ) → 2 ^ (k + j) ≡ 2 ^ k * 2 ^ j
two-pow-add zero j = ground arith
two-pow-add (suc k) j =
    ap (λ (t : ℕ). 2 ^ t) (omega arith)
    ∙ pow-suc 2 (k + j)
    ∙ omega (arith, two-pow-add k j, pow-suc 2 k, ap (λ (t : ℕ). t * 2 ^ j) (pow-suc 2 k))

-- An operation on digits acts on the two parts of a word by themselves.
module _ (op : ℕ → ℕ → ℕ) (digit : ℕ → ℕ → ℕ)
    (step : (a b : ℕ) → op a b ≡ op (a / 2) (b / 2) * 2 + digit (a % 2) (b % 2))
    (base : op 0 0 ≡ 0) where
  halves :
      (k q r q' r' : ℕ)
      → r < 2 ^ k
      → r' < 2 ^ k
      → op (q * 2 ^ k + r) (q' * 2 ^ k + r') ≡ op q q' * 2 ^ k + op r r'
  halves zero q r q' r' h h' = ground (arith, base)
  halves (suc k) q r q' r' h h' = ground (
    arith,
    step (q * 2 ^ suc k + r) (q' * 2 ^ suc k + r'),
    step r r',
    mul-pow-suc q k,
    mul-pow-suc q' k,
    mul-pow-suc (op q q') k,
    pow-suc 2 k,
    halves k q (r / 2) q' (r' / 2) (omega (arith, pow-suc 2 k)) (omega (arith, pow-suc 2 k)),
  )

pub bit_and_halves :
    (k q r q' r' : ℕ)
    → r < 2 ^ k
    → r' < 2 ^ k
    → bit_and (q * 2 ^ k + r) (q' * 2 ^ k + r') ≡ bit_and q q' * 2 ^ k + bit_and r r'
bit_and_halves = halves bit_and min bit_and_step refl

pub bit_or_halves :
    (k q r q' r' : ℕ)
    → r < 2 ^ k
    → r' < 2 ^ k
    → bit_or (q * 2 ^ k + r) (q' * 2 ^ k + r') ≡ bit_or q q' * 2 ^ k + bit_or r r'
bit_or_halves = halves bit_or max bit_or_step refl

zero-bit_and : (b : ℕ) → bit_and 0 b ≡ 0
zero-bit_and b = bit_and-bitwise 0 b

pub zero-bit_or : (b : ℕ) → bit_or 0 b ≡ b
zero-bit_or b = bit_or-bitwise 0 b

-- A word below `2 ^ k` stays there.
pub bit_and-lt : (k a b : ℕ) → a < 2 ^ k → bit_and a b < 2 ^ k
bit_and-lt zero zero b h = omega (arith, zero-bit_and b)
bit_and-lt zero (suc a) b h = absurd (omega arith)
bit_and-lt (suc k) a b h = omega (
  arith,
  bit_and_step a b,
  pow-suc 2 k,
  bit_and-lt k (a / 2) (b / 2) (omega (arith, pow-suc 2 k)),
)

pub bit_or-lt : (k a b : ℕ) → a < 2 ^ k → b < 2 ^ k → bit_or a b < 2 ^ k
bit_or-lt zero zero b h h' = omega (arith, zero-bit_or b)
bit_or-lt zero (suc a) b h h' = absurd (omega arith)
bit_or-lt (suc k) a b h h' = omega (
  arith,
  bit_or_step a b,
  pow-suc 2 k,
  bit_or-lt k (a / 2) (b / 2) (omega (arith, pow-suc 2 k)) (omega (arith, pow-suc 2 k)),
)

-- Both by strong induction, from half a number to the number.
module _ (digit : ℕ → ℕ → ℕ) (op : ℕ → ℕ → ℕ) (unit : ℕ → ℕ)
    (step : (a b : ℕ) → op a b ≡ op (a / 2) (b / 2) * 2 + digit (a % 2) (b % 2)) where
  op-zero :
      ((a : ℕ) → unit a ≡ unit (a / 2) * 2 + digit (a % 2) 0)
      → op 0 0 ≡ unit 0
      → (n a : ℕ) → a ≤ n
      → op a 0 ≡ unit a
  op-zero unfolds base n zero h = base
  op-zero unfolds base zero (suc a) h = elim h [ ]
  op-zero unfolds base (suc n) (suc a) h =
      omega
        (arith, step (suc a) 0, unfolds (suc a), op-zero unfolds base n (suc a / 2) (omega arith))

pub bit_and-zero : (a : ℕ) → bit_and a 0 ≡ 0
bit_and-zero a = op-zero min bit_and (λ x. 0) bit_and_step (λ x. omega arith) refl a a (omega arith)

pub bit_or-zero : (a : ℕ) → bit_or a 0 ≡ a
bit_or-zero a = op-zero max bit_or (λ x. x) bit_or_step (λ x. omega arith) refl a a (omega arith)

differ-zero : (d : ℕ) → differ d 0 ≡ d
differ-zero zero = refl
differ-zero (suc d) = refl

pub bit_xor-zero : (a : ℕ) → bit_xor a 0 ≡ a
bit_xor-zero a =
    op-zero differ bit_xor (λ x. x) bit_xor_step (λ x. omega (arith, differ-zero (x % 2))) refl a a
      (omega arith)

-- `q << k | r` is a sum where `r` fits `k` bits.
pub bit_or_fields : (k q r : ℕ) → r < 2 ^ k → bit_or (q * 2 ^ k) r ≡ q * 2 ^ k + r
bit_or_fields k q r h =
    ground (
      arith,
      bit_or_halves k q 0 0 r (one-le-pow k 2 (omega arith)) h,
      zero-bit_or r,
      bit_or-zero q,
    )

pub bit_or_fields' : (k q r : ℕ) → r < 2 ^ k → bit_or r (q * 2 ^ k) ≡ q * 2 ^ k + r
bit_or_fields' k q r h =
    ground (
      arith,
      bit_or_halves k 0 r q 0 h (one-le-pow k 2 (omega arith)),
      zero-bit_or q,
      bit_or-zero r,
    )

-- A mask of `k` low bits is the remainder by `2 ^ k`.
bit_and_ones : (k a : ℕ) → a < 2 ^ k → bit_and a (2 ^ k - 1) ≡ a
bit_and_ones zero a h = omega (arith, bit_and-zero a)
bit_and_ones (suc k) a h = ground (
  arith,
  bit_and_step a (2 ^ suc k - 1),
  pow-suc 2 k,
  one-le-pow k 2,
  bit_and_ones k (a / 2) (omega (arith, pow-suc 2 k)),
)

pub bit_and_mask : (k a : ℕ) → bit_and a (2 ^ k - 1) ≡ a % 2 ^ k
bit_and_mask k a = ground (
  arith,
  one-le-pow k 2,
  bit_and_halves k (a / 2 ^ k) (a % 2 ^ k) 0 (2 ^ k - 1),
  bit_and_ones k (a % 2 ^ k),
  bit_and-zero (a / 2 ^ k),
)

-- Does a Boolean test hold of every number under a bound?
unfoldable pub all_below : ℕ → (ℕ → Bool) → Bool
all_below zero test = true
all_below (suc bound) test = all_below bound test && test bound

pub all_below_sound :
    (bound : ℕ) (test : ℕ → Bool) (i : ℕ) → all_below bound test ≡ true → i < bound → test i ≡ true
unfolding all_below
all_below_sound zero test i h lt = absurd (omega arith)
all_below_sound (suc bound) test i h lt = ground (arith, all_below_sound bound test i)

-- Two functions that a table finds equal.
pub eq_of_table :
    (n : ℕ) (f g : ℕ → ℕ) (x : ℕ) → all_below n (λ y. f y == g y) ≡ true → x < n → f x ≡ g x
eq_of_table n f g x h lt = (==_iff _ _).0 (all_below_sound n (λ y. f y == g y) x h lt)
