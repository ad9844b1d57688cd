-- ===== src/Base/Bits.antt =====
-- The bit operations as arithmetic, for every width: `|` of disjoint fields, `&` with a low mask
-- and `&` with a mask of high bits.
use Prim.Native.Nat.{ℕ, zero, suc, ◌+◌, ◌-◌, ◌*◌, ◌/◌, ◌%◌, ◌^◌, ◌<◌, ◌≤◌, min, max}
use Prim.Native.Nat.{bit_and, bit_or, digits, bit_and-bitwise, bit_or-bitwise}
use mathlib.Core.Path.{◌≡◌, refl, ap}
use mathlib.Core.WellFounded
use mathlib.Core.WellFounded.{Acc}
use native.Mathlib.Nat.{pow-suc, one-le-pow}
use native.Mathlib.Omega.{arith}

below-Acc : (bound a : ℕ) → a < bound → Acc ◌<◌ a
below-Acc zero a h = absurd (omega arith)
below-Acc (suc bound) a h = Acc.intro a (λ b b<a. below-Acc bound b (omega arith))

pub lt_wf : WellFounded.WellFounded ◌<◌
lt_wf = record { apply = λ a. below-Acc (suc a) a (omega arith) }

-- The recursion on binary digits gives the same at any two amounts of fuel that cover `a`.
digits-enough :
    (z : ℕ → ℕ) (f : ℕ → ℕ → ℕ) (k l a b : ℕ) → a ≤ k → a ≤ l → digits z f k a b ≡ digits z f l a b
digits-enough z f zero zero a b hk hl = refl
digits-enough z f zero (suc l) zero b hk hl = refl
digits-enough z f zero (suc l) (suc a) b hk hl = absurd (omega arith)
digits-enough z f (suc k) zero zero b hk hl = refl
digits-enough z f (suc k) zero (suc a) b hk hl = absurd (omega arith)
digits-enough z f (suc k) (suc l) zero b hk hl = refl
digits-enough z f (suc k) (suc l) (suc a) b hk hl =
    ap (λ (t : ℕ). t * 2 + f (suc a % 2) (b % 2))
      (digits-enough z f k l (suc a / 2) (b / 2) (omega arith) (omega arith))

-- One equation for the lowest digit.
pub bit_or_low : (a b : ℕ) → bit_or a b ≡ bit_or (a / 2) (b / 2) * 2 + max (a % 2) (b % 2)
bit_or_low zero b = simp bit_or-bitwise (omega arith)
bit_or_low (suc a) b = simp bit_or-bitwise (
    ap (λ (t : ℕ). t * 2 + max (suc a % 2) (b % 2))
      (digits-enough (λ y. y) max a (suc a / 2) (suc a / 2) (b / 2) (omega arith) (omega arith)))

pub bit_and_low : (a b : ℕ) → bit_and a b ≡ bit_and (a / 2) (b / 2) * 2 + min (a % 2) (b % 2)
bit_and_low zero b = simp bit_and-bitwise (omega arith)
bit_and_low (suc a) b = simp bit_and-bitwise (
    ap (λ (t : ℕ). t * 2 + min (suc a % 2) (b % 2))
      (digits-enough (λ y. 0) min a (suc a / 2) (suc a / 2) (b / 2) (omega arith) (omega arith)))

pub bit_or-zero : (a : ℕ) → bit_or a 0 ≡ a
bit_or-zero a = WellFounded.induction lt_wf {C = λ k. bit_or k 0 ≡ k} a (λ k ih. halve k ih)
  where
    halve : (k : ℕ) → ((j : ℕ) → j < k → bit_or j 0 ≡ j) → bit_or k 0 ≡ k
    halve zero ih = refl
    halve (suc k) ih = omega (arith, bit_or_low (suc k) 0, ih (suc k / 2) (omega arith))

pub zero-bit_or : (a : ℕ) → bit_or 0 a ≡ a
zero-bit_or a = WellFounded.induction lt_wf {C = λ k. bit_or 0 k ≡ k} a (λ k ih. halve k ih)
  where
    halve : (k : ℕ) → ((j : ℕ) → j < k → bit_or 0 j ≡ j) → bit_or 0 k ≡ k
    halve zero ih = refl
    halve (suc k) ih = omega (arith, bit_or_low 0 (suc k), ih (suc k / 2) (omega arith))

double_pow : (q k : ℕ) → q * 2 ^ suc k ≡ 2 * (q * 2 ^ k)
double_pow q k = omega (arith, ap (λ (t : ℕ). q * t) (pow-suc 2 k))

-- `(q << k) | r` is a sum where `r` has `k` bits at most.
pub bit_or-field : (k q r : ℕ) → r < 2 ^ k → bit_or (q * 2 ^ k) r ≡ q * 2 ^ k + r
bit_or-field zero q r h = ground (arith, bit_or-zero q)
bit_or-field (suc k) q r h = ground (
  arith,
  double_pow q k,
  bit_or_low (q * 2 ^ suc k) r,
  bit_or-field k q (r / 2) (omega (arith, pow-suc 2 k)),
)

-- The same with the operands the other way round.
pub field-bit_or : (k q r : ℕ) → r < 2 ^ k → bit_or r (q * 2 ^ k) ≡ q * 2 ^ k + r
field-bit_or zero q r h = ground (arith, zero-bit_or q)
field-bit_or (suc k) q r h = ground (
  arith,
  double_pow q k,
  bit_or_low r (q * 2 ^ suc k),
  field-bit_or k q (r / 2) (omega (arith, pow-suc 2 k)),
)

pub bit_and-zero : (a : ℕ) → bit_and a 0 ≡ 0
bit_and-zero a = WellFounded.induction lt_wf {C = λ k. bit_and k 0 ≡ 0} a (λ k ih. halve k ih)
  where
    halve : (k : ℕ) → ((j : ℕ) → j < k → bit_and j 0 ≡ 0) → bit_and k 0 ≡ 0
    halve zero ih = refl
    halve (suc k) ih = omega (arith, bit_and_low (suc k) 0, ih (suc k / 2) (omega arith))

-- `&` with `2^k - 1` keeps the low `k` bits.
bit_and-split : (k q r : ℕ) → r < 2 ^ k → bit_and (q * 2 ^ k + r) (2 ^ k - 1) ≡ r
bit_and-split zero q r h = rw bit_and-zero (omega arith)
bit_and-split (suc k) q r h = ground (
  arith,
  pow-suc 2 k,
  double_pow q k,
  one-le-pow k 2,
  bit_and_low (q * 2 ^ suc k + r) (2 ^ suc k - 1),
  bit_and-split k q (r / 2) (omega (arith, pow-suc 2 k)),
)

pub bit_and-low_mask : (k a : ℕ) → bit_and a (2 ^ k - 1) ≡ a % 2 ^ k
bit_and-low_mask k a = ground (arith, one-le-pow k 2, bit_and-split k (a / 2 ^ k) (a % 2 ^ k))

-- `&` with a mask whose low `k` bits are clear: it acts on the bits above them.
pub bit_and-shifted :
    (k q r m : ℕ) → r < 2 ^ k → bit_and (q * 2 ^ k + r) (m * 2 ^ k) ≡ bit_and q m * 2 ^ k
bit_and-shifted zero q r m h =
    let e : q * 2 ^ 0 + r ≡ q = omega arith in
    let e' : m * 2 ^ 0 ≡ m = omega arith in rw (e, e') (omega arith)
bit_and-shifted (suc k) q r m h = ground (
  arith,
  double_pow q k,
  double_pow m k,
  double_pow (bit_and q m) k,
  bit_and_low (q * 2 ^ suc k + r) (m * 2 ^ suc k),
  bit_and-shifted k q (r / 2) m (omega (arith, pow-suc 2 k)),
)
