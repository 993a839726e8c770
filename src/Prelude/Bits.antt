-- ===== src/Prelude/Bits.antt =====
-- Bit operations at variables: `|` of disjoint fields and `&` with a low mask as arithmetic, and
-- checks of a small range by evaluation.
mod Step
pub mod Digit
use Step.{or_lowest, and_lowest}
use Prim.Native.Nat.{ℕ, zero, suc, ◌+◌, ◌-◌, ◌*◌, ◌/◌, ◌%◌, ◌^◌, ◌≤◌, ◌<◌, bit_and, bit_or, min}
use mathlib.Core.Path.{◌≡◌, refl, sym, ap, ◌∙◌}
use mathlib.Core.Bool.{Bool, true, ◌&&◌}
use native.Mathlib.Nat.{pow-suc, one-le-pow, mul_assoc, mul_comm}
use native.Mathlib.Decide.{dec_lt}
use native.Mathlib.Omega.{arith}

-- The test holds for every number below the bound.
unfoldable pub all_below : ℕ → (ℕ → Bool) → Bool
all_below zero test = true
all_below (suc bound) test = all_below bound test && test bound

pub all_below_at :
    (bound : ℕ) (test : ℕ → Bool) (k : ℕ) → all_below bound test ≡ true → k < bound → test k ≡ true
unfolding all_below
all_below_at zero test k all below = absurd (omega arith)
all_below_at (suc bound) test k all below = elim (dec_lt k bound) [
  | yes earlier ↦ all_below_at bound test k (ground arith) earlier
  | no last ↦ let e : k ≡ bound = omega arith in rw e (ground arith)
]

or-zero_below : (n a : ℕ) → a ≤ n → bit_or a 0 ≡ a
or-zero_below n zero h = refl
or-zero_below zero (suc a) h = absurd (omega arith)
or-zero_below (suc n) (suc a) h =
    omega (arith, or_lowest (suc a) 0, or-zero_below n (suc a / 2) (omega arith))

pub bit_or-zero : (a : ℕ) → bit_or a 0 ≡ a
bit_or-zero a = or-zero_below a a (omega arith)

and-zero_below : (n a : ℕ) → a ≤ n → bit_and a 0 ≡ 0
and-zero_below n zero h = refl
and-zero_below zero (suc a) h = absurd (omega arith)
and-zero_below (suc n) (suc a) h =
    omega (arith, and_lowest (suc a) 0, and-zero_below n (suc a / 2) (omega arith))

pub bit_and-zero : (a : ℕ) → bit_and a 0 ≡ 0
bit_and-zero a = and-zero_below a a (omega arith)

-- A digit put in at the low end.
or_even : (x y : ℕ) → bit_or (2 * x) y ≡ y % 2 + 2 * bit_or x (y / 2)
or_even x y =
    let half : 2 * x / 2 ≡ x = omega arith in
    let lowest = or_lowest (2 * x) y in omega (arith, lowest, ap (λ (t : ℕ). bit_or t (y / 2)) half)

and_digits :
    (x y c d : ℕ) → c < 2 → d < 2 → bit_and (2 * x + c) (2 * y + d) ≡ min c d + 2 * bit_and x y
and_digits x y c d hc hd =
    let half_x : (2 * x + c) / 2 ≡ x = omega arith in
    let half_y : (2 * y + d) / 2 ≡ y = omega arith in
    let low_x : (2 * x + c) % 2 ≡ c = omega arith in
    let low_y : (2 * y + d) % 2 ≡ d = omega arith in
    rw (and_lowest (2 * x + c) (2 * y + d), half_x, half_y, low_x, low_y) refl

shifted : (k q : ℕ) → q * 2 ^ suc k ≡ 2 * (q * 2 ^ k)
shifted k q = rw (pow-suc 2 k) (sym (mul_assoc q (2 ^ k) 2) ∙ mul_comm (q * 2 ^ k) 2)

-- A number below `2 ^ k` and a multiple of `2 ^ k` have no digits in common: `|` is their sum.
pub bit_or_fields : (k q r : ℕ) → r < 2 ^ k → bit_or (q * 2 ^ k) r ≡ q * 2 ^ k + r
bit_or_fields zero q r below =
    let none_left : r ≡ 0 = omega arith in rw none_left (bit_or-zero (q * 1) ∙ omega arith)
bit_or_fields (suc k) q r below =
    let ih = bit_or_fields k q (r / 2) (omega (arith, pow-suc 2 k)) in
    rw (shifted k q, or_even (q * 2 ^ k) r, ih) (omega arith)

-- A number with the digits of `r` below those of `q`, one digit taken off.
fields_split : (k q r : ℕ) → q * 2 ^ suc k + r ≡ 2 * (q * 2 ^ k + r / 2) + r % 2
fields_split k q r = omega (arith, shifted k q)

mask_fields : (k q r : ℕ) → r < 2 ^ k → bit_and (q * 2 ^ k + r) (2 ^ k - 1) ≡ r
mask_fields zero q r below = bit_and-zero (q * 1 + r) ∙ omega arith
mask_fields (suc k) q r below =
    let ih = mask_fields k q (r / 2) (omega (arith, pow-suc 2 k)) in
    let mask : 2 ^ suc k - 1 ≡ 2 * (2 ^ k - 1) + 1 = omega (arith, pow-suc 2 k, one-le-pow k 2) in
    rw
      (
        fields_split k q r,
        mask,
        and_digits (q * 2 ^ k + r / 2) (2 ^ k - 1) (r % 2) 1 (omega arith) (omega arith),
        ih,
      )
      (omega arith)

-- `&` with the mask of the `k` low digits is the remainder by `2 ^ k`.
pub bit_and_mask : (k a : ℕ) → bit_and a (2 ^ k - 1) ≡ a % 2 ^ k
bit_and_mask k a =
    let positive = one-le-pow k 2 in
    let low = mask_fields k (a / 2 ^ k) (a % 2 ^ k) (ground arith) in ground arith

-- `&` with a mask whose low `k` bits are clear drops the low `k` bits.
pub bit_and_high :
    (k q r p : ℕ) → r < 2 ^ k → bit_and (q * 2 ^ k + r) (p * 2 ^ k) ≡ bit_and q p * 2 ^ k
bit_and_high zero q r p fits = ground arith
bit_and_high (suc k) q r p fits =
    let ih = bit_and_high k q (r / 2) p (omega (arith, pow-suc 2 k)) in
    let mask : p * 2 ^ suc k ≡ 2 * (p * 2 ^ k) + 0 = omega (arith, shifted k p) in
    rw
      (
        fields_split k q r,
        mask,
        and_digits (q * 2 ^ k + r / 2) (p * 2 ^ k) (r % 2) 0 (omega arith) (omega arith),
        ih,
        shifted k (bit_and q p),
      )
      (omega arith)

or-comm_below : (n a b : ℕ) → a ≤ n → b ≤ n → bit_or a b ≡ bit_or b a
or-comm_below zero zero zero h k = refl
or-comm_below zero (suc a) b h k = absurd (omega arith)
or-comm_below zero zero (suc b) h k = absurd (omega arith)
or-comm_below (suc n) a b h k = omega (
  arith,
  or_lowest a b,
  or_lowest b a,
  or-comm_below n (a / 2) (b / 2) (omega arith) (omega arith),
)

pub bit_or_comm : (a b : ℕ) → bit_or a b ≡ bit_or b a
bit_or_comm a b = or-comm_below (a + b) a b (omega arith) (omega arith)

-- The same with the field of low bits written first.
pub bit_or_fields_low : (k q r : ℕ) → r < 2 ^ k → bit_or r (q * 2 ^ k) ≡ q * 2 ^ k + r
bit_or_fields_low k q r h = bit_or_comm r (q * 2 ^ k) ∙ bit_or_fields k q r h

-- `|` of two fields of low bits under a field of high bits.
pub bit_or_low :
    (k q r s : ℕ) → r < 2 ^ k → s < 2 ^ k → bit_or (q * 2 ^ k + r) s ≡ q * 2 ^ k + bit_or r s
bit_or_low zero q r s hr hs =
    let no_r : r ≡ 0 = omega arith in
    let no_s : s ≡ 0 = omega arith in rw (no_r, no_s, bit_or-zero (q * 1 + 0), bit_or-zero 0) refl
bit_or_low (suc k) q r s hr hs =
    let ih =
      bit_or_low k q (r / 2) (s / 2) (omega (arith, pow-suc 2 k)) (omega (arith, pow-suc 2 k)) in
    let split = fields_split k q r in
    let half : (q * 2 ^ suc k + r) / 2 ≡ q * 2 ^ k + r / 2 = omega arith in
    let digit : (q * 2 ^ suc k + r) % 2 ≡ r % 2 = omega arith in
    let high = shifted k q in
    rw (or_lowest (q * 2 ^ suc k + r) s, or_lowest r s, half, digit, ih) (omega arith)
