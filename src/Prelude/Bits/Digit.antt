-- ===== src/Prelude/Bits/Digit.antt =====
-- Single binary digits of `|` and `&`.
use Prim.Native.Nat.{ℕ, zero, suc, ◌/◌, ◌%◌, bit_and, bit_or, min, max}
use mathlib.Core.Path.{◌≡◌, ◌∙◌, ap}
use native.Mathlib.Omega.{arith}
use objective_hail_os.Prelude.Bits.Step.{or_lowest, and_lowest}

-- The binary digit at a place, the lowest one at place 0.
unfoldable pub digit : (place : ℕ) → ℕ → ℕ
digit zero x = x % 2
digit (suc place) x = digit place (x / 2)

pub digit-bit_or : (k x y : ℕ) → digit k (bit_or x y) ≡ max (digit k x) (digit k y)
unfolding digit
digit-bit_or zero x y = omega (arith, or_lowest x y)
digit-bit_or (suc k) x y =
    let half : bit_or x y / 2 ≡ bit_or (x / 2) (y / 2) = omega (arith, or_lowest x y) in
    ap (digit k) half ∙ digit-bit_or k (x / 2) (y / 2)

pub digit-bit_and : (k x y : ℕ) → digit k (bit_and x y) ≡ min (digit k x) (digit k y)
unfolding digit
digit-bit_and zero x y = omega (arith, and_lowest x y)
digit-bit_and (suc k) x y =
    let half : bit_and x y / 2 ≡ bit_and (x / 2) (y / 2) = omega (arith, and_lowest x y) in
    ap (digit k) half ∙ digit-bit_and k (x / 2) (y / 2)
