-- ===== src/Prelude/Bits/Step.antt =====
-- The lowest digit of `|` and `&`: the library defines them by a recursion on binary digits that counts
-- rounds down, and the number of rounds does not matter once it is enough.
use Prim.Native.Nat.{
  ℕ, zero, suc, ◌+◌, ◌*◌, ◌/◌, ◌%◌, ◌≤◌, bit_and, bit_or, min, max, digits, bitwise,
  bit_and-bitwise, bit_or-bitwise,
}
use mathlib.Core.Path.{◌≡◌, refl, ◌∙◌}
use native.Mathlib.Decide.{dec_le}
use native.Mathlib.Omega.{arith}

module _ (rest : ℕ → ℕ) (digit : ℕ → ℕ → ℕ) where
  one_round_more :
      (rounds x y : ℕ)
      → x ≤ rounds
      → digits rest digit (suc rounds) x y ≡ digits rest digit rounds x y
  one_round_more zero zero y enough = refl
  one_round_more zero (suc x) y enough = absurd (omega arith)
  one_round_more (suc rounds) zero y enough = refl
  one_round_more (suc rounds) (suc x) y enough =
      let ih = one_round_more rounds (suc x / 2) (y / 2) (omega arith) in omega (arith, ih)

  own_rounds :
      (rounds x y : ℕ) → x ≤ rounds → digits rest digit rounds x y ≡ digits rest digit x x y
  own_rounds zero zero y enough = refl
  own_rounds zero (suc x) y enough = absurd (omega arith)
  own_rounds (suc rounds) x y enough = elim (dec_le x rounds) [
    | yes less ↦ one_round_more rounds x y less ∙ own_rounds rounds x y less
    | no all ↦ let last : x ≡ suc rounds = omega arith in rw last refl
  ]

  lowest_digit :
      (x y : ℕ)
      → bitwise rest digit (suc x) y
        ≡ digit (suc x % 2) (y % 2) + 2 * bitwise rest digit (suc x / 2) (y / 2)
  lowest_digit x y = omega (arith, own_rounds x (suc x / 2) (y / 2) (omega arith))

pub or_lowest : (x y : ℕ) → bit_or x y ≡ max (x % 2) (y % 2) + 2 * bit_or (x / 2) (y / 2)
or_lowest zero y = simp bit_or-bitwise (omega arith)
or_lowest (suc x) y = simp bit_or-bitwise (lowest_digit (λ t. t) max x y)

pub and_lowest : (x y : ℕ) → bit_and x y ≡ min (x % 2) (y % 2) + 2 * bit_and (x / 2) (y / 2)
and_lowest zero y = simp bit_and-bitwise (omega arith)
and_lowest (suc x) y = simp bit_and-bitwise (lowest_digit (λ t. 0) min x y)
