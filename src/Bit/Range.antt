-- ===== src/Bit/Range.antt =====
-- Kernel/Include/Utility/Bit.hpp: a byte array read as an array of bits, and what `SetBitRange` does
-- to it.
use objective_hail_os.Prelude.{
  ℕ, zero, suc, ◌+◌, ◌*◌, ◌/◌, ◌%◌, ◌^◌, ◌≤◌, ◌<◌, ◌≡◌, Bool, ◌&&◌, arith, ltb, leb, ◌==◌,
  if◌then◌else◌, IsBytes, update-IsBytes, ◌∙◌, fun_ext,
}
use objective_hail_os.Prelude.Words.{u64}
use objective_hail_os.Bit.{bit_at, set_bit_at, array_bit, set_array_bit, set_bits, set_bit_range}
use objective_hail_os.Bit.Byte.{bit-set_bit, set_bit-lt}

pub set_array_bit-IsBytes :
    (m : ℕ → ℕ) (b : ℕ) (flag : Bool) → IsBytes m → IsBytes (set_array_bit m b flag)
unfolding set_array_bit
set_array_bit-IsBytes m b flag h =
    update-IsBytes m (b / 8) _ h (set_bit-lt (m (b / 8)) (b % 8) flag (h (b / 8)))

pub array_bit-set_array_bit :
    (m : ℕ → ℕ) (b c : ℕ) (flag : Bool)
    → IsBytes m
    → array_bit (set_array_bit m b flag) c ≡ (if b == c then flag else array_bit m c)
unfolding array_bit set_array_bit
array_bit-set_array_bit m b c flag h =
    ground (arith, h (b / 8), bit-set_bit (m (b / 8)) (b % 8) (c % 8) flag)

-- Bit `c` lies in the range of `n` bits from `b` on.
abbrev pub in_range : ℕ → ℕ → ℕ → Bool
in_range b n c = leb b c && ltb c (b + n)

module _ (flag : Bool) (c : ℕ) where
  pub set_bits-IsBytes : (n : ℕ) (m : ℕ → ℕ) (b : ℕ) → IsBytes m → IsBytes (set_bits n m b flag)
  unfolding set_bits
  set_bits-IsBytes zero m b h = h
  set_bits-IsBytes (suc n) m b h = set_bits-IsBytes n _ (b + 1) (set_array_bit-IsBytes m b flag h)

  pub array_bit-set_bits :
      (n : ℕ) (m : ℕ → ℕ) (b : ℕ)
      → IsBytes m
      → array_bit (set_bits n m b flag) c ≡ (if in_range b n c then flag else array_bit m c)
  unfolding set_bits
  array_bit-set_bits zero m b h = ground arith
  array_bit-set_bits (suc n) m b h =
      array_bit-set_bits n (set_array_bit m b flag) (b + 1) (set_array_bit-IsBytes m b flag h)
      ∙ ground (arith, array_bit-set_array_bit m b c flag h)

module _ (m : ℕ → ℕ) (size start_index start_bit n : ℕ) (flag : Bool) (small : size < 2 ^ 32)
    (near : start_index < 2 ^ 32) (short : start_bit < 8) (len : n < 2 ^ 60) where
  abbrev start : ℕ
  start = start_index * 8 + start_bit

  -- `SetBitRange` of a range that lies inside the array writes the flag to exactly the bits of the
  -- range, for an array and a start index below 2 ^ 32, a start bit below 8 and fewer than 2 ^ 60
  -- bits.
  pub array_bit-set_bit_range :
      (c : ℕ)
      → IsBytes m
      → start + n ≤ size * 8
      → array_bit (set_bit_range m size start_index start_bit n flag) c
        ≡ (if in_range start n c then flag else array_bit m c)
  unfolding set_bit_range
  array_bit-set_bit_range c h fits = ground (arith, array_bit-set_bits flag c n m start h)

  pub set_bit_range_outside :
      size * 8 < start + n → set_bit_range m size start_index start_bit n flag ≡ m
  unfolding set_bit_range
  set_bit_range_outside over = ground arith

-- The accesses by byte index and bit number, as accesses to the array of bits.
pub array_bit_at : (m : ℕ → ℕ) (idx b : ℕ) → b < 8 → array_bit m (idx * 8 + b) ≡ bit_at m idx b
unfolding array_bit
array_bit_at m idx b h = ground arith

pub set_array_bit_at :
    (m : ℕ → ℕ) (idx b : ℕ) (flag : Bool)
    → b < 8
    → set_array_bit m (idx * 8 + b) flag ≡ set_bit_at m idx b flag
unfolding set_array_bit
set_array_bit_at m idx b flag h = fun_ext (λ j. ground arith)

-- Every write keeps bytes bytes.
pub set_bit_at-IsBytes :
    (m : ℕ → ℕ) (idx b : ℕ) (flag : Bool) → IsBytes m → IsBytes (set_bit_at m idx b flag)
set_bit_at-IsBytes m idx b flag h = update-IsBytes m idx _ h (set_bit-lt (m idx) b flag (h idx))

pub set_bit_range-IsBytes :
    (m : ℕ → ℕ) (size start_index start_bit n : ℕ) (flag : Bool)
    → IsBytes m
    → IsBytes (set_bit_range m size start_index start_bit n flag)
unfolding set_bit_range
set_bit_range-IsBytes m size start_index start_bit n flag h i =
    ground (arith, h i, set_bits-IsBytes flag 0 n m (u64 (u64 (start_index * 8) + start_bit)) h i)
