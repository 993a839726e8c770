-- ===== src/Bit.antt =====
-- Kernel/Include/Utility/Bit.hpp: single bits of a byte, and ranges of bits of a byte array.
pub mod Byte
pub mod Range
use objective_hail_os.Prelude.{
  ℕ, zero, suc, ◌+◌, ◌-◌, ◌*◌, ◌/◌, ◌%◌, ◌^◌, bit_and, bit_or, Bool, true, false, not, ltb, leb,
  ◌==◌, if◌then◌else◌, update,
}
use objective_hail_os.Prelude.Words.{u8, u64}

abbrev pub char_bit : ℕ
char_bit = 8

-- `Bit`. The cast to `bool` is the test against 0.
unfoldable pub bit : ℕ → ℕ → Bool
bit value b = if leb char_bit b then false else not (bit_and (value / 2 ^ b) 1 == 0)

-- `SetBit`. `~mask` as a byte is `255 - mask`.
unfoldable pub set_bit : ℕ → ℕ → Bool → ℕ
set_bit value b flag =
    if leb char_bit b
    then value
    else (let mask = u8 (2 ^ b) in
        u8 (bit_or (bit_and value (255 - mask)) (if flag then mask else 0)))

-- `Bit(data[idx], b)` and `SetBit(data[idx], b, flag)` on a byte array.
abbrev pub bit_at : (ℕ → ℕ) → ℕ → ℕ → Bool
bit_at m idx b = bit (m idx) b

abbrev pub set_bit_at : (ℕ → ℕ) → ℕ → ℕ → Bool → ℕ → ℕ
set_bit_at m idx b flag = update m idx (set_bit (m idx) b flag)

-- The same at bit `b` of the array, counted from the lowest bit of byte 0.
unfoldable pub array_bit : (ℕ → ℕ) → ℕ → Bool
array_bit m b = bit_at m (b / char_bit) (b % char_bit)

unfoldable pub set_array_bit : (ℕ → ℕ) → ℕ → Bool → ℕ → ℕ
set_array_bit m b flag = set_bit_at m (b / char_bit) (b % char_bit) flag

-- The loop of `SetBitRange` from bit `b` on, with `left` rounds left.
unfoldable pub set_bits : ℕ → (ℕ → ℕ) → ℕ → Bool → ℕ → ℕ
set_bits zero m b flag = m
set_bits (suc left) m b flag = set_bits left (set_array_bit m b flag) (b + 1) flag

-- `SetBitRange`. The sums and products are those of `size_t`.
unfoldable pub set_bit_range : (ℕ → ℕ) → ℕ → ℕ → ℕ → ℕ → Bool → ℕ → ℕ
set_bit_range m size start_index start_bit length flag =
    if length == 0
    then m
    else (let total = u64 (size * char_bit) in
        let sb = u64 (u64 (start_index * char_bit) + start_bit) in
        if leb total sb
        then m
        else (if ltb total (u64 (sb + length)) then m else set_bits length m sb flag))
