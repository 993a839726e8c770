-- ===== src/HexString.antt =====
-- Library/String/StringUtility.hpp: `ULongToHexString` and `StringLength`. The static buffer is a
-- function from indices to bytes.
pub mod RoundTrip
use objective_hail_os.Prelude.{
  ℕ, zero, suc, ◌+◌, ◌-◌, ◌*◌, ◌/◌, ◌%◌, ◌^◌, bit_and, Option, none, some, List, [], ◌∷◌, ltb, ◌==◌,
  if◌then◌else◌, update,
}
use objective_hail_os.Prelude.Words.{u8}

-- `hex[nib]`, the characters "0123456789ABCDEF".
unfoldable pub hex_digit : ℕ → ℕ
hex_digit nib = if ltb nib 10 then b'0' + nib else b'A' + nib - 10

-- The loop of `ULongToHexString` at index `i`, with `left` rounds left.
unfoldable pub hex_loop : ℕ → (ℕ → ℕ) → ℕ → ℕ → ℕ → ℕ
hex_loop zero buf n i = buf
hex_loop (suc left) buf n i =
    let shift = (15 - i) * 4 in
    let nib = u8 (bit_and (n / 2 ^ shift) 0xf) in
    hex_loop left (update buf (2 + i) (hex_digit nib)) n (i + 1)

-- `ULongToHexString`.
unfoldable pub ulong_to_hex_string : (ℕ → ℕ) → ℕ → ℕ → ℕ
ulong_to_hex_string buf n = update (hex_loop 16 (update (update buf 0 b'0') 1 b'x') n 0) 18 0

-- The loop of `StringLength` at index `i`; `none` is fuel that ran out.
unfoldable pub length_loop : ℕ → (ℕ → ℕ) → ℕ → Option ℕ
length_loop zero str i = none
length_loop (suc fuel) str i =
    let rest = length_loop fuel str (i + 1) in if str i == 0 then some i else rest

-- The bytes of the string at index `i`, up to its terminating zero or `fuel` bytes.
unfoldable pub bytes_from : ℕ → (ℕ → ℕ) → ℕ → List ℕ
bytes_from zero str i = []
bytes_from (suc fuel) str i = if str i == 0 then [] else str i ∷ bytes_from fuel str (i + 1)

-- What `ULongToHexString` returns, as a string: the buffer has 19 bytes.
unfoldable pub hex_string : ℕ → List ℕ
unfolding ulong_to_hex_string bytes_from
hex_string n = bytes_from 19 (ulong_to_hex_string (λ _. 0) n) 0
