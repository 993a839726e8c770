-- ===== src/HexString/RoundTrip.antt =====
-- Library/String/StringUtility.hpp: the text of a number, read back, and the length of a string.
use objective_hail_os.Prelude.{
  ℕ, sym, ap, zero, suc, ◌+◌, ◌-◌, ◌*◌, ◌/◌, ◌%◌, ◌^◌, ◌<◌, ◌≡◌, ◌≢◌, refl, ◌∙◌, bit_and, false,
  some, arith, ltb, ◌==◌, if◌then◌else◌, update,
}
use objective_hail_os.Prelude.Words.{u8}
use objective_hail_os.Prelude.Bits.{bit_and_mask}
use native.Mathlib.Nat.{div-div-eq-div-mul, div-one, pow-suc}
use objective_hail_os.HexString.{hex_digit, hex_loop, ulong_to_hex_string, length_loop}

-- The value of a digit character.
abbrev pub digit_value : ℕ → ℕ
digit_value c = if ltb c b'A' then c - b'0' else c - b'A' + 10

-- The number that `n` digit characters from `i` on stand for, the highest digit first.
unfoldable pub read_hex : ℕ → (ℕ → ℕ) → ℕ → ℕ → ℕ
read_hex zero buf i acc = acc
read_hex (suc n) buf i acc = read_hex n buf (i + 1) (acc * 16 + digit_value (buf i))

digit_value-hex_digit : (d : ℕ) → d < 16 → digit_value (hex_digit d) ≡ d
unfolding hex_digit
digit_value-hex_digit d h = ground arith

hex_loop_before : (left : ℕ) (buf : ℕ → ℕ) (n i j : ℕ) → j < 2 + i → hex_loop left buf n i j ≡ buf j
unfolding hex_loop
hex_loop_before zero buf n i j h = refl
hex_loop_before (suc left) buf n i j h =
    hex_loop_before left
      (update buf (2 + i) (hex_digit (u8 (bit_and (n / 2 ^ ((15 - i) * 4)) 0xf)))) n (i + 1) j
      (omega arith)
    ∙ ground arith

-- Digit `i` of the text.
hex_loop_at :
    (left : ℕ) (buf : ℕ → ℕ) (n i k : ℕ)
    → k < left
    → hex_loop left buf n i (2 + i + k) ≡ hex_digit (n / 2 ^ ((15 - (i + k)) * 4) % 16)
unfolding hex_loop
hex_loop_at zero buf n i k h = absurd (omega arith)
hex_loop_at (suc left) buf n i zero h =
    let here : 2 + i + 0 ≡ 2 + i = omega arith in
    let index : i + 0 ≡ i = omega arith in
    let nib : u8 (bit_and (n / 2 ^ ((15 - i) * 4)) 0xf) ≡ n / 2 ^ ((15 - i) * 4) % 16 =
      omega (arith, bit_and_mask 4 (n / 2 ^ ((15 - i) * 4))) in
    rw (here, index, nib)
      (hex_loop_before left (update buf (2 + i) (hex_digit (n / 2 ^ ((15 - i) * 4) % 16))) n (i + 1)
          (2 + i) (omega arith)
        ∙ ground arith)
hex_loop_at (suc left) buf n i (suc k) h =
    let there : 2 + i + suc k ≡ 2 + (i + 1) + k = omega arith in
    let index : i + suc k ≡ i + 1 + k = omega arith in
    rw (there, index) (hex_loop_at left _ n (i + 1) k (omega arith))

digit_at :
    (buf : ℕ → ℕ) (n k : ℕ)
    → k < 16
    → digit_value (ulong_to_hex_string buf n (2 + k)) ≡ n / 2 ^ ((15 - k) * 4) % 16
unfolding ulong_to_hex_string
digit_at buf n k h =
    let inside : (18 == 2 + k) ≡ false = ground arith in
    let at = hex_loop_at 16 (update (update buf 0 b'0') 1 b'x') n 0 k h in
    let index : 2 + 0 + k ≡ 2 + k = omega arith in
    let plain : 0 + k ≡ k = omega arith in
    rw (inside, ← index, at, plain) (digit_value-hex_digit _ (omega arith))

-- Reading the next digit.
next_digit : (n p : ℕ) → n / (p * 16) * 16 + n / p % 16 ≡ n / p
next_digit n p = omega (arith, div-div-eq-div-mul n p 16)

pow_digit : (left : ℕ) → 2 ^ (suc left * 4) ≡ 2 ^ (left * 4) * 16
pow_digit left =
    let e : suc left * 4 ≡ suc (suc (suc (suc (left * 4)))) = omega arith in
    rw
      (
        e,
        pow-suc 2 (suc (suc (suc (left * 4)))),
        pow-suc 2 (suc (suc (left * 4))),
        pow-suc 2 (suc (left * 4)),
        pow-suc 2 (left * 4),
      )
      (omega arith)

-- Digits `k` on, after the digits before them were read.
read_hex_from :
    (buf : ℕ → ℕ) (n left k : ℕ)
    → left + k ≡ 16
    → read_hex left (ulong_to_hex_string buf n) (2 + k) (n / 2 ^ (left * 4)) ≡ n
unfolding read_hex
read_hex_from buf n zero k h = div-one n
read_hex_from buf n (suc left) k h =
    let index : 2 + k + 1 ≡ 2 + (k + 1) = omega arith in
    let place : 15 - k ≡ left = omega arith in
    let high : 2 ^ (suc left * 4) ≡ 2 ^ (left * 4) * 16 = pow_digit left in
    rw (digit_at buf n k (omega arith), place, high, next_digit n (2 ^ (left * 4)), index)
      (read_hex_from buf n left (k + 1) (omega arith))

-- The text of a number below 2 ^ 64, sixteen digits after a prefix of two characters, reads back
-- as the number.
pub read_hex-ulong_to_hex_string :
    (buf : ℕ → ℕ) (n : ℕ) → n < 2 ^ 64 → read_hex 16 (ulong_to_hex_string buf n) 2 0 ≡ n
read_hex-ulong_to_hex_string buf n h =
    let none_yet : n / 2 ^ (16 * 4) ≡ 0 = omega arith in
    ap (λ (a : ℕ). read_hex 16 (ulong_to_hex_string buf n) 2 a) (sym none_yet)
    ∙ read_hex_from buf n 16 0 refl

-- If the first zero of the string is `k` characters after the index and there is fuel for more
-- than `k` rounds, the loop of `StringLength` returns its index.
pub length_loop_lem :
    (fuel : ℕ) (str : ℕ → ℕ) (i k : ℕ)
    → k < fuel
    → str (i + k) ≡ 0
    → ((j : ℕ) → j < k → str (i + j) ≢ 0)
    → length_loop fuel str i ≡ some (i + k)
unfolding length_loop
length_loop_lem zero str i k h e before = absurd (omega arith)
length_loop_lem (suc fuel) str i zero h e before =
    let here : i + 0 ≡ i = omega arith in ground arith
length_loop_lem (suc fuel) str i (suc k) h e before =
    let here : i + 0 ≡ i = omega arith in
    let next : i + suc k ≡ i + 1 + k = omega arith in
    let rest = length_loop_lem fuel str (i + 1) k (omega arith) (rw (← next) e) (λ j l.
      let shift : i + suc j ≡ i + 1 + j = omega arith in
      rw (← shift) (before (suc j) (omega arith))) in
    let first : str i ≢ 0 = rw (← here) (before 0 (omega arith)) in rw (rest, next) (ground arith)
