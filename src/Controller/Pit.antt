-- ===== src/Controller/Pit.antt =====
-- Kernel/Arch/x86_64/Timers/PIT.hpp: the set-up of the timer chip, which is deprecated.
use objective_hail_os.Prelude.{
  ℕ, ◌+◌, ◌*◌, ◌/◌, ◌%◌, ◌^◌, ◌<◌, ◌≤◌, ◌≡◌, arith, bit_and, true, false, dec_le, Option, none,
  some, List, [], ◌∷◌, ◌==◌, leb, if◌then◌else◌,
}
use native.Mathlib.Nat.{div-lt_iff_lt-mul}
use objective_hail_os.Prelude.Words.{u8, u16}
use objective_hail_os.Prelude.Bits.{bit_and_mask}
use objective_hail_os.Controller.{Ports, unmask}

-- The divisor.
unfoldable pub pit_divisor : (target_hz : ℕ) → ℕ
pit_divisor target_hz = u16 (1193182 / target_hz)

-- The low and the high byte that go to the data port.
abbrev pub low_byte : ℕ → ℕ
low_byte d = u8 (bit_and d 0xff)

abbrev pub high_byte : ℕ → ℕ
high_byte d = u8 (bit_and (d / 2 ^ 8) 0xff)

-- `InitPIT`: the writes to the chip's ports, in order, and the data ports of the interrupt controllers;
-- `none` is a division by zero.
unfoldable pub init_pit : (target_hz : ℕ) → Ports → Option (List (ℕ × ℕ) × Ports)
unfolding pit_divisor unmask
init_pit target_hz ports =
    let d = pit_divisor target_hz in
    if target_hz == 0
    then none
    else some ((0x43, 0x34) ∷ (0x40, low_byte d) ∷ (0x40, high_byte d) ∷ [], unmask ports 0)

fits_16 : (target_hz : ℕ) → 19 ≤ target_hz → 1193182 / target_hz < 2 ^ 16
fits_16 target_hz h =
    (div-lt_iff_lt-mul {k = target_hz} {x = 1193182} {y = 2 ^ 16} (omega arith)).1 (omega arith)

-- From 19 Hz on the two bytes are the divisor of the frequency; below, where it does not fit 16 bits, they
-- are what is left of it.
pub pit_divisor-bytes :
    (target_hz : ℕ)
    → low_byte (pit_divisor target_hz) + high_byte (pit_divisor target_hz) * 2 ^ 8
      ≡ (if leb 19 target_hz then 1193182 / target_hz else 1193182 / target_hz % 2 ^ 16)
unfolding pit_divisor
pit_divisor-bytes target_hz =
    let d = pit_divisor target_hz in
    let low = bit_and_mask 8 d in
    let high = bit_and_mask 8 (d / 2 ^ 8) in
    elim (dec_le 19 target_hz) [
      | yes fast ↦
          let test : leb 19 target_hz ≡ true = ground arith in
          rw test (omega (arith, low, high, fits_16 target_hz fast))
      | no slow ↦
          let test : leb 19 target_hz ≡ false = ground arith in rw test (omega (arith, low, high))
    ]
