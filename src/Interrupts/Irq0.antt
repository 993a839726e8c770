-- ===== src/Interrupts/Irq0.antt =====
-- Kernel/Arch/x86_64/Interrupts/IRQ0Handler.cpp: the handler that counts the interrupts of the timer chip.
use objective_hail_os.Prelude.{
  ℕ, zero, suc, ◌+◌, ◌/◌, ◌^◌, ◌<◌, ◌≡◌, ap, arith, bit_and, ◌==◌, if◌then◌else◌, List,
}
use objective_hail_os.Prelude.Words.{u64}
use objective_hail_os.Prelude.Bits.{bit_and_mask}
use objective_hail_os.Interrupts.{Effect, Tables, register_interrupt_handler}
use objective_hail_os.Interrupts.Timer.{end_of_interrupt}

-- The static counter, and how often the text was printed.
pub record Irq0 : Type 0 where
  pub ctr : ℕ
  pub messages : ℕ

-- `OnIRQ0`: the counter, the text, and the writes to the local APIC at `lapic`.
unfoldable pub on_irq0 : (lapic : ℕ) → Irq0 → Irq0 × List Effect
unfolding end_of_interrupt
on_irq0 lapic s =
    let ctr = u64 (s.ctr + 1) in
    let messages = if bit_and ctr 1023 == 0 then s.messages + 1 else s.messages in
    (record { ctr = ctr; messages = messages }, end_of_interrupt lapic)

-- `InitIRQ0Handler`; `on_irq0_fn` is the address of `OnIRQ0`.
unfoldable pub init_irq0_handler : (on_irq0_fn : ℕ) → Tables → (vec : ℕ) → Tables
unfolding register_interrupt_handler
init_irq0_handler on_irq0_fn t vec = (register_interrupt_handler t vec on_irq0_fn).0

-- `n` interrupts.
unfoldable pub irq0_times : (lapic n : ℕ) → Irq0 → Irq0
unfolding on_irq0
irq0_times lapic zero s = s
irq0_times lapic (suc n) s = irq0_times lapic n (on_irq0 lapic s).0

on_irq0_step :
    (lapic : ℕ) (s : Irq0)
    → s.ctr + 1 < 2 ^ 64
    → ((on_irq0 lapic s).0.ctr ≡ s.ctr + 1)
      × ((on_irq0 lapic s).0.messages + s.ctr / 1024 ≡ s.messages + (s.ctr + 1) / 1024)
unfolding on_irq0
on_irq0_step lapic s small =
    let ctr : u64 (s.ctr + 1) ≡ s.ctr + 1 = omega arith in
    let masked = bit_and_mask 10 (s.ctr + 1) in (ctr, rw (ctr, masked) (ground arith))

-- As long as the counter does not wrap, the text is printed once for each multiple of 1024 that it reaches.
pub irq0_times-messages :
    (lapic n : ℕ) (s : Irq0)
    → s.ctr + n < 2 ^ 64
    → (irq0_times lapic n s).messages + s.ctr / 1024 ≡ s.messages + (s.ctr + n) / 1024
unfolding irq0_times
irq0_times-messages lapic zero s small = omega arith
irq0_times-messages lapic (suc n) s small =
    let (ctr, messages) = on_irq0_step lapic s (omega arith) in
    let later = irq0_times-messages lapic n (on_irq0 lapic s).0 (omega (arith, ctr)) in
    omega (arith, ctr, messages, later, ap (λ (c : ℕ). (c + n) / 1024) ctr)
