-- ===== src/SpinLock/Flag.antt =====
-- Kernel/Sync/SpinLock.hpp (IRQSaveAndDisable, IRQRestore, LockIRQSave, UnlockIRQRestore) and
-- Kernel/Arch/x86_64/Utility/CriticalSection.cpp: the interrupt flag, bit 9 of RFLAGS.
use objective_hail_os.Prelude.{
  ℕ, zero, suc, ◌+◌, ◌-◌, ◌*◌, ◌/◌, ◌%◌, ◌^◌, ◌≡◌, refl, ◌∙◌, ap, arith, bit_and, Bool, true, false,
  not, List, [], ◌∷◌, ◌==◌, if◌then◌else◌,
}
use objective_hail_os.Prelude.Bits.{bit_and_mask, bit_and_high}

-- What the instructions `cli` and `sti` do to RFLAGS.
abbrev pub cli : ℕ → ℕ
cli rflags = rflags - rflags / 2 ^ 9 % 2 * 2 ^ 9

abbrev pub sti : ℕ → ℕ
sti rflags = cli rflags + 2 ^ 9

-- `IRQSaveAndDisable`: the saved state, and the register afterwards.
unfoldable pub irq_save_and_disable : ℕ → ℕ × ℕ
irq_save_and_disable rflags = (rflags, cli rflags)

-- `IRQRestore`.
unfoldable pub irq_restore : (state rflags : ℕ) → ℕ
irq_restore state rflags = if bit_and state (2 ^ 9) == 0 then rflags else sti rflags

-- The register around a section between `LockIRQSave` and `UnlockIRQRestore`; `body` is what the section
-- does to it.
unfoldable pub locked_section : (ℕ → ℕ) → ℕ → ℕ
unfolding irq_save_and_disable irq_restore
locked_section body rflags =
    let (state, rflags1) = irq_save_and_disable rflags in irq_restore state (body rflags1)

-- Sections `n` deep inside each other.
unfoldable pub nested_sections : ℕ → ℕ → ℕ
unfolding locked_section
nested_sections zero rflags = rflags
nested_sections (suc n) rflags = locked_section (nested_sections n) rflags

flag_test : (rflags : ℕ) → bit_and rflags (2 ^ 9) ≡ rflags / 2 ^ 9 % 2 * 2 ^ 9
flag_test rflags =
    let split : rflags ≡ rflags / 2 ^ 9 * 2 ^ 9 + rflags % 2 ^ 9 = omega arith in
    ap (λ (r : ℕ). bit_and r (2 ^ 9)) split
    ∙ bit_and_high 9 (rflags / 2 ^ 9) (rflags % 2 ^ 9) 1 (omega arith)
    ∙ ap (λ (b : ℕ). b * 2 ^ 9) (bit_and_mask 1 (rflags / 2 ^ 9))

-- Sections between `LockIRQSave` and `UnlockIRQRestore`, however deep inside each other, leave RFLAGS as
-- it was, the interrupt flag included.
pub nested_sections_lem : (n rflags : ℕ) → nested_sections n rflags ≡ rflags
unfolding nested_sections locked_section irq_save_and_disable irq_restore
nested_sections_lem zero rflags = refl
nested_sections_lem (suc n) rflags =
    let inner = nested_sections_lem n (cli rflags) in
    let test = flag_test rflags in rw (inner, test) (ground arith)

-- CriticalSection.cpp: `InCritical` and whether interrupts are enabled.
pub record Critical : Type 0 where
  pub in_critical : Bool
  pub enabled : Bool

unfoldable pub start_critical_section : Critical → Critical
start_critical_section c = record { in_critical = true; enabled = false }

unfoldable pub end_critical_section : Critical → Critical
end_critical_section c = record { in_critical = false; enabled = true }

unfoldable pub enable_interrupt : Critical → Critical
enable_interrupt c =
    if not c.in_critical then record { in_critical = c.in_critical; enabled = true } else c

unfoldable pub disable_interrupt : Critical → Critical
disable_interrupt c = record { in_critical = c.in_critical; enabled = false }

-- The calls between the start and the end of a section.
pub data Inside : Type 0 where
  start_again enable disable : Inside

unfoldable pub run_inside : List Inside → Critical → Critical
unfolding start_critical_section enable_interrupt disable_interrupt
run_inside [] c = c
run_inside (start_again ∷ calls) c = run_inside calls (start_critical_section c)
run_inside (enable ∷ calls) c = run_inside calls (enable_interrupt c)
run_inside (disable ∷ calls) c = run_inside calls (disable_interrupt c)

closed :
    (calls : List Inside) (c : Critical)
    → c.in_critical ≡ true
    → c.enabled ≡ false
    → (run_inside calls c).enabled ≡ false
unfolding run_inside
closed [] c inside off = off
closed (start_again ∷ calls) c inside off =
    closed calls (start_critical_section c) (unfold start_critical_section in refl)
      (unfold start_critical_section in refl)
closed (enable ∷ calls) c inside off =
    closed calls (enable_interrupt c) (unfold enable_interrupt in ground arith)
      (unfold enable_interrupt in ground arith)
closed (disable ∷ calls) c inside off =
    closed calls (disable_interrupt c) (unfold disable_interrupt in inside)
      (unfold disable_interrupt in refl)

-- From `StartCriticalSection` on interrupts stay disabled, whatever calls of `EnableInterrupt`,
-- `DisableInterrupt` and `StartCriticalSection` follow.
pub critical_section_closed :
    (calls : List Inside) (c : Critical)
    → (run_inside calls (start_critical_section c)).enabled ≡ false
critical_section_closed calls c =
    closed calls (start_critical_section c) (unfold start_critical_section in refl)
      (unfold start_critical_section in refl)
