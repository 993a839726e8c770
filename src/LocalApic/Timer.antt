-- ===== src/LocalApic/Timer.antt =====
-- Kernel/Arch/x86_64/APIC/LAPIC.cpp: the registers that ConfigureTimer leaves.
use objective_hail_os.Prelude.{
  ℕ, ◌+◌, ◌<◌, ◌∙◌, not, ◌≡◌, ◌≢◌, ◌-◌, refl, false, ◌^◌, arith, Bool, bit_and, bit_or, ◌==◌,
  if◌then◌else◌, update_ne,
}
use objective_hail_os.Prelude.Words.{u64}
use objective_hail_os.Prelude.Bits.Digit.{digit, digit-bit_or, digit-bit_and}
use objective_hail_os.LocalApic.{
  LocalApic, enable, mmio_load, mmio_store, configure_timer, lvt_periodic, lvt_masked,
}

-- A register reads back what was stored, and another register is kept.
pub mmio_load-store :
    (l : LocalApic) (offset value : ℕ) → mmio_load (mmio_store l offset value) offset ≡ value
unfolding mmio_load mmio_store
mmio_load-store l offset value = ground arith

pub mmio_load-store_ne :
    (l : LocalApic) (offset other value : ℕ)
    → offset < 2 ^ 12
    → other < 2 ^ 12
    → offset ≢ other
    → mmio_load (mmio_store l offset value) other ≡ mmio_load l other
unfolding mmio_load mmio_store
mmio_load-store_ne l offset other value small small' differ =
    let apart : u64 (l.mmio + offset) ≢ u64 (l.mmio + other) = omega arith in
    update_ne l.words (u64 (l.mmio + offset)) (u64 (l.mmio + other)) value apart

-- The APIC is switched on in its base register, not in the x2APIC mode, and its registers are accessed at
-- the address that the base register holds.
pub record IsEnabled (l : LocalApic) : Type 0 where
  pub switched_on : digit 11 l.apic_base ≡ 1
  pub not_extended : digit 10 l.apic_base ≡ 0
  pub mapped : l.mmio ≡ bit_and l.apic_base 0xfffff000

enable-IsEnabled : (l : LocalApic) → IsEnabled (enable l)
unfolding enable digit
enable-IsEnabled l =
    let mask = 2 ^ 64 - 1 - 2 ^ 10 in
    let all = bit_or l.apic_base (2 ^ 11) in
    let on : digit 11 mask ≡ 1 = refl in
    let set : digit 11 (2 ^ 11) ≡ 1 = refl in
    let off : digit 10 mask ≡ 0 = refl in
    record {
      switched_on =
          digit-bit_and 11 all mask ∙ omega (arith, digit-bit_or 11 l.apic_base (2 ^ 11), on, set);
      not_extended = digit-bit_and 10 all mask ∙ omega (arith, off);
      mapped = refl;
    }

-- When its registers are mapped already, ConfigureTimer leaves the APIC enabled.
pub configure_timer-IsEnabled :
    (l : LocalApic) (vector divide_shift initial_count : ℕ) (periodic : Bool)
    → l.mmio ≢ 0
    → IsEnabled (configure_timer l vector divide_shift initial_count periodic)
unfolding configure_timer mmio_store
configure_timer-IsEnabled l vector divide_shift initial_count periodic real =
    let is_mapped : (l.mmio == 0) ≡ false = ground (arith, real) in
    let e = enable-IsEnabled l in
    rw is_mapped
      (record { switched_on = e.switched_on; not_extended = e.not_extended; mapped = e.mapped })

-- The divider, the initial count, and the vector with its mode, not masked.
pub configure_timer-registers :
    (l : LocalApic) (vector divide_shift initial_count : ℕ) (periodic : Bool)
    → let l' = configure_timer l vector divide_shift initial_count periodic in
      (mmio_load l' 0x3e0 ≡ bit_and divide_shift 7)
      × (mmio_load l' 0x380 ≡ initial_count)
      × (mmio_load l' 0x320 ≡ bit_or vector (if periodic then lvt_periodic else 0))
unfolding configure_timer
configure_timer-registers l vector divide_shift initial_count periodic =
    let l0 = if not (l.mmio == 0) then enable l else l in
    let lvt = bit_or vector (if periodic then lvt_periodic else 0) in
    let l1 = mmio_store l0 0x3e0 (bit_and divide_shift 7) in
    let l2 = mmio_store l1 0x320 (bit_or lvt lvt_masked) in
    let l3 = mmio_store l2 0x380 initial_count in
    let kept = λ (r : LocalApic) (o v : ℕ). mmio_load-store_ne r o 0x3e0 v in
    (
      kept l3 0x320 lvt (omega arith) (omega arith) (omega arith)
          ∙ kept l2 0x380 initial_count (omega arith) (omega arith) (omega arith)
          ∙ kept l1 0x320 (bit_or lvt lvt_masked) (omega arith) (omega arith) (omega arith)
          ∙ mmio_load-store l0 0x3e0 (bit_and divide_shift 7),
      mmio_load-store_ne l3 0x320 0x380 lvt (omega arith) (omega arith) (omega arith)
          ∙ mmio_load-store l2 0x380 initial_count,
      mmio_load-store l3 0x320 lvt,
    )
