-- ===== src/LocalApic/Calibrate.antt =====
-- Kernel/Arch/x86_64/APIC/LAPIC.cpp: the initial count that the calibration finds.
use objective_hail_os.Prelude.{
  ℕ, ◌<◌, ◌≡◌, arith, ◌||◌, ◌==◌, inl, inr, Bool-cases, ◌^◌, ◌-◌, ◌+◌, ◌*◌, ◌/◌,
}
use objective_hail_os.Prelude.Words.{u32, u64}
use objective_hail_os.LocalApic.{LocalApic, mmio_store, limit_count, calibrate_timer}

limit_count_bounds : (n : ℕ) → (0 < limit_count n) × (limit_count n < 2 ^ 32)
unfolding limit_count
limit_count_bounds n = (ground arith, ground arith)

-- Whatever the clock, the period, the sample and the counter are, the initial count is not 0 and fits 32
-- bits.
pub calibrate_timer_bounds :
    (l : LocalApic) (tsc_hz divide_shift period_us sample_ms curr : ℕ)
    → (0 < (calibrate_timer l tsc_hz divide_shift period_us sample_ms curr).0)
      × ((calibrate_timer l tsc_hz divide_shift period_us sample_ms curr).0 < 2 ^ 32)
unfolding calibrate_timer
calibrate_timer_bounds l tsc_hz divide_shift period_us sample_ms curr =
    elim (Bool-cases ((l.mmio == 0) || (tsc_hz == 0) || (period_us == 0) || (sample_ms == 0))) [
      | inl fallback ↦ rw fallback (omega arith, omega arith)
      | inr measured ↦ elim (Bool-cases (u32 (0x7fffffff + 2 ^ 32 - curr) == 0)) [
        | inl stuck ↦ rw (measured, stuck) (omega arith, omega arith)
        | inr moved ↦
            rw (measured, moved)
              (limit_count_bounds (
                u64 (u64 (u32 (0x7fffffff + 2 ^ 32 - curr) * 1000) / sample_ms * period_us)
                / 1000000))
      ]
    ]

-- The calibration leaves the place of the registers.
pub calibrate_timer-mmio :
    (l : LocalApic) (tsc_hz divide_shift period_us sample_ms curr : ℕ)
    → (calibrate_timer l tsc_hz divide_shift period_us sample_ms curr).1.mmio ≡ l.mmio
unfolding calibrate_timer mmio_store
calibrate_timer-mmio l tsc_hz divide_shift period_us sample_ms curr = ground arith
