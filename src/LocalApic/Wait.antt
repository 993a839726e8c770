-- ===== src/LocalApic/Wait.antt =====
-- Kernel/Arch/x86_64/APIC/LAPIC.cpp: the wait of the calibration comes to an end.
use objective_hail_os.Prelude.{
  ℕ, zero, suc, ◌+◌, ◌-◌, ◌≤◌, ◌<◌, ◌≡◌, ◌^◌, refl, ◌∙◌, arith, true, false, some, leb, Bool-cases,
  inl, inr,
}
use objective_hail_os.Prelude.Words.{u64}
use objective_hail_os.LocalApic.{tsc_wait}

-- The clock of the CPU that has gone on by `elapsed n` at read `n`.
abbrev pub clock : (t0 : ℕ) → (elapsed : ℕ → ℕ) → ℕ → ℕ
clock t0 elapsed n = u64 (t0 + elapsed n)

module _ (t0 delta step : ℕ) (elapsed : ℕ → ℕ) (fits : t0 < 2 ^ 64) (small : delta + step < 2 ^ 64)
    (goes_on : (n : ℕ) → elapsed n < elapsed (n + 1))
    (not_far : (n : ℕ) → elapsed (n + 1) ≤ elapsed n + step) where
  passed_clocks : (n : ℕ) → elapsed n < 2 ^ 64 → u64 (clock t0 elapsed n + 2 ^ 64 - t0) ≡ elapsed n
  passed_clocks n h = omega arith

  early_step :
      (left read : ℕ)
      → elapsed read < 2 ^ 64
      → leb delta (elapsed read) ≡ false
      → tsc_wait (suc left) (clock t0 elapsed) t0 read delta
        ≡ tsc_wait left (clock t0 elapsed) t0 (read + 1) delta
  unfolding tsc_wait
  early_step left read h early = rw (passed_clocks read h, early) refl

  wait_from :
      (left read : ℕ)
      → delta ≤ elapsed read + left
      → elapsed read < delta + step
      → (n : ℕ) × (tsc_wait (suc left) (clock t0 elapsed) t0 read delta ≡ some n)
        × (delta ≤ elapsed n)
        × (n ≤ read + left)
  unfolding tsc_wait
  wait_from zero read near bounded =
      let passed = passed_clocks read (omega arith) in
      let over : leb delta (elapsed read) ≡ true = ground arith in
      (read, rw (passed, over) refl, omega arith, omega arith)
  wait_from (suc left) read near bounded =
      let passed = passed_clocks read (omega arith) in
      elim (Bool-cases (leb delta (elapsed read))) [
        | inl over ↦ (read, rw (passed, over) refl, ground arith, omega arith)
        | inr early ↦
            let more = goes_on read in
            let most = not_far read in
            let before : elapsed read < delta = ground arith in
            let (n, ends, enough, soon) = wait_from left (read + 1) (omega arith) (omega arith) in
            (n, early_step (suc left) read (omega arith) early ∙ ends, enough, omega arith)
      ]

  -- On a clock that goes on by at least one and at most `step` between two reads, modulo 2 ^ 64, the wait of
  -- the calibration for `delta` clocks ends within `delta` reads after its first, at a read where at least
  -- `delta` clocks went by; `delta` and `step` together are below 2 ^ 64.
  pub tsc_wait-ends :
      elapsed 0 < delta + step
      → (n : ℕ) × (tsc_wait (suc delta) (clock t0 elapsed) t0 0 delta ≡ some n)
        × (delta ≤ elapsed n)
        × (n ≤ delta)
  tsc_wait-ends start =
      let (n, ends, enough, soon) = wait_from delta 0 (omega arith) start in
      (n, ends, enough, omega arith)
