-- ===== src/LocalApic.antt =====
-- Kernel/Arch/x86_64/APIC/LAPIC.cpp: the registers of the local APIC as 32-bit words at addresses, and
-- the base register of the CPU. What the counter register holds after the wait of the calibration is a
-- parameter; the wait on the CPU's clock itself changes nothing.
pub mod Calibrate
pub mod Timer
pub mod Wait
use objective_hail_os.Prelude.{
  ℕ, ◌+◌, ◌-◌, ◌*◌, ◌/◌, ◌%◌, ◌^◌, bit_and, bit_or, Bool, true, false, not, ◌||◌, ltb, leb, zero,
  suc, Option, none, some, ◌==◌, if◌then◌else◌, update,
}
use objective_hail_os.Prelude.Words.{u32, u64}

-- `gLAPICMMIO`, `gLAPICReady`, IA32_APIC_BASE and the words in memory.
pub record LocalApic : Type 0 where
  pub mmio : ℕ
  pub is_ready : Bool
  pub apic_base : ℕ
  pub words : ℕ → ℕ

abbrev pub lvt_masked : ℕ
lvt_masked = 2 ^ 16

abbrev pub lvt_periodic : ℕ
lvt_periodic = 2 ^ 17

-- `LAPICMMIORead` and `LAPICMMIOWrite`.
unfoldable pub mmio_load : LocalApic → ℕ → ℕ
mmio_load l offset = l.words (u64 (l.mmio + offset))

unfoldable pub mmio_store : LocalApic → ℕ → ℕ → LocalApic
mmio_store l offset value = record l { words = update l.words (u64 (l.mmio + offset)) value }

-- `Enable`.
unfoldable pub enable : LocalApic → LocalApic
enable l =
    let base = bit_and (bit_or l.apic_base (2 ^ 11)) (2 ^ 64 - 1 - 2 ^ 10) in
    record l { apic_base = base; mmio = bit_and base 0xfffff000 }

-- `InitEarly`.
unfoldable pub init_early : LocalApic → ℕ → ℕ → LocalApic
unfolding enable mmio_store
init_early l spurious_vector error_vector =
    let l0 = if l.mmio == 0 then enable l else l in
    let spurious = if ltb spurious_vector 0x20 then 0xff else spurious_vector in
    let error = if ltb spurious 0x20 then 0xf1 else error_vector in
    let l1 = mmio_store l0 0x080 0 in
    let l2 = mmio_store l1 0x320 (bit_or lvt_masked 0xf0) in
    let l3 = mmio_store l2 0x340 (bit_or lvt_masked 0xf2) in
    let l4 = mmio_store l3 0x330 (bit_or lvt_masked 0xf3) in
    let l5 = mmio_store l4 0x350 (bit_or lvt_masked 0xf4) in
    let l6 = mmio_store l5 0x360 (bit_or lvt_masked 0xf5) in
    let l7 = mmio_store l6 0x370 error in
    let l8 = mmio_store l7 0x280 0 in
    let l9 = mmio_store l8 0x0f0 (bit_or (2 ^ 8) spurious) in
    record (mmio_store l9 0x0b0 0) { is_ready = true }

-- `ReadLAPICID` and `ReadLAPICVersion`.
unfoldable pub read_lapic_id : LocalApic → ℕ
unfolding mmio_load
read_lapic_id l = if not (l.mmio == 0) then mmio_load l 0x020 / 2 ^ 24 else 0xffffffff

unfoldable pub read_lapic_version : LocalApic → ℕ
unfolding mmio_load
read_lapic_version l = if not (l.mmio == 0) then bit_and (mmio_load l 0x030) 0xff else 0xffffffff

-- `ConfigureTimer`.
unfoldable pub configure_timer : LocalApic → ℕ → ℕ → ℕ → Bool → LocalApic
unfolding enable mmio_store
configure_timer l vector divide_shift initial_count periodic =
    let l0 = if not (l.mmio == 0) then enable l else l in
    let l1 = mmio_store l0 0x3e0 (bit_and divide_shift 7) in
    let lvt = bit_or vector (if periodic then lvt_periodic else 0) in
    let l2 = mmio_store l1 0x320 (bit_or lvt lvt_masked) in
    let l3 = mmio_store l2 0x380 initial_count in mmio_store l3 0x320 lvt

-- `MaskTimer`.
unfoldable pub mask_timer : LocalApic → Bool → LocalApic
unfolding mmio_load mmio_store
mask_timer l masked =
    if not (l.mmio == 0)
    then l
    else (let lvt = mmio_load l 0x320 in
        mmio_store l 0x320
          (if masked then bit_or lvt lvt_masked else bit_and lvt (2 ^ 32 - 1 - lvt_masked)))

-- The end of `CalibrateTimerInitialCountTSC`: 0 becomes 1, and what does not fit 32 bits the largest
-- value that does.
unfoldable pub limit_count : ℕ → ℕ
limit_count initial64 =
    let at_least_1 = if initial64 == 0 then 1 else initial64 in
    u32 (if ltb 0xffffffff at_least_1 then 0xffffffff else at_least_1)

abbrev pub fallback_initial_count : ℕ
fallback_initial_count = 62500

-- `CalibrateTimerInitialCountTSC`; `curr` is what the counter register holds after the wait.
unfoldable pub calibrate_timer :
    LocalApic → (tsc_hz divide_shift period_us sample_ms curr : ℕ) → ℕ × LocalApic
unfolding mmio_load mmio_store limit_count
calibrate_timer l tsc_hz divide_shift period_us sample_ms curr =
    if (l.mmio == 0) || (tsc_hz == 0) || (period_us == 0) || (sample_ms == 0)
    then (fallback_initial_count, l)
    else (let l1 = mmio_store l 0x3e0 (bit_and divide_shift 7) in
        let lvt = bit_and (mmio_load l1 0x320) (2 ^ 32 - 1 - lvt_periodic) in
        let masked = bit_or lvt lvt_masked in
        let l2 = mmio_store l1 0x320 (bit_or (bit_and masked 0xffffff00) 0x60) in
        let l3 = mmio_store l2 0x380 0x7fffffff in
        let delta_apic = u32 (0x7fffffff + 2 ^ 32 - curr) in
        if delta_apic == 0
        then (fallback_initial_count, l3)
        else (let counts_per_sec = u64 (delta_apic * 1000) / sample_ms in
            (limit_count (u64 (counts_per_sec * period_us) / 1000000), l3)))

-- `IsPresent`; `edx` is what CPUID returns there for leaf 1.
abbrev pub is_present : (edx : ℕ) → Bool
is_present edx = not (bit_and edx (2 ^ 9) == 0)

-- The clocks that the calibration waits for.
abbrev pub target_delta : (tsc_hz sample_ms : ℕ) → ℕ
target_delta tsc_hz sample_ms = u64 (tsc_hz * sample_ms) / 1000

-- Its wait: the number of reads of the CPU's clock before the one that ends it, where `tsc n` is what the
-- clock holds at read `n`; `none` is a wait that is not over.
unfoldable pub tsc_wait : ℕ → (tsc : ℕ → ℕ) → (t0 read delta : ℕ) → Option ℕ
tsc_wait zero tsc t0 read delta = none
tsc_wait (suc fuel) tsc t0 read delta =
    let rest = tsc_wait fuel tsc t0 (read + 1) delta in
    if leb delta (u64 (tsc read + 2 ^ 64 - t0)) then some read else rest
