-- ===== src/PerCpu/Start.antt =====
-- Kernel/Arch/x86_64/CPU/PerCPU.cpp and InitPerCPUAndTime of Kernel/Core/KernelMain.cpp.
use objective_hail_os.Prelude.{
  ℕ, ◌+◌, ◌*◌, ◌<◌, ◌≤◌, ◌≡◌, ◌≢◌, ◌^◌, refl, sym, ◌∙◌, ap, arith, true, false, ◌==◌, if◌then◌else◌,
  update, update_self, ℕ_discrete,
}
use mathlib.Core.Path.{subst}
use objective_hail_os.Bit.{array_bit, set_array_bit}
use objective_hail_os.PageBitmap.{page_size}
use objective_hail_os.PageAllocator.Single.{AllUsed, allocate_page-lowest, allocate_page-full}
use objective_hail_os.LocalApic.{read_lapic_id, mmio_load, lvt_periodic, calibrate_timer}
use objective_hail_os.LocalApic.Calibrate.{calibrate_timer_bounds, calibrate_timer-mmio}
use objective_hail_os.LocalApic.Timer.{
  IsEnabled, configure_timer-IsEnabled, configure_timer-registers,
}
use objective_hail_os.Interrupts.{Tables, vec_timer, register_interrupt_handler}
use objective_hail_os.Interrupts.Timer.{init_timer_handler}
use objective_hail_os.PerCpu.{
  per_cpu, Processor, msr_write, msr_read, cpu, set_per_cpu_base, init_per_cpu, ia32_gs_base,
  ia32_kernel_gs_base, div_shift, target_us, init_per_cpu_and_time,
}

-- A register reads back what was written to it, if it fits 64 bits, and the others keep what they hold.
msr_read-write :
    (c : Processor) (msr value : ℕ) → value < 2 ^ 64 → msr_read (msr_write c msr value) msr ≡ value
unfolding msr_read msr_write
msr_read-write c msr value h = ground arith

msr_read-write_ne :
    (c : Processor) (msr other value : ℕ)
    → msr ≢ other
    → msr_read (msr_write c msr value) other ≡ msr_read c other
unfolding msr_read msr_write
msr_read-write_ne c msr other value h = ground arith

-- What InitPerCPU leaves when the object is at `mem`.
pub record Started (c : Processor) (mem : ℕ) (c' : Processor) : Type 0 where
  pub cpu : cpu c' ≡ record per_cpu { lapic_id = read_lapic_id c.lapic }
  pub gs_base : msr_read c' ia32_gs_base ≡ mem
  pub kernel_gs_base : msr_read c' ia32_kernel_gs_base ≡ mem

set_per_cpu_base-gs :
    (c : Processor) (base : ℕ)
    → base < 2 ^ 64
    → (msr_read (set_per_cpu_base c base) ia32_gs_base ≡ base)
      × (msr_read (set_per_cpu_base c base) ia32_kernel_gs_base ≡ base)
unfolding set_per_cpu_base
set_per_cpu_base-gs c base h = (
  msr_read-write_ne (msr_write c ia32_gs_base base) ia32_kernel_gs_base ia32_gs_base base
        (omega arith)
      ∙ msr_read-write c ia32_gs_base base h,
  msr_read-write (msr_write c ia32_gs_base base) ia32_kernel_gs_base base h,
)

Started-at :
    (c : Processor) (mem : ℕ) (bitmap' : ℕ → ℕ)
    → mem < 2 ^ 64
    → let made = record per_cpu { lapic_id = read_lapic_id c.lapic; cpu_index = 0 } in
      let c1 : Processor = record c { bitmap = bitmap'; objects = update c.objects mem made } in
      Started c mem (set_per_cpu_base c1 mem)
unfolding cpu set_per_cpu_base msr_write
Started-at c mem bitmap' h =
    let made = record per_cpu { lapic_id = read_lapic_id c.lapic; cpu_index = 0 } in
    let c1 : Processor = record c { bitmap = bitmap'; objects = update c.objects mem made } in
    let (gs, kernel_gs) = set_per_cpu_base-gs c1 mem h in
    record {
      cpu = ap (update c.objects mem made) gs ∙ update_self c.objects mem made;
      gs_base = gs;
      kernel_gs_base = kernel_gs;
    }

-- In a bitmap of at most 2 ^ 32 bytes, InitPerCPU puts the object on the lowest free page, which is in use
-- then, or, when every page is in use, at address 0. Then CPU() finds the object, which holds the number
-- of the local APIC and zeros, and both registers for the base hold its address.
pub init_per_cpu-Started :
    (size p : ℕ) (c : Processor)
    → size ≤ 2 ^ 32
    → p ≤ size * 8
    → AllUsed c.bitmap 0 p
    → (p < size * 8 → array_bit c.bitmap p ≡ false)
    → let mem = if p == size * 8 then 0 else p * page_size in
      Started c mem (init_per_cpu size c)
      × ((init_per_cpu size c).bitmap
          ≡ (if p == size * 8 then c.bitmap else set_array_bit c.bitmap p true))
unfolding init_per_cpu
init_per_cpu-Started size p c small le used free = elim (ℕ_discrete p (size * 8)) [
  | yes full ↦
      let null = allocate_page-full c.bitmap size (subst (AllUsed c.bitmap 0) full used) in
      let all : (p == size * 8) ≡ true = ground (arith, full) in
      rw (all, null) (Started-at c 0 c.bitmap (omega arith), refl)
  | no room ↦
      let lt : p < size * 8 = omega arith in
      let found = allocate_page-lowest c.bitmap size p small lt (free lt) used in
      let some_left : (p == size * 8) ≡ false = ground arith in
      rw (some_left, found)
        (Started-at c (p * page_size) (set_array_bit c.bitmap p true) (omega arith), refl)
]

registered :
    (t : Tables) (fn : ℕ) → fn ≢ 0 → (init_timer_handler fn t vec_timer).handlers vec_timer ≡ fn
unfolding init_timer_handler register_interrupt_handler
registered t fn real = ground arith

-- When the registers of the local APIC are mapped at its start, not at address 0, InitPerCPUAndTime leaves
-- the APIC switched on in its base register, not in the x2APIC mode, with its registers accessed at the
-- address in the base register, and there the timer running, not masked, with the periodic mode, the
-- timer's vector and the divider 3, on an initial count from 1 to 2 ^ 32 - 1, the one that the
-- calibration found; and `on_timer`, a function that is not at address 0, is the handler of the vector.
pub timer_runs :
    (size tsc_freq curr on_timer : ℕ) (c : Processor)
    → c.lapic.mmio ≢ 0
    → on_timer ≢ 0
    → let c' = init_per_cpu_and_time size tsc_freq curr on_timer c in
      let count = (calibrate_timer c.lapic tsc_freq div_shift target_us 200 curr).0 in
      IsEnabled c'.lapic
      × (mmio_load c'.lapic 0x320 ≡ vec_timer + lvt_periodic)
      × (mmio_load c'.lapic 0x3e0 ≡ 3)
      × (mmio_load c'.lapic 0x380 ≡ count)
      × (0 < count)
      × (count < 2 ^ 32)
      × (c'.tables.handlers vec_timer ≡ on_timer)
unfolding init_per_cpu_and_time init_per_cpu set_per_cpu_base msr_write
timer_runs size tsc_freq curr on_timer c is_mapped real =
    let (count, lapic1) = calibrate_timer c.lapic tsc_freq div_shift target_us 200 curr in
    let (divider, initial, entry) =
      configure_timer-registers lapic1 vec_timer div_shift count true in
    let (low, high) = calibrate_timer_bounds c.lapic tsc_freq div_shift target_us 200 curr in
    let still_mapped : lapic1.mmio ≢ 0 = λ e.
      is_mapped (sym (calibrate_timer-mmio c.lapic tsc_freq div_shift target_us 200 curr) ∙ e) in
    (
      configure_timer-IsEnabled lapic1 vec_timer div_shift count true still_mapped,
      entry,
      divider,
      initial,
      low,
      high,
      registered c.tables on_timer real,
    )
