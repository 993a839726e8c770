-- ===== src/PerCpu.antt =====
-- Kernel/Arch/x86_64/CPU/PerCPU.{hpp,cpp} and MSR.hpp, with InitPerCPUAndTime of
-- Kernel/Core/KernelMain.cpp. A model-specific register is its two halves, as `wrmsr` and `rdmsr` pass
-- them; the PerCPU objects are at their addresses.
pub mod Start
use objective_hail_os.Prelude.{ℕ, ◌+◌, ◌*◌, ◌/◌, ◌%◌, ◌^◌, Bool, true, ◌==◌, if◌then◌else◌, update}
use objective_hail_os.Prelude.Words.{u32, u64}
use objective_hail_os.PageAllocator.{allocate_page}
use objective_hail_os.LocalApic.{LocalApic, read_lapic_id, configure_timer, calibrate_timer}
use objective_hail_os.Interrupts.{Tables, vec_timer}
use objective_hail_os.Interrupts.Timer.{init_timer_handler}

pub record PerCpu : Type 0 where
  pub lapic_id : ℕ
  pub cpu_index : ℕ
  pub preempt_depth : ℕ
  pub tick_count : ℕ
  pub current_thread : ℕ

-- What `PerCPU()` makes.
abbrev pub per_cpu : PerCpu
per_cpu = record {
  lapic_id = 0;
  cpu_index = 0;
  preempt_depth = 0;
  tick_count = 0;
  current_thread = 0;
}

-- The bitmap of pages, the objects, the low and the high half of each model-specific register, the local
-- APIC, and the tables of the interrupt dispatch.
pub record Processor : Type 0 where
  pub bitmap : ℕ → ℕ
  pub objects : ℕ → PerCpu
  pub msr_low : ℕ → ℕ
  pub msr_high : ℕ → ℕ
  pub lapic : LocalApic
  pub tables : Tables

abbrev pub ia32_gs_base : ℕ
ia32_gs_base = 0xc0000101

abbrev pub ia32_kernel_gs_base : ℕ
ia32_kernel_gs_base = 0xc0000102

-- `MSR::Write` and `MSR::Read`.
unfoldable pub msr_write : Processor → ℕ → ℕ → Processor
msr_write c msr value = record c {
  msr_low = update c.msr_low msr (u32 value);
  msr_high = update c.msr_high msr (u32 (value / 2 ^ 32));
}

unfoldable pub msr_read : Processor → ℕ → ℕ
msr_read c msr = u64 (c.msr_high msr * 2 ^ 32) + c.msr_low msr

-- `CPU()`.
unfoldable pub cpu : Processor → PerCpu
unfolding msr_read
cpu c = c.objects (msr_read c ia32_gs_base)

unfoldable pub set_per_cpu_base : Processor → ℕ → Processor
unfolding msr_write
set_per_cpu_base c base = msr_write (msr_write c ia32_gs_base base) ia32_kernel_gs_base base

-- `InitPerCPU`; the pointer from the allocator is not tested.
unfoldable pub init_per_cpu : ℕ → Processor → Processor
unfolding set_per_cpu_base read_lapic_id
init_per_cpu size c =
    let (mem, bitmap') = allocate_page size c.bitmap in
    let made = record per_cpu { lapic_id = read_lapic_id c.lapic; cpu_index = 0 } in
    set_per_cpu_base (record c { bitmap = bitmap'; objects = update c.objects mem made }) mem

abbrev pub div_shift : ℕ
div_shift = 3

abbrev pub target_us : ℕ
target_us = 1000

-- `InitPerCPUAndTime`; `curr` is what the counter of the APIC holds at the end of the calibration.
unfoldable pub init_per_cpu_and_time : (size tsc_freq curr on_timer : ℕ) → Processor → Processor
unfolding init_per_cpu calibrate_timer configure_timer init_timer_handler
init_per_cpu_and_time size tsc_freq curr on_timer c =
    let c1 = init_per_cpu size c in
    let (initial, lapic1) = calibrate_timer c1.lapic tsc_freq div_shift target_us 200 curr in
    record c1 {
      lapic = configure_timer lapic1 vec_timer div_shift initial true;
      tables = init_timer_handler on_timer c1.tables vec_timer;
    }
