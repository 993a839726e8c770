-- ===== src/Tests/Boot.antt =====
-- Examples for Kernel/Core/KernelMain.cpp and what it calls: a bitmap of two bytes and one CPU.
use objective_hail_os.Prelude.{
  ℕ, ◌+◌, ◌-◌, ◌*◌, ◌/◌, ◌^◌, ◌≤◌, ◌<◌, ◌≡◌, refl, true, false, some, List, [], ◌∷◌, arith, ◌==◌,
  if◌then◌else◌, IsBytes,
}
use objective_hail_os.Prelude.Bits.{all_below, all_below_at}
use objective_hail_os.Bit.{array_bit, bit, set_bit_range, set_bits, set_array_bit, set_bit}
use objective_hail_os.PageAllocator.{
  page_count_of, allocate_page_sized, allocate_page, find_available_address,
}
use objective_hail_os.PageAllocator.Available.{free_pages}
use objective_hail_os.PageAllocator.Blocks.{
  Request, allocate, release, serve_all, All, Disjoint, IsHeld,
}
use objective_hail_os.PageAllocator.Blocks.Outcome.{NothingBehind}
use objective_hail_os.PageAllocator.Blocks.Held.{blocks_apart}
use objective_hail_os.OperatorNew.{HeapState, NewResult, returned, panic, operator_new}
use objective_hail_os.OperatorNew.Objects.{new_all, objects_kept}
use objective_hail_os.Output.{OutputDevice}
use objective_hail_os.Panic.{Machine, came_back}
use objective_hail_os.Panic.Halts.{with_console, get_bootstrap_console-page}
use objective_hail_os.Workers.{Counting, worker_a, greet, delete_if_gone}
use objective_hail_os.RefCount.Consoles.{get_bootstrap_console as get_bootstrap_pointer, caller}
use objective_hail_os.Workers.Pages.{worker_a-pages}
use objective_hail_os.Interrupts.{vec_timer}
use objective_hail_os.LocalApic.{mmio_load, lvt_periodic, calibrate_timer}
use objective_hail_os.PerCpu.{Processor, per_cpu, div_shift, target_us, init_per_cpu_and_time}
use objective_hail_os.LocalApic.Timer.{IsEnabled}
use objective_hail_os.PerCpu.Start.{timer_runs}
use objective_hail_os.Descriptors.{size_of_tss}
use objective_hail_os.Descriptors.Decode.{entry_base, entry_limit, upper_base, IsGateTo}
use objective_hail_os.Descriptors.Load.{
  CpuRegisters, init_cpu, InTable, IsKernelCode, IsKernelData, init_cpu-selects,
}
use objective_hail_os.RefCount.{Store, get, construct, destruct, add_ref, add_ref_ptr, release_ptr}
use objective_hail_os.RefCount.{release as release_object}
use objective_hail_os.RefCount.Consoles.{
  Use, init_kernel, init_serial, borrow_bootstrap, borrow_kernel, console_owner, run_uses,
  owner_kept,
}
use objective_hail_os.Tests.Heap
use objective_hail_os.Tests.Heap.{page_zero_used, page_zero_used-IsBytes, page_zero_used-FirstRun}
use objective_hail_os.Tests.Devices.{stubs, cpu_tables, local_apic}
use objective_hail_os.Tests.Reports.{machine, in_new, no_tables, has_page}

-- The first page, and the byte behind the bitmap, are in use.
abbrev bitmap : ℕ → ℕ
bitmap i = if i == 0 then 1 else (if i == 2 then 255 else 0)

bitmap-IsBytes : IsBytes bitmap
bitmap-IsBytes i = ground arith

eight_used : all_below 8 (λ p. array_bit bitmap (16 + p)) ≡ true
unfolding all_below array_bit bit
eight_used = refl

bitmap-NothingBehind : NothingBehind 2 bitmap
bitmap-NothingBehind p lo hi =
    let e : 16 + (p - 16) ≡ p = omega arith in
    rw e at (all_below_at 8 (λ q. array_bit bitmap (16 + q)) (p - 16) eight_used (omega arith))

first_used : array_bit bitmap 0 ≡ true
unfolding array_bit bit
first_used = refl

abbrev requests : List Request
requests = allocate 8000 ∷ allocate 100 ∷ release 1 ∷ allocate 5000 ∷ []

blocks_apart_example :
    Disjoint (serve_all 2 (record { bitmap = bitmap; blocks = [] }) requests).blocks
    × All
        (IsHeld 2 (serve_all 2 (record { bitmap = bitmap; blocks = [] }) requests).bitmap)
        (serve_all 2 (record { bitmap = bitmap; blocks = [] }) requests).blocks
blocks_apart_example =
    blocks_apart 2 (omega arith) bitmap requests bitmap-IsBytes first_used bitmap-NothingBehind

-- A device that counts the strings.
abbrev counting : OutputDevice ℕ
counting = record {
  put_char = λ s ch. some s;
  put_string = λ s text. some (s + 1);
  flush = some;
  reset = some;
  shutdown = some;
}

abbrev quiet : Machine ℕ
quiet = record {
  critical = record { in_critical = false; enabled = true };
  heap = (machine page_zero_used).heap;
  out = 0;
  is_halted = false;
}

abbrev greeted : Machine ℕ
greeted = record quiet { heap = with_console 40 1 quiet.heap; out = 1 }

abbrev no_store : Store
no_store = record { ref_count = λ a. 0; live = λ a. false; ptr = λ i. 0 }

abbrev after_round : Counting ℕ
after_round = record {
  call = came_back 0 greeted;
  counts = destruct (get_bootstrap_pointer no_store caller 4096) caller;
}

one_round : worker_a counting 2 40 in_new 1 1 no_store quiet ≡ some after_round
unfolding worker_a greet delete_if_gone destruct get_bootstrap_pointer construct add_ref_ptr add_ref
    release_ptr release_object
one_round = rw (get_bootstrap_console-page counting 2 40 1 in_new 0 quiet has_page) refl

worker_a_example : 1 ≤ free_pages page_zero_used 0 (2 * 8)
worker_a_example =
    worker_a-pages counting 2 40 in_new (omega arith) (omega arith) 1 1 no_store quiet after_round
      page_zero_used-IsBytes (Heap.first_used 0 (omega arith)) one_round

abbrev processor : Processor
processor = record {
  bitmap = page_zero_used;
  objects = λ a. per_cpu;
  msr_low = λ r. 0;
  msr_high = λ r. 0;
  lapic = local_apic;
  tables = no_tables;
}

timer_runs_example :
    let c' = init_per_cpu_and_time 2 3000000000 0x7ff00000 9 processor in
    let count = (calibrate_timer local_apic 3000000000 div_shift target_us 200 0x7ff00000).0 in
    IsEnabled c'.lapic
    × (mmio_load c'.lapic 0x320 ≡ vec_timer + lvt_periodic)
    × (mmio_load c'.lapic 0x3e0 ≡ 3)
    × (mmio_load c'.lapic 0x380 ≡ count)
    × (0 < count)
    × (count < 2 ^ 32)
    × (c'.tables.handlers vec_timer ≡ 9)
timer_runs_example = timer_runs 2 3000000000 0x7ff00000 9 processor (omega arith) (omega arith)

abbrev no_registers : CpuRegisters
no_registers = record {
  gdtr_limit = 0;
  gdtr_base = 0;
  idtr_limit = 0;
  idtr_base = 0;
  cs = 0;
  ds = 0;
  es = 0;
  ss = 0;
  fs = 0;
  gs = 0;
  tr = 0;
}

init_cpu_example :
    let (t, r') = init_cpu 0x200000 0x300000 0x400000 0x90000 stubs (cpu_tables, no_registers) in
    ((r'.gdtr_base ≡ 0x200000) × (r'.idtr_base ≡ 0x400000))
    × IsKernelCode (t.gdt (r'.cs / 8))
    × InTable r'.gdtr_limit r'.cs 8
    × IsKernelData (t.gdt (r'.ss / 8))
    × InTable r'.gdtr_limit r'.ss 8
    × ((r'.ds ≡ r'.ss) × (r'.es ≡ r'.ss) × (r'.fs ≡ r'.ss) × (r'.gs ≡ r'.ss))
    × InTable r'.gdtr_limit r'.tr 16
    × (entry_base (t.gdt (r'.tr / 8)) + upper_base (t.gdt (r'.tr / 8 + 1)) * 2 ^ 32 ≡ 0x300000)
    × (entry_limit (t.gdt (r'.tr / 8)) ≡ size_of_tss - 1)
    × ((t.gdt (r'.tr / 8)).access ≡ 0x89)
    × (t.tss.rsp0 ≡ 0x90000)
    × (32 * 16 + 16 ≤ r'.idtr_limit + 1)
    × IsGateTo (stubs 32) (t.idt 32)
init_cpu_example =
    init_cpu-selects 0x200000 0x300000 0x400000 0x90000 stubs cpu_tables no_registers 32
      (omega arith) (omega arith) (omega arith)

abbrev uses : List Use
uses = init_serial 16 ∷ borrow_bootstrap 24 ∷ init_kernel 32 ∷ borrow_kernel ∷ []

owner_kept_example :
    let st' = run_uses no_store (init_kernel 8 ∷ uses) in
    (get st' console_owner ≡ 8) × (st'.ref_count 8 ≡ 2) × (st'.live 8 ≡ true)
owner_kept_example = owner_kept 8 (omega arith) no_store uses refl (omega arith) refl refl (
  (omega arith, omega arith),
  ((omega arith, omega arith), ((omega arith, omega arith), (tt, tt))),
)

heap_after : NewResult → HeapState → HeapState
heap_after (returned p h) old = h
heap_after panic old = old

abbrev heap : HeapState
heap = record { bitmap = bitmap; memory = λ a. 0 }

abbrev first_heap : HeapState
unfolding heap_after operator_new
first_heap = heap_after (operator_new 2 heap 8184) heap

abbrev second_heap : HeapState
unfolding heap_after operator_new
second_heap = heap_after (operator_new 2 first_heap 100) first_heap

first_made : operator_new 2 heap 8184 ≡ returned 4096 first_heap
unfolding operator_new heap_after allocate_page_sized page_count_of find_available_address bit
first_made = refl

second_made : new_all 2 first_heap (100 ∷ []) ≡ some second_heap
unfolding new_all operator_new heap_after allocate_page_sized page_count_of allocate_page bit
    find_available_address set_bit_range set_bits set_array_bit set_bit
second_made = refl

objects_kept_example : second_heap.memory 12279 ≡ first_heap.memory 12279
objects_kept_example =
    objects_kept 2 8184 (100 ∷ []) heap first_heap second_heap 4096 12279 (omega arith)
      (omega arith) bitmap-IsBytes first_used bitmap-NothingBehind first_made (omega arith)
      (omega arith) second_made
