-- ===== src/Descriptors/Load.antt =====
-- Kernel/Arch/x86_64/CPU/Initialization/CPUInit.cpp: the registers of the CPU that InitGDTAndTSS and InitIDT
-- load, as the instructions `lgdt`, `mov`, `lretq`, `ltr` and `lidt` do, and what they select.
use objective_hail_os.Prelude.{ℕ, ◌+◌, ◌-◌, ◌*◌, ◌/◌, ◌%◌, ◌^◌, ◌≤◌, ◌<◌, ◌≡◌, refl, ◌∙◌, ap, arith}
use objective_hail_os.Prelude.Words.{u16, u32}
use objective_hail_os.Descriptors.{
  GdtEntry, CpuTables, set_tss_descriptor, gdt_kernel_cs, size_of_tss, set_gdt_entry,
  init_gdt_and_tss, init_idt,
}
use objective_hail_os.Descriptors.Decode.{
  entry_base, entry_limit, upper_base, upper_base-upper_half, set_tss_descriptor_upper, IsGateTo,
  init_idt-IsGateTo, set_tss_descriptor_decoded,
}

-- The table registers, and the selectors in the segment registers and the task register.
pub record CpuRegisters : Type 0 where
  pub gdtr_limit : ℕ
  pub gdtr_base : ℕ
  pub idtr_limit : ℕ
  pub idtr_base : ℕ
  pub cs : ℕ
  pub ds : ℕ
  pub es : ℕ
  pub ss : ℕ
  pub fs : ℕ
  pub gs : ℕ
  pub tr : ℕ

abbrev pub gdt_kernel_ds : ℕ
gdt_kernel_ds = 0x10

abbrev pub gdt_tss_sel : ℕ
gdt_tss_sel = 0x28

-- `LoadGDT`.
abbrev pub load_gdt : CpuRegisters → (limit base : ℕ) → CpuRegisters
load_gdt r limit base = record r { gdtr_limit = limit; gdtr_base = base }

-- `ReloadSegmentsAndLoadTSS`; nothing reads the two selectors for user mode.
unfoldable pub reload_segments_and_load_tss :
    CpuRegisters → (kernel_ds kernel_cs tss_sel : ℕ) → CpuRegisters
reload_segments_and_load_tss r kernel_ds kernel_cs tss_sel =
    let r1 : CpuRegisters = record r {
      ds = kernel_ds;
      es = kernel_ds;
      ss = kernel_ds;
      fs = kernel_ds;
      gs = kernel_ds;
    } in
    let r2 : CpuRegisters = record r1 { cs = kernel_cs } in record r2 { tr = tss_sel }

-- `InitCPU` of Kernel/Core/KernelMain.cpp: the tables and the registers. The addresses are the linker's.
unfoldable pub init_cpu :
    (gdt_address tss_address idt_address kernel_stack_top : ℕ) (stub : ℕ → ℕ)
    → CpuTables × CpuRegisters
    → CpuTables × CpuRegisters
unfolding init_gdt_and_tss init_idt reload_segments_and_load_tss
init_cpu gdt_address tss_address idt_address kernel_stack_top stub (c, r) =
    let c1 = init_gdt_and_tss tss_address kernel_stack_top c in
    let r1 = load_gdt r (u16 (7 * 8 - 1)) gdt_address in
    let r2 = reload_segments_and_load_tss r1 gdt_kernel_ds gdt_kernel_cs gdt_tss_sel in
    let c2 = init_idt idt_address stub c1 in
    (c2, record r2 { idtr_limit = c2.idt_limit; idtr_base = c2.idt_base })

-- The descriptor that a selector selects lies inside the table.
abbrev pub InTable : (limit selector size : ℕ) → Type 0
InTable limit selector size = selector / 8 * 8 + size ≤ limit + 1

-- Access bytes and flags as the manuals of the processor number them: a present code segment of ring 0 that
-- can be read, in 64-bit mode and without the 32-bit flag; a present data segment of ring 0 that can be
-- written; a present 64-bit task state segment that is not busy.
abbrev pub IsKernelCode : GdtEntry → Type 0
IsKernelCode e =
    (e.access ≡ 0x9a) × (e.granularity / 2 ^ 5 % 2 ≡ 1) × (e.granularity / 2 ^ 6 % 2 ≡ 0)

abbrev pub IsKernelData : GdtEntry → Type 0
IsKernelData e = e.access ≡ 0x92

module _ (gdt_address tss_address idt_address kernel_stack_top : ℕ) (stub : ℕ → ℕ) (c : CpuTables)
    (r : CpuRegisters) where
  -- After InitCPU, with the addresses of the task state segment and of the stubs below 2 ^ 64: the table
  -- registers hold the addresses of the descriptor table and of the interrupt table; CS selects a kernel
  -- code segment of 64 bits, the five data segment registers a kernel data segment, and the task register
  -- the entry where a descriptor of the task state segment starts, with its access byte, its limit and,
  -- over this entry and the next one, its address, all inside the limit that was loaded; the stack for
  -- interrupts is the kernel's; and each vector below 256 has its gate inside the loaded limit, to its own
  -- stub.
  pub init_cpu-selects :
      (n : ℕ)
      → tss_address < 2 ^ 64
      → n < 256
      → stub n < 2 ^ 64
      → let (t, r') = init_cpu gdt_address tss_address idt_address kernel_stack_top stub (c, r) in
        ((r'.gdtr_base ≡ gdt_address) × (r'.idtr_base ≡ idt_address))
        × IsKernelCode (t.gdt (r'.cs / 8))
        × InTable r'.gdtr_limit r'.cs 8
        × IsKernelData (t.gdt (r'.ss / 8))
        × InTable r'.gdtr_limit r'.ss 8
        × ((r'.ds ≡ r'.ss) × (r'.es ≡ r'.ss) × (r'.fs ≡ r'.ss) × (r'.gs ≡ r'.ss))
        × InTable r'.gdtr_limit r'.tr 16
        × (entry_base (t.gdt (r'.tr / 8)) + upper_base (t.gdt (r'.tr / 8 + 1)) * 2 ^ 32
            ≡ tss_address)
        × (entry_limit (t.gdt (r'.tr / 8)) ≡ size_of_tss - 1)
        × ((t.gdt (r'.tr / 8)).access ≡ 0x89)
        × (t.tss.rsp0 ≡ kernel_stack_top)
        × (n * 16 + 16 ≤ r'.idtr_limit + 1)
        × IsGateTo (stub n) (t.idt n)
  unfolding init_cpu init_gdt_and_tss init_idt reload_segments_and_load_tss set_gdt_entry
      set_tss_descriptor
  init_cpu-selects n tss h lt =
      let (base, limit, access) =
        set_tss_descriptor_decoded tss_address (u32 (size_of_tss - 1)) 0x89 0x00 tss (omega arith)
          (omega arith) in
      let d = set_tss_descriptor tss_address (u32 (size_of_tss - 1)) 0x89 0x00 in
      (
        (refl, refl),
        (refl, refl, refl),
        omega arith,
        refl,
        omega arith,
        (refl, refl, refl, refl),
        omega arith,
        ap (λ (x : ℕ). entry_base d.low + x * 2 ^ 32)
              (upper_base-upper_half d
                (set_tss_descriptor_upper tss_address (u32 (size_of_tss - 1)) 0x89 0x00))
            ∙ base,
        limit,
        access,
        refl,
        omega arith,
        init_idt-IsGateTo idt_address stub (init_gdt_and_tss tss_address kernel_stack_top c) n h lt,
      )
