-- ===== src/Descriptors.antt =====
-- Kernel/Arch/x86_64/CPU/Initialization: GDT.hpp, IDT.hpp, TSS.hpp and CPUInit.cpp, the descriptor
-- tables of the CPU. The addresses of the tables and of the stubs are the linker's, and parameters.
pub mod Decode
pub mod Load
use objective_hail_os.Prelude.{
  ℕ, zero, suc, ◌+◌, ◌-◌, ◌*◌, ◌/◌, ◌%◌, ◌^◌, bit_and, bit_or, Bool, true, false, ◌==◌, ltb,
  if◌then◌else◌, update,
}
use objective_hail_os.Prelude.Words.{u8, u16, u32}

pub record GdtEntry : Type 0 where
  pub limit_low : ℕ
  pub base_low : ℕ
  pub base_mid : ℕ
  pub access : ℕ
  pub granularity : ℕ
  pub base_high : ℕ

pub record TssDescriptor : Type 0 where
  pub low : GdtEntry
  pub base_upper : ℕ
  pub reserved : ℕ

pub record IdtEntry : Type 0 where
  pub offset_low : ℕ
  pub selector : ℕ
  pub ist : ℕ
  pub type_attribute : ℕ
  pub offset_mid : ℕ
  pub offset_high : ℕ
  pub reserved : ℕ

-- The fields of the task state segment that are ever set.
pub record Tss : Type 0 where
  pub rsp0 : ℕ
  pub io_map_base : ℕ

abbrev pub gdt_kernel_cs : ℕ
gdt_kernel_cs = 0x08

abbrev pub idt_type_interrupt_gate : ℕ
idt_type_interrupt_gate = 0x8e

abbrev pub size_of_tss : ℕ
size_of_tss = 104

-- `SetGDTEntry`; the first six fields of a TSS descriptor are the same.
unfoldable pub set_gdt_entry : (base limit access gran : ℕ) → GdtEntry
set_gdt_entry base limit access gran = record {
  limit_low = u16 (bit_and limit 0xffff);
  base_low = u16 (bit_and base 0xffff);
  base_mid = u8 (bit_and (base / 2 ^ 16) 0xff);
  access = access;
  granularity = u8 (bit_or (bit_and (limit / 2 ^ 16) 0x0f) (bit_and gran 0xf0));
  base_high = u8 (bit_and (base / 2 ^ 24) 0xff);
}

-- `SetTSSDescriptor`.
unfoldable pub set_tss_descriptor : (base limit access gran : ℕ) → TssDescriptor
set_tss_descriptor base limit access gran = record {
  low = set_gdt_entry base limit access gran;
  base_upper = u32 (bit_and (base / 2 ^ 32) 0xffffffff);
  reserved = 0;
}

-- The eight bytes behind the low half of a TSS descriptor, as the next entry of the table: BaseUpper and
-- Reserved in its fields.
unfoldable pub upper_half : TssDescriptor → GdtEntry
upper_half d = record {
  limit_low = u16 d.base_upper;
  base_low = u16 (d.base_upper / 2 ^ 16);
  base_mid = u8 d.reserved;
  access = u8 (d.reserved / 2 ^ 8);
  granularity = u8 (d.reserved / 2 ^ 16);
  base_high = u8 (d.reserved / 2 ^ 24);
}

-- A TSS descriptor stored over two entries of the table, from entry `i` on.
abbrev pub store_tss_descriptor : (ℕ → GdtEntry) → (i : ℕ) → TssDescriptor → ℕ → GdtEntry
store_tss_descriptor gdt i d = update (update gdt i d.low) (i + 1) (upper_half d)

-- The descriptor tables and the task state segment.
pub record CpuTables : Type 0 where
  pub gdt : ℕ → GdtEntry
  pub tss : Tss
  pub idt : ℕ → IdtEntry
  pub idt_limit : ℕ
  pub idt_base : ℕ

-- `InitGDTAndTSS` without the loads of the CPU's registers: entries 1 to 4, and the TSS descriptor over
-- entries 5 and 6.
unfoldable pub init_gdt_and_tss : (tss_address kernel_stack_top : ℕ) → CpuTables → CpuTables
init_gdt_and_tss tss_address kernel_stack_top c =
    let null_entry = set_gdt_entry 0 0 0 0 in
    let g1 =
      update (λ i. if ltb i 7 then null_entry else c.gdt i) 1 (set_gdt_entry 0 0 0x9a 0xa0) in
    let g2 = update g1 2 (set_gdt_entry 0 0 0x92 0x00) in
    let g3 = update g2 3 (set_gdt_entry 0 0 0xfa 0xa0) in
    let g4 = update g3 4 (set_gdt_entry 0 0 0xf2 0x00) in
    record c {
      gdt =
          store_tss_descriptor g4 5
            (set_tss_descriptor tss_address (u32 (size_of_tss - 1)) 0x89 0x00);
      tss = record { rsp0 = kernel_stack_top; io_map_base = size_of_tss };
    }

-- `SetIDTEntry`.
unfoldable pub set_idt_entry : (ℕ → IdtEntry) → (vec handler type_attribute : ℕ) → ℕ → IdtEntry
set_idt_entry idt vec handler type_attribute = update idt vec (record {
  offset_low = u16 (bit_and handler 0xffff);
  selector = gdt_kernel_cs;
  ist = 0;
  type_attribute = type_attribute;
  offset_mid = u16 (bit_and (handler / 2 ^ 16) 0xffff);
  offset_high = u32 (handler / 2 ^ 32);
  reserved = 0;
})

-- The lines SET_VECTOR(n) for `n` from `vec` on, `left` of them. `stub n` is the address of `Handlern`.
unfoldable pub set_vectors : ℕ → (ℕ → ℕ) → (ℕ → IdtEntry) → ℕ → ℕ → IdtEntry
set_vectors zero stub idt vec = idt
set_vectors (suc left) stub idt vec =
    set_vectors left stub (set_idt_entry idt vec (stub vec) idt_type_interrupt_gate) (vec + 1)

-- `InitIDT` without the load of the register.
unfoldable pub init_idt : (idt_address : ℕ) → (ℕ → ℕ) → CpuTables → CpuTables
init_idt idt_address stub c = record c {
  idt = set_vectors 256 stub c.idt 0;
  idt_base = idt_address;
  idt_limit = 256 * 16 - 1;
}
