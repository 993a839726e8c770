-- ===== src/Descriptors/Decode.antt =====
-- Kernel/Arch/x86_64/CPU/Initialization/CPUInit.cpp: what the CPU reads back from the descriptors.
use objective_hail_os.Prelude.{
  ℕ, zero, suc, ◌+◌, ◌*◌, ◌/◌, ◌%◌, ◌^◌, ◌<◌, ◌≡◌, refl, ap, ◌∙◌, bit_and, bit_or, false, arith,
  ◌==◌,
}
use objective_hail_os.Prelude.Words.{u8}
use objective_hail_os.Prelude.Bits.{bit_and_mask, bit_and_high, bit_or_fields_low}
use objective_hail_os.Descriptors.{
  GdtEntry, IdtEntry, TssDescriptor, CpuTables, upper_half, set_gdt_entry, set_tss_descriptor,
  set_idt_entry, set_vectors, init_idt, gdt_kernel_cs, idt_type_interrupt_gate,
}

-- The address that a gate leads to, as the CPU puts it together.
abbrev pub gate_offset : IdtEntry → ℕ
gate_offset e = e.offset_low + e.offset_mid * 2 ^ 16 + e.offset_high * 2 ^ 32

-- The entry is a present interrupt gate to `address` in the kernel's code segment.
pub record IsGateTo (address : ℕ) (e : IdtEntry) : Type 0 where
  pub offset : gate_offset e ≡ address
  pub selector : e.selector ≡ gdt_kernel_cs
  pub attribute : e.type_attribute ≡ idt_type_interrupt_gate
  pub ist : e.ist ≡ 0

set_idt_entry_self :
    (idt : ℕ → IdtEntry) (vec address : ℕ)
    → address < 2 ^ 64
    → IsGateTo address (set_idt_entry idt vec address idt_type_interrupt_gate vec)
unfolding set_idt_entry
set_idt_entry_self idt vec address h = record {
  offset = ground (arith, bit_and_mask 16 address, bit_and_mask 16 (address / 2 ^ 16));
  selector = ground arith;
  attribute = ground arith;
  ist = ground arith;
}

set_idt_entry_ne :
    (idt : ℕ → IdtEntry) (vec address j : ℕ)
    → (vec == j) ≡ false
    → set_idt_entry idt vec address idt_type_interrupt_gate j ≡ idt j
unfolding set_idt_entry
set_idt_entry_ne idt vec address j h = rw h

set_vectors_before :
    (n : ℕ) (stub : ℕ → ℕ) (idt : ℕ → IdtEntry) (vec j : ℕ)
    → j < vec
    → set_vectors n stub idt vec j ≡ idt j
unfolding set_vectors
set_vectors_before zero stub idt vec j h = refl
set_vectors_before (suc n) stub idt vec j h =
    set_vectors_before n stub (set_idt_entry idt vec (stub vec) idt_type_interrupt_gate) (vec + 1) j
      (omega arith)
    ∙ set_idt_entry_ne idt vec (stub vec) j (ground arith)

set_vectors_at :
    (n : ℕ) (stub : ℕ → ℕ) (idt : ℕ → IdtEntry) (vec k : ℕ)
    → k < n
    → stub (vec + k) < 2 ^ 64
    → IsGateTo (stub (vec + k)) (set_vectors n stub idt vec (vec + k))
unfolding set_vectors
set_vectors_at zero stub idt vec k h lt = absurd (omega arith)
set_vectors_at (suc n) stub idt vec zero h lt =
    let e : vec + 0 ≡ vec = omega arith in
    rw
      (
        e,
        set_vectors_before n stub (set_idt_entry idt vec (stub vec) idt_type_interrupt_gate)
            (vec + 1) vec (omega arith),
      )
      (set_idt_entry_self idt vec (stub vec) (rw e at lt))
set_vectors_at (suc n) stub idt vec (suc k) h lt =
    let e : vec + suc k ≡ vec + 1 + k = omega arith in
    rw e (
      set_vectors_at n stub (set_idt_entry idt vec (stub vec) idt_type_interrupt_gate) (vec + 1) k
        (omega arith) (rw e at lt))

-- After `InitIDT`, with a stub's address below 2 ^ 64, each vector below 256 leads to its own
-- stub, through a present interrupt gate in the kernel's code segment.
pub init_idt-IsGateTo :
    (idt_address : ℕ) (stub : ℕ → ℕ) (c : CpuTables) (n : ℕ)
    → n < 256
    → stub n < 2 ^ 64
    → IsGateTo (stub n) ((init_idt idt_address stub c).idt n)
unfolding init_idt
init_idt-IsGateTo idt_address stub c n h lt =
    let e : 0 + n ≡ n = omega arith in rw e at (set_vectors_at 256 stub c.idt 0 n h (rw e lt))

-- The base and the limit that the CPU reads from a descriptor.
abbrev pub entry_base : GdtEntry → ℕ
entry_base e = e.base_low + e.base_mid * 2 ^ 16 + e.base_high * 2 ^ 24

abbrev pub entry_limit : GdtEntry → ℕ
entry_limit e = e.limit_low + e.granularity % 16 * 2 ^ 16

high_nibble : (gran : ℕ) → bit_and gran 0xf0 ≡ gran / 16 % 16 * 16
high_nibble gran = omega (
  arith,
  bit_and_high 4 (gran / 16) (gran % 16) 15 (omega arith),
  bit_and_mask 4 (gran / 16),
  ap (λ (t : ℕ). bit_and t 0xf0) split,
)
  where
    split : gran / 16 * 2 ^ 4 + gran % 16 ≡ gran
    split = omega arith

-- The upper 32 bits of an address that the CPU reads from the entry behind a TSS descriptor's first half.
abbrev pub upper_base : GdtEntry → ℕ
upper_base e = e.limit_low + e.base_low * 2 ^ 16

pub upper_base-upper_half :
    (d : TssDescriptor) → d.base_upper < 2 ^ 32 → upper_base (upper_half d) ≡ d.base_upper
unfolding upper_half
upper_base-upper_half d h = omega arith

pub set_tss_descriptor_upper :
    (base limit access gran : ℕ) → (set_tss_descriptor base limit access gran).base_upper < 2 ^ 32
unfolding set_tss_descriptor
set_tss_descriptor_upper base limit access gran = omega arith

-- A segment descriptor holds its base, its limit, its access byte and the flags in the high half of
-- the granularity byte.
pub set_gdt_entry_decoded :
    (base limit access gran : ℕ)
    → base < 2 ^ 32
    → limit < 2 ^ 20
    → gran < 256
    → let e = set_gdt_entry base limit access gran in
      (entry_base e ≡ base)
      × (entry_limit e ≡ limit)
      × (e.access ≡ access)
      × (e.granularity / 16 ≡ gran / 16)
unfolding set_gdt_entry
set_gdt_entry_decoded base limit access gran b l g = (
  omega
      (arith, bit_and_mask 16 base, bit_and_mask 8 (base / 2 ^ 16), bit_and_mask 8 (base / 2 ^ 24)),
  omega (arith, bit_and_mask 16 limit, granularity),
  refl,
  omega (arith, granularity),
)
  where
    granularity :
        u8 (bit_or (bit_and (limit / 2 ^ 16) 0x0f) (bit_and gran 0xf0))
        ≡ gran / 16 * 16 + limit / 2 ^ 16
    granularity =
        rw (bit_and_mask 4 (limit / 2 ^ 16), high_nibble gran)
          (omega (arith, bit_or_fields_low 4 (gran / 16 % 16) (limit / 2 ^ 16 % 16) (omega arith)))

-- A TSS descriptor holds all bits of a base below 2 ^ 64, a limit below 2 ^ 20 and its access
-- byte, for flags below 256.
pub set_tss_descriptor_decoded :
    (base limit access gran : ℕ)
    → base < 2 ^ 64
    → limit < 2 ^ 20
    → gran < 256
    → let d = set_tss_descriptor base limit access gran in
      (entry_base d.low + d.base_upper * 2 ^ 32 ≡ base)
      × (entry_limit d.low ≡ limit)
      × (d.low.access ≡ access)
unfolding set_tss_descriptor set_gdt_entry
set_tss_descriptor_decoded base limit access gran b l g = (
  omega (
    arith,
    bit_and_mask 16 base,
    bit_and_mask 8 (base / 2 ^ 16),
    bit_and_mask 8 (base / 2 ^ 24),
    bit_and_mask 32 (base / 2 ^ 32),
  ),
  (set_gdt_entry_decoded 0 limit access gran (omega arith) l g).1,
  refl,
)
