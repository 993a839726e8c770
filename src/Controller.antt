-- ===== src/Controller.antt =====
-- Kernel/Arch/x86_64/APIC/APICController.cpp with APICInit.hpp, the masking of lines in PIC/PIC.hpp, and
-- the order of the calls in Kernel/Core/KernelMain.cpp. A data port of the legacy controllers holds what
-- was written to it last; whether the CPU has a local APIC is a parameter.
pub mod Lines
pub mod Order
pub mod Pit
use objective_hail_os.Prelude.{
  ℕ, ◌+◌, ◌-◌, ◌^◌, ◌%◌, bit_and, bit_or, Bool, true, false, not, ltb, ◌==◌, if◌then◌else◌, update,
}
use objective_hail_os.Prelude.Words.{u8}
use objective_hail_os.Interrupts.{Tables, vec_timer, set_eoi_emitter, init_interrupt_dispatch}
use objective_hail_os.LocalApic.{LocalApic, enable, init_early, mask_timer}

-- The values of the data ports.
abbrev pub Ports : Type 0
Ports = ℕ → ℕ

-- The port and the bit of a line, as `Mask` and `Unmask` choose them.
abbrev pub port_of : ℕ → ℕ
port_of irq = if ltb irq 8 then 0x21 else 0xa1

abbrev pub line_of : ℕ → ℕ
line_of irq = if ltb irq 8 then irq else irq - 8

-- `PIC::Unmask` and `PIC::Mask`. `~` is on 32 bits.
unfoldable pub unmask : Ports → ℕ → Ports
unmask ports irq =
    update ports (port_of irq) (u8 (bit_and (ports (port_of irq)) (2 ^ 32 - 1 - 2 ^ line_of irq)))

unfoldable pub mask : Ports → ℕ → Ports
mask ports irq = update ports (port_of irq) (u8 (bit_or (ports (port_of irq)) (2 ^ line_of irq)))

-- `DisableLegacyPIC`.
unfoldable pub disable_legacy_pic : Ports → Ports
disable_legacy_pic ports = update (update ports 0x21 0xff) 0xa1 0xff

-- The local APIC, the data ports, the tables of the dispatch and the constructor's static flag.
pub record Controllers : Type 0 where
  pub lapic : LocalApic
  pub ports : Ports
  pub tables : Tables
  pub is_initialized : Bool

-- `InitAPIC`.
unfoldable pub init_apic : (present : Bool) → Controllers → Bool × Controllers
init_apic present c = if not present then (false, c) else (
  true,
  record c { lapic = init_early (enable c.lapic) 0xff 0xf1; ports = disable_legacy_pic c.ports },
)

-- The constructor of `APICController`; `end_of_interrupt` is the address of that function.
unfoldable pub apic_controller : (present : Bool) (end_of_interrupt : ℕ) → Controllers → Controllers
apic_controller present end_of_interrupt c =
    let c1 : Controllers =
      if c.is_initialized then c else record ((init_apic present c).1) { is_initialized = true } in
    record c1 { tables = set_eoi_emitter c1.tables end_of_interrupt }

-- `APICController::Enable` and `APICController::Disable`.
unfoldable pub enable_vector : Controllers → ℕ → Controllers
enable_vector c vector =
    if vector == vec_timer then record c { lapic = mask_timer c.lapic false } else c

unfoldable pub disable_vector : Controllers → ℕ → Controllers
disable_vector c vector =
    if vector == vec_timer then record c { lapic = mask_timer c.lapic true } else c

-- The calls of `main` from the construction of the controller to the initialization of the dispatch.
unfoldable pub start_interrupts :
    (present : Bool) (end_of_interrupt : ℕ) → Controllers → Controllers
start_interrupts present end_of_interrupt c =
    let c1 = apic_controller present end_of_interrupt c in
    record c1 { tables = init_interrupt_dispatch c1.tables }
