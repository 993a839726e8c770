-- ===== src/Tests/Devices.antt =====
-- Examples for Kernel/Arch/x86_64: interrupts, descriptors and the IOAPIC.
use objective_hail_os.Prelude.{
  ℕ, ◌+◌, ◌-◌, ◌*◌, ◌^◌, ◌≡◌, Bool, true, false, List, [], ◌∷◌, arith, ◌==◌, if◌then◌else◌,
}
use objective_hail_os.Interrupts.{
  InterruptFrame, Effect, Tables, handler, stub_has_error, tick_count_up,
}
use objective_hail_os.Interrupts.Eoi.{count_eoi, handler-count_eoi, own_eoi}
use objective_hail_os.Interrupts.Timer.{on_timer}
use objective_hail_os.Descriptors.{CpuTables, GdtEntry}
use objective_hail_os.LocalApic.{LocalApic}
use objective_hail_os.IoApic.{Device, IoApic, read_redir, route_gsi, owns_gsi}
use objective_hail_os.IoApic.Route.{route_gsi_lem, owns_gsi_lem}

abbrev frame : InterruptFrame
frame = record { rip = 0; cs = 8; rflags = 2; rsp = 0; ss = 16 }

-- The function at 7 handles vector 0x21.
abbrev tables : Tables
tables = record {
  handlers = λ v. if v == 0x21 then 7 else 0;
  vector_counts = λ v. 0;
  eoi = 0;
  logger = 0;
}

abbrev body : ℕ → InterruptFrame → Bool → ℕ → List Effect
body fn f has_error error = tick_count_up ∷ []

handler_example :
    count_eoi 0xfee00900 (handler 0xfee00900 body 0x21 tables frame 5).1
    ≡ own_eoi 0xfee00900 body tables 0x21 frame
        (stub_has_error 0x21)
        (if stub_has_error 0x21 then 5 else 0)
      + 1
handler_example = handler-count_eoi 0xfee00900 body 0x21 tables frame 5

abbrev timer_body : ℕ → InterruptFrame → Bool → ℕ → List Effect
timer_body fn f has_error error = on_timer 0xfee00000

abbrev no_entry : GdtEntry
no_entry = record {
  limit_low = 0;
  base_low = 0;
  base_mid = 0;
  access = 0;
  granularity = 0;
  base_high = 0;
}

-- The stubs are 16 bytes apart.
abbrev pub stubs : ℕ → ℕ
stubs n = 0xffff800000100000 + 16 * n

abbrev pub cpu_tables : CpuTables
cpu_tables = record {
  gdt = λ i. no_entry;
  tss = record { rsp0 = 0; io_map_base = 0 };
  idt = λ i. record {
    offset_low = 0;
    selector = 0;
    ist = 0;
    type_attribute = 0;
    offset_mid = 0;
    offset_high = 0;
    reserved = 0;
  };
  idt_limit = 0;
  idt_base = 0;
}

-- A device with 24 entries that serves the interrupts from 0 on.
abbrev device : Device
device = record { selected = 0; registers = λ r. if r == 1 then 0x170011 else 0 }

abbrev io_apic : IoApic
io_apic = record { phys_base = 0xfec00000; gsi_base = 0 }

owned : (owns_gsi io_apic device 2).0 ≡ true
owned = owns_gsi_lem io_apic device 2 (omega arith)

route_example :
    (read_redir (route_gsi io_apic device 2 0x62 0 0 1 false) (2 - 0)).0
    ≡ 0x62 + 0 + 2 ^ 15 + 0 + 0 * 2 ^ 56
route_example =
    route_gsi_lem io_apic device 2 0x62 0 0 1 false (omega arith) (omega arith) (omega arith) owned

-- A local APIC that is mapped.
abbrev pub local_apic : LocalApic
local_apic = record { mmio = 0xfee00000; is_ready = true; apic_base = 0xfee00900; words = λ a. 0 }
