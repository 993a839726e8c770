-- ===== src/Tests/Tables.antt =====
-- Examples for Kernel/Core/ACPI and Library/String.
use objective_hail_os.Prelude.{ℕ, ◌≡◌, refl, some, [], ◌∷◌, arith, ◌==◌, if◌then◌else◌}
use objective_hail_os.Acpi.{ParsedMadt, madt_loop}
use objective_hail_os.Acpi.Walk.{Entries, Bounded, madt_loop-Bounded}
use objective_hail_os.Acpi.Records.{Recorded, madt_loop-Recorded}
use objective_hail_os.HexString.{ulong_to_hex_string}
use objective_hail_os.HexString.RoundTrip.{read_hex, read_hex-ulong_to_hex_string}

-- An entry for an IOAPIC (type 1, 12 bytes) at 100 and one for a source override (type 2, 10 bytes) behind it.
abbrev memory : ℕ → ℕ
memory a =
    if a == 100
    then 1
    else (if a == 101
        then 12
        else (if a == 102 then 9 else (if a == 112 then 2 else (if a == 113 then 10 else 0))))

abbrev nothing_parsed : ParsedMadt
nothing_parsed = record {
  local_apic_base = 0xfee00000;
  io_apics = λ i. record { id = 0; phys = 0; gsi_base = 0 };
  io_apic_count = 0;
  isos = λ i. record { irq = 0; gsi = 0; flags = 0 };
  iso_count = 0;
}

memory-Entries : Entries memory 100 122 (100 ∷ 112 ∷ [])
unfolding Entries
memory-Entries = (refl, omega arith, omega arith, (refl, omega arith, omega arith, omega arith))

madt_example :
    (parsed : ParsedMadt) × (madt_loop 30 memory 100 122 nothing_parsed ≡ some parsed)
    × Recorded memory (100 ∷ 112 ∷ []) nothing_parsed parsed
madt_example =
    madt_loop-Recorded 30 memory 100 122 (100 ∷ 112 ∷ []) nothing_parsed (omega arith) (omega arith)
      memory-Entries

loop_ends_example :
    (parsed : ParsedMadt) × (madt_loop 30 memory 100 122 nothing_parsed ≡ some parsed)
    × Bounded parsed
loop_ends_example =
    madt_loop-Bounded 30 memory 100 122 nothing_parsed (omega arith) (omega arith)
      (record { io_apics_bound = omega arith; isos_bound = omega arith })

read_hex_example : read_hex 16 (ulong_to_hex_string (λ i. 0) 0xdeadbeef) 2 0 ≡ 0xdeadbeef
read_hex_example = read_hex-ulong_to_hex_string (λ i. 0) 0xdeadbeef (omega arith)
