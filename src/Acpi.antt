-- ===== src/Acpi.antt =====
-- Kernel/Core/ACPI/ACPIManager.cpp (`ValidateRSDPChecksum`, the constructor) and MADT.{hpp,cpp}. The
-- firmware's tables are bytes in memory, read in little-endian order at the offsets of the packed
-- structs; 0 is the null pointer. A signature is a string literal: the list of its characters.
pub mod Tables
pub mod Records
pub mod Walk
pub mod Shutdown
use objective_hail_os.Prelude.{
  ℕ, zero, suc, ◌+◌, ◌-◌, ◌*◌, ◌/◌, ◌%◌, ◌^◌, Bool, true, false, not, ◌&&◌, ◌||◌, Option, none,
  some, List, [], ◌∷◌, ltb, leb, ◌==◌, if◌then◌else◌, update,
}
use mathlib.Core.Option.{map as map_option}
use objective_hail_os.Prelude.Words.{u8, u32, u64}

unfoldable pub load16 : (ℕ → ℕ) → ℕ → ℕ
load16 mem a = mem a + mem (a + 1) * 2 ^ 8

unfoldable pub load32 : (ℕ → ℕ) → ℕ → ℕ
unfolding load16
load32 mem a = load16 mem a + load16 mem (a + 2) * 2 ^ 16

unfoldable pub load64 : (ℕ → ℕ) → ℕ → ℕ
unfolding load32
load64 mem a = load32 mem a + load32 mem (a + 4) * 2 ^ 32

-- Fields of RSDPtr and SDTHeader.
abbrev pub size_of_sdt_header : ℕ
size_of_sdt_header = 36

unfoldable pub rsdp_revision : (ℕ → ℕ) → ℕ → ℕ
rsdp_revision mem rsdp = mem (rsdp + 15)

unfoldable pub rsdt_address : (ℕ → ℕ) → ℕ → ℕ
unfolding load32
rsdt_address mem rsdp = load32 mem (rsdp + 16)

unfoldable pub rsdp_length : (ℕ → ℕ) → ℕ → ℕ
unfolding load32
rsdp_length mem rsdp = load32 mem (rsdp + 20)

unfoldable pub xsdt_address : (ℕ → ℕ) → ℕ → ℕ
unfolding load64
xsdt_address mem rsdp = load64 mem (rsdp + 24)

unfoldable pub sdt_length : (ℕ → ℕ) → ℕ → ℕ
unfolding load32
sdt_length mem h = load32 mem (h + 4)

-- `sum = static_cast<std::uint8_t>(sum + p[i])` for `left` bytes from `p` on.
unfoldable pub sum_loop : ℕ → (ℕ → ℕ) → ℕ → ℕ → ℕ
sum_loop zero mem p sum = sum
sum_loop (suc left) mem p sum = sum_loop left mem (p + 1) (u8 (sum + mem p))

-- `ValidateRSDPChecksum`.
unfoldable pub validate_rsdp_checksum : (ℕ → ℕ) → ℕ → Bool
unfolding rsdp_revision rsdp_length sum_loop
validate_rsdp_checksum mem rsdp =
    if rsdp == 0
    then false
    else (if ltb (rsdp_revision mem rsdp) 2
        then sum_loop 20 mem rsdp 0 == 0
        else (let len = rsdp_length mem rsdp in
            if ltb len 20 then false else sum_loop len mem rsdp 0 == 0))

-- `ACPIManager(RSDPtr* ptr)`: the value of `m_RSDPtr`.
unfoldable pub acpi_manager : (ℕ → ℕ) → ℕ → ℕ
unfolding validate_rsdp_checksum
acpi_manager mem ptr = if ptr == 0 then ptr else (if validate_rsdp_checksum mem ptr then ptr else 0)

-- `CheckSigEq(sig1, sig2, StringLength(sig2))`.
unfoldable pub check_sig_eq : (ℕ → ℕ) → ℕ → List ℕ → Bool
check_sig_eq mem h [] = true
check_sig_eq mem h (c ∷ sig) =
    let rest = check_sig_eq mem (h + 1) sig in if not (mem h == c) then false else rest

-- The search loop of `FindTable`: `load` reads an entry, `left` entries of `width` bytes from `entry` on.
unfoldable pub find_entry : ((ℕ → ℕ) → ℕ → ℕ) → ℕ → (ℕ → ℕ) → List ℕ → ℕ → ℕ → ℕ
unfolding check_sig_eq
find_entry load width mem sig zero entry = 0
find_entry load width mem sig (suc left) entry =
    let rest = find_entry load width mem sig left (entry + width) in
    let h = load mem entry in if not (h == 0) && check_sig_eq mem h sig then h else rest

-- `(sdt->Length - sizeof(SDTHeader)) / width` as a 32-bit number.
unfoldable pub entry_count : (ℕ → ℕ) → ℕ → ℕ → ℕ
unfolding sdt_length
entry_count mem sdt width = u32 (u64 (sdt_length mem sdt + (2 ^ 64 - size_of_sdt_header)) / width)

-- `FindTable`. The entries of the RSDT start at `rsdt + sizeof(SDTHeader)`, an addition to a pointer to
-- SDTHeader, which moves it by the size of that many headers.
unfoldable pub find_table : (ℕ → ℕ) → ℕ → List ℕ → ℕ
unfolding rsdp_revision xsdt_address rsdt_address entry_count find_entry load32 load64
find_table mem rsdp sig =
    if rsdp == 0
    then 0
    else (if leb 2 (rsdp_revision mem rsdp)
        then (let xsdt = xsdt_address mem rsdp in
            if xsdt == 0
            then 0
            else find_entry load64 8 mem sig (entry_count mem xsdt 8) (xsdt + size_of_sdt_header))
        else (let rsdt = rsdt_address mem rsdp in
            if rsdt == 0
            then 0
            else find_entry load32 4 mem sig (entry_count mem rsdt 4)
                (rsdt + size_of_sdt_header * size_of_sdt_header)))

-- ParsedMADT and what it holds of an entry.
pub record IoApicInfo : Type 0 where
  pub id : ℕ
  pub phys : ℕ
  pub gsi_base : ℕ

pub record IsoInfo : Type 0 where
  pub irq : ℕ
  pub gsi : ℕ
  pub flags : ℕ

pub record ParsedMadt : Type 0 where
  pub local_apic_base : ℕ
  pub io_apics : ℕ → IoApicInfo
  pub io_apic_count : ℕ
  pub isos : ℕ → IsoInfo
  pub iso_count : ℕ

abbrev pub size_of_madt_header : ℕ
size_of_madt_header = 44

abbrev pub size_of_entry_header : ℕ
size_of_entry_header = 2

abbrev pub max_io_apics : ℕ
max_io_apics = 8

abbrev pub max_isos : ℕ
max_isos = 32

-- MADT_IOAPIC (10 bytes) and MADT_ISO (8 bytes) at an address.
unfoldable pub io_apic_at : (ℕ → ℕ) → ℕ → IoApicInfo
unfolding load32
io_apic_at mem a = record { id = mem a; phys = load32 mem (a + 2); gsi_base = load32 mem (a + 6) }

unfoldable pub iso_at : (ℕ → ℕ) → ℕ → IsoInfo
unfolding load16 load32
iso_at mem a = record { irq = mem (a + 1); gsi = load32 mem (a + 2); flags = load16 mem (a + 6) }

-- The switch of `ParseMADT` for the entry at `p`.
unfoldable pub parse_entry : (ℕ → ℕ) → ℕ → ParsedMadt → ParsedMadt
unfolding io_apic_at iso_at
parse_entry mem p out =
    if mem p == 1
    then (if leb (size_of_entry_header + 10) (mem (p + 1)) && ltb out.io_apic_count max_io_apics
        then record out {
          io_apics =
              update out.io_apics out.io_apic_count (io_apic_at mem (p + size_of_entry_header));
          io_apic_count = out.io_apic_count + 1;
        }
        else out)
    else (if mem p == 2
        then (if leb (size_of_entry_header + 8) (mem (p + 1)) && ltb out.iso_count max_isos
            then record out {
              isos = update out.isos out.iso_count (iso_at mem (p + size_of_madt_header));
              iso_count = out.iso_count + 1;
            }
            else out)
        else out)

-- The loop of `ParseMADT` from `p` to `end`; `none` is fuel that ran out.
unfoldable pub madt_loop : ℕ → (ℕ → ℕ) → ℕ → ℕ → ParsedMadt → Option ParsedMadt
unfolding parse_entry
madt_loop zero mem p end out = none
madt_loop (suc fuel) mem p end out =
    let rest = madt_loop fuel mem (p + mem (p + 1)) end (parse_entry mem p out) in
    if leb (p + size_of_entry_header) end
    then (if mem (p + 1) == 0 then some out else rest)
    else some out

-- `ParseMADT`: false and `out` as it was, or true and what was parsed.
unfoldable pub parse_madt : (ℕ → ℕ) → ℕ → ParsedMadt → Option (Bool × ParsedMadt)
unfolding find_table madt_loop sdt_length load32
parse_madt mem rsdp out =
    let hdr = find_table mem rsdp (b'A' ∷ b'P' ∷ b'I' ∷ b'C' ∷ []) in
    if hdr == 0
    then some (false, out)
    else (let out' : ParsedMadt = record out {
      local_apic_base = load32 mem (hdr + size_of_sdt_header);
    } in
        map_option (λ parsed. (true, parsed))
          (madt_loop (sdt_length mem hdr + 1) mem (hdr + size_of_madt_header)
            (hdr + sdt_length mem hdr) out'))
