-- ===== src/IoApic.antt =====
-- Kernel/Arch/x86_64/APIC/IOAPIC.{hpp,cpp}. The device is its register file, reached through the select
-- register and the window; `Sel()` and `Win()` are the addresses `m_Base` and `m_Base + 0x10`.
pub mod Create
pub mod Route
use objective_hail_os.Prelude.{
  ℕ, ◌+◌, ◌-◌, ◌*◌, ◌/◌, ◌%◌, ◌^◌, bit_and, bit_or, Bool, true, false, not, ◌&&◌, ltb, leb, ◌==◌,
  if◌then◌else◌, update,
}
use objective_hail_os.Prelude.Words.{u32, u64}

-- The selected register and the registers.
pub record Device : Type 0 where
  pub selected : ℕ
  pub registers : ℕ → ℕ

-- `m_Base` and `m_GSIBase`.
pub record IoApic : Type 0 where
  pub phys_base : ℕ
  pub gsi_base : ℕ

-- A store to the select register, a load and a store through the window.
abbrev pub store_sel : Device → ℕ → Device
store_sel d reg = record d { selected = reg }

abbrev pub load_win : Device → ℕ
load_win d = d.registers d.selected

abbrev pub store_win : Device → ℕ → Device
store_win d val = record d { registers = update d.registers d.selected val }

-- `Read`.
unfoldable pub read : Device → ℕ → ℕ × Device
read d reg = let d1 = store_sel d reg in (load_win d1, d1)

-- `Write`.
unfoldable pub write : Device → ℕ → ℕ → Device
write d reg val = store_win (store_sel d reg) val

-- `Version`.
unfoldable pub version : Device → ℕ × Device
unfolding read
version d = read d 0x01

-- `RedirCount`.
unfoldable pub redir_count : Device → ℕ × Device
unfolding version
redir_count d = let (v, d1) = version d in (bit_and (v / 2 ^ 16) 0xff, d1)

-- `ReadRedir`.
unfoldable pub read_redir : Device → ℕ → ℕ × Device
unfolding read
read_redir d idx =
    let reg_lo = u32 (0x10 + u32 (idx * 2)) in
    let reg_hi = u32 (reg_lo + 1) in
    let (lo, d1) = read d reg_lo in
    let (hi, d2) = read d1 reg_hi in (bit_or lo (u64 (hi * 2 ^ 32)), d2)

-- `WriteRedir`.
unfoldable pub write_redir : Device → ℕ → ℕ → Device
unfolding write
write_redir d idx val =
    let reg_lo = u32 (0x10 + u32 (idx * 2)) in
    let reg_hi = u32 (reg_lo + 1) in
    let d1 = write d reg_hi (u32 (val / 2 ^ 32)) in write d1 reg_lo (u32 (bit_and val 0xffffffff))

-- `OwnsGSI`.
unfoldable pub owns_gsi : IoApic → Device → ℕ → Bool × Device
unfolding redir_count
owns_gsi io d gsi =
    let (count, d1) = redir_count d in
    let max = u32 (count + 1) in (leb io.gsi_base gsi && ltb gsi (u32 (io.gsi_base + max)), d1)

-- The low word that `RouteGSI` puts together.
unfoldable pub route_low : ℕ → ℕ → ℕ → Bool → ℕ
route_low vector polarity trigger masked =
    let lo = bit_or 0 vector in
    let lo1 = if not (polarity == 0) then bit_or lo (2 ^ 13) else lo in
    let lo2 = if not (trigger == 0) then bit_or lo1 (2 ^ 15) else lo1 in
    if masked then bit_or lo2 (2 ^ 16) else lo2

-- `RouteGSI`.
unfoldable pub route_gsi : IoApic → Device → ℕ → ℕ → ℕ → ℕ → ℕ → Bool → Device
unfolding owns_gsi write_redir route_low
route_gsi io d gsi vector dest_apic_id polarity trigger masked =
    let (owned, d1) = owns_gsi io d gsi in
    if not owned
    then d1
    else (let idx = gsi - io.gsi_base in
        let lo = route_low vector polarity trigger masked in
        let hi = u32 (dest_apic_id * 2 ^ 24) in write_redir d1 idx (bit_or (u64 (hi * 2 ^ 32)) lo))
