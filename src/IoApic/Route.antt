-- ===== src/IoApic/Route.antt =====
-- Kernel/Arch/x86_64/APIC/IOAPIC.cpp: redirection entries and routes.
use objective_hail_os.Prelude.{
  ℕ, ◌+◌, ◌-◌, ◌*◌, ◌/◌, ◌%◌, ◌^◌, ◌<◌, ◌≡◌, ◌≢◌, ◌∙◌, bit_and, bit_or, Bool, true, false, not,
  ◌&&◌, arith, leb, ◌==◌, if◌then◌else◌,
}
use mathlib.Core.Path.{ap₂}
use objective_hail_os.Prelude.Words.{u32, u64}
use objective_hail_os.Prelude.Bits.{
  bit_and_mask, bit_or_fields, bit_or_fields_low, bit_or-zero, bit_or_comm,
}
use objective_hail_os.IoApic.{
  Device, IoApic, read, write, version, redir_count, read_redir, write_redir, owns_gsi, route_low,
  route_gsi,
}

reg_lo_lem : (idx : ℕ) → idx < 240 → u32 (0x10 + u32 (idx * 2)) ≡ 16 + idx * 2
reg_lo_lem idx h = omega arith

reg_hi_lem : (idx : ℕ) → idx < 240 → u32 (16 + idx * 2 + 1) ≡ 16 + idx * 2 + 1
reg_hi_lem idx h = omega arith

-- A redirection entry below 2 ^ 64 that `WriteRedir` wrote at an index below 240 is what
-- `ReadRedir` reads there.
pub read_redir-write_redir :
    (d : Device) (idx val : ℕ)
    → idx < 240
    → val < 2 ^ 64
    → (read_redir (write_redir d idx val) idx).0 ≡ val
unfolding read_redir write_redir read write
read_redir-write_redir d idx val hi hv =
    let lo : u32 (bit_and val 0xffffffff) ≡ val % 2 ^ 32 = omega (arith, bit_and_mask 32 val) in
    let high : u64 (u32 (val / 2 ^ 32) * 2 ^ 32) ≡ val / 2 ^ 32 * 2 ^ 32 = omega arith in
    let together = bit_or_fields_low 32 (val / 2 ^ 32) (val % 2 ^ 32) (omega arith) in
    rw (reg_lo_lem idx hi, reg_hi_lem idx hi)
      (ap₂ (λ (a b : ℕ). bit_or a (u64 (b * 2 ^ 32))) {y = val % 2 ^ 32} {v = u32 (val / 2 ^ 32)}
          (ground arith) (ground arith)
        ∙ rw (high, together) (omega arith))

-- Two registers of different entries differ: a write leaves each other entry alone.
pub write_redir_other :
    (d : Device) (idx other val : ℕ)
    → idx < 240
    → other < 240
    → idx ≢ other
    → (read_redir (write_redir d idx val) other).0 ≡ (read_redir d other).0
unfolding read_redir write_redir read write
write_redir_other d idx other val hi ho ne =
    rw (reg_lo_lem idx hi, reg_hi_lem idx hi, reg_lo_lem other ho, reg_hi_lem other ho)
      (ap₂ (λ (a b : ℕ). bit_or a (u64 (b * 2 ^ 32))) (ground arith) (ground arith))

-- `OwnsGSI` holds on exactly the device's interrupts, when their range does not wrap.
pub owns_gsi_lem :
    (io : IoApic) (d : Device) (gsi : ℕ)
    → io.gsi_base + 256 < 2 ^ 32
    → (owns_gsi io d gsi).0
      ≡ (leb io.gsi_base gsi && leb gsi (io.gsi_base + d.registers 1 / 2 ^ 16 % 256))
unfolding owns_gsi redir_count version read
owns_gsi_lem io d gsi h = ground (arith, bit_and_mask 8 (d.registers 1 / 2 ^ 16))

low_bit :
    (k lo : ℕ) (b : Bool)
    → lo < 2 ^ k
    → (if b then bit_or lo (1 * 2 ^ k) else lo) ≡ lo + (if b then 1 * 2 ^ k else 0)
low_bit k lo true h = omega (arith, bit_or_fields_low k 1 lo h)
low_bit k lo false h = omega arith

low_lem :
    (vector polarity trigger : ℕ) (masked : Bool)
    → vector < 256
    → route_low vector polarity trigger masked
      ≡ vector
        + (if polarity == 0 then 0 else 2 ^ 13)
        + (if trigger == 0 then 0 else 2 ^ 15)
        + (if masked then 2 ^ 16 else 0)
unfolding route_low
low_lem vector polarity trigger masked h =
    let v : bit_or 0 vector ≡ vector = bit_or_comm 0 vector ∙ bit_or-zero vector in
    let lo1 = vector + (if not (polarity == 0) then 2 ^ 13 else 0) in
    let lo2 = lo1 + (if not (trigger == 0) then 2 ^ 15 else 0) in
    let e1 = low_bit 13 vector (not (polarity == 0)) (omega arith) in
    let e2 = low_bit 15 lo1 (not (trigger == 0)) (ground arith) in
    let e3 = low_bit 16 lo2 masked (ground arith) in rw (v, e1, e2, e3) (ground arith)

-- For an interrupt that the device owns, at most the 240th from its base, and a vector and a
-- destination below 256, `RouteGSI` leaves an entry with the vector in the low byte, the polarity
-- in bit 13, the trigger in bit 15, the mask in bit 16 and the destination in the top byte.
pub route_gsi_lem :
    (io : IoApic) (d : Device) (gsi vector dest polarity trigger : ℕ) (masked : Bool)
    → gsi < io.gsi_base + 240
    → vector < 256
    → dest < 256
    → (owns_gsi io d gsi).0 ≡ true
    → (read_redir (route_gsi io d gsi vector dest polarity trigger masked) (gsi - io.gsi_base)).0
      ≡ vector
        + (if polarity == 0 then 0 else 2 ^ 13)
        + (if trigger == 0 then 0 else 2 ^ 15)
        + (if masked then 2 ^ 16 else 0)
        + dest * 2 ^ 56
unfolding route_gsi
route_gsi_lem io d gsi vector dest polarity trigger masked hg hv hd own =
    let index : gsi - io.gsi_base < 240 = omega arith in
    let lo = low_lem vector polarity trigger masked hv in
    let bound : route_low vector polarity trigger masked < 2 ^ 32 = rw lo (ground arith) in
    let high : u64 (u32 (dest * 2 ^ 24) * 2 ^ 32) ≡ dest * 2 ^ 24 * 2 ^ 32 = omega arith in
    let word = bit_or_fields 32 (dest * 2 ^ 24) (route_low vector polarity trigger masked) bound in
    rw own (
      rw (high, word)
        (read_redir-write_redir (owns_gsi io d gsi).1 (gsi - io.gsi_base) _ index (omega arith)
          ∙ rw lo (omega arith)))
