-- ===== src/Acpi/Tables.antt =====
-- Kernel/Core/ACPI/ACPIManager.cpp and MADT.cpp: the checksum and the search for a table.
use objective_hail_os.Prelude.{
  ℕ, zero, suc, ◌+◌, ◌*◌, ◌%◌, ◌<◌, ◌≡◌, ◌≢◌, refl, ◌∙◌, true, false, not, ◌&&◌, List, arith, ltb,
  leb, ◌==◌, if◌then◌else◌, inl, inr, Bool-cases,
}
use objective_hail_os.Prelude.Words.{u8}
use objective_hail_os.Acpi.{
  sum_loop, validate_rsdp_checksum, acpi_manager, rsdp_revision, rsdp_length, check_sig_eq,
  find_entry,
}

-- The sum of `n` bytes from `p` on.
unfoldable pub sum : ℕ → (ℕ → ℕ) → ℕ → ℕ
sum zero mem p = 0
sum (suc n) mem p = mem p + sum n mem (p + 1)

sum_loop-sum :
    (n : ℕ) (mem : ℕ → ℕ) (p s : ℕ) → sum_loop n mem p (s % 256) ≡ (s + sum n mem p) % 256
unfolding sum_loop sum
sum_loop-sum zero mem p s = omega arith
sum_loop-sum (suc n) mem p s =
    let step : u8 (s % 256 + mem p) ≡ (s + mem p) % 256 = omega arith in
    rw step (sum_loop-sum n mem (p + 1) (s + mem p) ∙ omega arith)

sum_from_0 : (n : ℕ) (mem : ℕ → ℕ) (p : ℕ) → sum_loop n mem p 0 ≡ sum n mem p % 256
sum_from_0 n mem p = sum_loop-sum n mem p 0 ∙ omega arith

-- The bytes that the checksum is about: 20 before revision 2, then the length that the table gives.
abbrev pub checked_bytes : (ℕ → ℕ) → ℕ → ℕ
checked_bytes mem rsdp = if ltb (rsdp_revision mem rsdp) 2 then 20 else rsdp_length mem rsdp

-- The manager keeps the pointer if the bytes that the checksum is about, at least 20, add up to a
-- multiple of 256; else its pointer is null.
pub acpi_manager_lem :
    (mem : ℕ → ℕ) (ptr : ℕ)
    → acpi_manager mem ptr ≡ (
        if leb 20 (checked_bytes mem ptr) && (sum (checked_bytes mem ptr) mem ptr % 256 == 0)
        then ptr
        else 0)
unfolding acpi_manager validate_rsdp_checksum
acpi_manager_lem mem ptr =
    let early : sum_loop 20 mem ptr 0 ≡ sum 20 mem ptr % 256 = sum_from_0 20 mem ptr in
    let late : sum_loop (rsdp_length mem ptr) mem ptr 0 ≡ sum (rsdp_length mem ptr) mem ptr % 256 =
      sum_from_0 (rsdp_length mem ptr) mem ptr in
    ground arith

-- If the search returns a pointer that is not null, the table there has the signature.
pub find_entry-check_sig_eq :
    (load : (ℕ → ℕ) → ℕ → ℕ) (width : ℕ) (mem : ℕ → ℕ) (sig : List ℕ) (left entry : ℕ)
    → find_entry load width mem sig left entry ≢ 0
    → check_sig_eq mem (find_entry load width mem sig left entry) sig ≡ true
unfolding find_entry
find_entry-check_sig_eq load width mem sig zero entry ne = absurd (ne refl)
find_entry-check_sig_eq load width mem sig (suc left) entry ne =
    let ih = find_entry-check_sig_eq load width mem sig left (entry + width) in
    elim (Bool-cases (not (load mem entry == 0) && check_sig_eq mem (load mem entry) sig)) [
      | inl yes_here ↦ rw yes_here (ground arith)
      | inr not_here ↦ rw not_here (ih (λ z. ne (rw not_here z)))
    ]

-- If the search returns null, then the table that any of the entries points to, if not null, does
-- not have the signature.
pub find_entry-none :
    (load : (ℕ → ℕ) → ℕ → ℕ) (width : ℕ) (mem : ℕ → ℕ) (sig : List ℕ) (left entry k : ℕ)
    → find_entry load width mem sig left entry ≡ 0
    → k < left
    → 0 < load mem (entry + k * width)
    → check_sig_eq mem (load mem (entry + k * width)) sig ≡ false
unfolding find_entry
find_entry-none load width mem sig zero entry k e h p = absurd (omega arith)
find_entry-none load width mem sig (suc left) entry zero e h p =
    let here : entry + 0 * width ≡ entry = omega arith in
    elim (Bool-cases (check_sig_eq mem (load mem (entry + 0 * width)) sig)) [
      | inl found ↦ absurd (ground arith)
      | inr fails ↦ fails
    ]
find_entry-none load width mem sig (suc left) entry (suc k) e h p =
    let there : entry + suc k * width ≡ entry + width + k * width = grind arith in
    rw there (
      find_entry-none load width mem sig left (entry + width) k (ground arith) (omega arith)
        (rw (← there) p))
