-- ===== src/Acpi/Walk.antt =====
-- Kernel/Core/ACPI/MADT.cpp: the loop of ParseMADT over the table's entries.
use objective_hail_os.Prelude.{
  ℕ, zero, suc, ◌+◌, ◌*◌, ◌^◌, ◌≤◌, ◌<◌, ◌≡◌, refl, ◌∙◌, false, ◌&&◌, some, List, [], ◌∷◌, arith,
  ltb, leb, ◌==◌, if◌then◌else◌, update, inl, inr, Bool-cases, ℕ_discrete,
}
use mathlib.Core.Path.{ap₂, sym}
use objective_hail_os.Acpi.{
  ParsedMadt, IsoInfo, max_io_apics, max_isos, parse_entry, madt_loop, iso_at, load16, load32,
}

-- The entries from `p` to `end`, by their addresses: each one has a length that is not 0 and ends where
-- the next one starts, and no entry header fits behind the last.
unfoldable pub Entries : (ℕ → ℕ) → ℕ → ℕ → List ℕ → Type 0
Entries mem p end [] = end < p + 2
Entries mem p end (e ∷ es) =
    (e ≡ p) × (p + 2 ≤ end) × (0 < mem (p + 1)) × Entries mem (p + mem (p + 1)) end es

-- The counts stay within the arrays.
pub record Bounded (out : ParsedMadt) : Type 0 where
  pub io_apics_bound : out.io_apic_count ≤ max_io_apics
  pub isos_bound : out.iso_count ≤ max_isos

parse_entry-Bounded :
    (mem : ℕ → ℕ) (p : ℕ) (out : ParsedMadt) → Bounded out → Bounded (parse_entry mem p out)
unfolding parse_entry
parse_entry-Bounded mem p out b = record {
  io_apics_bound = ground arith;
  isos_bound = ground arith;
}

-- Whatever the memory holds, with fuel for the bytes that are left the loop ends, and the counts
-- of what it parsed are within the arrays if they were before.
pub madt_loop-Bounded :
    (fuel : ℕ) (mem : ℕ → ℕ) (p end : ℕ) (out : ParsedMadt)
    → 0 < fuel
    → end < p + fuel
    → Bounded out
    → (parsed : ParsedMadt) × (madt_loop fuel mem p end out ≡ some parsed) × Bounded parsed
unfolding madt_loop
madt_loop-Bounded zero mem p end out pos h b = absurd (omega arith)
madt_loop-Bounded (suc fuel) mem p end out pos h b = elim (Bool-cases (leb (p + 2) end)) [
  | inl fits ↦ elim (ℕ_discrete (mem (p + 1)) 0) [
    | yes e ↦ (out, rw (fits, e) refl, b)
    | no ne ↦
        let long : (mem (p + 1) == 0) ≡ false = ground arith in
        let ih =
          madt_loop-Bounded fuel mem (p + mem (p + 1)) end (parse_entry mem p out) (ground arith)
            (ground arith) (parse_entry-Bounded mem p out b) in
        (ih.0, rw (fits, long) (ih.1), ih.2)
  ]
  | inr over ↦ (out, rw over refl, b)
]

iso_at-update : (mem : ℕ → ℕ) (a x irq : ℕ) → x < a → iso_at (update mem x irq) a ≡ iso_at mem a
unfolding iso_at load32 load16
iso_at-update mem a x irq h =
    let off : (k : ℕ) → update mem x irq (a + k) ≡ mem (a + k) = λ k. ground arith in
    let far : (j k : ℕ) → update mem x irq (a + j + k) ≡ mem (a + j + k) = λ j k. ground arith in
    let deep : update mem x irq (a + 2 + 2 + 1) ≡ mem (a + 2 + 2 + 1) = ground arith in
    λ i. record {
      irq = off 1 i;
      gsi = off 2 i + far 2 1 i * 2 ^ 8 + (far 2 2 i + deep i * 2 ^ 8) * 2 ^ 16;
      flags = off 6 i + far 6 1 i * 2 ^ 8;
    }

iso_result : ℕ → IsoInfo → ParsedMadt → ParsedMadt
iso_result len info out =
    if leb 10 len && ltb out.iso_count max_isos
    then record out { isos = update out.isos out.iso_count info; iso_count = out.iso_count + 1 }
    else out

parse_entry-iso :
    (mem : ℕ → ℕ) (p : ℕ) (out : ParsedMadt)
    → mem p ≡ 2
    → parse_entry mem p out ≡ iso_result (mem (p + 1)) (iso_at mem (p + 44)) out
unfolding parse_entry iso_result
parse_entry-iso mem p out e = rw e refl

-- Another value of the source IRQ of an interrupt source override does not change what is parsed
-- of the entry.
pub parse_entry-source_ignored :
    (mem : ℕ → ℕ) (p irq : ℕ) (out : ParsedMadt)
    → mem p ≡ 2
    → parse_entry (update mem (p + 3) irq) p out ≡ parse_entry mem p out
parse_entry-source_ignored mem p irq out e =
    let kind : update mem (p + 3) irq p ≡ 2 = ground arith in
    let len : update mem (p + 3) irq (p + 1) ≡ mem (p + 1) = ground arith in
    parse_entry-iso (update mem (p + 3) irq) p out kind
    ∙ ap₂ (λ l info. iso_result l info out) len
        (iso_at-update mem (p + 44) (p + 3) irq (omega arith))
    ∙ sym (parse_entry-iso mem p out e)
