-- ===== src/Paging/Entry.antt =====
-- Kernel/Arch/x86_64/Paging/Paging.cpp: the entries as numbers, and what the processor reads from them.
use objective_hail_os.Prelude.{
  ℕ, ◌+◌, ◌-◌, ◌*◌, ◌/◌, ◌%◌, ◌^◌, ◌≤◌, ◌<◌, bit_and, bit_or, ◌≡◌, ◌∙◌, ap, Bool, Option, none,
  some, ◌==◌, if◌then◌else◌, arith, inl, inr, Bool-cases,
}
use native.Mathlib.Nat.{mod-eq_of_lt}
use objective_hail_os.Prelude.Words.{u64}
use objective_hail_os.Prelude.Bits.{bit_and_mask, bit_and_high, bit_or_low}
use objective_hail_os.PageBitmap.{MemoryInfo}
use objective_hail_os.Paging.{
  page_4k, page_2m, page_1g, pg_p, pg_rw, align_up, table_entry, page_entry, is_mmio_region,
}

-- `&` with a mask of `w` bits from bit `k` on, of a number that fits.
bit_and-field :
    (k w a : ℕ)
    → a / 2 ^ k < 2 ^ w
    → 0 < 2 ^ k
    → bit_and a ((2 ^ w - 1) * 2 ^ k) ≡ a / 2 ^ k * 2 ^ k
bit_and-field k w a fits pos =
    let split : a ≡ a / 2 ^ k * 2 ^ k + a % 2 ^ k = ground arith in
    let small : a % 2 ^ k < 2 ^ k = ground arith in
    ap (λ (t : ℕ). bit_and t ((2 ^ w - 1) * 2 ^ k)) split
    ∙ bit_and_high k (a / 2 ^ k) (a % 2 ^ k) (2 ^ w - 1) small
    ∙ ap (λ (t : ℕ). t * 2 ^ k) (bit_and_mask w (a / 2 ^ k) ∙ mod-eq_of_lt fits)

pub align_up-2m : (a : ℕ) → a ≤ 2 ^ 39 → align_up a page_2m ≡ (a + page_2m - 1) / page_2m * page_2m
unfolding align_up
align_up-2m a h =
    let fits : u64 (a + page_2m - 1) ≡ a + page_2m - 1 = omega arith in
    rw fits (bit_and-field 21 43 (a + page_2m - 1) (omega arith) (omega arith))

pub align_up-1g : (a : ℕ) → a ≤ 2 ^ 39 → align_up a page_1g ≡ (a + page_1g - 1) / page_1g * page_1g
unfolding align_up
align_up-1g a h =
    let fits : u64 (a + page_1g - 1) ≡ a + page_1g - 1 = omega arith in
    rw fits (bit_and-field 30 34 (a + page_1g - 1) (omega arith) (omega arith))

-- A page's address: a multiple of its size that fits the address field of an entry.
pub record PageAddress (p : ℕ) : Type 0 where
  pub aligned : p % page_4k ≡ 0
  pub fits : p < 2 ^ 52

pub table_entry_lem : (p : ℕ) → PageAddress p → table_entry p ≡ p + 3
unfolding table_entry
table_entry_lem p h =
    let aligned = h.aligned in
    let fits = h.fits in
    let whole : p / 2 ^ 12 * 2 ^ 12 ≡ p = omega arith in
    let masked = bit_and-field 12 40 p (omega arith) (omega arith) in
    let one = bit_or_low 12 (p / 2 ^ 12) 0 pg_p (omega arith) (omega arith) in
    let two = bit_or_low 12 (p / 2 ^ 12) 1 pg_rw (omega arith) (omega arith) in
    rw masked (
      ap (λ (t : ℕ). bit_or t pg_rw) (ap (λ (t : ℕ). bit_or t pg_p) (omega arith) ∙ one)
      ∙ two
      ∙ omega arith)

-- The low bits of an entry for 2 MiB: present, writable, and not cached where the memory is a device's.
abbrev pub flags_of : Bool → ℕ
flags_of mmio = if mmio then 155 else 131

pub page_entry_lem :
    (info : MemoryInfo) (n : ℕ)
    → n < 2 ^ 43
    → page_entry info (n * page_2m) ≡ n * page_2m + flags_of (is_mmio_region (n * page_2m) info)
unfolding page_entry
page_entry_lem info n h =
    let whole : n * page_2m / 2 ^ 21 * 2 ^ 21 ≡ n * page_2m = omega arith in
    let masked = bit_and-field 21 43 (n * page_2m) (omega arith) (omega arith) ∙ whole in
    rw masked (elim (Bool-cases (is_mmio_region (n * page_2m) info)) [
      | inl device ↦ rw device (
          ap (λ (t : ℕ). bit_or t 155) (omega arith)
          ∙ bit_or_low 21 n 0 155 (omega arith) (omega arith))
      | inr plain ↦ rw plain (
          ap (λ (t : ℕ). bit_or t 131) (omega arith)
          ∙ bit_or_low 21 n 0 131 (omega arith) (omega arith))
    ])

-- The address field of an entry.
abbrev pub field_of : ℕ → ℕ
field_of e = e / page_4k % 2 ^ 40 * page_4k

-- The translation of a linear address below 2 ^ 48 by four levels of tables, as the processor defines
-- it, for tables whose pages are all of 2 MiB: the physical address, and whether the memory is cached.
-- `none` is a page fault, or a page of another size.
unfoldable pub translate : (words : ℕ → ℕ) (cr3 v : ℕ) → Option (ℕ × Bool)
translate words cr3 v =
    let e4 = words (field_of cr3 + 8 * (v / 2 ^ 39 % 512)) in
    let e3 = words (field_of e4 + 8 * (v / 2 ^ 30 % 512)) in
    let e2 = words (field_of e3 + 8 * (v / 2 ^ 21 % 512)) in
    if e4 % 2 == 0
    then none
    else (if e3 % 2 == 0
        then none
        else (if e3 / 2 ^ 7 % 2 == 1
            then none
            else (if e2 % 2 == 0
                then none
                else (if e2 / 2 ^ 7 % 2 == 0
                    then none
                    else some (e2 / 2 ^ 21 % 2 ^ 31 * 2 ^ 21 + v % 2 ^ 21, e2 / 2 ^ 4 % 2 == 0)))))
