-- ===== src/Paging/Early.antt =====
-- Kernel/Arch/x86_64/Paging/Paging.cpp with Kernel/Core/Memory/EarlyPageAllocator.cpp: the allocator of
-- the kernel's start as the one that the tables are built with.
use objective_hail_os.Prelude.{
  ℕ, zero, suc, ◌*◌, ◌/◌, ◌%◌, ◌^◌, ◌≤◌, ◌<◌, ◌≡◌, ◌≢◌, refl, ◌∙◌, sym, true, false, some,
  Bool-cases, IsBytes, arith, inl, inr, ◌⊎◌, ℕ_discrete,
}
use mathlib.Core.Bool.{true≢false}
use objective_hail_os.Bit.{array_bit}
use objective_hail_os.Bit.Range.{set_array_bit-IsBytes, array_bit-set_array_bit}
use objective_hail_os.PageBitmap.{MemoryInfo, page_size}
use objective_hail_os.PageAllocator.{allocate_page}
use objective_hail_os.PageAllocator.Single.{AllUsed, allocate_page-lowest, allocate_page-full}
use objective_hail_os.Paging.{
  Allocator, page_2m, page_1g, align_up, calc_max_phys, gib_count_of, build_identity_map_2m,
}
use objective_hail_os.Paging.Entry.{translate}
use objective_hail_os.Paging.IdentityMap.{Lawful}
use objective_hail_os.Paging.Translate.{identity_at}
use objective_hail_os.Paging.Call.{build_identity_map_2m-identity}

-- The early allocator with a bitmap of `size` bytes.
abbrev pub early_allocator : (size : ℕ) → Allocator
early_allocator size = record { State = ℕ → ℕ; allocate = allocate_page size }

-- The lowest free page, if there is one.
first_free :
    (m : ℕ → ℕ) (n : ℕ)
    → ((p : ℕ) × (p < n) × (array_bit m p ≡ false) × AllUsed m 0 p) ⊎ AllUsed m 0 n
first_free m zero = inr (λ p lo hi. absurd (omega arith))
first_free m (suc n) = elim (first_free m n) [
  | inl found ↦ inl (found.0, omega (arith, found.1), found.2, found.3)
  | inr used ↦ elim (Bool-cases (array_bit m n)) [
    | inr free ↦ inl (n, omega arith, free, used)
    | inl taken ↦ inr (λ p lo hi. elim (ℕ_discrete p n) [
      | yes last ↦ rw last taken
      | no before ↦ used p lo (omega arith)
    ])
  ]
]

-- A page that the bitmap has as free.
abbrev pub IsFree : (size : ℕ) → (ℕ → ℕ) → ℕ → Type 0
IsFree size m p =
    (p % page_size ≡ 0) × (p / page_size < size * 8) × (array_bit m (p / page_size) ≡ false)

module _ (size : ℕ) (small : size < 2 ^ 32) where
  keeps : (m : ℕ → ℕ) → IsBytes m → IsBytes (allocate_page size m).1
  keeps m h = elim (first_free m (size * 8)) [
    | inl (p, lt, free, used) ↦
        rw (allocate_page-lowest m size p (omega arith) lt free used)
          (set_array_bit-IsBytes m p true h)
    | inr used ↦ rw (allocate_page-full m size used) h
  ]

  given :
      (m : ℕ → ℕ)
      → IsBytes m
      → (allocate_page size m).0 ≢ 0
      → IsFree size m (allocate_page size m).0
  given m h got = elim (first_free m (size * 8)) [
    | inl (p, lt, free, used) ↦
        let page : p * page_size / page_size ≡ p = omega arith in
        rw (allocate_page-lowest m size p (omega arith) lt free used, page) (omega arith, lt, free)
    | inr used ↦ absurd (got (rw (allocate_page-full m size used) refl))
  ]

  taken :
      (m : ℕ → ℕ) (p : ℕ)
      → IsBytes m
      → IsFree size (allocate_page size m).1 p
      → IsFree size m p × (p ≢ (allocate_page size m).0)
  taken m p h is = elim (first_free m (size * 8)) [
    | inl (s, lt, free, used) ↦
        let e = allocate_page-lowest m size s (omega arith) lt free used in
        let bit = array_bit-set_array_bit m s (p / page_size) true h in
        let still = sym bit ∙ (rw e at is.2) in
        rw e (
          (is.0, is.1, ground (arith, still)),
          λ same. let page : p / page_size ≡ s = omega arith in ground (arith, still),
        )
    | inr used ↦
        let e = allocate_page-full m size used in
        let free : array_bit m (p / page_size) ≡ false = rw e at is.2 in
        absurd (true≢false (sym (used (p / page_size) (omega arith) is.1) ∙ free))
  ]

  -- The early allocator never returns a page twice.
  pub early_allocator-Lawful : Lawful (early_allocator size)
  early_allocator-Lawful = record {
    Ok = IsBytes;
    Free = IsFree size;
    keeps = keeps;
    given = given;
    taken = taken;
    address = λ m p h is. record { aligned = is.0; fits = omega (arith, is.0, is.1) };
  }

-- The tables that are built with the early allocator's pages, from a bitmap of fewer than 2 ^ 32 bytes,
-- when no region ends above 512 GiB and the call returns true: below the end of the last GiB that a
-- region reaches into, an address is mapped to itself, cached exactly if its 2 MiB do not start in a
-- reserved region; and the addresses above the highest 2 MiB that a region reaches into are not mapped.
pub early_identity_map :
    (size : ℕ) (info : MemoryInfo) (cr3 : ℕ) (words bitmap : ℕ → ℕ)
    → size < 2 ^ 32
    → IsBytes bitmap
    → calc_max_phys info ≤ 2 ^ 39
    → let built = build_identity_map_2m (early_allocator size) (some info) cr3 words bitmap in
      built.ok ≡ true
      → (v : ℕ) → v < gib_count_of info * page_1g
      → translate built.words built.cr3 v
        ≡ identity_at info (align_up (calc_max_phys info) page_2m) v
unfolding early_allocator-Lawful
early_identity_map size info cr3 words bitmap small h fits ok v below =
    build_identity_map_2m-identity (early_allocator size) (early_allocator-Lawful size small) info
      cr3 words bitmap h fits ok v below
