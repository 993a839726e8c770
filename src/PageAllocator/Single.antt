-- ===== src/PageAllocator/Single.antt =====
-- Kernel/Core/Memory/EarlyPageAllocator.cpp: `AllocatePage()`.
use objective_hail_os.Prelude.{
  ℕ, zero, suc, ◌+◌, ◌*◌, ◌^◌, ◌≤◌, ◌<◌, ◌≡◌, refl, inl, inr, true, false, none, some, arith,
  dec_lt, Bool-cases, ◌==◌,
}
use objective_hail_os.Bit.{array_bit, set_array_bit}
use objective_hail_os.Bit.Range.{array_bit_at, set_array_bit_at}
use objective_hail_os.PageBitmap.{page_size}
use objective_hail_os.PageAllocator.{nullptr, allocate_bits, allocate_bytes, allocate_page}

-- Every page from `lo` up to `hi` is in use.
abbrev pub AllUsed : (ℕ → ℕ) → ℕ → ℕ → Type 0
AllUsed m lo hi = (p : ℕ) → lo ≤ p → p < hi → array_bit m p ≡ true

module _ (m : ℕ → ℕ) where
  allocate_bits-none :
      (left i j : ℕ)
      → j + left ≤ 8
      → AllUsed m (i * 8 + j) (i * 8 + j + left)
      → allocate_bits left m i j ≡ none
  unfolding allocate_bits
  allocate_bits-none zero i j fits used = refl
  allocate_bits-none (suc left) i j fits used = ground (
    arith,
    array_bit_at m i j,
    used (i * 8 + j) (omega arith) (omega arith),
    allocate_bits-none left i (j + 1) (omega arith) (λ p lo hi. used p (omega arith) (omega arith)),
  )

  allocate_bits-some :
      (left i j p : ℕ)
      → j + left ≤ 8
      → i < 2 ^ 32
      → i * 8 + j ≤ p
      → p < i * 8 + j + left
      → array_bit m p ≡ false
      → AllUsed m (i * 8 + j) p
      → allocate_bits left m i j ≡ some (p * page_size, set_array_bit m p true)
  unfolding allocate_bits
  allocate_bits-some zero i j p fits near lo hi free used = absurd (omega arith)
  allocate_bits-some (suc left) i j p fits near lo hi free used =
      elim (Bool-cases (i * 8 + j == p)) [
        | inl here ↦ ground (arith, array_bit_at m i j, set_array_bit_at m i j true)
        | inr later ↦ ground (
          arith,
          array_bit_at m i j,
          used (i * 8 + j) (omega arith) (ground arith),
          allocate_bits-some left i (j + 1) p (omega arith) near (ground arith) (omega arith) free
              (λ q lo' hi'. used q (omega arith) hi'),
        )
      ]

  allocate_bytes-none :
      (left i : ℕ) → AllUsed m (i * 8) (i * 8 + left * 8) → allocate_bytes left m i ≡ (nullptr, m)
  unfolding allocate_bytes
  allocate_bytes-none zero i used = refl
  allocate_bytes-none (suc left) i used =
      rw
        (
          allocate_bits-none 8 i 0 (omega arith) (λ p lo hi. used p (omega arith) (omega arith)),
          allocate_bytes,
        )
        (allocate_bytes-none left (i + 1) (λ p lo hi. used p (omega arith) (omega arith)))

  allocate_bytes-some :
      (left i p : ℕ)
      → i + left ≤ 2 ^ 32
      → i * 8 ≤ p
      → p < i * 8 + left * 8
      → array_bit m p ≡ false
      → AllUsed m (i * 8) p
      → allocate_bytes left m i ≡ (p * page_size, set_array_bit m p true)
  unfolding allocate_bytes
  allocate_bytes-some zero i p near lo hi free used = absurd (omega arith)
  allocate_bytes-some (suc left) i p near lo hi free used = elim (dec_lt p (i * 8 + 8)) [
    | yes here ↦
        rw
          (
            allocate_bits-some 8 i 0 p (omega arith) (omega arith) (omega arith) (omega arith) free
                (λ q lo' hi'. used q (omega arith) hi'),
            allocate_bytes,
          )
          refl
    | no later ↦
        rw
          (
            allocate_bits-none 8 i 0 (omega arith)
                (λ q lo' hi'. used q (omega arith) (omega arith)),
            allocate_bytes,
          )
          (allocate_bytes-some left (i + 1) p (omega arith) (omega arith) (omega arith) free
            (λ q lo' hi'. used q (omega arith) hi'))
  ]

-- With page `p` free and every page below it in use, in a bitmap of at most 2 ^ 32 bytes,
-- `AllocatePage()` returns the address of page `p` and changes its bit to used.
pub allocate_page-lowest :
    (m : ℕ → ℕ) (size p : ℕ)
    → size ≤ 2 ^ 32
    → p < size * 8
    → array_bit m p ≡ false
    → AllUsed m 0 p
    → allocate_page size m ≡ (p * page_size, set_array_bit m p true)
unfolding allocate_page
allocate_page-lowest m size p small lt free used =
    allocate_bytes-some m size 0 p (omega arith) (omega arith) (omega arith) free
      (λ q lo hi. used q (omega arith) hi)

-- With every page in use `AllocatePage()` returns the null pointer and changes nothing.
pub allocate_page-full :
    (m : ℕ → ℕ) (size : ℕ) → AllUsed m 0 (size * 8) → allocate_page size m ≡ (nullptr, m)
unfolding allocate_page
allocate_page-full m size used =
    allocate_bytes-none m size 0 (λ p lo hi. used p (omega arith) (omega arith))
