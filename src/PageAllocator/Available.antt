-- ===== src/PageAllocator/Available.antt =====
-- Kernel/Core/Memory/EarlyPageAllocator.cpp: `GetAvailableSize`.
use objective_hail_os.Prelude.{
  ℕ, zero, suc, ◌+◌, ◌*◌, ◌^◌, ◌≤◌, ◌<◌, ◌≡◌, refl, ◌∙◌, true, false, arith, ap, if◌then◌else◌,
  IsBytes, dec_lt,
}
use objective_hail_os.Bit.{array_bit, set_array_bit}
use objective_hail_os.Bit.Range.{array_bit_at, array_bit-set_array_bit}
use objective_hail_os.PageBitmap.{page_size}
use objective_hail_os.PageAllocator.{
  allocate_page, available_bits, available_bytes, get_available_size,
}
use objective_hail_os.PageAllocator.Single.{AllUsed, allocate_page-lowest}

-- The number of free pages among the `n` from `lo` on.
unfoldable pub free_pages : (ℕ → ℕ) → ℕ → ℕ → ℕ
free_pages m lo zero = 0
free_pages m lo (suc n) = (if array_bit m lo then 0 else 1) + free_pages m (lo + 1) n

free_pages-add :
    (m : ℕ → ℕ) (lo a b : ℕ) → free_pages m lo (a + b) ≡ free_pages m lo a + free_pages m (lo + a) b
unfolding free_pages
free_pages-add m lo zero b = ground arith
free_pages-add m lo (suc a) b =
    let sum : suc a + b ≡ suc (a + b) = omega arith in
    let next : lo + suc a ≡ lo + 1 + a = omega arith in
    rw (sum, next) (ground (arith, free_pages-add m (lo + 1) a b))

module _ (m : ℕ → ℕ) where
  free_pages-le : (lo n : ℕ) → free_pages m lo n ≤ n
  unfolding free_pages
  free_pages-le lo zero = omega arith
  free_pages-le lo (suc n) = ground (arith, free_pages-le (lo + 1) n)

  available_bits_lem :
      (left i j total : ℕ)
      → j + left ≤ 8
      → total + left * page_size < 2 ^ 64
      → available_bits left m i j total ≡ total + free_pages m (i * 8 + j) left * page_size
  unfolding available_bits free_pages
  available_bits_lem zero i j total fits small = omega arith
  available_bits_lem (suc left) i j total fits small = ground (
    arith,
    array_bit_at m i j,
    available_bits_lem left i (j + 1) total (omega arith) (omega arith),
    available_bits_lem left i (j + 1) (total + page_size) (omega arith) (omega arith),
  )

  available_bytes_lem :
      (left i total : ℕ)
      → total + left * 8 * page_size < 2 ^ 64
      → available_bytes left m i total ≡ total + free_pages m (i * 8) (left * 8) * page_size
  unfolding available_bytes
  available_bytes_lem zero i total small = unfold free_pages in omega arith
  available_bytes_lem (suc left) i total small =
      let total' = total + free_pages m (i * 8 + 0) 8 * page_size in
      rw (available_bits_lem 8 i 0 total (omega arith) (omega arith)) (
        ground (
          arith,
          free_pages-le (i * 8 + 0) 8,
          free_pages-add m (i * 8) 8 (left * 8),
          available_bytes_lem left (i + 1) total',
        ))

-- For a bitmap of fewer than 2 ^ 32 bytes `GetAvailableSize` is the size of a page times the
-- number of free pages.
pub get_available_size_lem :
    (m : ℕ → ℕ) (size : ℕ)
    → size < 2 ^ 32
    → get_available_size size m ≡ free_pages m 0 (size * 8) * page_size
unfolding get_available_size
get_available_size_lem m size small = available_bytes_lem m size 0 0 (omega arith) ∙ omega arith

free_pages-set_behind :
    (m : ℕ → ℕ) (lo n p : ℕ)
    → IsBytes m
    → p < lo
    → free_pages (set_array_bit m p true) lo n ≡ free_pages m lo n
unfolding free_pages
free_pages-set_behind m lo zero p h lt = refl
free_pages-set_behind m lo (suc n) p h lt = ground (
  arith,
  array_bit-set_array_bit m p lo true h,
  free_pages-set_behind m (lo + 1) n p h (omega arith),
)

pub free_pages-set :
    (m : ℕ → ℕ) (lo n p : ℕ)
    → IsBytes m
    → array_bit m p ≡ false
    → lo ≤ p
    → p < lo + n
    → free_pages (set_array_bit m p true) lo n + 1 ≡ free_pages m lo n
unfolding free_pages
free_pages-set m lo zero p h free le lt = absurd (omega arith)
free_pages-set m lo (suc n) p h free le lt =
    let own = array_bit-set_array_bit m p lo true h in
    elim (dec_lt lo p) [
      | yes later ↦
          ground (arith, own, free_pages-set m (lo + 1) n p h free (omega arith) (omega arith))
      | no here ↦
          let e : lo ≡ p = omega arith in
          ground (
            arith,
            own,
            ap (λ (q : ℕ). array_bit m q) e,
            free_pages-set_behind m (lo + 1) n p h (omega arith),
          )
    ]

-- When some page is free, in a bitmap of fewer than 2 ^ 32 bytes, `AllocatePage()` takes the size
-- of one page off the available size.
pub get_available_size-allocate_page :
    (m : ℕ → ℕ) (size p : ℕ)
    → size < 2 ^ 32
    → IsBytes m
    → p < size * 8
    → array_bit m p ≡ false
    → AllUsed m 0 p
    → get_available_size size (allocate_page size m).1 + page_size ≡ get_available_size size m
get_available_size-allocate_page m size p small h lt free used =
    rw (allocate_page-lowest m size p (omega arith) lt free used) (
      omega (
        arith,
        get_available_size_lem (set_array_bit m p true) size small,
        get_available_size_lem m size small,
        free_pages-set m 0 (size * 8) p h free (omega arith) (omega arith),
      ))
