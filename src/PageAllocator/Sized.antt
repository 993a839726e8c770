-- ===== src/PageAllocator/Sized.antt =====
-- Kernel/Core/Memory/EarlyPageAllocator.cpp: `AllocatePage(minSize)` and `FreePage(ptr, size)`.
use objective_hail_os.Prelude.{
  ℕ, ◌+◌, ◌*◌, ◌/◌, ◌%◌, ◌^◌, ◌≤◌, ◌<◌, ◌≡◌, ◌≢◌, ◌⊎◌, inl, inr, refl, ◌∙◌, true, false, arith,
  if◌then◌else◌, IsBytes,
}
use objective_hail_os.Bit.{array_bit, set_array_bit, set_bit_range}
use objective_hail_os.Bit.Range.{
  in_range, array_bit-set_bit_range, set_bit_range_outside, set_bit_range-IsBytes,
  array_bit-set_array_bit, set_array_bit_at, set_array_bit-IsBytes,
}
use objective_hail_os.PageBitmap.{page_size}
use objective_hail_os.PageAllocator.{
  nullptr, find_available_address, page_count_of, allocate_page_sized, free_page, free_page_sized,
}
use objective_hail_os.PageAllocator.Search.{
  FirstRun, FreeRun, find_available_address-first, find_available_address-none,
}

-- The number of pages is the least that holds the bytes.
pub page_count_of_bounds :
    (bytes : ℕ)
    → (bytes ≤ page_count_of bytes * page_size)
      × (page_count_of bytes * page_size < bytes + page_size)
unfolding page_count_of
page_count_of_bounds bytes = ground arith

module _ (m : ℕ → ℕ) (size bytes s : ℕ) (small : size < 2 ^ 32) (many : 1 < page_count_of bytes)
    (not_null : 0 < s) (is : FirstRun m (page_count_of bytes) s) where
  abbrev pub n : ℕ
  n = page_count_of bytes

  pub sized_pointer :
      s + n ≤ (size + 1) * 8
      → allocate_page_sized size m bytes
        ≡ (s * page_size, set_bit_range m size (s / 8) (s % 8) n true)
  unfolding allocate_page_sized
  sized_pointer fits =
      let found = find_available_address-first m size n s small (omega arith) fits is in
      let page : s * page_size / page_size ≡ s = omega arith in ground (arith, found, page)

  -- A run inside the bitmap: its address is returned and exactly its pages are marked used.
  pub allocate_page_sized-first :
      (p : ℕ)
      → IsBytes m
      → s + n ≤ size * 8
      → ((allocate_page_sized size m bytes).0 ≡ s * page_size)
        × (array_bit (allocate_page_sized size m bytes).1 p
            ≡ (if in_range s n p then true else array_bit m p))
  allocate_page_sized-first p h fits = rw (sized_pointer (omega arith)) (
    refl,
    ground (
      arith,
      array_bit-set_bit_range m size (s / 8) (s % 8) n true small (omega arith) (omega arith)
          (omega arith) p h,
    ),
  )

  -- When the lowest run for more than one page does not start at page 0 and ends in the byte
  -- behind the bitmap (of fewer than 2 ^ 32 bytes), its address is returned and no page is marked
  -- used.
  pub allocate_page_sized-overrun :
      size * 8 < s + n
      → s + n ≤ (size + 1) * 8
      → allocate_page_sized size m bytes ≡ (s * page_size, m)
  allocate_page_sized-overrun over fits =
      sized_pointer fits
      ∙ ground (
        arith,
        set_bit_range_outside m size (s / 8) (s % 8) n true small (omega arith) (omega arith)
            (omega arith),
      )

  -- When an allocation of more than one page finds its lowest run, not at page 0, inside the
  -- bitmap (of fewer than 2 ^ 32 bytes), giving the memory back with the same size makes every
  -- page's state what it was.
  pub free_page_sized-allocate :
      (p : ℕ)
      → IsBytes m
      → s + n ≤ size * 8
      → let r = allocate_page_sized size m bytes in
        array_bit (free_page_sized size r.1 r.0 bytes) p ≡ array_bit m p
  unfolding free_page_sized
  free_page_sized-allocate p h fits =
      let m' = set_bit_range m size (s / 8) (s % 8) n true in
      let page : s * page_size / page_size ≡ s = omega arith in
      let taken =
        array_bit-set_bit_range m size (s / 8) (s % 8) n true small (omega arith) (omega arith)
          (omega arith) p h in
      let given =
        array_bit-set_bit_range m' size (s / 8) (s % 8) n false small (omega arith) (omega arith)
          (omega arith) p (set_bit_range-IsBytes m size (s / 8) (s % 8) n true h) in
      rw (sized_pointer (omega arith), page) (ground (arith, taken, given, is.free p))

-- When the size is not that of one page, and no run of that many pages is free among those that
-- the search looks at or no byte is asked for, the null pointer is returned and nothing changes.
pub allocate_page_sized-none :
    (m : ℕ → ℕ) (size bytes : ℕ)
    → page_count_of bytes ≢ 1
    → ((s : ℕ) → s + page_count_of bytes ≤ (size + 1) * 8 → FreeRun m (page_count_of bytes) s → ⊥)
      ⊎ (bytes ≡ 0)
    → allocate_page_sized size m bytes ≡ (nullptr, m)
unfolding allocate_page_sized
allocate_page_sized-none m size bytes many (inl never) =
    ground (arith, find_available_address-none m size (page_count_of bytes) never)
allocate_page_sized-none m size bytes many (inr nothing) =
    rw nothing (unfold page_count_of find_available_address in refl)

-- `FreePage` of the page that `AllocatePage()` returned gives the bitmap's pages back.
pub free_page-set_used :
    (m : ℕ → ℕ) (p q : ℕ)
    → IsBytes m
    → array_bit m p ≡ false
    → array_bit (free_page (set_array_bit m p true) (p * page_size)) q ≡ array_bit m q
unfolding free_page
free_page-set_used m p q h free =
    let page : p * page_size / page_size ≡ p = omega arith in
    let m' = set_array_bit m p true in
    rw page (
      ground (
        arith,
        set_array_bit_at m' (p / 8) (p % 8) false,
        array_bit-set_array_bit m' p q false (set_array_bit-IsBytes m p true h),
        array_bit-set_array_bit m p q true h,
      ))
