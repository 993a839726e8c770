-- ===== src/OperatorNew/Small.antt =====
-- Kernel/Core/Memory/NewDelete.cpp: `new` of an object that fits into one page with its header.
use objective_hail_os.Prelude.{ℕ, ◌+◌, ◌*◌, ◌≤◌, ◌<◌, ◌≡◌, ◌^◌, false, true, arith, refl}
use objective_hail_os.Prelude.Words.{u64}
use objective_hail_os.PageBitmap.{page_size}
use objective_hail_os.Bit.{array_bit, set_array_bit}
use objective_hail_os.PageAllocator.{nullptr, page_count_of, allocate_page_sized}
use objective_hail_os.PageAllocator.Single.{AllUsed, allocate_page-lowest, allocate_page-full}
use objective_hail_os.OperatorNew.{
  HeapState, returned, panic, header_of, header_size, recorded_pages, write_header, operator_new,
}

module _ (bytes : ℕ) (one_page : bytes + header_size ≤ page_size) where
  small_page_count : page_count_of (u64 (bytes + header_size)) ≡ 1
  unfolding page_count_of
  small_page_count = ground arith

  -- In the lowest free page.
  pub operator_new-small :
      (size p : ℕ) (h : HeapState)
      → size ≤ 2 ^ 32
      → 0 < p
      → p < size * 8
      → array_bit h.bitmap p ≡ false
      → AllUsed h.bitmap 0 p
      → operator_new size h bytes
        ≡ returned (p * page_size) (record {
          bitmap = set_array_bit h.bitmap p true;
          memory =
              write_header h.memory
                (header_of (p * page_size))
                (recorded_pages (u64 (bytes + header_size)));
        })
  unfolding operator_new allocate_page_sized
  operator_new-small size p h small pos lt free used =
      let found = allocate_page-lowest h.bitmap size p small lt free used in
      ground (arith, small_page_count, found)

  -- With every page in use there is no object.
  pub operator_new-full :
      (size : ℕ) (h : HeapState)
      → AllUsed h.bitmap 0 (size * 8)
      → (operator_new size h bytes ≡ panic)
        × (allocate_page_sized size h.bitmap (u64 (bytes + header_size)) ≡ (nullptr, h.bitmap))
  unfolding operator_new allocate_page_sized
  operator_new-full size h used =
      let none_free = allocate_page-full h.bitmap size used in
      (rw (small_page_count, none_free) refl, rw (small_page_count, none_free) refl)
