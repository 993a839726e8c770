-- ===== src/OperatorNew/Delete.antt =====
-- Kernel/Core/Memory/NewDelete.cpp: what `delete` does to the pages of an object that `new` made.
use objective_hail_os.Prelude.{
  ℕ, ◌+◌, ◌-◌, ◌*◌, ◌/◌, ◌%◌, ◌^◌, ◌≤◌, ◌<◌, ◌≡◌, true, false, arith, ◌==◌, if◌then◌else◌, IsBytes,
}
use objective_hail_os.Prelude.Words.{u64}
use objective_hail_os.Bit.{array_bit, set_bit_range}
use objective_hail_os.Bit.Range.{in_range, array_bit-set_bit_range}
use objective_hail_os.PageBitmap.{page_size}
use objective_hail_os.PageAllocator.{page_count_of, allocate_page_sized, free_page_sized}
use objective_hail_os.PageAllocator.Search.{FirstRun}
use objective_hail_os.PageAllocator.Any.{Allocated, allocate_page_sized-Allocated}
use objective_hail_os.OperatorNew.{
  HeapState, returned, header_of, store32, load32, write_header, recorded_pages, operator_new,
  operator_delete,
}

pub load32-write_header :
    (m : ℕ → ℕ) (a n : ℕ) → n < 2 ^ 32 → load32 (write_header m a n) (a + 4) ≡ n
unfolding load32 store32 write_header
load32-write_header m a n h = ground arith

-- The number of pages that `new` asks for.
abbrev pub pages_for : ℕ → ℕ
pages_for bytes = page_count_of (u64 (bytes + 8))

recorded_pages_lem : (x : ℕ) → page_count_of x ≤ page_size → recorded_pages x ≡ page_count_of x
unfolding recorded_pages page_count_of
recorded_pages_lem x h = ground arith

page_count_of_pages : (n : ℕ) → 0 < n → n ≤ page_size → page_count_of n ≡ 1
unfolding page_count_of
page_count_of_pages n pos le = ground arith

module _ (size bytes s : ℕ) (h : HeapState) (small : size < 2 ^ 32) (not_null : 0 < s)
    (is : FirstRun h.bitmap (pages_for bytes) s) (proper : IsBytes h.bitmap)
    (fits : s + pages_for bytes ≤ size * 8) (pos : 0 < pages_for bytes) where
  outcome :
      Allocated h.bitmap (pages_for bytes) s (allocate_page_sized size h.bitmap (u64 (bytes + 8)))
  outcome =
      allocate_page_sized-Allocated h.bitmap size (u64 (bytes + 8)) s small not_null is proper fits
        pos

  -- The state after the allocation.
  after : HeapState
  after = record {
    bitmap = (allocate_page_sized size h.bitmap (u64 (bytes + 8))).1;
    memory = write_header h.memory (header_of (s * page_size)) (recorded_pages (u64 (bytes + 8)));
  }

  new-returned : operator_new size h bytes ≡ returned (s * page_size) after
  unfolding operator_new after
  new-returned = rw outcome.pointer (ground arith)

  loaded :
      pages_for bytes ≤ page_size
      → load32 after.memory (header_of (s * page_size) + 4) ≡ pages_for bytes
  unfolding after
  loaded few =
      rw (recorded_pages_lem (u64 (bytes + 8)) few)
        (load32-write_header h.memory (header_of (s * page_size)) (pages_for bytes) (omega arith))

  freed :
      pages_for bytes ≤ page_size
      → (operator_delete size after (s * page_size)).bitmap
        ≡ set_bit_range after.bitmap size ((s - 1) / 8) ((s - 1) % 8) 1 false
  unfolding operator_delete free_page_sized
  freed few =
      let page : header_of (s * page_size) / page_size ≡ s - 1 = omega arith in
      rw (loaded few, page, page_count_of_pages (pages_for bytes) pos few)

  deleted :
      pages_for bytes ≤ page_size
      → (p : ℕ)
      → array_bit (operator_delete size after (s * page_size)).bitmap p ≡ (
          if p == s - 1
          then false
          else (if in_range s (pages_for bytes) p then true else array_bit h.bitmap p))
  unfolding after
  deleted few p =
      let cleared =
        array_bit-set_bit_range after.bitmap size ((s - 1) / 8) ((s - 1) % 8) 1 false small
          (omega arith) (omega arith) (omega arith) p outcome.bytes (omega arith) in
      rw (freed few) (ground (arith, cleared, outcome.bits p))

  -- When the pages for an object, at most 4096 of them and at least one, are found as the lowest
  -- free run, not at page 0 and inside the bitmap (of fewer than 2 ^ 32 bytes), `new` returns its
  -- address, and `delete` of that address leaves all those pages in use and frees the page in
  -- front of them.
  pub delete-new :
      pages_for bytes ≤ page_size
      → (h' : HeapState) × (operator_new size h bytes ≡ returned (s * page_size) h')
        × ((p : ℕ)
            → array_bit (operator_delete size h' (s * page_size)).bitmap p ≡ (
                if p == s - 1
                then false
                else (if in_range s (pages_for bytes) p then true else array_bit h.bitmap p)))
  delete-new few = (after, new-returned, deleted few)
