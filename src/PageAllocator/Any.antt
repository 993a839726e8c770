-- ===== src/PageAllocator/Any.antt =====
-- Kernel/Core/Memory/EarlyPageAllocator.cpp: `AllocatePage(minSize)` for any number of pages, one
-- page included.
use objective_hail_os.Prelude.{
  ℕ, ◌+◌, ◌*◌, ◌/◌, ◌%◌, ◌^◌, ◌≤◌, ◌<◌, ◌≡◌, refl, inl, inr, true, false, arith, if◌then◌else◌,
  IsBytes, Bool-cases, dec_lt,
}
use objective_hail_os.Bit.{array_bit}
use objective_hail_os.Bit.Range.{
  in_range, array_bit-set_array_bit, set_array_bit-IsBytes, set_bit_range-IsBytes,
}
use objective_hail_os.PageBitmap.{page_size}
use objective_hail_os.PageAllocator.{allocate_page, page_count_of, allocate_page_sized}
use objective_hail_os.PageAllocator.Single.{AllUsed, allocate_page-lowest}
use objective_hail_os.PageAllocator.Search.{FirstRun}
use objective_hail_os.PageAllocator.Sized.{sized_pointer, allocate_page_sized-first}

used_below : (m : ℕ → ℕ) (s : ℕ) → FirstRun m 1 s → AllUsed m 0 s
used_below m s is p lo hi = elim (Bool-cases (array_bit m p)) [
  | inl used ↦ used
  | inr free ↦ absurd (is.first p hi (λ q low high. let e : q ≡ p = omega arith in rw e free))
]

-- The outcome of an allocation of `n` pages from page `s` on.
pub record Allocated (m : ℕ → ℕ) (n s : ℕ) (result : ℕ × (ℕ → ℕ)) : Type 0 where
  pub pointer : result.0 ≡ s * page_size
  pub bits : (p : ℕ) → array_bit result.1 p ≡ (if in_range s n p then true else array_bit m p)
  pub bytes : IsBytes result.1

module _ (m : ℕ → ℕ) (size bytes s : ℕ) (small : size < 2 ^ 32) (not_null : 0 < s)
    (is : FirstRun m (page_count_of bytes) s) (h : IsBytes m)
    (fits : s + page_count_of bytes ≤ size * 8) where
  one_page : page_count_of bytes ≡ 1 → Allocated m 1 s (allocate_page size m)
  one_page one =
      let free : array_bit m s ≡ false = is.free s (omega arith) (omega arith) in
      let first : FirstRun m 1 s = rw one at is in
      rw (allocate_page-lowest m size s (omega arith) (omega arith) free (used_below m s first))
        (record {
          pointer = refl;
          bits = λ p. ground (arith, array_bit-set_array_bit m s p true h);
          bytes = set_array_bit-IsBytes m s true h;
        })

  sized_one : page_count_of bytes ≡ 1 → allocate_page_sized size m bytes ≡ allocate_page size m
  unfolding allocate_page_sized
  sized_one one = ground arith

  -- When the lowest run of free pages that is long enough does not start at page 0 and ends inside
  -- a bitmap of fewer than 2 ^ 32 bytes, an allocation of at least one page returns the address of
  -- that run and marks exactly its pages used.
  pub allocate_page_sized-Allocated :
      0 < page_count_of bytes
      → Allocated m (page_count_of bytes) s (allocate_page_sized size m bytes)
  allocate_page_sized-Allocated pos = elim (dec_lt 1 (page_count_of bytes)) [
    | yes many ↦ record {
      pointer = (allocate_page_sized-first m size bytes s small many not_null is 0 h fits).0;
      bits = λ p. (allocate_page_sized-first m size bytes s small many not_null is p h fits).1;
      bytes =
          rw (sized_pointer m size bytes s small many not_null is (omega arith))
            (set_bit_range-IsBytes m size (s / 8) (s % 8) (page_count_of bytes) true h);
    }
    | no one ↦ let e : page_count_of bytes ≡ 1 = omega arith in rw (sized_one e, e) (one_page e)
  ]
