-- ===== src/PageBitmap/Parse.antt =====
-- Kernel/Core/Memory/PhysicalMemoryBitmap.cpp: the pages that `ParseMemoryInfo` makes free.
use objective_hail_os.Prelude.{
  ℕ, zero, suc, ◌+◌, ◌-◌, ◌*◌, ◌/◌, ◌%◌, ◌^◌, ◌≤◌, ◌<◌, ◌≡◌, refl, ◌∙◌, Bool, true, false, not,
  ◌&&◌, ◌||◌, arith, ltb, leb, if◌then◌else◌, IsBytes,
}
use objective_hail_os.Prelude.Words.{u64}
use objective_hail_os.Bit.{array_bit}
use objective_hail_os.Bit.Byte.{bit-ones}
use objective_hail_os.Bit.Range.{
  in_range, array_bit-set_array_bit, array_bit-set_bit_range, set_bit_at-IsBytes,
  set_bit_range-IsBytes, set_array_bit_at,
}
use objective_hail_os.MemoryUtility.{fill_memory}
use objective_hail_os.MemoryUtility.Loops.{fill_memory_at}
use objective_hail_os.PageBitmap.{
  page_size, MemoryRegion, MemoryInfo, mark_pages, mark_region, parse_region, parse_loop,
  parse_memory_info, align,
}
use objective_hail_os.PageBitmap.Align.{align-page_size}

-- Page `p` lies whole in the region.
abbrev pub covers : MemoryRegion → ℕ → Bool
covers r p = leb r.base (p * page_size) && leb (p * page_size + page_size) (r.base + r.length)

-- The region starts in page 0.
abbrev pub starts_low : MemoryRegion → Bool
starts_low r = ltb r.base page_size

-- The region frees page `p`: it covers the page and does not start in page 0.
unfoldable pub frees : MemoryRegion → ℕ → Bool
frees r p = not (starts_low r) && covers r p

-- The same of some region from `i` on, with `left` regions left.
unfoldable pub frees_any : ℕ → (ℕ → MemoryRegion) → ℕ → ℕ → Bool
frees_any zero regions i p = false
frees_any (suc left) regions i p = frees (regions i) p || frees_any left regions (i + 1) p

-- The bitmap has a bit for each page of the region.
abbrev pub Fits : ℕ → MemoryRegion → Type 0
Fits size r = r.base + r.length ≤ size * 8 * page_size

module _ (size p : ℕ) (small : size < 2 ^ 32) where
  mark_pages_at :
      (m : ℕ → ℕ) (q n : ℕ)
      → IsBytes m
      → q + n ≤ size * 8
      → array_bit (mark_pages m size (q * page_size) n) p
        ≡ (if in_range q n p then false else array_bit m p)
  unfolding mark_pages
  mark_pages_at m q n h fits =
      let page : q * page_size / page_size ≡ q = omega arith in
      rw page (
        ground (
          arith,
          set_array_bit_at m (q / 8) (q % 8) false,
          array_bit-set_array_bit m q p false h,
          array_bit-set_bit_range m size (q / 8) (q % 8) n false small (omega arith) (omega arith)
              (omega arith) p h,
        ))

  mark_region_at :
      (m : ℕ → ℕ) (r : MemoryRegion)
      → IsBytes m
      → Fits size r
      → page_size ≤ r.base
      → array_bit (mark_region m size r) p ≡ (if frees r p then false else array_bit m p)
  unfolding mark_region frees
  mark_region_at m r h fits high =
      let q = (r.base + 4095) / 4096 in
      rw (align-page_size r.base (omega arith))
        (ground (arith, mark_pages_at m q ((r.base + r.length - q * 4096) / 4096) h))

  parse_region_at :
      (m : ℕ → ℕ) (r : MemoryRegion)
      → IsBytes m
      → Fits size r
      → array_bit (parse_region m size r) p ≡ (if frees r p then false else array_bit m p)
  unfolding parse_region frees
  parse_region_at m r h fits = ground (arith, mark_region_at m r h fits)

mark_pages-IsBytes :
    (m : ℕ → ℕ) (size aligned_base n : ℕ) → IsBytes m → IsBytes (mark_pages m size aligned_base n)
unfolding mark_pages
mark_pages-IsBytes m size a n h i = ground (
  arith,
  h i,
  set_bit_at-IsBytes m (a / 4096 / 8) (a / 4096 % 8) false h i,
  set_bit_range-IsBytes m size (a / 4096 / 8) (a / 4096 % 8) n false h i,
)

mark_region-IsBytes :
    (m : ℕ → ℕ) (size : ℕ) (r : MemoryRegion) → IsBytes m → IsBytes (mark_region m size r)
unfolding mark_region
mark_region-IsBytes m size r h i =
    let base = align r.base page_size in
    ground (
      arith,
      h i,
      mark_pages-IsBytes m size base (u64 (u64 (r.base + r.length) + 2 ^ 64 - base) / 4096) h i,
    )

parse_region-IsBytes :
    (m : ℕ → ℕ) (size : ℕ) (r : MemoryRegion) → IsBytes m → IsBytes (parse_region m size r)
unfolding parse_region
parse_region-IsBytes m size r h i = ground (
  arith,
  h i,
  mark_region-IsBytes m size r h i,
  mark_region-IsBytes m size (record { base = 4096; length = 0 }) h i,
)

module _ (size p : ℕ) (small : size < 2 ^ 32) (regions : ℕ → MemoryRegion) where
  parse_loop_at :
      (n : ℕ) (m : ℕ → ℕ) (i : ℕ)
      → IsBytes m
      → ((j : ℕ) → i ≤ j → j < i + n → Fits size (regions j))
      → array_bit (parse_loop n m size regions i) p
        ≡ (if frees_any n regions i p then false else array_bit m p)
  unfolding parse_loop frees_any
  parse_loop_at zero m i h fits = refl
  parse_loop_at (suc n) m i h fits =
      parse_loop_at n (parse_region m size (regions i)) (i + 1)
        (parse_region-IsBytes m size (regions i) h) (λ j lo hi. fits j (omega arith) (omega arith))
      ∙ ground
          (arith, parse_region_at size p small m (regions i) h (fits i (omega arith) (omega arith)))

filled_bit : (m : ℕ → ℕ) (size p : ℕ) → p < size * 8 → array_bit (fill_memory m 0 size 255) p ≡ true
unfolding array_bit
filled_bit m size p h = rw (fill_memory_at m 0 size 255 (p / 8)) (ground (arith, bit-ones (p % 8)))

filled-IsBytes : (m : ℕ → ℕ) (size : ℕ) → IsBytes m → IsBytes (fill_memory m 0 size 255)
filled-IsBytes m size h i = rw (fill_memory_at m 0 size 255 i) (ground (arith, h i))

-- After a first `ParseMemoryInfo`, with every region inside the memory that a bitmap of fewer than
-- 2 ^ 32 bytes describes, a page is free exactly when it lies whole in some region of the list that does
-- not start in page 0. A region that starts in page 0 frees nothing, also where it goes on behind that
-- page. What the bitmap held before is forgotten.
pub parse_memory_info_at :
    (m : ℕ → ℕ) (size p : ℕ) (info : MemoryInfo)
    → size < 2 ^ 32
    → p < size * 8
    → IsBytes m
    → ((j : ℕ) → j < info.free_region_count → Fits size (info.free_memory j))
    → array_bit (parse_memory_info false m size info) p
      ≡ not (frees_any info.free_region_count info.free_memory 0 p)
unfolding parse_memory_info
parse_memory_info_at m size p info small h bytes fits =
    parse_loop_at size p small info.free_memory info.free_region_count (fill_memory m 0 size 255) 0
      (filled-IsBytes m size bytes) (λ j lo hi. fits j (omega arith))
    ∙ ground (arith, filled_bit m size p h)

parse_loop-IsBytes :
    (n : ℕ) (m : ℕ → ℕ) (size : ℕ) (regions : ℕ → MemoryRegion) (i : ℕ)
    → IsBytes m
    → IsBytes (parse_loop n m size regions i)
unfolding parse_loop
parse_loop-IsBytes zero m size regions i h = h
parse_loop-IsBytes (suc n) m size regions i h =
    parse_loop-IsBytes n (parse_region m size (regions i)) size regions (i + 1)
      (parse_region-IsBytes m size (regions i) h)

pub parse_memory_info-IsBytes :
    (m : ℕ → ℕ) (size : ℕ) (info : MemoryInfo)
    → IsBytes m
    → IsBytes (parse_memory_info false m size info)
unfolding parse_memory_info
parse_memory_info-IsBytes m size info h =
    parse_loop-IsBytes info.free_region_count (fill_memory m 0 size 255) size info.free_memory 0
      (filled-IsBytes m size h)

-- A region that starts in page 0 changes nothing in the bitmap, however long it is.
pub low_region_lost :
    (m : ℕ → ℕ) (size : ℕ) (r : MemoryRegion) → r.base < page_size → parse_region m size r ≡ m
unfolding parse_region mark_region
low_region_lost m size r low = ground arith
