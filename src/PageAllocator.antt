-- ===== src/PageAllocator.antt =====
-- Kernel/Core/Memory/EarlyPageAllocator.cpp: pages handed out from the bitmap of physical pages. A
-- pointer is an address and 0 is the null pointer. The bitmap is passed in and out; `size` is its
-- length in bytes, MAX_PHYS_PAGE_BITMAP_INDEX in the kernel.
pub mod Single
pub mod Search
pub mod Sized
pub mod Any
pub mod Available
pub mod Blocks
use objective_hail_os.Prelude.{
  ℕ, zero, suc, ◌+◌, ◌-◌, ◌*◌, ◌/◌, ◌%◌, Bool, true, false, not, Option, none, some, ltb, ◌==◌,
  if◌then◌else◌,
}
use objective_hail_os.Prelude.Words.{u64}
use objective_hail_os.Bit.{bit_at, set_bit_at, set_bit_range, char_bit}
use objective_hail_os.PageBitmap.{
  page_size, unused_bit, used_bit, address_to_page_bitmap_array_index,
  address_to_page_bitmap_bit_offset, bitmap_index_bit_to_page_address,
}

abbrev pub nullptr : ℕ
nullptr = 0

-- The loop of `FindAvailableAddress` at bit `i` with a run of `run` free pages behind it. A set bit
-- is `!= UNUSED_BIT`.
pub find_loop : ℕ → (ℕ → ℕ) → ℕ → ℕ → ℕ → ℕ
find_loop zero m page_count i run = nullptr
find_loop (suc left) m page_count i run =
    let skip = find_loop left m page_count (i + 1) 0 in
    let more = find_loop left m page_count (i + 1) (run + 1) in
    if bit_at m (i / char_bit) (i % char_bit)
    then skip
    else (if run + 1 == page_count
        then (let start = i - (page_count - 1) in
            bitmap_index_bit_to_page_address (start / char_bit) (start % char_bit))
        else more)

-- `FindAvailableAddress`. The bound is the source's: one byte more than the bitmap has.
unfoldable pub find_available_address : ℕ → (ℕ → ℕ) → ℕ → ℕ
unfolding find_loop
find_available_address size m page_count =
    if page_count == 0
    then nullptr
    else (let total = (size + 1) * char_bit in
        if ltb total page_count then nullptr else find_loop total m page_count 0 0)

-- The inner loop of `AllocatePage()` at byte `i` and bit `j`.
pub allocate_bits : ℕ → (ℕ → ℕ) → ℕ → ℕ → Option (ℕ × (ℕ → ℕ))
allocate_bits zero m i j = none
allocate_bits (suc left) m i j =
    let rest = allocate_bits left m i (j + 1) in
    if bit_at m i j
    then rest
    else some (bitmap_index_bit_to_page_address i j, set_bit_at m i j used_bit)

-- The outer loop of `AllocatePage()` at byte `i`.
pub allocate_bytes : ℕ → (ℕ → ℕ) → ℕ → ℕ × (ℕ → ℕ)
allocate_bytes zero m i = (nullptr, m)
allocate_bytes (suc left) m i = elim (allocate_bits char_bit m i 0) [
  | none ↦ allocate_bytes left m (i + 1)
  | some found ↦ found
]

-- `AllocatePage()`.
unfoldable pub allocate_page : ℕ → (ℕ → ℕ) → ℕ × (ℕ → ℕ)
unfolding allocate_bytes allocate_bits
allocate_page size m = allocate_bytes size m 0

-- The number of pages for a number of bytes, as both sized functions compute it.
unfoldable pub page_count_of : ℕ → ℕ
page_count_of bytes =
    if not (bytes % page_size == 0) then bytes / page_size + 1 else bytes / page_size

-- `AllocatePage(minSize)`.
unfoldable pub allocate_page_sized : ℕ → (ℕ → ℕ) → ℕ → ℕ × (ℕ → ℕ)
allocate_page_sized size m min_size =
    let page_count = page_count_of min_size in
    if page_count == 1
    then allocate_page size m
    else (let allocated = find_available_address size m page_count in
        if allocated == nullptr then (nullptr, m) else (
          allocated,
          set_bit_range m size (address_to_page_bitmap_array_index allocated)
              (address_to_page_bitmap_bit_offset allocated) page_count used_bit,
        ))

-- `FreePage(ptr)`.
unfoldable pub free_page : (ℕ → ℕ) → ℕ → ℕ → ℕ
free_page m ptr =
    set_bit_at m (address_to_page_bitmap_array_index ptr) (address_to_page_bitmap_bit_offset ptr)
      unused_bit

-- `FreePage(ptr, allocatedSize)`.
unfoldable pub free_page_sized : ℕ → (ℕ → ℕ) → ℕ → ℕ → ℕ → ℕ
free_page_sized size m ptr allocated_size =
    set_bit_range m size (address_to_page_bitmap_array_index ptr)
      (address_to_page_bitmap_bit_offset ptr) (page_count_of allocated_size) unused_bit

-- The inner loop of `GetAvailableSize`.
pub available_bits : ℕ → (ℕ → ℕ) → ℕ → ℕ → ℕ → ℕ
available_bits zero m i j total = total
available_bits (suc left) m i j total =
    available_bits left m i (j + 1) (if bit_at m i j then total else u64 (total + page_size))

-- The outer loop of `GetAvailableSize`.
pub available_bytes : ℕ → (ℕ → ℕ) → ℕ → ℕ → ℕ
available_bytes zero m i total = total
available_bytes (suc left) m i total =
    available_bytes left m (i + 1) (available_bits char_bit m i 0 total)

-- `GetAvailableSize`.
unfoldable pub get_available_size : ℕ → (ℕ → ℕ) → ℕ
unfolding available_bytes available_bits
get_available_size size m = available_bytes size m 0 0
