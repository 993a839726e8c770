-- ===== src/PageBitmap.antt =====
-- Kernel/Core/Memory/PhysicalMemoryBitmap.{hpp,cpp} and Kernel/Include/Core/Memory/MemoryInfo.hpp:
-- the bitmap of physical pages, a bit for each page of 4096 bytes, and its first filling from the
-- boot loader's list of free regions. The bitmap is a function from byte indices, `size` is its
-- length in bytes; what stands behind it in memory are the bytes at `size` and above.
pub mod Align
pub mod Order
pub mod Parse
use objective_hail_os.Prelude.{
  ℕ, zero, suc, ◌+◌, ◌-◌, ◌*◌, ◌/◌, ◌%◌, ◌^◌, bit_and, Bool, true, false, not, Option, none, some,
  ltb, leb, ◌==◌, if◌then◌else◌,
}
use objective_hail_os.Prelude.Words.{u64}
use objective_hail_os.Bit.{set_bit_at, set_bit_range, char_bit}
use objective_hail_os.MemoryUtility.{fill_memory}

abbrev pub page_size : ℕ
page_size = 4096

abbrev pub max_memory_size_bytes : ℕ
max_memory_size_bytes = 68719476736

abbrev pub max_phys_page_bitmap_index : ℕ
max_phys_page_bitmap_index = max_memory_size_bytes / page_size / char_bit

abbrev pub unused_bit : Bool
unused_bit = false

abbrev pub used_bit : Bool
used_bit = not unused_bit

abbrev pub address_to_page_bitmap_array_index : ℕ → ℕ
address_to_page_bitmap_array_index addr = addr / page_size / char_bit

abbrev pub address_to_page_bitmap_bit_offset : ℕ → ℕ
address_to_page_bitmap_bit_offset addr = addr / page_size % char_bit

abbrev pub bitmap_index_bit_to_page_address : ℕ → ℕ → ℕ
bitmap_index_bit_to_page_address index bit =
    u64 (u64 (index * char_bit * page_size) + bit * page_size)

pub record MemoryRegion : Type 0 where
  pub base : ℕ
  pub length : ℕ

pub record MemoryInfo : Type 0 where
  pub free_memory : ℕ → MemoryRegion
  pub free_region_count : ℕ
  pub reserved_memory : ℕ → MemoryRegion
  pub reserved_region_count : ℕ

-- `Align`. `~(a - 1)` is `2 ^ 64 - 1 - (a - 1)`.
unfoldable pub align : ℕ → ℕ → ℕ
align addr a =
    if leb a 1
    then addr
    else (if bit_and a (a - 1) == 0
        then bit_and (u64 (addr + (a - 1))) (2 ^ 64 - 1 - (a - 1))
        else let r = addr % a in if r == 0 then addr else u64 (addr + (a - r)))

-- The guard against page 0; `none` is `continue`.
pub clip_region : MemoryRegion → Option MemoryRegion
clip_region r =
    if ltb r.base page_size
    then (if ltb (u64 (r.base + r.length)) page_size
        then none
        else some (record { base = page_size; length = page_size - page_size }))
    else some r

-- The end of the loop body: the pages from `aligned_base` on become free.
pub mark_pages : (ℕ → ℕ) → ℕ → ℕ → ℕ → ℕ → ℕ
mark_pages m size aligned_base page_count =
    let idx = address_to_page_bitmap_array_index aligned_base in
    let b = address_to_page_bitmap_bit_offset aligned_base in
    if page_count == 0
    then m
    else (if page_count == 1
        then set_bit_at m idx b unused_bit
        else set_bit_range m size idx b page_count unused_bit)

-- The rest of the loop body: the whole pages of the region become free.
pub mark_region : (ℕ → ℕ) → ℕ → MemoryRegion → ℕ → ℕ
mark_region m size r =
    if ltb r.length page_size
    then m
    else (let aligned_base = align r.base page_size in
        let bytes = u64 (u64 (r.base + r.length) + 2 ^ 64 - aligned_base) in
        if ltb bytes page_size then m else mark_pages m size aligned_base (bytes / page_size))

-- The body of the loop of `ParseMemoryInfo`.
unfoldable pub parse_region : (ℕ → ℕ) → ℕ → MemoryRegion → ℕ → ℕ
unfolding clip_region mark_pages mark_region
parse_region m size r = elim (clip_region r) [ none ↦ m | some r' ↦ mark_region m size r' ]

-- The loop of `ParseMemoryInfo` at region `i`, with `left` regions left.
parse_loop : ℕ → (ℕ → ℕ) → ℕ → (ℕ → MemoryRegion) → ℕ → ℕ → ℕ
parse_loop zero m size regions i = m
parse_loop (suc left) m size regions i =
    parse_loop left (parse_region m size (regions i)) size regions (i + 1)

-- `ParseMemoryInfo`. `called` is the value of its static variable, which nothing ever sets.
unfoldable pub parse_memory_info : Bool → (ℕ → ℕ) → ℕ → MemoryInfo → ℕ → ℕ
unfolding parse_loop
parse_memory_info called m size info =
    if called
    then m
    else parse_loop info.free_region_count (fill_memory m 0 size 255) size info.free_memory 0
