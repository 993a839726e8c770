-- ===== src/Startup/Memory.antt =====
-- InitMemory of Kernel/Core/KernelMain.cpp with InitEarlyPageAllocator of
-- Kernel/Core/Memory/EarlyPageAllocator.cpp: the bitmap, the allocator and the page tables.
use objective_hail_os.Prelude.{
  ℕ, ◌*◌, ◌^◌, ◌≤◌, ◌<◌, ◌≡◌, Bool, true, false, not, Option, none, some, if◌then◌else◌, IsBytes,
  Bool-cases, inl, inr,
}
use mathlib.Core.Option.{some-injective}
use objective_hail_os.Bit.{array_bit}
use objective_hail_os.PageBitmap.{MemoryInfo, parse_memory_info}
use objective_hail_os.PageBitmap.Parse.{
  frees_any, Fits, parse_memory_info_at, parse_memory_info-IsBytes,
}
use objective_hail_os.Paging.{
  Build, page_2m, page_1g, align_up, calc_max_phys, gib_count_of, build_identity_map_2m,
}
use objective_hail_os.Paging.Entry.{translate}
use objective_hail_os.Paging.Translate.{identity_at}
use objective_hail_os.Paging.Early.{early_allocator, early_identity_map}

-- `InitEarlyPageAllocator`: its static flag and the bitmap.
unfoldable pub init_early_page_allocator : (size : ℕ) → Bool × (ℕ → ℕ) → MemoryInfo → Bool × (ℕ → ℕ)
init_early_page_allocator size s info =
    (true, if not s.0 then parse_memory_info false s.1 size info else s.1)

-- The bitmap when the tables are built.
unfoldable pub init_bitmap : (size : ℕ) → (ℕ → ℕ) → MemoryInfo → ℕ → ℕ
init_bitmap size bitmap info =
    (init_early_page_allocator size (false, parse_memory_info false bitmap size info) info).1

-- `InitMemory`: what the call of BuildIdentityMap2M leaves, with the value that is loaded into CR3, or
-- `none` for the panic. `cr3` is what the variable held.
unfoldable pub init_memory :
    (size : ℕ)
    → (bitmap : ℕ → ℕ) → (words : ℕ → ℕ) → (cr3 : ℕ) → MemoryInfo
    → Option (Build (ℕ → ℕ))
unfolding init_bitmap
init_memory size bitmap words cr3 info =
    let built =
      build_identity_map_2m (early_allocator size) (some info) cr3 words
        (init_bitmap size bitmap info) in
    if built.ok then some built else none

init_bitmap-IsBytes :
    (size : ℕ) (bitmap : ℕ → ℕ) (info : MemoryInfo)
    → IsBytes bitmap
    → IsBytes (init_bitmap size bitmap info)
unfolding init_bitmap init_early_page_allocator
init_bitmap-IsBytes size bitmap info h =
    parse_memory_info-IsBytes (parse_memory_info false bitmap size info) size info
      (parse_memory_info-IsBytes bitmap size info h)

-- The second call of ParseMemoryInfo leaves the bitmap's bits as the first one made them.
pub init_bitmap_at :
    (size p : ℕ) (bitmap : ℕ → ℕ) (info : MemoryInfo)
    → size < 2 ^ 32
    → p < size * 8
    → IsBytes bitmap
    → ((j : ℕ) → j < info.free_region_count → Fits size (info.free_memory j))
    → array_bit (init_bitmap size bitmap info) p
      ≡ not (frees_any info.free_region_count info.free_memory 0 p)
unfolding init_bitmap init_early_page_allocator
init_bitmap_at size p bitmap info small h bytes fits =
    parse_memory_info_at (parse_memory_info false bitmap size info) size p info small h
      (parse_memory_info-IsBytes bitmap size info bytes) fits

-- When `InitMemory` does not panic, with a bitmap of fewer than 2 ^ 32 bytes and no region that ends
-- above 512 GiB, then under the tables that it loads into CR3 every address below the end of the last
-- GiB that a region reaches into is mapped to itself, cached exactly if its 2 MiB do not start in a
-- reserved region, if it lies below the end of the highest 2 MiB that a region reaches into, and is not
-- mapped if it lies between there and the end of that GiB. The addresses from the end of that GiB on
-- are left out.
pub init_memory-identity :
    (size : ℕ) (bitmap words : ℕ → ℕ) (cr3 : ℕ) (info : MemoryInfo) (built : Build (ℕ → ℕ)) (v : ℕ)
    → size < 2 ^ 32
    → IsBytes bitmap
    → calc_max_phys info ≤ 2 ^ 39
    → init_memory size bitmap words cr3 info ≡ some built
    → v < gib_count_of info * page_1g
    → translate built.words built.cr3 v ≡ identity_at info (align_up (calc_max_phys info) page_2m) v
unfolding init_memory build_identity_map_2m
init_memory-identity size bitmap words cr3 info built v small h fits done below =
    let r =
      build_identity_map_2m (early_allocator size) (some info) cr3 words
        (init_bitmap size bitmap info) in
    elim (Bool-cases r.ok) [
      | inl ok ↦
          let same : r ≡ built = some-injective r built (rw ok at done) in
          rw (← same) (
            early_identity_map size info cr3 words (init_bitmap size bitmap info) small
              (init_bitmap-IsBytes size bitmap info h) fits ok v below)
      | inr failed ↦
          let e : Path (Option (Build (ℕ → ℕ))) none (some built) = rw failed at done in cc
    ]
