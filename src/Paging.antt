-- ===== src/Paging.antt =====
-- Kernel/Arch/x86_64/Paging/Paging.cpp: the tables that map memory to itself in pages of 2 MiB.
-- Physical memory is 64-bit words at their addresses. The page allocator is a parameter: the code sees
-- it through the interface IPageAllocator.
pub mod Entry
pub mod Directory
pub mod IdentityMap
pub mod Translate
pub mod Call
pub mod Outcome
pub mod Early
use objective_hail_os.Prelude.{
  ℕ, zero, suc, ◌+◌, ◌-◌, ◌*◌, ◌/◌, ◌%◌, ◌^◌, bit_and, bit_or, Bool, true, false, ◌&&◌, Option,
  none, some, ltb, leb, ◌==◌, if◌then◌else◌, update,
}
use objective_hail_os.Prelude.Words.{u64}
use objective_hail_os.MemoryUtility.{fill_memory}
use objective_hail_os.PageBitmap.{MemoryRegion, MemoryInfo}

abbrev pub pg_p : ℕ
pg_p = 2 ^ 0

abbrev pub pg_rw : ℕ
pg_rw = 2 ^ 1

abbrev pub pg_ps : ℕ
pg_ps = 2 ^ 7

abbrev pub pg_pwt : ℕ
pg_pwt = 2 ^ 3

abbrev pub pg_pcd : ℕ
pg_pcd = 2 ^ 4

abbrev pub pg_addr_mask : ℕ
pg_addr_mask = 0x000FFFFFFFFFF000

abbrev pub page_4k : ℕ
page_4k = 0x1000

abbrev pub page_2m : ℕ
page_2m = 0x200000

abbrev pub page_1g : ℕ
page_1g = 0x40000000

abbrev pub entries : ℕ
entries = 512

-- `AlignUp`.
unfoldable pub align_up : (addr align : ℕ) → ℕ
align_up addr align = bit_and (u64 (addr + align - 1)) (2 ^ 64 - 1 - (align - 1))

-- A loop of `CalcMaxPhys` at region `i`.
unfoldable pub max_loop : ℕ → (ℕ → MemoryRegion) → ℕ → ℕ → ℕ
max_loop zero regions i max = max
max_loop (suc left) regions i max =
    let end = u64 ((regions i).base + (regions i).length) in
    max_loop left regions (i + 1) (if ltb max end then end else max)

-- `CalcMaxPhys`.
unfoldable pub calc_max_phys : MemoryInfo → ℕ
calc_max_phys info =
    let max = max_loop info.free_region_count info.free_memory 0 0 in
    max_loop info.reserved_region_count info.reserved_memory 0 max

-- The loop of `IsMMIORegion` at region `i`.
unfoldable pub mmio_loop : ℕ → (ℕ → MemoryRegion) → ℕ → ℕ → Bool
mmio_loop zero regions phys i = false
mmio_loop (suc left) regions phys i =
    let base = (regions i).base in
    let end = u64 (base + (regions i).length) in
    let rest = mmio_loop left regions phys (i + 1) in
    if leb base phys && ltb phys end then true else rest

-- `IsMMIORegion`.
unfoldable pub is_mmio_region : ℕ → MemoryInfo → Bool
is_mmio_region phys info = mmio_loop info.reserved_region_count info.reserved_memory phys 0

-- The entry that points to a table at `page`.
unfoldable pub table_entry : ℕ → ℕ
table_entry page = bit_or (bit_or (bit_and page pg_addr_mask) pg_p) pg_rw

-- The entry that maps the 2 MiB at `phys`.
unfoldable pub page_entry : MemoryInfo → ℕ → ℕ
page_entry info phys =
    let flags = bit_or (bit_or pg_p pg_rw) pg_ps in
    let flags' = if is_mmio_region phys info then bit_or flags (bit_or pg_pcd pg_pwt) else flags in
    bit_or (bit_and phys 0xFFFFFFFFFFE00000) flags'

-- The inner loop of `BuildIdentityMap2M` at entry `i` of the directory `pd`.
unfoldable pub map_loop : ℕ → (words : ℕ → ℕ) → (info : MemoryInfo) → (pd base lim i : ℕ) → ℕ → ℕ
map_loop zero words info pd base lim i = words
map_loop (suc left) words info pd base lim i =
    let phys = u64 (base + u64 (i * page_2m)) in
    let rest =
      map_loop left (update words (pd + 8 * i) (page_entry info phys)) info pd base lim (i + 1) in
    if leb lim phys then words else rest

-- `IPageAllocator`, as far as the code calls it.
pub record Allocator : Type 1 where
  pub State : Type 0
  pub allocate : State → ℕ × State

module _ (allocator : Allocator) (info : MemoryInfo) where
  -- The outer loop of `BuildIdentityMap2M` at `g`: whether it went through, the words and the
  -- allocator.
  unfoldable pub gib_loop :
      ℕ → (ℕ → ℕ) → allocator.State → (pdpt lim g : ℕ) → Bool × (ℕ → ℕ) × allocator.State
  gib_loop zero words st pdpt lim g = (true, words, st)
  gib_loop (suc left) words st pdpt lim g =
      let (pd, st') = allocator.allocate st in
      let cleared = fill_memory words pd page_4k 0 in
      let linked = update cleared (pdpt + 8 * g) (table_entry pd) in
      let mapped = map_loop entries linked info pd (u64 (g * page_1g)) lim 0 in
      let rest = gib_loop left mapped st' pdpt lim (g + 1) in
      if pd == 0 then (false, words, st') else rest

-- What a call returns: the result, `outCR3Phys`, the words and the allocator.
pub record Build (S : Type 0) : Type 0 where
  pub ok : Bool
  pub cr3 : ℕ
  pub words : ℕ → ℕ
  pub state : S

unfoldable pub gib_count_of : MemoryInfo → ℕ
gib_count_of info = align_up (calc_max_phys info) page_1g / page_1g

-- `BuildIdentityMap2M`; `none` is the null pointer.
unfoldable pub build_identity_map_2m :
    (allocator : Allocator)
    → Option MemoryInfo
    → (cr3 : ℕ) → (ℕ → ℕ)
    → allocator.State
    → Build allocator.State
build_identity_map_2m allocator none cr3 words st = record {
  ok = false;
  cr3 = cr3;
  words = words;
  state = st;
}
build_identity_map_2m allocator (some info) cr3 words st =
    let lim = align_up (calc_max_phys info) page_2m in
    let gib_count = gib_count_of info in
    let (pml4, st1) = allocator.allocate st in
    let (pdpt, st2) = allocator.allocate st1 in
    let linked = update words (pml4 + 8 * 0) (table_entry pdpt) in
    let (done, words', st3) = gib_loop allocator info gib_count linked st2 pdpt lim 0 in
    if ltb entries gib_count
    then record { ok = false; cr3 = cr3; words = words; state = st }
    else (if pml4 == 0
        then record { ok = false; cr3 = cr3; words = words; state = st1 }
        else (if done
            then record { ok = true; cr3 = pml4; words = words'; state = st3 }
            else record { ok = false; cr3 = cr3; words = words'; state = st3 }))
