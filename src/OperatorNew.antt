-- ===== src/OperatorNew.antt =====
-- Kernel/Core/Memory/NewDelete.cpp: `operator new` and `operator delete` over the page allocator. The
-- state is the page bitmap and the bytes of memory; `size` is the bitmap's length. The header of an
-- allocation is 8 bytes: the magic "KMEM" and the number of pages, in the byte order of x86.
pub mod Delete
pub mod Objects
pub mod Small
use objective_hail_os.Prelude.{
  ℕ, ◌+◌, ◌-◌, ◌*◌, ◌/◌, ◌%◌, ◌^◌, Bool, true, false, not, ◌==◌, if◌then◌else◌, update,
}
use objective_hail_os.Prelude.Words.{u8, u32, u64}
use objective_hail_os.MemoryUtility.{compare_memory}
use objective_hail_os.PageBitmap.{page_size}
use objective_hail_os.PageAllocator.{nullptr, allocate_page_sized, free_page_sized}

pub record HeapState : Type 0 where
  pub bitmap : ℕ → ℕ
  pub memory : ℕ → ℕ

pub data NewResult : Type 0 where
  returned : ℕ → HeapState → NewResult
  panic : NewResult

-- `sizeof(AllocatedMemoryInfo)`.
abbrev pub header_size : ℕ
header_size = 8

-- `reinterpret_cast<AllocatedMemoryInfo*>(p) - 1`.
abbrev pub header_of : ℕ → ℕ
header_of p = u64 (p + 2 ^ 64 - header_size)

-- A 32-bit store and load.
unfoldable pub store32 : (ℕ → ℕ) → ℕ → ℕ → ℕ → ℕ
store32 m a v =
    update (update (update (update m a (u8 v)) (a + 1) (u8 (v / 2 ^ 8))) (a + 2) (u8 (v / 2 ^ 16)))
      (a + 3) (u8 (v / 2 ^ 24))

unfoldable pub load32 : (ℕ → ℕ) → ℕ → ℕ
load32 m a = m a + m (a + 1) * 2 ^ 8 + m (a + 2) * 2 ^ 16 + m (a + 3) * 2 ^ 24

-- The number that the header records.
unfoldable pub recorded_pages : ℕ → ℕ
recorded_pages size_alloc = u32 (
    if not (size_alloc % page_size == 0)
    then size_alloc / page_size + 1
    else size_alloc / page_size)

-- The assignment to the header: 'K', 'M', 'E', 'M', and the number of pages.
unfoldable pub write_header : (ℕ → ℕ) → ℕ → ℕ → ℕ → ℕ
write_header m a pages =
    store32 (update (update (update (update m a b'K') (a + 1) b'M') (a + 2) b'E') (a + 3) b'M')
      (a + 4) pages

-- `operator new(size)`.
unfoldable pub operator_new : ℕ → HeapState → ℕ → NewResult
operator_new size h bytes =
    let size_alloc = u64 (bytes + header_size) in
    let (p, bitmap') = allocate_page_sized size h.bitmap size_alloc in
    if p == nullptr
    then panic
    else returned p (record {
      bitmap = bitmap';
      memory = write_header h.memory (header_of p) (recorded_pages size_alloc);
    })

-- `operator new(size, std::nothrow)`: the null pointer in place of the panic.
unfoldable pub operator_new_nothrow : ℕ → HeapState → ℕ → NewResult
operator_new_nothrow size h bytes =
    let size_alloc = u64 (bytes + header_size) in
    let (p, bitmap') = allocate_page_sized size h.bitmap size_alloc in
    if p == nullptr
    then returned nullptr (record h { bitmap = bitmap' })
    else returned p (record {
      bitmap = bitmap';
      memory = write_header h.memory (header_of p) (recorded_pages size_alloc);
    })

-- `operator delete(p)`.
unfoldable pub operator_delete : ℕ → HeapState → ℕ → HeapState
operator_delete size h p =
    let header = header_of p in
    let page = load32 h.memory (header + 4) in
    record h { bitmap = free_page_sized size h.bitmap header page }

-- `operator delete(p, std::nothrow)`. `literal` is the address of the string "KMEM".
unfoldable pub operator_delete_nothrow : ℕ → ℕ → HeapState → ℕ → HeapState
operator_delete_nothrow literal size h p =
    let header = header_of p in
    if not (compare_memory h.memory header literal 4)
    then h
    else (let page = load32 h.memory (header + 4) in
        record h { bitmap = free_page_sized size h.bitmap header page })

-- The forms for arrays and those that are told the size call the others; `operator delete[](p,
-- std::nothrow)` calls the one that does not look at the magic.
abbrev pub operator_new_array : ℕ → HeapState → ℕ → NewResult
operator_new_array = operator_new

abbrev pub operator_new_array_nothrow : ℕ → HeapState → ℕ → NewResult
operator_new_array_nothrow = operator_new_nothrow

abbrev pub operator_delete_array : ℕ → HeapState → ℕ → HeapState
operator_delete_array = operator_delete

abbrev pub operator_delete_array_nothrow : ℕ → HeapState → ℕ → HeapState
operator_delete_array_nothrow = operator_delete

abbrev pub operator_delete_sized : ℕ → HeapState → (p bytes : ℕ) → HeapState
operator_delete_sized size h p bytes = operator_delete size h p

abbrev pub operator_delete_array_sized : ℕ → HeapState → (p bytes : ℕ) → HeapState
operator_delete_array_sized size h p bytes = operator_delete_array size h p
