-- ===== src/MemoryUtility.antt =====
-- Library/Memory/MemoryUtility.cpp: byte loops over memory, which is a function from addresses to
-- bytes.
pub mod Loops
use objective_hail_os.Prelude.{
  ℕ, zero, suc, ◌+◌, Bool, true, false, not, ◌==◌, if◌then◌else◌, update,
}

-- The loop of `FillMemory` at index `i`, with `left` rounds left.
pub fill_loop : ℕ → (ℕ → ℕ) → ℕ → ℕ → ℕ → ℕ → ℕ
fill_loop zero m ptr i value = m
fill_loop (suc left) m ptr i value = fill_loop left (update m (ptr + i) value) ptr (i + 1) value

-- `FillMemory`.
unfoldable pub fill_memory : (ℕ → ℕ) → ℕ → ℕ → ℕ → ℕ → ℕ
unfolding fill_loop
fill_memory m ptr size value = fill_loop size m ptr 0 value

-- The loop of `CopyMemory`; it reads what it has written where the areas overlap.
pub copy_loop : ℕ → (ℕ → ℕ) → ℕ → ℕ → ℕ → ℕ → ℕ
copy_loop zero m src dest i = m
copy_loop (suc left) m src dest i =
    copy_loop left (update m (dest + i) (m (src + i))) src dest (i + 1)

-- `CopyMemory`.
unfoldable pub copy_memory : (ℕ → ℕ) → ℕ → ℕ → ℕ → ℕ → ℕ
unfolding copy_loop
copy_memory m src dest size = copy_loop size m src dest 0

-- The loop of `CompareMemory`.
pub compare_loop : ℕ → (ℕ → ℕ) → ℕ → ℕ → ℕ → Bool
compare_loop zero m p1 p2 i = true
compare_loop (suc left) m p1 p2 i =
    let rest = compare_loop left m p1 p2 (i + 1) in
    if not (m (p1 + i) == m (p2 + i)) then false else rest

-- `CompareMemory`.
unfoldable pub compare_memory : (ℕ → ℕ) → ℕ → ℕ → ℕ → Bool
unfolding compare_loop
compare_memory m ptr1 ptr2 size = compare_loop size m ptr1 ptr2 0
