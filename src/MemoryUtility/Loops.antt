-- ===== src/MemoryUtility/Loops.antt =====
-- Library/Memory/MemoryUtility.cpp: what the three loops do, address by address.
use objective_hail_os.Prelude.{
  ℕ, zero, suc, ◌+◌, ◌-◌, ◌≤◌, ◌<◌, ◌≡◌, refl, ◌↔◌, ◌⊎◌, inl, inr, ◌∙◌, true, ◌&&◌, arith, ltb, leb,
  if◌then◌else◌, Bool-cases, update,
}
use objective_hail_os.MemoryUtility.{
  fill_loop, fill_memory, copy_loop, copy_memory, compare_loop, compare_memory,
}

fill_loop_at :
    (n : ℕ) (m : ℕ → ℕ) (ptr i value a : ℕ)
    → fill_loop n m ptr i value a ≡ (if leb (ptr + i) a && ltb a (ptr + i + n) then value else m a)
unfolding fill_loop
fill_loop_at zero m ptr i value a = ground arith
fill_loop_at (suc n) m ptr i value a =
    fill_loop_at n (update m (ptr + i) value) ptr (i + 1) value a ∙ ground arith

-- `FillMemory` writes the value to exactly the `size` bytes from `ptr` on.
pub fill_memory_at :
    (m : ℕ → ℕ) (ptr size value a : ℕ)
    → fill_memory m ptr size value a ≡ (if leb ptr a && ltb a (ptr + size) then value else m a)
unfolding fill_memory
fill_memory_at m ptr size value a = fill_loop_at size m ptr 0 value a ∙ ground arith

-- The areas do not overlap in a way that the loop reads what it wrote.
abbrev pub Apart : ℕ → ℕ → ℕ → Type 0
Apart src dest size = (dest ≤ src) ⊎ (src + size ≤ dest)

copy_loop_outside :
    (n : ℕ) (m : ℕ → ℕ) (src dest i a : ℕ)
    → (a < dest + i) ⊎ (dest + i + n ≤ a)
    → copy_loop n m src dest i a ≡ m a
unfolding copy_loop
copy_loop_outside zero m src dest i a h = refl
copy_loop_outside (suc n) m src dest i a h =
    copy_loop_outside n (update m (dest + i) (m (src + i))) src dest (i + 1) a (omega arith)
    ∙ ground arith

copy_loop_inside :
    (n : ℕ) (m : ℕ → ℕ) (src dest i k : ℕ)
    → Apart (src + i) (dest + i) n
    → k < n
    → copy_loop n m src dest i (dest + i + k) ≡ m (src + i + k)
unfolding copy_loop
copy_loop_inside zero m src dest i k apart h = absurd (omega arith)
copy_loop_inside (suc n) m src dest i zero apart h =
    copy_loop_outside n (update m (dest + i) (m (src + i))) src dest (i + 1) (dest + i + 0)
      (omega arith)
    ∙ ground arith
copy_loop_inside (suc n) m src dest i (suc k) apart h =
    let rest =
      copy_loop_inside n (update m (dest + i) (m (src + i))) src dest (i + 1) k (omega arith)
        (omega arith) in
    ground (arith, rest)

-- `CopyMemory` copies every byte and writes nothing else, if the destination starts no later than
-- the source or the source ends before the destination starts.
pub copy_memory_at :
    (m : ℕ → ℕ) (src dest size a : ℕ)
    → Apart src dest size
    → copy_memory m src dest size a
      ≡ (if leb dest a && ltb a (dest + size) then m (src + (a - dest)) else m a)
unfolding copy_memory
copy_memory_at m src dest size a apart = elim (Bool-cases (leb dest a && ltb a (dest + size))) [
  | inl inside ↦
      rw inside (ground (arith, copy_loop_inside size m src dest 0 (a - dest) (omega arith)))
  | inr outside ↦ rw outside (copy_loop_outside size m src dest 0 a (ground arith))
]

compare_loop_sound :
    (n : ℕ) (m : ℕ → ℕ) (p1 p2 i : ℕ)
    → compare_loop n m p1 p2 i ≡ true
    → (k : ℕ) → k < n
    → m (p1 + (i + k)) ≡ m (p2 + (i + k))
unfolding compare_loop
compare_loop_sound zero m p1 p2 i h k lt = absurd (omega arith)
compare_loop_sound (suc n) m p1 p2 i h zero lt = ground arith
compare_loop_sound (suc n) m p1 p2 i h (suc k) lt =
    ground (arith, compare_loop_sound n m p1 p2 (i + 1) (ground arith) k (omega arith))

compare_loop_complete :
    (n : ℕ) (m : ℕ → ℕ) (p1 p2 i : ℕ)
    → ((k : ℕ) → k < n → m (p1 + (i + k)) ≡ m (p2 + (i + k)))
    → compare_loop n m p1 p2 i ≡ true
unfolding compare_loop
compare_loop_complete zero m p1 p2 i h = refl
compare_loop_complete (suc n) m p1 p2 i h = ground (
  arith,
  h 0 (omega arith),
  compare_loop_complete n m p1 p2 (i + 1) (λ k lt. ground (arith, h (k + 1))),
)

-- `CompareMemory` answers true exactly when the two areas hold the same bytes.
pub compare_memory_iff :
    (m : ℕ → ℕ) (p1 p2 size : ℕ)
    → (compare_memory m p1 p2 size ≡ true) ↔ ((k : ℕ) → k < size → m (p1 + k) ≡ m (p2 + k))
unfolding compare_memory
compare_memory_iff m p1 p2 size = (
  λ h k lt. ground (arith, compare_loop_sound size m p1 p2 0 h k lt),
  λ h. compare_loop_complete size m p1 p2 0 (λ k lt. ground (arith, h k)),
)
