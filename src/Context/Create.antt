-- ===== src/Context/Create.antt =====
-- CreateKernel of Kernel/Core/Scheduler/Thread.cpp and Allocate of KernelStack.cpp, with the page
-- allocator that both stand on.
use objective_hail_os.Prelude.{
  ℕ, ◌+◌, ◌-◌, ◌*◌, ◌^◌, ◌≤◌, ◌<◌, ◌≡◌, refl, ◌∙◌, ap, true, false, arith, ◌==◌, if◌then◌else◌,
  IsBytes, ◌⊎◌,
}
use objective_hail_os.Prelude.Words.{u64}
use objective_hail_os.Bit.{array_bit}
use objective_hail_os.Bit.Range.{in_range}
use objective_hail_os.PageBitmap.{page_size}
use objective_hail_os.PageAllocator.{nullptr, allocate_page_sized, page_count_of}
use objective_hail_os.PageAllocator.Search.{FirstRun}
use objective_hail_os.PageAllocator.Any.{Allocated, allocate_page_sized-Allocated}
use objective_hail_os.RunQueue.{ready, running}
use objective_hail_os.Context.{
  Machine, switch_context, start_trampoline, KernelStack, default_stack_size, allocate_stack,
  top_of, Pool, create_kernel,
}
use objective_hail_os.Context.Frame.{Saved}
use objective_hail_os.Context.Resume.{
  Spares, switch_context-Saved, Saved-frame, fresh, initial-Saved, initial_apart,
}

-- The bytes that are allocated for a stack.
abbrev pub wanted_bytes : ℕ → ℕ
wanted_bytes bytes = if bytes == 0 then default_stack_size else bytes

wanted_pages : (bytes : ℕ) → 0 < page_count_of (wanted_bytes bytes)
unfolding page_count_of
wanted_pages bytes = ground arith

-- A stack of `n` pages from page `s` on.
pub allocate_stack-Allocated :
    (size : ℕ) (bitmap : ℕ → ℕ) (k : KernelStack) (bytes s : ℕ)
    → size < 2 ^ 32
    → 0 < s
    → FirstRun bitmap (page_count_of (wanted_bytes bytes)) s
    → IsBytes bitmap
    → s + page_count_of (wanted_bytes bytes) ≤ size * 8
    → (allocate_stack size bitmap k bytes ≡ (
      true,
      record { base = s * page_size; bytes = page_count_of (wanted_bytes bytes) * page_size },
      (allocate_page_sized size bitmap (wanted_bytes bytes)).1,
    ))
      × Allocated bitmap
          (page_count_of (wanted_bytes bytes))
          s
          (allocate_page_sized size bitmap (wanted_bytes bytes))
unfolding allocate_stack
allocate_stack-Allocated size bitmap k bytes s small pos run h fits =
    let a =
      allocate_page_sized-Allocated bitmap size (wanted_bytes bytes) s small pos run h fits
        (wanted_pages bytes) in
    let word : u64 (page_count_of (wanted_bytes bytes) * page_size)
        ≡ page_count_of (wanted_bytes bytes) * page_size =
      omega arith in
    let test : (s * page_size == nullptr) ≡ false = ground arith in
    (rw (a.pointer, test, word) refl, a)

-- The thread object at `t` and its stack of `n` pages from page `s` on, as creation returns them.
pub record Created (pool : Pool) (trampoline t name entry arg s n : ℕ) (result : ℕ × Pool)
    : Type 0 where
  pub returned : result.0 ≡ t
  pub is_ready : (result.1.threads t).state ≡ ready
  pub runs : ((result.1.threads t).entry ≡ entry) × ((result.1.threads t).arg ≡ arg)
  pub saved_at : (result.1.threads t).rsp ≡ (s + n) * page_size - 64
  pub frame : Saved result.1.words ((s + n) * page_size - 64) (fresh trampoline 0)
  pub only_frame :
      (a : ℕ)
      → (a < (s + n) * page_size - 64) ⊎ ((s + n) * page_size ≤ a)
      → result.1.words a ≡ pool.words a
  pub pages_used :
      (p : ℕ)
      → array_bit result.1.bitmap p ≡ (if in_range s n p then true else array_bit pool.bitmap p)

-- When the lowest run of free pages that is long enough for the stack does not start at page 0 and
-- lies inside the bitmap, `CreateKernel` returns a ready thread with the given function and argument,
-- whose pages, and no others, became used, and whose saved stack pointer is at a frame at the end of
-- them that starts the trampoline. No other word of memory changed.
pub create_kernel-Created :
    (size trampoline cpu : ℕ) (pool : Pool) (t name entry arg stack_size s : ℕ)
    → size < 2 ^ 32
    → 0 < s
    → FirstRun pool.bitmap (page_count_of (wanted_bytes stack_size)) s
    → IsBytes pool.bitmap
    → s + page_count_of (wanted_bytes stack_size) ≤ size * 8
    → Created pool trampoline t name entry arg s
        (page_count_of (wanted_bytes stack_size))
        (create_kernel size trampoline cpu pool t name entry arg stack_size)
unfolding create_kernel top_of
create_kernel-Created size trampoline cpu pool t name entry arg stack_size s small pos run h fits =
    let n = page_count_of (wanted_bytes stack_size) in
    let k : KernelStack = record {
      base = (pool.threads t).stack_base;
      bytes = (pool.threads t).stack_size;
    } in
    let (e, a) = allocate_stack-Allocated size pool.bitmap k stack_size s small pos run h fits in
    let some_page = wanted_pages stack_size in
    let top : u64 (s * page_size + n * page_size) ≡ (s + n) * page_size = omega arith in
    let (sp, saved) =
      initial-Saved trampoline ((s + n) * page_size) pool.words (omega arith) (omega arith) in
    rw (e, top)
      (record {
        returned = refl;
        is_ready = ground arith;
        runs = (ground arith, ground arith);
        saved_at = ground (arith, sp);
        frame = saved;
        only_frame = λ b out.
            initial_apart trampoline ((s + n) * page_size) pool.words b (omega arith) (omega arith)
              out;
        pages_used = a.bits;
      })

-- The first switch to a thread that `CreateKernel` returned, its stack lying in the lowest run of free
-- pages that is long enough, from a machine that still has the frame at the end of that stack and whose own frame and saved stack pointer lie elsewhere, starts the trampoline on the
-- thread's stack; and the trampoline on that thread marks it running and calls the function that
-- `CreateKernel` was given, with its argument.
pub created_thread_starts :
    (size trampoline cpu : ℕ) (pool : Pool) (t name entry arg stack_size s : ℕ) (m : Machine)
    (out : ℕ)
    → size < 2 ^ 32
    → 0 < s
    → FirstRun pool.bitmap (page_count_of (wanted_bytes stack_size)) s
    → IsBytes pool.bitmap
    → s + page_count_of (wanted_bytes stack_size) ≤ size * 8
    → ((a : ℕ)
        → (s + page_count_of (wanted_bytes stack_size)) * page_size - 64 ≤ a
        → a < (s + page_count_of (wanted_bytes stack_size)) * page_size
        → m.words a
          ≡ (create_kernel size trampoline cpu pool t name entry arg stack_size).1.words a)
    → Spares m out ((s + page_count_of (wanted_bytes stack_size)) * page_size - 64)
    → let made = create_kernel size trampoline cpu pool t name entry arg stack_size in
      ((switch_context m out (made.1.threads t).rsp).registers
        ≡ fresh trampoline ((s + page_count_of (wanted_bytes stack_size)) * page_size - 8))
      × (((start_trampoline made.1.threads made.0).0 t).state ≡ running)
      × ((start_trampoline made.1.threads made.0).1 ≡ entry)
      × ((start_trampoline made.1.threads made.0).2 ≡ arg)
unfolding start_trampoline
created_thread_starts size trampoline cpu pool t name entry arg stack_size s m out small pos run h
      fits same spares =
    let made = create_kernel size trampoline cpu pool t name entry arg stack_size in
    let c =
      create_kernel-Created size trampoline cpu pool t name entry arg stack_size s small pos run h
        fits in
    let top = (s + page_count_of (wanted_bytes stack_size)) * page_size in
    let some_page = wanted_pages stack_size in
    let kept =
      Saved-frame made.1.words m.words (top - 64) (fresh trampoline 0)
        (λ a lo hi. same a lo (omega arith)) c.frame in
    let at : top - 64 + 56 ≡ top - 8 = omega arith in
    (
      ap (λ (a : ℕ). (switch_context m out a).registers) c.saved_at
          ∙ switch_context-Saved m out (top - 64) (fresh trampoline 0) spares (omega arith) kept
          ∙ ap (fresh trampoline) at,
      rw (c.returned) (ground arith),
      rw (c.returned) c.runs.0,
      rw (c.returned) c.runs.1,
    )
