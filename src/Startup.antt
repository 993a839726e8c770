-- ===== src/Startup.antt =====
-- Init, CreateAndEnqueue and Start of Kernel/Core/Scheduler/Scheduler.cpp and KernelStartThreads of
-- Kernel/Core/KernelMain.cpp: thread creation and the scheduler on the same threads.
pub mod Create
pub mod Run
pub mod Memory
use objective_hail_os.Prelude.{
  ℕ, ◌+◌, ◌*◌, ◌^◌, Option, none, some, ◌>>=◌, ◌==◌, if◌then◌else◌, update,
}
use objective_hail_os.Prelude.Words.{u64}
use objective_hail_os.PageAllocator.{nullptr, allocate_page_sized}
use objective_hail_os.OperatorNew.{header_size, header_of, recorded_pages}
use objective_hail_os.RunQueue.{Thread, init, running}
use objective_hail_os.Scheduler.{Sched, enqueue_ready, yield_cpu}
use objective_hail_os.Context.{Pool, create_kernel}

-- The scheduler, the pages and the words of memory.
pub record Kernel : Type 0 where
  pub sched : Sched
  pub bitmap : ℕ → ℕ
  pub words : ℕ → ℕ

-- A thread object as `new Thread()` leaves it.
abbrev pub constructed : Thread
constructed = record {
  rsp = 0;
  stack_base = 0;
  stack_size = 0;
  state = init;
  entry = 0;
  arg = 0;
  next = 0;
  prev = 0;
  name = 0;
  cpu_index = 0;
  time_slice_ticks = 5;
}

-- The header of an allocation as a word of memory: the magic and, in the upper half, the number of pages.
abbrev pub header_word : (pages : ℕ) → ℕ
header_word pages = b'K' + b'M' * 2 ^ 8 + b'E' * 2 ^ 16 + b'M' * 2 ^ 24 + pages * 2 ^ 32

-- `EnqueueReady(t.Get())` if there is a thread, and the pointer.
abbrev pub enqueue_created : ℕ × Kernel → ℕ × Kernel
enqueue_created (p, k) = (p, if p == 0 then k else record k { sched = enqueue_ready k.sched p })

-- The idle thread of `Init`.
abbrev pub with_idle : ℕ × Kernel → Kernel
with_idle (idle, k) = record k { sched = record k.sched { idle = idle } }

-- The size of the bitmap, the size of a Thread, the address of the trampoline and the index of the CPU.
module _ (size object_size trampoline cpu : ℕ) where
  -- `new Thread()`: the thread's address, or `none` for the panic of `operator new`.
  unfoldable pub new_thread : Kernel → Option (ℕ × Kernel)
  new_thread k =
      let bytes = u64 (object_size + header_size) in
      let (t, bitmap') = allocate_page_sized size k.bitmap bytes in
      if t == nullptr
      then none
      else some (
        t,
        record {
          sched = record k.sched { threads = update k.sched.threads t constructed };
          bitmap = bitmap';
          words = update k.words (header_of t) (header_word (recorded_pages bytes));
        },
      )

  -- `Thread::CreateKernel` behind `new Thread()`, for the thread at `t`.
  unfoldable pub create_at : Kernel → (t name entry arg stack_size : ℕ) → ℕ × Kernel
  create_at k t name entry arg stack_size =
      let pool : Pool = record { bitmap = k.bitmap; threads = k.sched.threads; words = k.words } in
      let (p, pool') = create_kernel size trampoline cpu pool t name entry arg stack_size in
      (
        p,
        record {
          sched = record k.sched { threads = pool'.threads };
          bitmap = pool'.bitmap;
          words = pool'.words;
        },
      )

  -- `Thread::CreateKernel` in the kernel: null when there is no stack.
  unfoldable pub create : Kernel → (name entry arg stack_size : ℕ) → Option (ℕ × Kernel)
  unfolding new_thread create_at
  create k name entry arg stack_size = do
    made ← new_thread k
    some (create_at made.1 made.0 name entry arg stack_size)

  -- `CreateAndEnqueue`.
  unfoldable pub create_and_enqueue : Kernel → (name entry arg stack_size : ℕ) → Option (ℕ × Kernel)
  unfolding create
  create_and_enqueue k name entry arg stack_size = do
    created ← create k name entry arg stack_size
    some (enqueue_created created)

  -- The bootstrap thread of `Init`, at `boot`.
  abbrev pub with_bootstrap : ℕ × Kernel → (boot_name : ℕ) → Kernel
  with_bootstrap (boot, k) boot_name =
      let b : Thread = record (k.sched.threads boot) {
        name = boot_name;
        state = running;
        cpu_index = cpu;
      } in
      record k {
        sched = record k.sched {
          threads = update k.sched.threads boot b;
          bootstrap = boot;
          current = boot;
        };
      }

  -- `Init`.
  unfoldable pub init_threads : Kernel → (boot_name idle_name idle_main : ℕ) → Option Kernel
  unfolding new_thread create
  init_threads k boot_name idle_name idle_main = do
    boot ← new_thread k
    idle ← create (with_bootstrap boot boot_name) idle_name idle_main 0 0
    some (with_idle idle)

  -- `KernelStartThreads`: the state in which `Start` switches to the first thread, or `none` for a panic or
  -- an access through a null pointer.
  unfoldable pub kernel_start_threads :
      Kernel → (boot_name idle_name idle_main a_name a_entry b_name b_entry : ℕ) → Option Sched
  unfolding init_threads create_and_enqueue
  kernel_start_threads k boot_name idle_name idle_main a_name a_entry b_name b_entry = do
    k1 ← init_threads k boot_name idle_name idle_main
    a ← create_and_enqueue k1 a_name a_entry 0 0
    b ← create_and_enqueue a.1 b_name b_entry 0 0
    yield_cpu b.1.sched
