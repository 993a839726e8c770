-- ===== src/Context.antt =====
-- Kernel/Arch/x86_64/CPU/SwitchContext.S, Kernel/Core/Scheduler/KernelStack.{hpp,cpp} and
-- PrepareInitialStack, CreateKernel and the trampoline of Thread.cpp. Memory is 64-bit words at
-- their addresses; the stacks are aligned, so two words that are accessed are the same or apart.
pub mod Frame
pub mod Resume
pub mod Create
use objective_hail_os.Prelude.{
  ℕ, ◌+◌, ◌-◌, ◌*◌, ◌%◌, ◌^◌, Bool, true, false, ◌==◌, if◌then◌else◌, update,
}
use objective_hail_os.Prelude.Words.{u64}
use objective_hail_os.PageBitmap.{page_size}
use objective_hail_os.PageAllocator.{nullptr, allocate_page_sized, free_page_sized, page_count_of}
use objective_hail_os.RunQueue.{Thread, Threads, ready, running}

-- The registers that a called function keeps, the stack pointer and the instruction pointer.
pub record Registers : Type 0 where
  pub rbp : ℕ
  pub rbx : ℕ
  pub r12 : ℕ
  pub r13 : ℕ
  pub r14 : ℕ
  pub r15 : ℕ
  pub rsp : ℕ
  pub rip : ℕ

pub record Machine : Type 0 where
  pub registers : Registers
  pub words : ℕ → ℕ

-- The address below the top of the stack.
abbrev pub below : ℕ → ℕ
below sp = u64 (sp + 2 ^ 64 - 8)

abbrev pub above : ℕ → ℕ
above sp = u64 (sp + 8)

-- The instruction `push`, on a stack pointer and the memory.
abbrev pub push_word : ℕ × (ℕ → ℕ) → ℕ → ℕ × (ℕ → ℕ)
push_word s v = (below s.0, update s.1 (below s.0) v)

-- The six pushes of `ArchSwitchContext`.
unfoldable pub push_frame : Registers → (ℕ → ℕ) → ℕ × (ℕ → ℕ)
push_frame r words =
    let s1 = push_word (r.rsp, words) r.rbp in
    let s2 = push_word s1 r.rbx in
    let s3 = push_word s2 r.r12 in
    let s4 = push_word s3 r.r13 in let s5 = push_word s4 r.r14 in push_word s5 r.r15

-- The six pops and the return of `ArchSwitchContext`.
unfoldable pub pop_frame : ℕ → (ℕ → ℕ) → Registers
pop_frame sp words =
    let sp1 = above sp in
    let sp2 = above sp1 in
    let sp3 = above sp2 in
    let sp4 = above sp3 in
    let sp5 = above sp4 in
    let sp6 = above sp5 in
    record {
      r15 = words sp;
      r14 = words sp1;
      r13 = words sp2;
      r12 = words sp3;
      rbx = words sp4;
      rbp = words sp5;
      rip = words sp6;
      rsp = above sp6;
    }

-- `ArchSwitchContext(oldRSPOut, newRSP)`, entered with the return address on top of the stack.
unfoldable pub switch_context : Machine → (old_rsp_out new_rsp : ℕ) → Machine
unfolding push_frame pop_frame
switch_context m old_rsp_out new_rsp =
    let (sp, words) = push_frame m.registers m.words in
    let words' = update words old_rsp_out sp in
    record { registers = pop_frame new_rsp words'; words = words' }

-- `PrepareInitialStack` for a stack that ends at `top`: the memory and the value of `Ctx.RSP`.
unfoldable pub prepare_initial_stack : (trampoline top : ℕ) → (ℕ → ℕ) → ℕ × (ℕ → ℕ)
prepare_initial_stack trampoline top words =
    let s1 = push_word (top, words) 0 in
    let s2 = push_word s1 trampoline in
    let s3 = push_word s2 0 in
    let s4 = push_word s3 0 in
    let s5 = push_word s4 0 in let s6 = push_word s5 0 in let s7 = push_word s6 0 in push_word s7 0

-- `KernelStack`.
pub record KernelStack : Type 0 where
  pub base : ℕ
  pub bytes : ℕ

abbrev pub default_stack_size : ℕ
default_stack_size = 16 * 1024

-- `KernelStack::Allocate`: the result, the stack and the bitmap of pages.
unfoldable pub allocate_stack :
    (size : ℕ) → (ℕ → ℕ) → KernelStack → ℕ → Bool × KernelStack × (ℕ → ℕ)
allocate_stack size bitmap k bytes =
    let wanted = if bytes == 0 then default_stack_size else bytes in
    let (mem, bitmap') = allocate_page_sized size bitmap wanted in
    if mem == nullptr
    then (false, k, bitmap')
    else (true, record { base = mem; bytes = u64 (page_count_of wanted * page_size) }, bitmap')

-- `KernelStack::Free` and `KernelStack::Top`.
unfoldable pub free_stack : (size : ℕ) → (ℕ → ℕ) → KernelStack → ℕ → ℕ
free_stack size bitmap k = free_page_sized size bitmap k.base k.bytes

unfoldable pub top_of : KernelStack → ℕ
top_of k = u64 (k.base + k.bytes)

-- What thread creation changes: the pages, the threads and the words in memory.
pub record Pool : Type 0 where
  pub bitmap : ℕ → ℕ
  pub threads : Threads
  pub words : ℕ → ℕ

-- `Thread::CreateKernel` of the object at `t`, which `new Thread()` returned, on CPU `cpu`: the pointer
-- that is returned, and the new state.
unfoldable pub create_kernel :
    (size trampoline cpu : ℕ) → Pool → (t name entry arg stack_size : ℕ) → ℕ × Pool
unfolding allocate_stack top_of prepare_initial_stack
create_kernel size trampoline cpu pool t name entry arg stack_size =
    let th : Thread = record (pool.threads t) {
      name = name;
      entry = entry;
      arg = arg;
      cpu_index = cpu;
    } in
    let empty : KernelStack = record { base = th.stack_base; bytes = th.stack_size } in
    let (ok, stack, bitmap') = allocate_stack size pool.bitmap empty stack_size in
    if ok
    then (let (sp, words') = prepare_initial_stack trampoline (top_of stack) pool.words in
        (
          t,
          record {
            bitmap = bitmap';
            threads = update pool.threads t (record th {
              stack_base = stack.base;
              stack_size = stack.bytes;
              rsp = sp;
              state = ready;
            });
            words = words';
          },
        ))
    else (0, record { bitmap = bitmap'; threads = update pool.threads t th; words = pool.words })

-- `ThreadStartTrampoline` up to the call of the thread's function: the threads, and the function and
-- its argument.
unfoldable pub start_trampoline : Threads → ℕ → Threads × ℕ × ℕ
start_trampoline th self =
    (update th self (record (th self) { state = running }), (th self).entry, (th self).arg)
