-- ===== src/Tests/Stacks.antt =====
-- Examples for thread creation and switching: the stack is in the pages 1 and 2.
use objective_hail_os.Prelude.{ℕ, ◌+◌, ◌-◌, ◌*◌, ◌≡◌, refl, inl, arith, ◌==◌, if◌then◌else◌}
use objective_hail_os.PageBitmap.{page_size}
use objective_hail_os.PageAllocator.{page_count_of}
use objective_hail_os.RunQueue.{Thread, ready, running}
use objective_hail_os.Context.{
  Registers, Machine, Pool, create_kernel, switch_context, start_trampoline,
}
use objective_hail_os.Context.Resume.{Spares, fresh, resume}
use objective_hail_os.Context.Create.{created_thread_starts}
use objective_hail_os.Tests.Heap.{
  page_zero_used, page_zero_used-IsBytes, page_zero_used-FirstRun, few_pages,
}

abbrev new_thread : Thread
new_thread = record {
  rsp = 0;
  stack_base = 0;
  stack_size = 0;
  state = ready;
  entry = 0;
  arg = 0;
  next = 0;
  prev = 0;
  name = 0;
  cpu_index = 0;
  time_slice_ticks = 5;
}

abbrev pool : Pool
pool = record { bitmap = page_zero_used; threads = λ t. new_thread; words = λ a. 0 }

abbrev registers_at : (rsp rip : ℕ) → Registers
registers_at rsp rip = record {
  rbp = 1;
  rbx = 2;
  r12 = 3;
  r13 = 4;
  r14 = 5;
  r15 = 6;
  rsp = rsp;
  rip = rip;
}

-- A machine far above the stack that was created.
abbrev creator : Machine
creator = record {
  registers = registers_at 0x90000 0x7000;
  words = (create_kernel 2 0x4000 0 pool 5 1 0x6000 7 8000).1.words;
}

creator-Spares : Spares creator 0x100 ((1 + page_count_of 8000) * page_size - 64)
creator-Spares = record {
  room = omega arith;
  fits = omega arith;
  pushes = λ a lo hi. inl (omega (arith, few_pages, hi));
  stores = inl (omega (arith, few_pages));
}

created_thread_starts_example :
    let made = create_kernel 2 0x4000 0 pool 5 1 0x6000 7 8000 in
    ((switch_context creator 0x100 (made.1.threads 5).rsp).registers
      ≡ fresh 0x4000 ((1 + page_count_of 8000) * page_size - 8))
    × (((start_trampoline made.1.threads made.0).0 5).state ≡ running)
    × ((start_trampoline made.1.threads made.0).1 ≡ 0x6000)
    × ((start_trampoline made.1.threads made.0).2 ≡ 7)
created_thread_starts_example =
    created_thread_starts 2 0x4000 0 pool 5 1 0x6000 7 8000 1 creator 0x100 (omega arith)
      (omega arith) (page_zero_used-FirstRun (page_count_of 8000) (omega (arith, few_pages)))
      page_zero_used-IsBytes (omega (arith, few_pages)) (λ a lo hi. refl) creator-Spares

-- A thread that calls the switch at 0x7000, and what another thread leaves.
abbrev before : Machine
before = record {
  registers = registers_at 0x9000 0x7000;
  words = λ a. if a == 0x9000 then 0x7000 else 0;
}

abbrev other : Machine
other = record {
  registers = registers_at 0x20000 0x7100;
  words = (switch_context before 0x100 0x30000).words;
}

resume_example :
    (switch_context other 0x108 (other.words 0x100)).registers ≡ registers_at (0x9000 + 8) 0x7000
resume_example =
    resume before other 0x100 0x108 0x30000 (omega arith) (omega arith) refl (inl (omega arith))
      (λ a at. refl)
      (record {
        room = omega arith;
        fits = omega arith;
        pushes = λ a lo hi. inl (omega arith);
        stores = inl (omega arith);
      })
