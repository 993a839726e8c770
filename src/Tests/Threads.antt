-- ===== src/Tests/Threads.antt =====
-- Examples for Kernel/Core/Scheduler: thread 1 runs, the threads 2 and 4 wait, 3 is the idle thread and 5
-- the bootstrap thread.
use objective_hail_os.Prelude.{
  ℕ, ◌≡◌, refl, true, false, some, [], ◌∷◌, ◌++◌, arith, ◌==◌, if◌then◌else◌,
}
use objective_hail_os.RunQueue.{
  Thread, ThreadState, ready, running, Threads, RunQueue, null, push, pop_front,
}
use objective_hail_os.RunQueue.Chain.{IsQueue, has}
use objective_hail_os.RunQueue.Refine.{push-IsQueue, pop_front-cons}
use objective_hail_os.Scheduler.{Sched, yield_cpu, thread_exit}
use objective_hail_os.Scheduler.View.{Represents, view_yield, EndsIn}
use objective_hail_os.Scheduler.Refine.{yield_cpu-Represents}
use objective_hail_os.Scheduler.Rotation.{yields, view, round_robin, lone_thread_lost}
use objective_hail_os.Scheduler.Exit.{after_exit, thread_exit-Represents}

-- A thread with its links.
abbrev thread : ThreadState → ℕ → ℕ → Thread
thread state next prev = record {
  rsp = 0;
  stack_base = 0;
  stack_size = 0;
  state = state;
  entry = 0;
  arg = 0;
  next = next;
  prev = prev;
  name = 0;
  cpu_index = 0;
  time_slice_ticks = 5;
}

abbrev threads : Threads
threads a =
    if a == 1
    then thread running 0 0
    else (if a == 2
        then thread ready 4 0
        else (if a == 4 then thread ready 0 2 else thread ready 0 0))

abbrev pub queue : RunQueue
queue = record { head = 2; tail = 4 }

queue-IsQueue : IsQueue threads queue (2 ∷ 4 ∷ [])
queue-IsQueue = record {
  chain = (refl, omega arith, refl, (refl, omega arith, refl, (refl, refl)));
  distinct = (refl, (refl, tt));
}

push_example : IsQueue (push threads queue 1).0 (push threads queue 1).1 ((2 ∷ 4 ∷ []) ++ 1 ∷ [])
push_example = push-IsQueue threads queue 1 (2 ∷ 4 ∷ []) queue-IsQueue (omega arith) refl

pop_front_example :
    let r = pop_front threads queue in
    (r.0 ≡ 2) × IsQueue r.1 r.2 (4 ∷ []) × ((r.1 2).next ≡ null) × ((r.1 2).prev ≡ null)
pop_front_example = pop_front-cons threads queue 2 (4 ∷ []) queue-IsQueue

abbrev pub sched : RunQueue → Sched
sched q = record {
  threads = threads;
  run_queue = q;
  bootstrap = 5;
  idle = 3;
  need_reschedule = false;
  current = 1;
  rsp = 0;
}

waiting_ready : (a : ℕ) → has a (2 ∷ 4 ∷ []) ≡ true → (threads a).state ≡ ready
waiting_ready a h = ground arith

pub sched-Represents : Represents (sched queue) (view 1 true (2 ∷ 4 ∷ []))
sched-Represents = record {
  queue = queue-IsQueue;
  current = refl;
  marked = refl;
  ready_all = waiting_ready;
  current_out = refl;
  idle_out = refl;
  bootstrap_out = refl;
  current_ne = omega arith;
  idle_ne = omega arith;
}

yield_cpu_example :
    (s' : Sched) × (yield_cpu (sched queue) ≡ some s')
    × Represents s' (view_yield 3 5 (view 1 true (2 ∷ 4 ∷ [])))
    × (s'.idle ≡ 3)
    × (s'.bootstrap ≡ 5)
yield_cpu_example = yield_cpu-Represents (sched queue) (view 1 true (2 ∷ 4 ∷ [])) sched-Represents

round_robin_example : EndsIn (sched queue) (yields 2 (sched queue)) (view 4 true ([] ++ 1 ∷ 2 ∷ []))
round_robin_example =
    round_robin (2 ∷ []) [] (sched queue) 1 4 sched-Represents (omega arith) (omega arith)

thread_exit_example : EndsIn (sched queue) (thread_exit (sched queue)) (after_exit 3 (2 ∷ 4 ∷ []))
thread_exit_example =
    thread_exit-Represents (sched queue) (view 1 true (2 ∷ 4 ∷ [])) sched-Represents (omega arith)

abbrev lone : Sched
lone = sched (record { head = 0; tail = 0 })

lone-Represents : Represents lone (view 1 true [])
lone-Represents = record {
  queue = record { chain = (refl, refl); distinct = tt };
  current = refl;
  marked = refl;
  ready_all = λ a h. ground arith;
  current_out = refl;
  idle_out = refl;
  bootstrap_out = refl;
  current_ne = omega arith;
  idle_ne = omega arith;
}

lone_thread_example : EndsIn lone (yields 3 lone) (view 3 true [])
lone_thread_example = lone_thread_lost 1 lone 1 lone-Represents (omega arith) (omega arith)
