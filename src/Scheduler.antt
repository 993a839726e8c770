-- ===== src/Scheduler.antt =====
-- Kernel/Core/Scheduler/Scheduler.cpp and ThreadExit of Thread.cpp: cooperative scheduling on one CPU.
-- The state holds the threads in memory, the variables of Scheduler.cpp and the CPU's current thread.
-- `rsp` is the stack pointer that ArchSwitchContext saves. `none` is an access through a null pointer.
pub mod View
pub mod Switch
pub mod Refine
pub mod Rotation
pub mod Exit
use objective_hail_os.Prelude.{
  ℕ, ◌≡◌, Bool, true, false, not, ◌&&◌, Option, none, some, ◌==◌, if◌then◌else◌, update,
}
use objective_hail_os.RunQueue.{
  Thread, ThreadState, running, ready, dead, Threads, null, RunQueue, push, pop_front,
}

pub record Sched : Type 0 where
  pub threads : Threads
  pub run_queue : RunQueue
  pub bootstrap : ℕ
  pub idle : ℕ
  pub need_reschedule : Bool
  pub current : ℕ
  pub rsp : ℕ

abbrev pub is_running : ThreadState → Bool
is_running running = true
is_running _ = false

-- `t->State = v`.
unfoldable pub set_state : Threads → ℕ → ThreadState → Threads
set_state th t v = update th t (record (th t) { state = v })

-- `EnqueueReady`.
unfoldable pub enqueue_ready : Sched → ℕ → Sched
enqueue_ready s t =
    let (th, q) = push (set_state s.threads t ready) s.run_queue t in
    record s { threads = th; run_queue = q }

-- `DequeueNext`: the idle thread where the queue is empty.
unfoldable pub dequeue_next : Sched → ℕ × Sched
dequeue_next s =
    let (next, th, q) = pop_front s.threads s.run_queue in
    (if next == null then s.idle else next, record s { threads = th; run_queue = q })

-- What `ArchSwitchContext` does to the two saved stack pointers.
unfoldable pub arch_switch_context : Sched → ℕ → ℕ → Sched
arch_switch_context s curr next = record s {
  threads = update s.threads curr (record (s.threads curr) { rsp = s.rsp });
  rsp = (s.threads next).rsp;
}

-- `SwitchTo`.
unfoldable pub switch_to : Sched → ℕ → Option Sched
switch_to s next =
    let curr = s.current in
    if next == curr
    then some s
    else (if next == null
        then none
        else (if curr == null
            then none
            else some (
                arch_switch_context
                  (record s { threads = set_state s.threads next running; current = next }) curr
                  next)))

-- The test of `Yield`; `none` is the read of `curr->State` through a null pointer.
unfoldable pub must_enqueue : Sched → Option Bool
must_enqueue s =
    let curr = s.current in
    if not (curr == s.idle) && not (curr == s.bootstrap)
    then (if curr == null then none else some (is_running (s.threads curr).state))
    else some false

-- `Yield`; `Start` is the same.
unfoldable pub yield_cpu : Sched → Option Sched
unfolding must_enqueue
yield_cpu s = elim (must_enqueue s) [
  | none ↦ none
  | some again ↦
      let s1 = if again then enqueue_ready s s.current else s in
      let (next, s2) = dequeue_next s1 in switch_to s2 next
]

-- `OnTimerTick`.
unfoldable pub on_timer_tick : Sched → Sched
on_timer_tick s = record s { need_reschedule = true }

-- `ThreadExit` up to the halt, which is reached only if `Yield` comes back to the dead thread.
unfoldable pub thread_exit : Sched → Option Sched
thread_exit s =
    if s.current == null
    then none
    else yield_cpu (record s { threads = set_state s.threads s.current dead })
