-- ===== src/RunQueue.antt =====
-- Kernel/Core/Scheduler/RunQueue.hpp and the Thread class of Thread.hpp: a doubly linked queue through
-- the threads' own links. Threads are records at addresses; 0 is the null pointer.
pub mod Chain
pub mod Refine
use objective_hail_os.Prelude.{ℕ, Bool, true, false, ◌==◌, if◌then◌else◌, update}

pub data ThreadState : Type 0 where
  init ready running sleep dead : ThreadState

pub record Thread : Type 0 where
  pub rsp : ℕ
  pub stack_base : ℕ
  pub stack_size : ℕ
  pub state : ThreadState
  pub entry : ℕ
  pub arg : ℕ
  pub next : ℕ
  pub prev : ℕ
  pub name : ℕ
  pub cpu_index : ℕ
  pub time_slice_ticks : ℕ

abbrev pub null : ℕ
null = 0

-- The threads in memory.
abbrev pub Threads : Type 0
Threads = ℕ → Thread

-- `t->Next = v` and `t->Prev = v`.
unfoldable pub set_next : Threads → ℕ → ℕ → Threads
set_next th t v = update th t (record (th t) { next = v })

unfoldable pub set_prev : Threads → ℕ → ℕ → Threads
set_prev th t v = update th t (record (th t) { prev = v })

pub record RunQueue : Type 0 where
  pub head : ℕ
  pub tail : ℕ

-- `Empty`.
unfoldable pub empty : RunQueue → Bool
empty q = q.head == null

-- `Push`.
unfoldable pub push : Threads → RunQueue → ℕ → Threads × RunQueue
unfolding set_next set_prev
push th q t =
    let th1 = set_prev (set_next th t null) t q.tail in
    if q.tail == null
    then (th1, record { head = t; tail = t })
    else (set_next th1 q.tail t, record { head = q.head; tail = t })

-- `PopFront`: the thread, or the null pointer.
unfoldable pub pop_front : Threads → RunQueue → ℕ × Threads × RunQueue
unfolding set_next set_prev
pop_front th q =
    let t = q.head in
    if t == null
    then (null, th, q)
    else (let head' = (th t).next in
        if head' == null
        then (t, set_next (set_prev th t null) t null, record { head = head'; tail = null })
        else (
          t,
          set_next (set_prev (set_prev th head' null) t null) t null,
          record { head = head'; tail = q.tail },
        ))
