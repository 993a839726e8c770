-- ===== src/Scheduler/Exit.antt =====
-- Kernel/Core/Scheduler/Thread.cpp: `ThreadExit`.
use objective_hail_os.Prelude.{ℕ, ◌≡◌, ◌≢◌, true, false, List, [], ◌∷◌, arith, ◌==◌}
use objective_hail_os.RunQueue.{dead, null}
use objective_hail_os.RunQueue.Chain.{has}
use objective_hail_os.Scheduler.{Sched, set_state, thread_exit}
use objective_hail_os.Scheduler.View.{
  View, Represents, take_next, view_yield, IsQueue-frame, EndsIn,
}
use objective_hail_os.Scheduler.Refine.{yield_cpu-Represents}
use objective_hail_os.Scheduler.Rotation.{view}

-- The state in which the dead thread yields.
abbrev dying : Sched → Sched
dying s = record s { threads = set_state s.threads s.current dead }

dying-Represents :
    (s : Sched) (v : View) → Represents s v → Represents (dying s) (view v.current false v.waiting)
unfolding set_state
dying-Represents s v is = record {
  queue =
      IsQueue-frame s.threads (set_state s.threads s.current dead) s.run_queue v.waiting
        (λ a. (ground arith, ground arith)) is.queue;
  current = is.current;
  marked = ground arith;
  ready_all = λ a m. ground (arith, is.ready_all a, is.current_out);
  current_out = is.current_out;
  idle_out = is.idle_out;
  bootstrap_out = is.bootstrap_out;
  current_ne = is.current_ne;
  idle_ne = is.idle_ne;
}

-- What runs and what waits when a thread is gone.
abbrev pub after_exit : ℕ → List ℕ → View
after_exit idle [] = view idle true []
after_exit idle (x ∷ xs) = view x true xs

view_yield-dead :
    (idle bootstrap c : ℕ) (xs : List ℕ)
    → c ≢ idle
    → has c xs ≡ false
    → view_yield idle bootstrap (view c false xs) ≡ after_exit idle xs
unfolding view_yield take_next
view_yield-dead idle bootstrap c [] h out = ground arith
view_yield-dead idle bootstrap c (x ∷ xs) h out = ground arith

-- When a thread that is not the idle thread exits, it is not put into the queue: the first thread
-- that waits runs next, or the idle thread if none waits, and the others that waited still wait.
pub thread_exit-Represents :
    (s : Sched) (v : View)
    → Represents s v
    → v.current ≢ s.idle
    → EndsIn s (thread_exit s) (after_exit s.idle v.waiting)
unfolding thread_exit
thread_exit-Represents s v is h =
    let (s', e, is', i, b) =
      yield_cpu-Represents (dying s) (view v.current false v.waiting) (dying-Represents s v is) in
    let next =
      view_yield-dead s.idle s.bootstrap v.current v.waiting h
        (ground (arith, is.current, is.current_out)) in
    let alive : (s.current == null) ≡ false = ground (arith, is.current_ne) in
    (s', rw alive e, rw next at is', i, b)
