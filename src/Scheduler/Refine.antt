-- ===== src/Scheduler/Refine.antt =====
-- Kernel/Core/Scheduler/Scheduler.cpp: `Yield` and the step on the list of threads that wait.
use objective_hail_os.Prelude.{
  ℕ, ◌≡◌, ◌≢◌, refl, inl, inr, ◌∙◌, Bool, true, false, not, ◌&&◌, Option, some, List, [], ◌∷◌, ◌++◌,
  arith, ◌==◌, Bool-cases, ap,
}
use objective_hail_os.RunQueue.{ready, null, pop_front}
use objective_hail_os.RunQueue.Refine.{
  has-snoc, push-IsQueue, pop_front-nil, pop_front-cons, push-state, pop_front-state,
}
use objective_hail_os.Scheduler.{
  Sched, set_state, enqueue_ready, dequeue_next, switch_to, must_enqueue, yield_cpu,
}
use objective_hail_os.Scheduler.View.{
  View, Represents, take_next, view_yield, EndsIn, IsQueue-frame,
}
use objective_hail_os.Scheduler.Switch.{Mid, switch_to-EndsIn}

-- The rest of `Yield` after its test.
dispatched : Sched → Option Sched
dispatched s = let (next, s2) = dequeue_next s in switch_to s2 next

-- The state after `PopFront`.
abbrev popped : Sched → Sched
popped s = record s {
  threads = (pop_front s.threads s.run_queue).1;
  run_queue = (pop_front s.threads s.run_queue).2;
}

popped-Mid :
    (s : Sched) (marked : Bool) (x : ℕ) (xs : List ℕ)
    → Mid s marked (x ∷ xs)
    → Mid (popped s) marked xs
popped-Mid s marked x xs mid =
    let first = pop_front-cons s.threads s.run_queue x xs mid.queue in
    record {
      queue = first.1;
      is_marked = rw (pop_front-state s.threads s.run_queue s.current) mid.is_marked;
      ready_all = λ a m. pop_front-state s.threads s.run_queue a ∙ mid.ready_all a (ground arith);
      idle_out = ground (arith, mid.idle_out);
      bootstrap_out = ground (arith, mid.bootstrap_out);
      current_ne = mid.current_ne;
      idle_ne = mid.idle_ne;
    }

dispatched-cons :
    (s : Sched) (marked : Bool) (x : ℕ) (xs : List ℕ)
    → Mid s marked (x ∷ xs)
    → dispatched s ≡ switch_to (popped s) x
unfolding dispatched dequeue_next
dispatched-cons s marked x xs mid =
    let first = pop_front-cons s.threads s.run_queue x xs mid.queue in
    let ne : x ≢ null = mid.queue.chain.1 in ground (arith, first.0)

dispatched-EndsIn :
    (s : Sched) (marked : Bool) (xs : List ℕ)
    → Mid s marked xs
    → EndsIn s (dispatched s) (take_next s.idle s.current marked xs)
unfolding take_next
dispatched-EndsIn s marked [] mid =
    let stays : dispatched s ≡ switch_to s s.idle =
      unfold dispatched dequeue_next in rw (pop_front-nil s.threads s.run_queue mid.queue) in
    rw stays (switch_to-EndsIn s s.idle marked [] mid mid.idle_ne refl)
dispatched-EndsIn s marked (x ∷ xs) mid = rw (dispatched-cons s marked x xs mid) (
    switch_to-EndsIn (popped s) x marked xs (popped-Mid s marked x xs mid) mid.queue.chain.1
      mid.queue.distinct.0)

-- `EnqueueReady` of the current thread.
enqueued-Mid :
    (s : Sched) (v : View)
    → Represents s v
    → s.current ≢ s.idle
    → s.current ≢ s.bootstrap
    → Mid (enqueue_ready s s.current) false (v.waiting ++ s.current ∷ [])
unfolding enqueue_ready set_state
enqueued-Mid s v is not_idle not_boot =
    let th = set_state s.threads s.current ready in
    record {
      queue =
          push-IsQueue th s.run_queue s.current v.waiting
            (IsQueue-frame s.threads th s.run_queue v.waiting (λ a. (ground arith, ground arith))
              is.queue)
            is.current_ne is.current_out;
      is_marked = rw (push-state th s.run_queue s.current s.current) (ground arith);
      ready_all = λ a m.
          push-state th s.run_queue s.current a
          ∙ ground (arith, has-snoc a s.current v.waiting, is.ready_all a);
      idle_out = ground (arith, has-snoc s.idle s.current v.waiting, is.idle_out);
      bootstrap_out = ground (arith, has-snoc s.bootstrap s.current v.waiting, is.bootstrap_out);
      current_ne = is.current_ne;
      idle_ne = is.idle_ne;
    }

not_enqueued-Mid : (s : Sched) (v : View) → Represents s v → Mid s v.marked v.waiting
not_enqueued-Mid s v is = record {
  queue = is.queue;
  is_marked = is.marked;
  ready_all = is.ready_all;
  idle_out = is.idle_out;
  bootstrap_out = is.bootstrap_out;
  current_ne = is.current_ne;
  idle_ne = is.idle_ne;
}

-- The test of `Yield`, on the view.
abbrev waits_again : ℕ → ℕ → View → Bool
waits_again idle bootstrap v = not (v.current == idle) && not (v.current == bootstrap) && v.marked

must_enqueue_lem :
    (s : Sched) (v : View)
    → Represents s v
    → must_enqueue s ≡ some (waits_again s.idle s.bootstrap v)
unfolding must_enqueue
must_enqueue_lem s v is = ground (arith, is.current, is.marked)

yield_again :
    (s : Sched) → must_enqueue s ≡ some true → yield_cpu s ≡ dispatched (enqueue_ready s s.current)
unfolding yield_cpu dispatched
yield_again s h = rw (h, yield_cpu)

yield_only : (s : Sched) → must_enqueue s ≡ some false → yield_cpu s ≡ dispatched s
unfolding yield_cpu dispatched
yield_only s h = rw (h, yield_cpu)

-- From a state that a view describes, `Yield` goes through no null pointer, ends in a state that
-- the step on the view describes, and keeps the idle and the bootstrap thread. (A view is the
-- current thread, whether it is marked as running, and the list of threads that wait.)
pub yield_cpu-Represents :
    (s : Sched) (v : View)
    → Represents s v
    → (s' : Sched) × (yield_cpu s ≡ some s')
      × Represents s' (view_yield s.idle s.bootstrap v)
      × (s'.idle ≡ s.idle)
      × (s'.bootstrap ≡ s.bootstrap)
unfolding view_yield
yield_cpu-Represents s v is = elim (Bool-cases (waits_again s.idle s.bootstrap v)) [
  | inl again ↦
      let test : must_enqueue s ≡ some true = must_enqueue_lem s v is ∙ ap some again in
      let mid = enqueued-Mid s v is (ground (arith, is.current)) (ground (arith, is.current)) in
      rw (again, yield_again s test, ← is.current)
        (unfold enqueue_ready in
          dispatched-EndsIn (enqueue_ready s s.current) false (v.waiting ++ s.current ∷ []) mid)
  | inr only ↦
      let test : must_enqueue s ≡ some false = must_enqueue_lem s v is ∙ ap some only in
      rw (only, yield_only s test, ← is.current)
        (dispatched-EndsIn s v.marked v.waiting (not_enqueued-Mid s v is))
]
