-- ===== src/Scheduler/Switch.antt =====
-- Kernel/Core/Scheduler/Scheduler.cpp: what `SwitchTo` does to the view.
use objective_hail_os.Prelude.{
  ℕ, ◌≡◌, ◌≢◌, refl, inl, inr, Bool, true, false, some, List, arith, ◌==◌, Bool-cases,
  if◌then◌else◌,
}
use objective_hail_os.RunQueue.{running, ready, null}
use objective_hail_os.RunQueue.Chain.{has, IsQueue}
use objective_hail_os.Scheduler.{Sched, is_running, set_state, arch_switch_context, switch_to}
use objective_hail_os.Scheduler.View.{Represents, IsQueue-frame, EndsIn}

-- The states between `EnqueueReady` and `SwitchTo`: the current thread may wait too.
pub record Mid (s : Sched) (marked : Bool) (xs : List ℕ) : Type 0 where
  pub queue : IsQueue s.threads s.run_queue xs
  pub is_marked : is_running (s.threads s.current).state ≡ marked
  pub ready_all : (a : ℕ) → has a xs ≡ true → (s.threads a).state ≡ ready
  pub idle_out : has s.idle xs ≡ false
  pub bootstrap_out : has s.bootstrap xs ≡ false
  pub current_ne : s.current ≢ null
  pub idle_ne : s.idle ≢ null

-- The state after a real switch.
switched : Sched → ℕ → Sched
unfolding arch_switch_context set_state
switched s next =
    arch_switch_context (record s { threads = set_state s.threads next running; current = next })
      s.current next

switched-links :
    (s : Sched) (next a : ℕ)
    → (((switched s next).threads a).next ≡ (s.threads a).next)
      × (((switched s next).threads a).prev ≡ (s.threads a).prev)
unfolding switched
switched-links s next a = (ground arith, ground arith)

switched-state :
    (s : Sched) (next a : ℕ)
    → ((switched s next).threads a).state ≡ (if next == a then running else (s.threads a).state)
unfolding switched
switched-state s next a = ground arith

switch_to-other :
    (s : Sched) (next : ℕ)
    → next ≢ s.current
    → next ≢ null
    → s.current ≢ null
    → switch_to s next ≡ some (switched s next)
unfolding switch_to switched
switch_to-other s next h k l = ground arith

switch_to_self : (s : Sched) (next : ℕ) → next ≡ s.current → switch_to s next ≡ some s
unfolding switch_to
switch_to_self s next h = ground arith

-- A switch to a thread that does not wait keeps the description.
switched-Represents :
    (s : Sched) (next : ℕ) (marked : Bool) (xs : List ℕ)
    → Mid s marked xs
    → next ≢ null
    → has next xs ≡ false
    → Represents (switched s next) (record { current = next; marked = true; waiting = xs })
unfolding switched
switched-Represents s next marked xs mid ne out = record {
  queue =
      IsQueue-frame s.threads (switched s next).threads s.run_queue xs (switched-links s next)
        mid.queue;
  current = refl;
  marked = rw (switched-state s next next) (ground arith);
  ready_all = λ a m. rw (switched-state s next a) (ground (arith, mid.ready_all a));
  current_out = out;
  idle_out = mid.idle_out;
  bootstrap_out = mid.bootstrap_out;
  current_ne = ne;
  idle_ne = mid.idle_ne;
}

-- Staying with the current thread keeps the description, if it does not wait.
kept-Represents :
    (s : Sched) (marked : Bool) (xs : List ℕ)
    → Mid s marked xs
    → has s.current xs ≡ false
    → Represents s (record { current = s.current; marked = marked; waiting = xs })
kept-Represents s marked xs mid out = record {
  queue = mid.queue;
  current = refl;
  marked = mid.is_marked;
  ready_all = mid.ready_all;
  current_out = out;
  idle_out = mid.idle_out;
  bootstrap_out = mid.bootstrap_out;
  current_ne = mid.current_ne;
  idle_ne = mid.idle_ne;
}

pub switch_to-EndsIn :
    (s : Sched) (next : ℕ) (marked : Bool) (xs : List ℕ)
    → Mid s marked xs
    → next ≢ null
    → has next xs ≡ false
    → EndsIn s (switch_to s next) (
        if next == s.current
        then record { current = s.current; marked = marked; waiting = xs }
        else record { current = next; marked = true; waiting = xs })
switch_to-EndsIn s next marked xs mid ne out = elim (Bool-cases (next == s.current)) [
  | inl same ↦
      let e : next ≡ s.current = ground arith in
      rw (same, switch_to_self s next e)
        (s, refl, kept-Represents s marked xs mid (rw e at out), refl, refl)
  | inr other ↦
      rw (other, switch_to-other s next (ground arith) ne mid.current_ne)
        (
          switched s next,
          refl,
          switched-Represents s next marked xs mid ne out,
          unfold switched in refl,
          unfold switched in refl,
        )
]
