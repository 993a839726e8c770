-- ===== src/Startup/Create.antt =====
-- Init and CreateAndEnqueue of Kernel/Core/Scheduler/Scheduler.cpp on the list of threads that wait.
use objective_hail_os.Prelude.{
  ℕ, ◌+◌, ◌≡◌, ◌≢◌, refl, sym, some, update, Bool-cases, Option-cases, ◌∙◌, ap, inl, inr, ◌⊎◌, true,
  false, List, [], ◌∷◌, ◌++◌, arith, ◌==◌, ℕ_discrete,
}
use mathlib.Core.Bool.{true≢false}
use mathlib.Core.Path.{subst}
use mathlib.Core.Option.{some-injective, none-ne-some}
use objective_hail_os.RunQueue.{Thread, Threads, RunQueue, ready}
use objective_hail_os.RunQueue.Chain.{has, IsQueue, Chain-frame}
use objective_hail_os.RunQueue.Refine.{has-snoc, push-IsQueue, push-state}
use objective_hail_os.Scheduler.{Sched, set_state, enqueue_ready, is_running}
use objective_hail_os.Scheduler.View.{View, Represents}
use objective_hail_os.Context.{create_kernel}
use objective_hail_os.Prelude.Words.{u64}
use objective_hail_os.PageAllocator.{nullptr, allocate_page_sized}
use objective_hail_os.OperatorNew.{header_size}
use objective_hail_os.Startup.{
  Kernel, constructed, new_thread, create_at, create, create_and_enqueue, enqueue_created,
}

-- Threads that differ at `t` alone, which does not wait, leave the queue as it is.
others-IsQueue :
    (th th' : Threads) (q : RunQueue) (t : ℕ) (xs : List ℕ)
    → ((a : ℕ) → a ≢ t → th' a ≡ th a)
    → has t xs ≡ false
    → IsQueue th q xs
    → IsQueue th' q xs
others-IsQueue th th' q t xs same out is = record {
  chain =
      Chain-frame th th' 0 q.head q.tail xs
        (λ a m.
          let ne : a ≢ t = λ e. true≢false (sym m ∙ ap (λ (x : ℕ). has x xs) e ∙ out) in
          (ap (λ (x : Thread). x.next) (same a ne), ap (λ (x : Thread). x.prev) (same a ne)))
        is.chain;
  distinct = is.distinct;
}

-- `t` is no thread of the scheduler yet.
pub record IsNew (s : Sched) (v : View) (t : ℕ) : Type 0 where
  pub not_null : t ≢ 0
  pub not_current : s.current ≢ t
  pub not_idle : s.idle ≢ t
  pub not_bootstrap : s.bootstrap ≢ t
  pub not_waiting : has t v.waiting ≡ false

module _ (s : Sched) (v : View) (t : ℕ) (th : Threads) (is : Represents s v) (new : IsNew s v t)
    (same : (a : ℕ) → a ≢ t → th a ≡ s.threads a) where
  changed-Represents : Represents (record s { threads = th }) v
  changed-Represents = record {
    queue = others-IsQueue s.threads th s.run_queue t v.waiting same new.not_waiting is.queue;
    current = is.current;
    marked = ap (λ (x : Thread). is_running x.state) (same s.current new.not_current) ∙ is.marked;
    ready_all = λ a m.
        let ne : a ≢ t =
          λ e. true≢false (sym m ∙ ap (λ (x : ℕ). has x v.waiting) e ∙ new.not_waiting) in
        ap (λ (x : Thread). x.state) (same a ne) ∙ is.ready_all a m;
    current_out = is.current_out;
    idle_out = is.idle_out;
    bootstrap_out = is.bootstrap_out;
    current_ne = is.current_ne;
    idle_ne = is.idle_ne;
  }

  enqueued-Represents :
      Represents
        (enqueue_ready (record s { threads = th }) t)
        (record v { waiting = v.waiting ++ t ∷ [] })
  unfolding enqueue_ready set_state
  enqueued-Represents =
      let th' = set_state th t ready in
      let queue =
        others-IsQueue s.threads th' s.run_queue t v.waiting (λ a ne. ground (arith, same a ne))
          new.not_waiting is.queue in
      record {
        queue = push-IsQueue th' s.run_queue t v.waiting queue new.not_null new.not_waiting;
        current = is.current;
        marked =
            ap is_running (push-state th' s.run_queue t s.current)
            ∙ ap is_running (ground (arith, new.not_current))
            ∙ ap (λ (x : Thread). is_running x.state) (same s.current new.not_current)
            ∙ is.marked;
        ready_all = λ a m. push-state th' s.run_queue t a ∙ elim (ℕ_discrete t a) [
          | yes own ↦ ground (arith, own)
          | no other ↦
              let ne : a ≢ t = λ e. other (sym e) in
              let waits : has a v.waiting ≡ true = ground (arith, has-snoc a t v.waiting, m) in
              ground arith ∙ ap (λ (x : Thread). x.state) (same a ne) ∙ is.ready_all a waits
        ];
        current_out =
            ground (arith, has-snoc s.current t v.waiting, is.current_out, new.not_current);
        idle_out = ground (arith, has-snoc s.idle t v.waiting, is.idle_out, new.not_idle);
        bootstrap_out =
            ground (arith, has-snoc s.bootstrap t v.waiting, is.bootstrap_out, new.not_bootstrap);
        current_ne = is.current_ne;
        idle_ne = is.idle_ne;
      }

-- The state after a creation: the scheduler but for the threads, and these but for the thread at `t`.
pub record Created (k : Kernel) (r : ℕ × Kernel) : Type 0 where
  pub address : ℕ
  pub threads : Threads
  pub pointer : (r.0 ≡ 0) ⊎ (r.0 ≡ address)
  pub sched : r.1.sched ≡ record k.sched { threads = threads }
  pub elsewhere : (a : ℕ) → a ≢ address → threads a ≡ k.sched.threads a

-- What `CreateAndEnqueue` leaves when it returns a thread.
pub record Enqueued (k : Kernel) (v : View) (r : ℕ × Kernel) : Type 0 where
  pub waits :
      IsNew k.sched v r.0 → Represents r.1.sched (record v { waiting = v.waiting ++ r.0 ∷ [] })
  pub current : r.1.sched.current ≡ k.sched.current
  pub idle : r.1.sched.idle ≡ k.sched.idle
  pub bootstrap : r.1.sched.bootstrap ≡ k.sched.bootstrap

module _ (size object_size trampoline cpu : ℕ) where
  -- `new Thread()` writes the new thread, not at the null pointer, and no other one.
  pub new_thread_lem :
      (k : Kernel) (made : ℕ × Kernel)
      → new_thread size object_size trampoline cpu k ≡ some made
      → (made.0 ≢ 0)
        × (made.1.sched ≡ record k.sched { threads = update k.sched.threads made.0 constructed })
  unfolding new_thread
  new_thread_lem k made e =
      let t = (allocate_page_sized size k.bitmap (u64 (object_size + header_size))).0 in
      elim (Bool-cases (t == nullptr)) [
        | inl null ↦ absurd (none-ne-some made (rw null at e))
        | inr real ↦
            let same = some-injective _ _ (rw real at e) in
            subst
              (λ (x : ℕ × Kernel).
                (x.0 ≢ 0)
                × (x.1.sched ≡ record k.sched { threads = update k.sched.threads x.0 constructed }))
              same ((λ z. true≢false (sym (ground (arith, z)) ∙ real)), refl)
      ]

  create_at_pointer :
      (k : Kernel) (t name entry arg stack_size : ℕ)
      → let r = create_at size object_size trampoline cpu k t name entry arg stack_size in
        (r.0 ≡ 0) ⊎ (r.0 ≡ t)
  unfolding create_at create_kernel
  create_at_pointer k t name entry arg stack_size = ground arith

  create_at_elsewhere :
      (k : Kernel) (t name entry arg stack_size a : ℕ)
      → a ≢ t
      → (create_at size object_size trampoline cpu k t name entry arg stack_size).1.sched.threads a
        ≡ k.sched.threads a
  unfolding create_at create_kernel
  create_at_elsewhere k t name entry arg stack_size a ne = ground arith

  create_at-Created :
      (k : Kernel) (made : ℕ × Kernel) (name entry arg stack_size : ℕ)
      → new_thread size object_size trampoline cpu k ≡ some made
      → Created k
          (create_at size object_size trampoline cpu made.1 made.0 name entry arg stack_size)
  unfolding create_at
  create_at-Created k made name entry arg stack_size e =
      let r = create_at size object_size trampoline cpu made.1 made.0 name entry arg stack_size in
      let is = (new_thread_lem k made e).1 in
      record {
        address = made.0;
        threads = r.1.sched.threads;
        pointer = create_at_pointer made.1 made.0 name entry arg stack_size;
        sched = ap (λ (s : Sched). record s { threads = r.1.sched.threads }) is;
        elsewhere = λ a ne.
            create_at_elsewhere made.1 made.0 name entry arg stack_size a ne
            ∙ ap (λ (s : Sched). s.threads a) is
            ∙ ground (arith, ne);
      }

  pub create-Created :
      (k : Kernel) (name entry arg stack_size : ℕ) (r : ℕ × Kernel)
      → create size object_size trampoline cpu k name entry arg stack_size ≡ some r
      → Created k r
  unfolding create
  create-Created k name entry arg stack_size r done =
      elim (Option-cases (new_thread size object_size trampoline cpu k)) [
        | inl panic ↦ absurd (none-ne-some r (rw (panic, create) at done))
        | inr (made, e) ↦
            subst (Created k) (some-injective _ r (rw (e, create) at done))
              (create_at-Created k made name entry arg stack_size e)
      ]

  enqueue_created-Enqueued :
      (k : Kernel) (v : View) (r : ℕ × Kernel)
      → Represents k.sched v
      → Created k r
      → r.0 ≢ 0
      → Enqueued k v (enqueue_created r)
  unfolding enqueue_ready
  enqueue_created-Enqueued k v r is c real =
      let test : (r.0 == 0) ≡ false = ground (arith, real) in
      let given : r.0 ≡ c.address = elim c.pointer [ inl null ↦ absurd (real null) | inr e ↦ e ] in
      rw (test, c.sched)
        (record {
          waits = λ new.
              enqueued-Represents k.sched v r.0 c.threads is new
                (λ a ne. c.elsewhere a (λ e. ne (e ∙ sym given)));
          current = refl;
          idle = refl;
          bootstrap = refl;
        })

  -- In a state that a view describes, a new thread that `CreateAndEnqueue` returns waits behind the others.
  pub create_and_enqueue-Enqueued :
      (k : Kernel) (v : View) (name entry arg stack_size : ℕ) (r : ℕ × Kernel)
      → Represents k.sched v
      → create_and_enqueue size object_size trampoline cpu k name entry arg stack_size ≡ some r
      → r.0 ≢ 0
      → Enqueued k v r
  unfolding create_and_enqueue
  create_and_enqueue-Enqueued k v name entry arg stack_size r is done real =
      elim (Option-cases (create size object_size trampoline cpu k name entry arg stack_size)) [
        | inl panic ↦ absurd (none-ne-some r (rw (panic, create_and_enqueue) at done))
        | inr (created, e) ↦
            let same = some-injective _ r (rw (e, create_and_enqueue) at done) in
            subst (Enqueued k v) same (
              enqueue_created-Enqueued k v created is
                (create-Created k name entry arg stack_size created e)
                (λ null. real (sym (ap (λ (x : ℕ × Kernel). x.0) same) ∙ null)))
      ]
