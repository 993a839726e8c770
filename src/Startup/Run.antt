-- ===== src/Startup/Run.antt =====
-- KernelStartThreads of Kernel/Core/KernelMain.cpp: from the empty queue to the first thread.
use mathlib.Core.Bool.{true≢false}
use mathlib.Core.Path.{subst}
use mathlib.Core.Option.{some-injective, none-ne-some}
use objective_hail_os.Prelude.{
  ℕ, ◌≡◌, ◌≢◌, refl, sym, ◌∙◌, ap, inl, inr, true, false, some, [], ◌∷◌, arith, ◌==◌, update,
  Bool-cases, Option-cases,
}
use objective_hail_os.RunQueue.{Thread, RunQueue}
use objective_hail_os.Scheduler.{Sched, is_running}
use objective_hail_os.Scheduler.View.{View, Represents, view_yield, take_next}
use objective_hail_os.Scheduler.Refine.{yield_cpu-Represents}
use objective_hail_os.Startup.{
  Kernel, constructed, new_thread, create, create_and_enqueue, with_bootstrap, with_idle,
  init_threads, kernel_start_threads,
}
use objective_hail_os.Startup.Create.{
  new_thread_lem, Created, create-Created, create_and_enqueue-Enqueued,
}

-- The step of a bootstrap thread.
first_of :
    (idle bootstrap a b boot : ℕ)
    → bootstrap ≡ boot
    → boot ≢ a
    → view_yield idle bootstrap (record { current = boot; marked = true; waiting = a ∷ b ∷ [] })
      ≡ record { current = a; marked = true; waiting = b ∷ [] }
unfolding view_yield take_next
first_of idle bootstrap a b boot same ne =
    let at_boot : (boot == bootstrap) ≡ true = ground arith in
    let other : (a == boot) ≡ false = ground arith in
    elim (Bool-cases (boot == idle)) [
      | inl t ↦ rw (t, other) refl
      | inr t ↦ rw (t, at_boot, other) refl
    ]

module _ (size object_size trampoline cpu : ℕ) where
  with_idle-Represents :
      (k : Kernel) (boot idle : ℕ × Kernel) (boot_name : ℕ)
      → k.sched.run_queue ≡ record { head = 0; tail = 0 }
      → (boot.0 ≢ 0)
        × (boot.1.sched ≡ record k.sched { threads = update k.sched.threads boot.0 constructed })
      → Created (with_bootstrap size object_size trampoline cpu boot boot_name) idle
      → idle.0 ≢ 0
      → boot.0 ≢ idle.0
      → let s = (with_idle idle).sched in
        Represents s (record { current = boot.0; marked = true; waiting = [] })
        × (s.bootstrap ≡ boot.0)
  with_idle-Represents k boot idle boot_name empty made c got apart =
      let given : idle.0 ≡ c.address = elim c.pointer [
        | inl null ↦ absurd (got null)
        | inr e ↦ e
      ] in
      let here = c.elsewhere boot.0 (λ e. apart (e ∙ sym given)) in
      let empty_still : boot.1.sched.run_queue ≡ record { head = 0; tail = 0 } =
        ap (λ (s : Sched). s.run_queue) made.1 ∙ empty in
      rw c.sched (
        record {
          queue = record {
            chain = (
              ap (λ (q : RunQueue). q.head) empty_still,
              ap (λ (q : RunQueue). q.tail) empty_still,
            );
            distinct = tt;
          };
          current = refl;
          marked = ap (λ (x : Thread). is_running x.state) here ∙ ground arith;
          ready_all = λ a m. absurd (true≢false (sym m));
          current_out = refl;
          idle_out = refl;
          bootstrap_out = refl;
          current_ne = made.0;
          idle_ne = got;
        },
        refl,
      )

  -- `Init` runs the bootstrap thread, and no other thread waits.
  init_threads-Represents :
      (k k1 : Kernel) (boot_name idle_name idle_main : ℕ)
      → k.sched.run_queue ≡ record { head = 0; tail = 0 }
      → init_threads size object_size trampoline cpu k boot_name idle_name idle_main ≡ some k1
      → k1.sched.idle ≢ 0
      → k1.sched.bootstrap ≢ k1.sched.idle
      → Represents k1.sched (record { current = k1.sched.bootstrap; marked = true; waiting = [] })
  unfolding init_threads
  init_threads-Represents k k1 boot_name idle_name idle_main empty done got apart =
      elim (Option-cases (new_thread size object_size trampoline cpu k)) [
        | inl panic ↦ absurd (none-ne-some k1 (rw (panic, init_threads) at done))
        | inr (boot, made) ↦
            let k0 = with_bootstrap size object_size trampoline cpu boot boot_name in
            elim (Option-cases
              (create size object_size trampoline cpu k0 idle_name idle_main 0 0)) [
                | inl panic ↦ absurd (none-ne-some k1 (rw (made, init_threads, panic) at done))
                | inr (idle, e) ↦
                    let same = some-injective _ k1 (rw (made, init_threads, e) at done) in
                    let c =
                      create-Created size object_size trampoline cpu k0 idle_name idle_main 0 0 idle
                        e in
                    let at : idle.1.sched.bootstrap ≡ boot.0 =
                      ap (λ (s : Sched). s.bootstrap) c.sched in
                    subst
                      (λ (x : Kernel).
                        x.sched.idle ≢ 0
                        → x.sched.bootstrap ≢ x.sched.idle
                        → Represents x.sched
                            (record { current = x.sched.bootstrap; marked = true; waiting = [] }))
                      same
                      (λ real other.
                        subst
                          (λ (b : ℕ).
                            Represents (with_idle idle).sched
                              (record { current = b; marked = true; waiting = [] }))
                          (sym at)
                          (with_idle-Represents k boot idle boot_name empty
                            (new_thread_lem size object_size trampoline cpu k boot made) c real
                            (λ same_address. other (at ∙ same_address))).0)
                      got apart
              ]
      ]

  -- `KernelStartThreads`, when the run queue is empty at its start, none of the four `new Thread()` panics,
  -- every creation returns its thread, and the four thread objects are different: `Start` goes through no
  -- null pointer and switches to the first thread, and the second one waits.
  pub kernel_start_threads_lem :
      (k k1 : Kernel) (a b : ℕ × Kernel)
      (boot_name idle_name idle_main a_name a_entry b_name b_entry : ℕ)
      → k.sched.run_queue ≡ record { head = 0; tail = 0 }
      → init_threads size object_size trampoline cpu k boot_name idle_name idle_main ≡ some k1
      → create_and_enqueue size object_size trampoline cpu k1 a_name a_entry 0 0 ≡ some a
      → create_and_enqueue size object_size trampoline cpu a.1 b_name b_entry 0 0 ≡ some b
      → (k1.sched.idle ≢ 0) × (a.0 ≢ 0) × (b.0 ≢ 0)
      → (k1.sched.bootstrap ≢ k1.sched.idle)
        × (k1.sched.bootstrap ≢ a.0)
        × (k1.sched.bootstrap ≢ b.0)
        × (k1.sched.idle ≢ a.0)
        × (k1.sched.idle ≢ b.0)
        × (a.0 ≢ b.0)
      → (s : Sched) × (kernel_start_threads size object_size trampoline cpu k boot_name idle_name
            idle_main a_name a_entry b_name b_entry
          ≡ some s)
        × Represents s (record { current = a.0; marked = true; waiting = b.0 ∷ [] })
  unfolding kernel_start_threads
  kernel_start_threads_lem k k1 a b boot_name idle_name idle_main a_name a_entry b_name b_entry
        empty started made_a made_b real apart =
      let boot = k1.sched.bootstrap in
      let is1 =
        init_threads-Represents k k1 boot_name idle_name idle_main empty started real.0 apart.0 in
      let v1 : View = record { current = boot; marked = true; waiting = [] } in
      let e2 =
        create_and_enqueue-Enqueued size object_size trampoline cpu k1 v1 a_name a_entry 0 0 a is1
          made_a real.1 in
      let is2 = e2.waits (record {
        not_null = real.1;
        not_current = λ e. apart.1 (sym is1.current ∙ e);
        not_idle = apart.3;
        not_bootstrap = apart.1;
        not_waiting = refl;
      }) in
      let v2 : View = record { current = boot; marked = true; waiting = a.0 ∷ [] } in
      let e3 =
        create_and_enqueue-Enqueued size object_size trampoline cpu a.1 v2 b_name b_entry 0 0 b is2
          made_b real.2 in
      let is3 = e3.waits (record {
        not_null = real.2;
        not_current = λ e. apart.2 (sym is2.current ∙ e);
        not_idle = λ e. apart.4 (sym e2.idle ∙ e);
        not_bootstrap = λ e. apart.2 (sym e2.bootstrap ∙ e);
        not_waiting = ground (arith, apart.5);
      }) in
      let v3 : View = record { current = boot; marked = true; waiting = a.0 ∷ b.0 ∷ [] } in
      let step = yield_cpu-Represents b.1.sched v3 is3 in
      (
        step.0,
        rw (started, made_a, made_b) step.1,
        rw
            (first_of b.1.sched.idle b.1.sched.bootstrap a.0 b.0 boot (e3.bootstrap ∙ e2.bootstrap)
              apart.1)
            at step.2,
      )
