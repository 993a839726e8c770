-- ===== src/Context/Resume.antt =====
-- Kernel/Arch/x86_64/CPU/SwitchContext.S with PrepareInitialStack of Thread.cpp: what runs after a switch.
use objective_hail_os.Prelude.{
  ℕ, ◌+◌, ◌-◌, ◌%◌, ◌^◌, ◌≤◌, ◌<◌, ◌≡◌, ◌≢◌, refl, ◌∙◌, ap, arith, update, update_ne, update_self,
  inl, inr, ◌⊎◌,
}
use objective_hail_os.Context.{
  Registers, Machine, below, push_frame, switch_context, prepare_initial_stack,
}
use objective_hail_os.Context.Frame.{
  Saved, Apart, pop_frame-Saved, push_frame-Saved, push_frame-Apart,
}

-- The switch leaves the frame of `r` at `sp` alone: neither its pushes nor the store of the stack
-- pointer lie in it.
pub record Spares (m : Machine) (out sp : ℕ) : Type 0 where
  pub room : 48 ≤ m.registers.rsp
  pub fits : m.registers.rsp < 2 ^ 64
  pub pushes : (a : ℕ) → sp ≤ a → a < sp + 56 → Apart (m.registers.rsp - 48) a
  pub stores : (out < sp) ⊎ (sp + 56 ≤ out)

-- A frame is kept where its seven words are.
pub Saved-frame :
    (words words' : ℕ → ℕ) (sp : ℕ) (r : Registers)
    → ((a : ℕ) → sp ≤ a → a < sp + 56 → words' a ≡ words a)
    → Saved words sp r
    → Saved words' sp r
Saved-frame words words' sp r kept saved = record {
  at_r15 = kept sp (omega arith) (omega arith) ∙ saved.at_r15;
  at_r14 = kept (sp + 8) (omega arith) (omega arith) ∙ saved.at_r14;
  at_r13 = kept (sp + 16) (omega arith) (omega arith) ∙ saved.at_r13;
  at_r12 = kept (sp + 24) (omega arith) (omega arith) ∙ saved.at_r12;
  at_rbx = kept (sp + 32) (omega arith) (omega arith) ∙ saved.at_rbx;
  at_rbp = kept (sp + 40) (omega arith) (omega arith) ∙ saved.at_rbp;
  at_rip = kept (sp + 48) (omega arith) (omega arith) ∙ saved.at_rip;
}

-- Loading from a frame that the switch itself spares.
pub switch_context-Saved :
    (m : Machine) (out sp : ℕ) (r : Registers)
    → Spares m out sp
    → sp + 56 < 2 ^ 64
    → Saved m.words sp r
    → (switch_context m out sp).registers ≡ record r { rsp = sp + 56 }
unfolding switch_context
switch_context-Saved m out sp r spares h saved =
    pop_frame-Saved sp
      (update (push_frame m.registers m.words).1 out (push_frame m.registers m.words).0) r h
      (Saved-frame m.words
        (update (push_frame m.registers m.words).1 out (push_frame m.registers m.words).0) sp r kept
        saved)
  where
    kept :
        (a : ℕ)
        → sp ≤ a
        → a < sp + 56
        → update (push_frame m.registers m.words).1 out (push_frame m.registers m.words).0 a
          ≡ m.words a
    kept a lo hi =
        let other : out ≢ a = ground (arith, spares.stores) in
        update_ne (push_frame m.registers m.words).1 out a (push_frame m.registers m.words).0 other
        ∙ push_frame-Apart m.registers m.words a spares.room spares.fits (spares.pushes a lo hi)

-- The registers in which a new thread starts.
abbrev pub fresh : (rip rsp : ℕ) → Registers
fresh rip rsp = record {
  rbp = 0;
  rbx = 0;
  r12 = 0;
  r13 = 0;
  r14 = 0;
  r15 = 0;
  rsp = rsp;
  rip = rip;
}

-- What a new stack leaves alone.
pub initial_apart :
    (trampoline top : ℕ) (words : ℕ → ℕ) (a : ℕ)
    → 64 ≤ top
    → top < 2 ^ 64
    → (a < top - 64) ⊎ (top ≤ a)
    → (prepare_initial_stack trampoline top words).1 a ≡ words a
unfolding prepare_initial_stack
initial_apart trampoline top words a h lt out =
    let e1 : below top ≡ top - 8 = omega arith in
    let e2 : below (top - 8) ≡ top - 16 = omega arith in
    let e3 : below (top - 16) ≡ top - 24 = omega arith in
    let e4 : below (top - 24) ≡ top - 32 = omega arith in
    let e5 : below (top - 32) ≡ top - 40 = omega arith in
    let e6 : below (top - 40) ≡ top - 48 = omega arith in
    let e7 : below (top - 48) ≡ top - 56 = omega arith in
    let e8 : below (top - 56) ≡ top - 64 = omega arith in
    rw (e1, e2, e3, e4, e5, e6, e7, e8) (ground arith)

-- The frame of a new stack.
pub initial-Saved :
    (trampoline top : ℕ) (words : ℕ → ℕ)
    → 64 ≤ top
    → top < 2 ^ 64
    → ((prepare_initial_stack trampoline top words).0 ≡ top - 64)
      × Saved (prepare_initial_stack trampoline top words).1 (top - 64) (fresh trampoline 0)
unfolding prepare_initial_stack
initial-Saved trampoline top words h lt =
    let e1 : below top ≡ top - 8 = omega arith in
    let e2 : below (top - 8) ≡ top - 16 = omega arith in
    let e3 : below (top - 16) ≡ top - 24 = omega arith in
    let e4 : below (top - 24) ≡ top - 32 = omega arith in
    let e5 : below (top - 32) ≡ top - 40 = omega arith in
    let e6 : below (top - 40) ≡ top - 48 = omega arith in
    let e7 : below (top - 48) ≡ top - 56 = omega arith in
    let e8 : below (top - 56) ≡ top - 64 = omega arith in
    rw (e1, e2, e3, e4, e5, e6, e7, e8)
      (
        refl,
        record {
          at_r15 = ground arith;
          at_r14 = ground arith;
          at_r13 = ground arith;
          at_r12 = ground arith;
          at_rbx = ground arith;
          at_rbp = ground arith;
          at_rip = ground arith;
        },
      )

-- The first switch to a thread whose stack `PrepareInitialStack` filled, from a machine that still has
-- the words of that frame, and whose own frame and saved stack pointer lie elsewhere, starts the
-- trampoline with the stack aligned as after a call, with zero in the registers that a called function
-- keeps.
pub first_switch :
    (m : Machine) (out trampoline top : ℕ) (words : ℕ → ℕ)
    → 64 ≤ top
    → top < 2 ^ 64
    → top % 16 ≡ 0
    → ((a : ℕ)
        → top - 64 ≤ a
        → a < top
        → m.words a ≡ (prepare_initial_stack trampoline top words).1 a)
    → Spares m out (top - 64)
    → let r = (switch_context m out (prepare_initial_stack trampoline top words).0).registers in
      (r ≡ fresh trampoline (top - 8)) × ((top - 8 + 8) % 16 ≡ 0)
first_switch m out trampoline top words h lt aligned same spares =
    let (sp, saved) = initial-Saved trampoline top words h lt in
    let at : top - 64 + 56 ≡ top - 8 = omega arith in
    let kept =
      Saved-frame (prepare_initial_stack trampoline top words).1 m.words (top - 64)
        (fresh trampoline 0) (λ a lo hi. same a lo (omega arith)) saved in
    (
      ap (λ (a : ℕ). (switch_context m out a).registers) sp
          ∙ switch_context-Saved m out (top - 64) (fresh trampoline 0) spares (omega arith) kept
          ∙ ap (fresh trampoline) at,
      omega arith,
    )

-- The memory after a switch.
stored_pointer :
    (m : Machine) (out new_rsp : ℕ)
    → (switch_context m out new_rsp).words out ≡ (push_frame m.registers m.words).0
unfolding switch_context
stored_pointer m out new_rsp =
    update_self (push_frame m.registers m.words).1 out (push_frame m.registers m.words).0

stored_elsewhere :
    (m : Machine) (out new_rsp a : ℕ)
    → out ≢ a
    → (switch_context m out new_rsp).words a ≡ (push_frame m.registers m.words).1 a
unfolding switch_context
stored_elsewhere m out new_rsp a ne =
    update_ne (push_frame m.registers m.words).1 out a (push_frame m.registers m.words).0 ne

-- A thread that was switched away, with the return address of its call on top of its stack, goes on at
-- that address with its registers as they were, when a later switch loads the stack pointer that was
-- stored: whatever the memory holds then, if the thread's frame and the stored pointer are as they were,
-- and the later switch spares them.
pub resume :
    (m m' : Machine) (out out' new_rsp : ℕ)
    → 48 ≤ m.registers.rsp
    → m.registers.rsp + 8 < 2 ^ 64
    → m.words m.registers.rsp ≡ m.registers.rip
    → (out < m.registers.rsp - 48) ⊎ (m.registers.rsp + 8 ≤ out)
    → ((a : ℕ)
        → ((m.registers.rsp - 48 ≤ a) × (a < m.registers.rsp + 8)) ⊎ (a ≡ out)
        → m'.words a ≡ (switch_context m out new_rsp).words a)
    → Spares m' out' (m.registers.rsp - 48)
    → (switch_context m' out' (m'.words out)).registers
      ≡ record m.registers { rsp = m.registers.rsp + 8 }
resume m m' out out' new_rsp h lt ret apart same spares =
    let sp = m.registers.rsp - 48 in
    let (pushed, saved) = push_frame-Saved m.registers m.words h (omega arith) ret in
    let stored : m'.words out ≡ sp = same out (inr refl) ∙ stored_pointer m out new_rsp ∙ pushed in
    let kept : (a : ℕ) → sp ≤ a → a < sp + 56 → m'.words a ≡ (push_frame m.registers m.words).1 a =
      λ a lo hi. same a (inl (lo, omega arith)) ∙ stored_elsewhere m out new_rsp a (ground arith) in
    let back : sp + 56 ≡ m.registers.rsp + 8 = omega arith in
    ap (λ (a : ℕ). (switch_context m' out' a).registers) stored
    ∙ switch_context-Saved m' out' sp m.registers spares (omega arith)
        (Saved-frame (push_frame m.registers m.words).1 m'.words sp m.registers kept saved)
    ∙ ap (λ (a : ℕ). record m.registers { rsp = a }) back
