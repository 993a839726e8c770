-- ===== src/Controller/Order.antt =====
-- Kernel/Core/KernelMain.cpp: which function acknowledges interrupts after the start.
use objective_hail_os.Prelude.{ℕ, ◌≡◌, ◌≢◌, Bool, [], ◌∷◌, arith}
use objective_hail_os.Interrupts.{
  eoi_call, set_eoi_emitter, init_interrupt_dispatch, emit_eoi, default_eoi,
}
use objective_hail_os.Controller.{Controllers, apic_controller, start_interrupts}

-- The constructor of the controller sets the function that acknowledges interrupts, and the
-- initialization of the dispatch, which `main` calls after it, takes it back: from then on interrupts
-- are acknowledged by the function for the case that none was set.
pub emitter_lost :
    (present : Bool) (end_of_interrupt : ℕ) (c : Controllers) (msr : ℕ)
    → end_of_interrupt ≢ 0
    → (emit_eoi msr (apic_controller present end_of_interrupt c).tables
        ≡ eoi_call end_of_interrupt ∷ [])
      × (emit_eoi msr (start_interrupts present end_of_interrupt c).tables ≡ default_eoi msr)
unfolding emit_eoi apic_controller start_interrupts init_interrupt_dispatch set_eoi_emitter
emitter_lost present end_of_interrupt c msr real = (ground arith, ground arith)
