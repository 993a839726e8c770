-- ===== src/Interrupts/Timer.antt =====
-- Kernel/Arch/x86_64/Interrupts/TimerHandler.cpp under InterruptDispatch.cpp.
use objective_hail_os.Prelude.{
  ℕ, ◌+◌, ◌≡◌, ◌≢◌, ◌∙◌, Bool, false, List, [], ◌∷◌, arith, ◌==◌, if◌then◌else◌, bit_and, ap,
}
use objective_hail_os.Prelude.Words.{u64}
use objective_hail_os.Interrupts.{
  InterruptFrame, Effect, mmio_write, tick_count_up, timer_tick, Tables, vec_timer, dispatch,
  register_interrupt_handler,
}
use objective_hail_os.Interrupts.Eoi.{count_eoi, dispatch-count_eoi}

-- `APIC::EndOfInterrupt`: a write to the register at 0xB0, if the APIC is mapped at `lapic`.
unfoldable pub end_of_interrupt : ℕ → List Effect
end_of_interrupt lapic = if lapic == 0 then [] else mmio_write (u64 (lapic + 0xb0)) 0 ∷ []

-- `OnTimer`.
unfoldable pub on_timer : ℕ → List Effect
unfolding end_of_interrupt
on_timer lapic = tick_count_up ∷ timer_tick ∷ end_of_interrupt lapic

-- `InitTimerHandler`; `on_timer_fn` is the address of `OnTimer`.
unfoldable pub init_timer_handler : ℕ → Tables → ℕ → Tables
init_timer_handler on_timer_fn t vec = (register_interrupt_handler t vec on_timer_fn).0

-- With `OnTimer` installed as the timer's handler and the APIC mapped where its base register
-- says, not at 0, one timer interrupt is acknowledged twice at the APIC.
pub timer_acknowledged_twice :
    (msr lapic fn : ℕ) (body : ℕ → InterruptFrame → Bool → ℕ → List Effect) (t : Tables)
    (frame : InterruptFrame)
    → fn ≢ 0
    → lapic ≢ 0
    → lapic ≡ bit_and msr 0xfffff000
    → body fn frame false 0 ≡ on_timer lapic
    → count_eoi msr
        (dispatch msr body (init_timer_handler fn t vec_timer) vec_timer frame false 0).1
      ≡ 2
unfolding on_timer init_timer_handler register_interrupt_handler
timer_acknowledged_twice msr lapic fn body t frame ne mapped at_base own =
    dispatch-count_eoi msr body (init_timer_handler fn t vec_timer) vec_timer frame false 0
    ∙ ground (arith, ap (λ (es : List Effect). count_eoi msr es) own)
