-- ===== src/Exceptions/Boot.antt =====
-- Kernel/Core/KernelMain.cpp with ExceptionHandlers.cpp and InterruptDispatch.cpp: what an exception of the
-- processor runs after the start.
use objective_hail_os.Prelude.{
  ℕ, ◌+◌, ◌<◌, ◌≡◌, ◌≢◌, refl, ◌∙◌, arith, Bool, true, List, [], ◌∷◌, ◌==◌, if◌then◌else◌, update,
  Bool-cases, inl, inr,
}
use mathlib.Core.List.{append-nil}
use objective_hail_os.Prelude.Words.{u64}
use objective_hail_os.Interrupts.{
  InterruptFrame, Effect, handler_call, Tables, vec_timer, init_interrupt_dispatch,
  register_interrupt_handler, needs_eoi, dispatch_eoi, dispatch, handler_stub, handler,
  stub_has_error,
}
use objective_hail_os.Interrupts.Timer.{init_timer_handler}
use objective_hail_os.Interrupts.Register.{init-cleared}
use objective_hail_os.Exceptions.{Functions, init_core_exception_handlers, boot_tables}

-- The function for a vector after the start.
abbrev pub installed : Functions → ℕ → ℕ
installed fns v =
    if v == 6
    then fns.on_ud
    else (if v == 8
        then fns.on_df
        else (if v == 13
            then fns.on_gp
            else (if v == 14 then fns.on_pf else (if v == vec_timer then fns.on_timer else 0))))

-- No function is at address 0.
pub record AreFunctions (fns : Functions) : Type 0 where
  pub ud : fns.on_ud ≢ 0
  pub df : fns.on_df ≢ 0
  pub gp : fns.on_gp ≢ 0
  pub pf : fns.on_pf ≢ 0
  pub timer : fns.on_timer ≢ 0

boot_handlers :
    (fns : Functions) (t : Tables) (v : ℕ)
    → AreFunctions fns
    → v < 256
    → (boot_tables fns t).handlers v ≡ installed fns v
unfolding boot_tables init_core_exception_handlers init_timer_handler register_interrupt_handler
boot_handlers fns t v real h =
    let cleared = (init-cleared t v h).0 in
    ground (arith, real.ud, real.df, real.gp, real.pf, real.timer, cleared)

boot_logger : (fns : Functions) (t : Tables) → AreFunctions fns → (boot_tables fns t).logger ≡ 0
unfolding boot_tables init_core_exception_handlers init_timer_handler register_interrupt_handler
    init_interrupt_dispatch
boot_logger fns t real = ground (arith, real.ud, real.df, real.gp, real.pf, real.timer)

no_eoi : (msr v : ℕ) (t : Tables) → v < 32 → dispatch_eoi msr t v ≡ []
unfolding dispatch_eoi needs_eoi
no_eoi msr t v h = ground arith

module _ (msr : ℕ) (body : ℕ → InterruptFrame → Bool → ℕ → List Effect) where
  -- What is left of a dispatch where there is no logger and no acknowledgement.
  dispatch_quiet :
      (t : Tables) (v : ℕ) (frame : InterruptFrame) (has_error : Bool) (ec : ℕ)
      → t.logger ≡ 0
      → v < 32
      → (dispatch msr body t v frame has_error ec).1 ≡ (
          if t.handlers v == 0
          then []
          else handler_call (t.handlers v) ∷ body (t.handlers v) frame has_error ec)
  unfolding dispatch
  dispatch_quiet t v frame has_error ec quiet h =
      let none_sent =
        no_eoi msr v
          (record t { vector_counts = update t.vector_counts v (u64 (t.vector_counts v + 1)) }) h in
      let no_logger : (t.logger == 0) ≡ true = ground (arith, quiet) in
      rw (no_logger, none_sent) (append-nil _)

  stub_quiet :
      (t : Tables) (v : ℕ) (frame : InterruptFrame) (ec : ℕ)
      → handler msr body v t frame ec
        ≡ dispatch msr body t v frame (stub_has_error v) (if stub_has_error v then ec else 0)
  unfolding handler handler_stub
  stub_quiet t v frame ec = elim (Bool-cases (stub_has_error v)) [
    | inl has ↦ rw has refl
    | inr without ↦ rw without refl
  ]

  -- After the calls of `main` that fill the handler table, an exception of the processor, a vector below
  -- 32, runs the function that was installed for it and nothing else, and nothing where none was
  -- installed: no interrupt is acknowledged and no logger is called. The function is told whether the
  -- vector has an error code, and gets the processor's, or 0 where there is none.
  pub handler-boot :
      (fns : Functions) (t : Tables) (v : ℕ) (frame : InterruptFrame) (ec : ℕ)
      → AreFunctions fns
      → v < 32
      → let fn = installed fns v in
        (handler msr body v (boot_tables fns t) frame ec).1 ≡ (
          if fn == 0
          then []
          else handler_call fn
            ∷ body fn frame (stub_has_error v) (if stub_has_error v then ec else 0))
  handler-boot fns t v frame ec real h =
      let at = boot_handlers fns t v real (omega arith) in
      let quiet = boot_logger fns t real in
      rw (stub_quiet (boot_tables fns t) v frame ec) (
        dispatch_quiet (boot_tables fns t) v frame (stub_has_error v)
          (if stub_has_error v then ec else 0) quiet h
        ∙ rw at refl)
