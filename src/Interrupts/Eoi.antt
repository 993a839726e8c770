-- ===== src/Interrupts/Eoi.antt =====
-- Kernel/Arch/x86_64/CPU/Interrupt/InterruptDispatch.cpp: acknowledgements at the local APIC.
use objective_hail_os.Prelude.{
  ℕ, ◌+◌, ◌≡◌, ◌∙◌, Bool, true, false, not, ◌&&◌, List, [], ◌∷◌, ◌++◌, arith, ltb, leb, ◌==◌, inl,
  inr, Bool-cases, if◌then◌else◌, bit_and, update,
}
use objective_hail_os.Prelude.Words.{u64}
use objective_hail_os.Interrupts.{
  InterruptFrame, InterruptEvent, Effect, mmio_write, log_call, eoi_call, handler_call, Tables,
  default_eoi, emit_eoi, dispatch_eoi, dispatch, handler, handler_stub, stub_has_error,
}

-- The address of the EOI register of the local APIC.
abbrev pub apic_eoi : ℕ → ℕ
apic_eoi msr = u64 (bit_and msr 0xfffff000 + 0xb0)

-- The effect ends an interrupt at the local APIC: a write to its EOI register, or a call of the
-- function that was set for this.
abbrev pub is_apic_eoi : ℕ → Effect → Bool
is_apic_eoi msr (mmio_write a v) = a == apic_eoi msr
is_apic_eoi msr (eoi_call fn) = true
is_apic_eoi msr _ = false

-- How many of the effects do so.
abbrev pub count_eoi : ℕ → List Effect → ℕ
count_eoi msr [] = 0
count_eoi msr (e ∷ es) = (if is_apic_eoi msr e then 1 else 0) + count_eoi msr es

pub count_eoi-append :
    (msr : ℕ) (xs ys : List Effect) → count_eoi msr (xs ++ ys) ≡ count_eoi msr xs + count_eoi msr ys
count_eoi-append msr [] ys = omega arith
count_eoi-append msr (x ∷ xs) ys = omega (arith, count_eoi-append msr xs ys)

-- The vectors from the first IRQ up to the spurious vector, that one excluded.
abbrev pub is_acknowledged : ℕ → Bool
is_acknowledged vec = leb 0x20 vec && ltb vec 0xff

emit_eoi-count : (msr : ℕ) (t : Tables) → count_eoi msr (emit_eoi msr t) ≡ 1
unfolding emit_eoi default_eoi
emit_eoi-count msr t = ground arith

dispatch_eoi-count :
    (msr : ℕ) (t : Tables) (vec : ℕ)
    → count_eoi msr (dispatch_eoi msr t vec) ≡ (if is_acknowledged vec then 1 else 0)
unfolding dispatch_eoi
dispatch_eoi-count msr t vec = ground (arith, emit_eoi-count msr t)

module _ (msr : ℕ) (body : ℕ → InterruptFrame → Bool → ℕ → List Effect) where
  -- How often the handler's own body acknowledges; without a handler, not at all.
  abbrev pub own_eoi : Tables → ℕ → InterruptFrame → Bool → ℕ → ℕ
  own_eoi t vec frame has_error error =
      if t.handlers vec == 0 then 0 else count_eoi msr (body (t.handlers vec) frame has_error error)

  -- The effects of `Dispatch` acknowledge an interrupt at the local APIC as often as the body of
  -- the vector's handler does, and once more if the vector is from 0x20 to 0xFE.
  pub dispatch-count_eoi :
      (t : Tables) (vec : ℕ) (frame : InterruptFrame) (has_error : Bool) (error : ℕ)
      → count_eoi msr (dispatch msr body t vec frame has_error error).1
        ≡ own_eoi t vec frame has_error error + (if is_acknowledged vec then 1 else 0)
  unfolding dispatch
  dispatch-count_eoi t vec frame has_error error =
      let count = u64 (t.vector_counts vec + 1) in
      let t' : Tables = record t { vector_counts = update t.vector_counts vec count } in
      let ev : InterruptEvent = record {
        vector = vec;
        has_error_code = has_error;
        error_code = error;
        frame = frame;
        count = count;
      } in
      let logged : List Effect =
        if not (t.logger == 0) && count == 1 then log_call t.logger ev ∷ [] else [] in
      let fn = t.handlers vec in
      let handled : List Effect =
        if fn == 0 then [] else handler_call fn ∷ body fn frame has_error error in
      let none_logged : count_eoi msr logged ≡ 0 = ground arith in
      let own : count_eoi msr handled ≡ own_eoi t vec frame has_error error = ground arith in
      count_eoi-append msr logged (handled ++ dispatch_eoi msr t' vec)
      ∙ omega (
        arith,
        none_logged,
        own,
        count_eoi-append msr handled (dispatch_eoi msr t' vec),
        dispatch_eoi-count msr t' vec,
      )

  -- The effects of a vector's stub acknowledge at the local APIC as often as the body of its
  -- handler does, run with the CPU's error code if the stub is one with an error code and else
  -- with 0, and once more if the vector is from 0x20 to 0xFE.
  pub handler-count_eoi :
      (n : ℕ) (t : Tables) (frame : InterruptFrame) (ec : ℕ)
      → count_eoi msr (handler msr body n t frame ec).1
        ≡ own_eoi t n frame (stub_has_error n) (if stub_has_error n then ec else 0)
          + (if is_acknowledged n then 1 else 0)
  unfolding handler handler_stub
  handler-count_eoi n t frame ec = elim (Bool-cases (stub_has_error n)) [
    | inl with_error ↦ rw with_error (dispatch-count_eoi t n frame true ec)
    | inr without ↦ rw without (dispatch-count_eoi t n frame false 0)
  ]
