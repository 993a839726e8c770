-- ===== src/Interrupts.antt =====
-- Kernel/Arch/x86_64/CPU/Interrupt/InterruptDispatch.{hpp,cpp} with the vector tests and end-of-interrupt
-- writes of PIC/PIC.hpp. A function is its address and 0 is the null pointer. What an interrupt does to
-- devices and which functions it calls is the list of effects, in order; the effects of a handler's own
-- body are a parameter.
pub mod Eoi
pub mod Irq0
pub mod Register
pub mod Timer
use objective_hail_os.Prelude.{
  ℕ, zero, suc, ◌+◌, ◌^◌, ◌%◌, bit_and, Bool, true, false, not, ◌&&◌, ◌||◌, List, [], ◌∷◌, ◌++◌,
  ltb, leb, ◌==◌, if◌then◌else◌, update,
}
use objective_hail_os.Prelude.Words.{u64}

abbrev pub irq_base : ℕ
irq_base = 0x20

abbrev pub vec_pit_irq : ℕ
vec_pit_irq = 0x62

abbrev pub vec_timer : ℕ
vec_timer = 0x60

abbrev pub vec_error : ℕ
vec_error = 0x61

abbrev pub vec_spurious : ℕ
vec_spurious = 0xff

pub record InterruptFrame : Type 0 where
  pub rip : ℕ
  pub cs : ℕ
  pub rflags : ℕ
  pub rsp : ℕ
  pub ss : ℕ

pub record InterruptEvent : Type 0 where
  pub vector : ℕ
  pub has_error_code : Bool
  pub error_code : ℕ
  pub frame : InterruptFrame
  pub count : ℕ

-- A port write, a 32-bit write to a device register, a call of the logger, a call of an end-of-interrupt
-- function, a call of a handler, and the two changes that the timer's handler makes.
pub data Effect : Type 0 where
  out8 : ℕ → ℕ → Effect
  mmio_write : ℕ → ℕ → Effect
  log_call : ℕ → InterruptEvent → Effect
  eoi_call : ℕ → Effect
  handler_call : ℕ → Effect
  tick_count_up : Effect
  timer_tick : Effect

-- The static variables of InterruptDispatch.cpp.
pub record Tables : Type 0 where
  pub handlers : ℕ → ℕ
  pub vector_counts : ℕ → ℕ
  pub eoi : ℕ
  pub logger : ℕ

-- `PIC::EOIMaster` and `PIC::EOISlave`.
abbrev pub eoi_master : List Effect
eoi_master = out8 0x20 0x20 ∷ []

abbrev pub eoi_slave : List Effect
eoi_slave = out8 0xa0 0x20 ∷ out8 0x20 0x20 ∷ []

-- `PIC::IsMasterVector` and `PIC::IsSlaveVector`.
unfoldable pub is_master_vector : ℕ → Bool
is_master_vector vec = leb 0x20 vec && leb vec 0x27

unfoldable pub is_slave_vector : ℕ → Bool
is_slave_vector vec = leb 0x28 vec && leb vec 0x2f

-- `NeedsEOI`.
unfoldable pub needs_eoi : ℕ → Bool
needs_eoi vec =
    if vec == vec_spurious
    then false
    else (if vec == vec_timer || vec == vec_error then true else leb irq_base vec && leb vec 0xfe)

-- `DefaultEOI`; `msr` is the value of IA32_APIC_BASE.
unfoldable pub default_eoi : ℕ → List Effect
default_eoi msr = mmio_write (u64 (bit_and msr 0xfffff000 + 0xb0)) 0 ∷ []

-- `EmitEOI`.
unfoldable pub emit_eoi : ℕ → Tables → List Effect
emit_eoi msr t = if t.eoi == 0 then default_eoi msr else eoi_call t.eoi ∷ []

-- A loop that sets the entries from `i` on to 0, with `left` rounds left.
unfoldable pub clear_loop : ℕ → ℕ → (ℕ → ℕ) → ℕ → ℕ
clear_loop zero i m = m
clear_loop (suc left) i m = clear_loop left (i + 1) (update m i 0)

-- `InitInterruptDispatch`.
unfoldable pub init_interrupt_dispatch : Tables → Tables
init_interrupt_dispatch t = record {
  handlers = clear_loop 256 0 t.handlers;
  vector_counts = clear_loop 256 0 t.vector_counts;
  eoi = 0;
  logger = 0;
}

-- `SetEOIEmitter` and `SetInterruptEventLogger`.
unfoldable pub set_eoi_emitter : Tables → ℕ → Tables
set_eoi_emitter t fn = record t { eoi = fn }

unfoldable pub set_interrupt_event_logger : Tables → ℕ → Tables
set_interrupt_event_logger t fn = record t { logger = fn }

-- `RegisterInterruptHandler`.
unfoldable pub register_interrupt_handler : Tables → ℕ → ℕ → Tables × Bool
register_interrupt_handler t vector fn =
    if fn == 0 then (t, false) else (record t { handlers = update t.handlers vector fn }, true)

-- `UnregisterInterruptHandler`.
unfoldable pub unregister_interrupt_handler : Tables → ℕ → ℕ → Tables × Bool
unregister_interrupt_handler t vector fn =
    if not (t.handlers vector == fn)
    then (t, false)
    else (record t { handlers = update t.handlers vector 0 }, true)

-- `GetVectorCount` and `ResetVectorCounts`.
unfoldable pub get_vector_count : Tables → ℕ → ℕ
get_vector_count t vector = t.vector_counts vector

unfoldable pub reset_vector_counts : Tables → Tables
reset_vector_counts t = record t { vector_counts = clear_loop 256 0 t.vector_counts }

-- The end-of-interrupt part of `Dispatch`.
unfoldable pub dispatch_eoi : ℕ → Tables → ℕ → List Effect
unfolding is_slave_vector is_master_vector needs_eoi
dispatch_eoi msr t vec =
    if needs_eoi vec
    then (if vec == vec_pit_irq
        then eoi_master
        else (if is_slave_vector vec
            then eoi_slave
            else (if is_master_vector vec then eoi_master else [])))
      ++ emit_eoi msr t
    else []

-- `Dispatch`: the new tables and the effects. `body fn` are the effects of the function at `fn`.
module _ (msr : ℕ) (body : ℕ → InterruptFrame → Bool → ℕ → List Effect) where
  unfoldable pub dispatch : Tables → ℕ → InterruptFrame → Bool → ℕ → Tables × List Effect
  dispatch t vec frame has_error error =
      let count = u64 (t.vector_counts vec + 1) in
      let t' : Tables = record t { vector_counts = update t.vector_counts vec count } in
      let logged : List Effect =
        if not (t.logger == 0) && count == 1
        then log_call t.logger (record {
          vector = vec;
          has_error_code = has_error;
          error_code = error;
          frame = frame;
          count = count;
        })
          ∷ []
        else [] in
      let fn = t.handlers vec in
      let handled : List Effect =
        if fn == 0 then [] else handler_call fn ∷ body fn frame has_error error in
      (t', logged ++ (handled ++ dispatch_eoi msr t' vec))

  -- The stubs `Handler0` to `Handler255`: DEF_ERR passes the error code of the CPU on, DEF_NOERR
  -- passes 0.
  unfoldable pub handler_stub : (n : ℕ) → Bool → Tables → InterruptFrame → ℕ → Tables × List Effect
  handler_stub n true t frame ec = dispatch t n frame true ec
  handler_stub n false t frame ec = dispatch t n frame false 0

-- Which of the stubs 0 to 31 are declared by DEF_ERR; 32 to 255 are all DEF_NOERR.
unfoldable pub stub_has_error : ℕ → Bool
stub_has_error n = (n == 8) || (leb 10 n && leb n 14) || (n == 17) || (n == 30)

-- The stub of vector `n` as it is declared.
module _ (msr : ℕ) (body : ℕ → InterruptFrame → Bool → ℕ → List Effect) where
  unfoldable pub handler : (n : ℕ) → Tables → InterruptFrame → ℕ → Tables × List Effect
  unfolding stub_has_error handler_stub
  handler n t frame ec = handler_stub msr body n (stub_has_error n) t frame ec
