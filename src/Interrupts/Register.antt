-- ===== src/Interrupts/Register.antt =====
-- Kernel/Arch/x86_64/CPU/Interrupt/InterruptDispatch.cpp: the handler table and the vector counters.
use objective_hail_os.Prelude.{
  ℕ, zero, suc, ◌+◌, ◌^◌, ◌<◌, ◌≡◌, ◌≢◌, refl, ◌∙◌, Bool, true, false, ◌&&◌, List, [], ◌∷◌, arith,
  ltb, leb, ◌==◌, if◌then◌else◌, update,
}
use objective_hail_os.Prelude.Words.{u64}
use objective_hail_os.Interrupts.{
  InterruptFrame, Effect, Tables, clear_loop, init_interrupt_dispatch, register_interrupt_handler,
  unregister_interrupt_handler, get_vector_count, dispatch,
}

clear_loop_at :
    (n i j : ℕ) (m : ℕ → ℕ) → clear_loop n i m j ≡ (if leb i j && ltb j (i + n) then 0 else m j)
unfolding clear_loop
clear_loop_at zero i j m = ground arith
clear_loop_at (suc n) i j m = clear_loop_at n (i + 1) j (update m i 0) ∙ ground arith

-- After `InitInterruptDispatch` no vector has a handler and every counter is 0.
pub init-cleared :
    (t : Tables) (v : ℕ)
    → v < 256
    → ((init_interrupt_dispatch t).handlers v ≡ 0)
      × (get_vector_count (init_interrupt_dispatch t) v ≡ 0)
unfolding init_interrupt_dispatch get_vector_count
init-cleared t v h = (
  clear_loop_at 256 0 v t.handlers ∙ ground arith,
  clear_loop_at 256 0 v t.vector_counts ∙ ground arith,
)

-- Registering a function that is not null makes it the handler of its vector and changes no other
-- vector's; another function is then refused by unregistering, the same function is taken off,
-- which leaves the vector without a handler; registering null is refused and changes nothing.
pub register-unregister :
    (t : Tables) (vector fn other v : ℕ)
    → fn ≢ 0
    → other ≢ fn
    → let r = register_interrupt_handler t vector fn in
      (r.1 ≡ true)
      × (r.0.handlers v ≡ (if vector == v then fn else t.handlers v))
      × (unregister_interrupt_handler r.0 vector other ≡ (r.0, false))
      × ((unregister_interrupt_handler r.0 vector fn).1 ≡ true)
      × ((unregister_interrupt_handler r.0 vector fn).0.handlers v
          ≡ (if vector == v then 0 else t.handlers v))
      × (register_interrupt_handler t vector 0 ≡ (t, false))
unfolding register_interrupt_handler unregister_interrupt_handler
register-unregister t vector fn other v ne differs =
    (ground arith, ground arith, ground arith, ground arith, ground arith, refl)

module _ (msr : ℕ) (body : ℕ → InterruptFrame → Bool → ℕ → List Effect) where
  -- A row of interrupts without error codes.
  unfoldable pub dispatch_all : List ℕ → Tables → InterruptFrame → Tables
  dispatch_all [] t frame = t
  dispatch_all (vec ∷ vecs) t frame =
      dispatch_all vecs (dispatch msr body t vec frame false 0).0 frame

  abbrev pub occurrences : ℕ → List ℕ → ℕ
  occurrences v [] = 0
  occurrences v (vec ∷ vecs) = (if vec == v then 1 else 0) + occurrences v vecs

  -- After any row of interrupts the counter of a vector, below 2 ^ 64 before, has grown by the
  -- number of those interrupts that have this vector, modulo 2 ^ 64.
  pub dispatch_all-count :
      (vecs : List ℕ) (t : Tables) (frame : InterruptFrame) (v : ℕ)
      → get_vector_count t v < 2 ^ 64
      → get_vector_count (dispatch_all vecs t frame) v
        ≡ u64 (get_vector_count t v + occurrences v vecs)
  unfolding dispatch_all get_vector_count dispatch
  dispatch_all-count [] t frame v small = omega arith
  dispatch_all-count (vec ∷ vecs) t frame v small =
      dispatch_all-count vecs (dispatch msr body t vec frame false 0).0 frame v (ground arith)
      ∙ ground arith
