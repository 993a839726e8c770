-- ===== src/RefCount/Calls.antt =====
-- Kernel/Include/Utility/RefPtr.hpp: rows of calls of RefPtr variables.
use objective_hail_os.Prelude.{
  ℕ, ◌+◌, ◌^◌, ◌<◌, ◌≡◌, ◌≢◌, true, arith, ◌==◌, update, inl, inr, Bool-cases, List, [], ◌∷◌,
  ℕ_discrete,
}
use objective_hail_os.RefCount.{
  Store, Call, adopt, copy_to, move_to, drop, copy_assign, move_assign, add_ref, release,
  add_ref_ptr, release_ptr, construct, construct_copy, construct_move, destruct, assign_copy,
  assign_move, run, get,
}
use objective_hail_os.RefCount.Owners.{holders, holders-le, holders-update, holders-pos, Counted}
use objective_hail_os.RefCount.Assign.{assign_copy_lem, assign_move_lem}

-- A call of the program: its variables are alive, a constructor's variable is a new one, and RefPtr(T*)
-- gets the null pointer or one to an object that is not destroyed.
unfoldable pub Valid : ℕ → Store → Call → Type 0
Valid n st (adopt i a) = (i < n) × (st.ptr i ≡ 0) × (0 < a → st.live a ≡ true)
Valid n st (copy_to i v) = (i < n) × (v < n) × (st.ptr i ≡ 0)
Valid n st (move_to i v) = (i < n) × (v < n) × (i ≢ v) × (st.ptr i ≡ 0)
Valid n st (drop i) = i < n
Valid n st (copy_assign i v) = (i < n) × (v < n)
Valid n st (move_assign i v) = (i < n) × (v < n)

unfoldable pub AllValid : ℕ → Store → List Call → Type 0
AllValid n st [] = Unit
AllValid n st (c ∷ cs) = Valid n st c × AllValid n (run st c) cs

unfoldable pub run_all : Store → List Call → Store
run_all st [] = st
run_all st (c ∷ cs) = run_all (run st c) cs

module _ (n : ℕ) (raw : ℕ → ℕ) (few : (a : ℕ) → n + raw a < 2 ^ 64) where
  -- What a variable holds is not destroyed.
  pub held-live :
      (st : Store) (i : ℕ) → Counted n raw st → i < n → 0 < st.ptr i → st.live (st.ptr i) ≡ true
  held-live st i c h p = elim (Bool-cases (st.live (st.ptr i))) [
    | inl e ↦ e
    | inr e ↦
        absurd (
          let gone = c.destroyed (st.ptr i) p e in
          let one = holders-pos n st.ptr i h in omega arith)
  ]

  -- A variable that comes to hold one more reference of an object that is not destroyed.
  pub construct-Counted :
      (st : Store) (i v : ℕ)
      → Counted n raw st
      → i < n
      → st.ptr i ≡ 0
      → (0 < v → st.live v ≡ true)
      → Counted n raw (construct st i v)
  unfolding construct add_ref_ptr add_ref
  construct-Counted st i v c hi dead alive = record {
    counted = λ a p l.
        let more = holders-update n st.ptr i v a hi in
        let most = holders-le n (update st.ptr i v) a in
        let old = c.counted a p in let wide = few a in ground arith;
    referenced = λ a p l.
        let more = holders-update n st.ptr i v a hi in let old = c.referenced a p in ground arith;
    destroyed = λ a p l.
        let more = holders-update n st.ptr i v a hi in let old = c.destroyed a p in ground arith;
  }

  pub construct_copy-Counted :
      (st : Store) (i v : ℕ)
      → Counted n raw st
      → i < n
      → v < n
      → st.ptr i ≡ 0
      → Counted n raw (construct_copy st i v)
  unfolding construct_copy construct
  construct_copy-Counted st i v c hi hv dead =
      construct-Counted st i (st.ptr v) c hi dead (held-live st v c hv)

  moved-holders :
      (st : Store) (i v a : ℕ)
      → i < n
      → v < n
      → i ≢ v
      → st.ptr i ≡ 0
      → 0 < a
      → holders n (update (update st.ptr i (st.ptr v)) v 0) a ≡ holders n st.ptr a
  moved-holders st i v a hi hv ne dead p =
      let first = holders-update n st.ptr i (st.ptr v) a hi in
      let second = holders-update n (update st.ptr i (st.ptr v)) v 0 a hv in ground arith

  pub construct_move-Counted :
      (st : Store) (i v : ℕ)
      → Counted n raw st
      → i < n
      → v < n
      → i ≢ v
      → st.ptr i ≡ 0
      → Counted n raw (construct_move st i v)
  unfolding construct_move
  construct_move-Counted st i v c hi hv ne dead = record {
    counted = λ a p l. rw (moved-holders st i v a hi hv ne dead p) (c.counted a p l);
    referenced = λ a p l. rw (moved-holders st i v a hi hv ne dead p) (c.referenced a p l);
    destroyed = λ a p l. rw (moved-holders st i v a hi hv ne dead p) (c.destroyed a p l);
  }

  pub destruct-Counted :
      (st : Store) (i : ℕ) → Counted n raw st → i < n → Counted n raw (destruct st i)
  unfolding destruct release_ptr release
  destruct-Counted st i c hi = record {
    counted = λ a p l.
        let fewer = holders-update n st.ptr i 0 a hi in
        let most = holders-le n st.ptr a in
        let old = c.counted a p in let wide = few a in ground arith;
    referenced = λ a p l.
        let fewer = holders-update n st.ptr i 0 a hi in
        let old = c.counted a p in let some_left = c.referenced a p in ground arith;
    destroyed = λ a p l.
        let fewer = holders-update n st.ptr i 0 a hi in
        let old = c.destroyed a p in
        let count = c.counted a p in let held = held-live st i c hi in ground arith;
  }

  destruct-ptr : (st : Store) (i : ℕ) → (destruct st i).ptr i ≡ 0
  unfolding destruct
  destruct-ptr st i = ground arith

  self_copy : (st : Store) (v : ℕ) → Counted n raw st → Counted n raw (assign_copy st v v)
  unfolding assign_copy
  self_copy st v c = let same : (v == v) ≡ true = ground arith in rw same c

  self_move : (st : Store) (v : ℕ) → Counted n raw st → Counted n raw (assign_move st v v)
  unfolding assign_move
  self_move st v c = let same : (v == v) ≡ true = ground arith in rw same c

  -- Each call keeps the counts right.
  pub run-Counted :
      (st : Store) (call : Call) → Counted n raw st → Valid n st call → Counted n raw (run st call)
  unfolding run Valid
  run-Counted st (adopt i a) c ok = construct-Counted st i a c ok.0 ok.1 ok.2
  run-Counted st (copy_to i v) c ok = construct_copy-Counted st i v c ok.0 ok.1 ok.2
  run-Counted st (move_to i v) c ok = construct_move-Counted st i v c ok.0 ok.1 ok.2 ok.3
  run-Counted st (drop i) c ok = destruct-Counted st i c ok
  run-Counted st (copy_assign i v) c ok = elim (ℕ_discrete i v) [
    | yes e ↦ rw e (self_copy st v c)
    | no ne ↦ rw (assign_copy_lem st i v ne) (
        construct_copy-Counted (destruct st i) i v (destruct-Counted st i c ok.0) ok.0 ok.1
          (destruct-ptr st i))
  ]
  run-Counted st (move_assign i v) c ok = elim (ℕ_discrete i v) [
    | yes e ↦ rw e (self_move st v c)
    | no ne ↦ rw (assign_move_lem st i v ne) (
        construct_move-Counted (destruct st i) i v (destruct-Counted st i c ok.0) ok.0 ok.1 ne
          (destruct-ptr st i))
  ]

  pub run_all-Counted :
      (st : Store) (calls : List Call)
      → Counted n raw st
      → AllValid n st calls
      → Counted n raw (run_all st calls)
  unfolding run_all AllValid
  run_all-Counted st [] c ok = c
  run_all-Counted st (call ∷ calls) c ok =
      run_all-Counted (run st call) calls (run-Counted st call c ok.0) ok.1

  -- After any calls of the constructors, the assignments and the destructor in which the variables are
  -- used as C++ prescribes and a plain pointer that is passed is null or one to an object that is not
  -- destroyed, from a state whose counts are right (with fewer than 2 ^ 64 references), a variable that is not null holds an object
  -- that is not destroyed.
  pub run_all-live :
      (st : Store) (calls : List Call) (i : ℕ)
      → Counted n raw st
      → AllValid n st calls
      → i < n
      → 0 < get (run_all st calls) i
      → (run_all st calls).live (get (run_all st calls) i) ≡ true
  unfolding get
  run_all-live st calls i c ok hi p =
      held-live (run_all st calls) i (run_all-Counted st calls c ok) hi p

  -- After any calls of the constructors, the assignments and the destructor in which the variables are
  -- used as C++ prescribes and a plain pointer that is passed is null or one to an object that is not
  -- destroyed, from a state whose counts are right (with fewer than 2 ^ 64 references), the count of an object that is not destroyed is
  -- the number of its references, and not 0.
  pub run_all-ref_count :
      (st : Store) (calls : List Call) (a : ℕ)
      → Counted n raw st
      → AllValid n st calls
      → 0 < a
      → (run_all st calls).live a ≡ true
      → ((run_all st calls).ref_count a ≡ holders n (run_all st calls).ptr a + raw a)
        × (0 < (run_all st calls).ref_count a)
  run_all-ref_count st calls a c ok ha l =
      let after = run_all-Counted st calls c ok in
      (after.counted a ha l, rw (after.counted a ha l) (after.referenced a ha l))

  -- After any calls of the constructors, the assignments and the destructor in which the variables are
  -- used as C++ prescribes and a plain pointer that is passed is null or one to an object that is not
  -- destroyed, from a state whose counts are right (with fewer than 2 ^ 64 references), an object that has a reference of no variable,
  -- as the one that it starts with, is not destroyed.
  pub run_all-raw :
      (st : Store) (calls : List Call) (a : ℕ)
      → Counted n raw st
      → AllValid n st calls
      → 0 < a
      → 0 < raw a
      → (run_all st calls).live a ≡ true
  run_all-raw st calls a c ok ha hr =
      let after = run_all-Counted st calls c ok in
      elim (Bool-cases ((run_all st calls).live a)) [
        | inl e ↦ e
        | inr e ↦ absurd (let gone = after.destroyed a ha e in omega arith)
      ]
