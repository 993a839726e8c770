-- ===== src/Tests/Objects.antt =====
-- Examples for Kernel/Include: three RefPtr variables and one object.
use objective_hail_os.Prelude.{
  ℕ, ◌+◌, ◌^◌, ◌<◌, ◌≡◌, refl, true, List, [], ◌∷◌, arith, ◌==◌, if◌then◌else◌,
}
use objective_hail_os.RefCount.{Store, Call, adopt, copy_to, move_assign, drop, get, run}
use objective_hail_os.RefCount.Owners.{Counted, holders}
use objective_hail_os.RefCount.Calls.{AllValid, Valid, run_all, run_all-live, run_all-ref_count}

-- Variable 0 holds the object at 8, which has the reference of its start too.
abbrev pub store : Store
store = record {
  ref_count = λ a. if a == 8 then 2 else 0;
  live = λ a. a == 8;
  ptr = λ i. if i == 0 then 8 else 0;
}

abbrev raw : ℕ → ℕ
raw a = if a == 8 then 1 else 0

few : (a : ℕ) → 3 + raw a < 2 ^ 64
few a = ground arith

store-Counted : Counted 3 raw store
unfolding holders
store-Counted = record {
  counted = λ a p l. ground arith;
  referenced = λ a p l. ground arith;
  destroyed = λ a p l. ground arith;
}

abbrev calls : List Call
calls = adopt 1 8 ∷ drop 1 ∷ copy_to 1 0 ∷ drop 0 ∷ move_assign 2 1 ∷ []

calls-AllValid : AllValid 3 store calls
unfolding AllValid Valid run
calls-AllValid = (
  (omega arith, refl, λ p. refl),
  (
    omega arith,
    ((omega arith, omega arith, refl), (omega arith, ((omega arith, omega arith), tt))),
  ),
)

held : 0 < get (run_all store calls) 2
unfolding get run_all run
held = omega arith

live_example : (run_all store calls).live (get (run_all store calls) 2) ≡ true
live_example = run_all-live 3 raw few store calls 2 store-Counted calls-AllValid (omega arith) held

alive : (run_all store calls).live 8 ≡ true
unfolding run_all run
alive = refl

dropped : AllValid 3 store (drop 0 ∷ [])
unfolding AllValid Valid run
dropped = (omega arith, tt)

ref_count_example :
    ((run_all store calls).ref_count 8 ≡ holders 3 (run_all store calls).ptr 8 + raw 8)
    × (0 < (run_all store calls).ref_count 8)
ref_count_example =
    run_all-ref_count 3 raw few store calls 8 store-Counted calls-AllValid (omega arith) alive
