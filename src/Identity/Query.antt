-- ===== src/Identity/Query.antt =====
-- Kernel/Include/Object: identifiers as byte arrays, and what QueryInterface does.
use objective_hail_os.Prelude.{
  ℕ, zero, suc, ◌+◌, ◌≤◌, ◌<◌, ◌≡◌, ◌≢◌, ◌↔◌, refl, sym, true, false, not, inl, inr, arith, ◌==◌,
  Bool-cases, ℕ_discrete,
}
use mathlib.Core.Bool.{true≢false}
use objective_hail_os.MemoryUtility.Loops.{compare_memory_iff}
use objective_hail_os.RefCount.{Store}
use objective_hail_os.Identity.{InterfaceId, uuid_equal, id_loop, id_equal, query_interface}

-- Two UUIDs are equal exactly if their sixteen bytes are.
pub uuid_equal_iff :
    (m : ℕ → ℕ) (this rhs : ℕ)
    → (uuid_equal m this rhs ≡ true) ↔ ((k : ℕ) → k < 16 → m (rhs + k) ≡ m (this + k))
unfolding uuid_equal
uuid_equal_iff m this rhs = compare_memory_iff m rhs this 16

id_loop-true :
    (left : ℕ) (a b : InterfaceId) (i : ℕ)
    → ((k : ℕ) → i ≤ k → k < i + left → a k ≡ b k)
    → id_loop left a b i ≡ true
unfolding id_loop
id_loop-true zero a b i same = refl
id_loop-true (suc left) a b i same =
    let here : not (a i == b i) ≡ false = ground (arith, same i (omega arith) (omega arith)) in
    rw here (id_loop-true left a b (i + 1) (λ k lo hi. same k (omega arith) (omega arith)))

id_loop_same :
    (left : ℕ) (a b : InterfaceId) (i k : ℕ)
    → id_loop left a b i ≡ true
    → i ≤ k
    → k < i + left
    → a k ≡ b k
unfolding id_loop
id_loop_same zero a b i k equal lo hi = absurd (omega arith)
id_loop_same (suc left) a b i k equal lo hi = elim (Bool-cases (not (a i == b i))) [
  | inl differ ↦ absurd (true≢false (sym (rw differ at equal)))
  | inr same ↦ elim (ℕ_discrete i k) [
    | yes now ↦ let at : a i ≡ b i = ground (arith, same) in rw (now) at at
    | no later ↦ id_loop_same left a b (i + 1) k (rw same at equal) (omega arith) (omega arith)
  ]
]

-- `QueryInterface` with a place for the pointer returns true exactly if the sixteen bytes of the
-- identifier are those of IID_IKernelObject.
pub query_interface_iff :
    (kernel_object : InterfaceId) (st : Store) (pointers : ℕ → ℕ) (this : ℕ) (iid : InterfaceId)
    (out : ℕ)
    → out ≢ 0
    → ((query_interface kernel_object st pointers this iid out).0 ≡ true)
      ↔ ((k : ℕ) → k < 16 → iid k ≡ kernel_object k)
unfolding query_interface id_equal
query_interface_iff kernel_object st pointers this iid out place =
    let there : (out == 0) ≡ false = ground arith in
    (
      λ found k h. elim (Bool-cases (id_loop 16 iid kernel_object 0)) [
        | inl equal ↦ id_loop_same 16 iid kernel_object 0 k equal (omega arith) h
        | inr differ ↦ absurd (true≢false (sym (rw (there, differ) at found)))
      ],
      λ same. rw (there, id_loop-true 16 iid kernel_object 0 (λ k lo hi. same k hi)) refl,
    )
