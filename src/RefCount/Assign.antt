-- ===== src/RefCount/Assign.antt =====
-- Kernel/Include/Utility/RefPtr.hpp: the assignments as a destructor and a constructor.
use objective_hail_os.Prelude.{
  ℕ, ◌≡◌, ◌≢◌, sym, ap, ◌∙◌, Bool, false, arith, ◌==◌, if◌then◌else◌, update, fun_ext,
}
use objective_hail_os.RefCount.{
  Store, add_ref_ptr, release_ptr, set_ptr, construct_copy, construct_move, destruct, assign_copy,
  assign_move,
}

set_ptr-set_ptr : (st : Store) (i x : ℕ) → set_ptr (set_ptr st i 0) i x ≡ set_ptr st i x
set_ptr-set_ptr st i x =
    ap {B = Store} (λ (p : ℕ → ℕ). record st { ptr = p }) (fun_ext (λ j. ground arith))

-- Assigning a copy is destroying the old value and constructing the new one in its place.
pub assign_copy_lem :
    (st : Store) (i v : ℕ) → i ≢ v → assign_copy st i v ≡ construct_copy (destruct st i) i v
unfolding assign_copy construct_copy destruct
assign_copy_lem st i v ne =
    let differ : (i == v) ≡ false = ground arith in
    let st1 = release_ptr st i in
    let kept : update st1.ptr i 0 v ≡ st1.ptr v = ground arith in
    ap (λ (b : Bool). if b then st else add_ref_ptr (set_ptr st1 i (st1.ptr v)) i) differ
    ∙ (sym (
        ap (λ (x : ℕ). add_ref_ptr (set_ptr (set_ptr st1 i 0) i x) i) kept
        ∙ ap (λ (s : Store). add_ref_ptr s i) (set_ptr-set_ptr st1 i (st1.ptr v))))

-- Assigning a moved value is destroying the old value and moving the new one to its place.
pub assign_move_lem :
    (st : Store) (i v : ℕ) → i ≢ v → assign_move st i v ≡ construct_move (destruct st i) i v
unfolding assign_move construct_move destruct
assign_move_lem st i v ne =
    let differ : (i == v) ≡ false = ground arith in
    let st1 = release_ptr st i in
    let kept : update st1.ptr i 0 v ≡ st1.ptr v = ground arith in
    ap (λ (b : Bool). if b then st else set_ptr (set_ptr st1 i (st1.ptr v)) v 0) differ
    ∙ (sym (
        ap (λ (x : ℕ). set_ptr (set_ptr (set_ptr st1 i 0) i x) v 0) kept
        ∙ ap (λ (s : Store). set_ptr s v 0) (set_ptr-set_ptr st1 i (st1.ptr v))))
