-- ===== src/RefCount.antt =====
-- Kernel/Include/Object/RefCountedBase.hpp and Kernel/Include/Utility/RefPtr.hpp: counted objects at
-- addresses and the RefPtr variables that share them. 0 is the null pointer; a variable is its index, and
-- one that is not alive holds 0.
pub mod Owners
pub mod Assign
pub mod Calls
pub mod Consoles
use objective_hail_os.Prelude.{
  ℕ, ◌+◌, ◌-◌, ◌%◌, ◌^◌, Bool, true, false, not, List, [], ◌∷◌, ◌==◌, if◌then◌else◌, update,
}
use objective_hail_os.Prelude.Words.{u64}

-- `m_RefCount` of each object, which objects are not destroyed, and `m_Ptr` of each variable.
pub record Store : Type 0 where
  pub ref_count : ℕ → ℕ
  pub live : ℕ → Bool
  pub ptr : ℕ → ℕ

-- `RefCountedBase::AddRef`.
unfoldable pub add_ref : Store → ℕ → Store
add_ref st a = record st { ref_count = update st.ref_count a (u64 (st.ref_count a + 1)) }

-- `RefCountedBase::Release`: the count one lower, and `delete this` when it was 1.
unfoldable pub release : Store → ℕ → Store
release st a =
    let old = st.ref_count a in
    let st1 : Store = record st { ref_count = update st.ref_count a (u64 (old + (2 ^ 64 - 1))) } in
    if old == 1 then record st1 { live = update st1.live a false } else st1

-- `if (m_Ptr) m_Ptr->AddRef();` and `if (m_Ptr) m_Ptr->Release();`
unfoldable pub add_ref_ptr : Store → ℕ → Store
unfolding add_ref
add_ref_ptr st i = if st.ptr i == 0 then st else add_ref st (st.ptr i)

unfoldable pub release_ptr : Store → ℕ → Store
unfolding release
release_ptr st i = if st.ptr i == 0 then st else release st (st.ptr i)

-- `m_Ptr = a`.
abbrev pub set_ptr : Store → ℕ → ℕ → Store
set_ptr st i a = record st { ptr = update st.ptr i a }

-- `RefPtr(T* ptr)`.
unfoldable pub construct : Store → ℕ → ℕ → Store
unfolding add_ref_ptr
construct st i a = add_ref_ptr (set_ptr st i a) i

-- `RefPtr(const RefPtr& v)`.
unfoldable pub construct_copy : Store → ℕ → ℕ → Store
unfolding add_ref_ptr
construct_copy st i v = add_ref_ptr (set_ptr st i (st.ptr v)) i

-- `RefPtr(RefPtr&& v)`.
unfoldable pub construct_move : Store → ℕ → ℕ → Store
construct_move st i v = set_ptr (set_ptr st i (st.ptr v)) v 0

-- `~RefPtr()`; the variable is not alive afterwards.
unfoldable pub destruct : Store → ℕ → Store
unfolding release_ptr
destruct st i = set_ptr (release_ptr st i) i 0

-- `operator=(const RefPtr& v)`.
unfoldable pub assign_copy : Store → ℕ → ℕ → Store
unfolding release_ptr add_ref_ptr
assign_copy st i v =
    if i == v then st else (let st1 = release_ptr st i in add_ref_ptr (set_ptr st1 i (st1.ptr v)) i)

-- `operator=(RefPtr&& v)`.
unfoldable pub assign_move : Store → ℕ → ℕ → Store
unfolding release_ptr
assign_move st i v =
    if i == v then st else (let st1 = release_ptr st i in set_ptr (set_ptr st1 i (st1.ptr v)) v 0)

-- `Get` and `operator bool`.
unfoldable pub get : Store → ℕ → ℕ
get st i = st.ptr i

unfoldable pub is_set : Store → ℕ → Bool
is_set st i = not (st.ptr i == 0)

-- The calls that change a variable; `adopt i a` is RefPtr(T*) for the object at `a`, or for the null pointer.
pub data Call : Type 0 where
  adopt : ℕ → ℕ → Call
  copy_to : ℕ → ℕ → Call
  move_to : ℕ → ℕ → Call
  drop : ℕ → Call
  copy_assign : ℕ → ℕ → Call
  move_assign : ℕ → ℕ → Call

unfoldable pub run : Store → Call → Store
unfolding construct construct_copy construct_move destruct assign_copy assign_move
run st (adopt i a) = construct st i a
run st (copy_to i v) = construct_copy st i v
run st (move_to i v) = construct_move st i v
run st (drop i) = destruct st i
run st (copy_assign i v) = assign_copy st i v
run st (move_assign i v) = assign_move st i v
