-- ===== src/RefCount/Consoles.antt =====
-- Kernel/Core/KernelConsole/KernelConsole.hpp: the owners of the two consoles, static variables, and the
-- functions that hand out pointers to them. `made` is the address of the object that `new` makes, with the
-- count 1 of its start.
use objective_hail_os.Prelude.{
  ℕ, ◌≡◌, ◌≢◌, arith, true, false, List, [], ◌∷◌, ◌==◌, if◌then◌else◌, update, ℕ_discrete,
}
use objective_hail_os.RefCount.{
  Store, construct, destruct, assign_move, get, is_set, add_ref, release, add_ref_ptr, release_ptr,
}

-- The variables: the two owners, the temporary of an initialization, and the caller's pointer.
abbrev pub console_owner : ℕ
console_owner = 0

abbrev pub serial_owner : ℕ
serial_owner = 1

abbrev pub temporary : ℕ
temporary = 2

abbrev pub caller : ℕ
caller = 3

abbrev pub new_object : Store → ℕ → Store
new_object st a = record st { ref_count = update st.ref_count a 1; live = update st.live a true }

-- `if (!owner) { owner = RefPtr<…>(new …); }`
unfoldable pub init_owner : (owner : ℕ) → Store → (made : ℕ) → Store
unfolding construct assign_move destruct is_set
init_owner owner st made =
    let st1 = construct (new_object st made) temporary made in
    let st2 = assign_move st1 owner temporary in
    if is_set st owner then st else destruct st2 temporary

abbrev pub init_kernel_console : Store → (made : ℕ) → Store
unfolding init_owner
init_kernel_console = init_owner console_owner

abbrev pub init_serial_console : Store → (made : ℕ) → Store
unfolding init_owner
init_serial_console = init_owner serial_owner

-- The pointers that the caller gets, in the variable `i`.
unfoldable pub get_kernel_console : Store → (i : ℕ) → Store
unfolding construct get
get_kernel_console st i = construct st i (get st console_owner)

unfoldable pub get_serial_console : Store → (i : ℕ) → Store
unfolding construct get
get_serial_console st i = construct st i (get st serial_owner)

unfoldable pub get_bootstrap_console : Store → (i made : ℕ) → Store
unfolding construct
get_bootstrap_console st i made = construct (new_object st made) i made

-- A caller's uses: an initialization, or a pointer that is gone at the end of the caller's block.
pub data Use : Type 0 where
  init_kernel init_serial borrow_bootstrap : ℕ → Use
  borrow_kernel borrow_serial : Use

unfoldable pub run_use : Store → Use → Store
unfolding init_owner get_kernel_console get_serial_console get_bootstrap_console destruct
run_use st (init_kernel made) = init_owner console_owner st made
run_use st (init_serial made) = init_owner serial_owner st made
run_use st (borrow_bootstrap made) = destruct (get_bootstrap_console st caller made) caller
run_use st borrow_kernel = destruct (get_kernel_console st caller) caller
run_use st borrow_serial = destruct (get_serial_console st caller) caller

unfoldable pub run_uses : Store → List Use → Store
unfolding run_use
run_uses st [] = st
run_uses st (use_ ∷ uses) = run_uses (run_use st use_) uses

-- The state between two uses when the kernel console's owner holds the object at `a`.
pub record Owned (a : ℕ) (st : Store) : Type 0 where
  pub owner : st.ptr console_owner ≡ a
  pub count : st.ref_count a ≡ 2
  pub live : st.live a ≡ true
  pub apart : st.ptr serial_owner ≢ a
  pub none_left : (st.ptr temporary ≡ 0) × (st.ptr caller ≡ 0)

-- An object made by a use is a new one.
abbrev pub IsNew : ℕ → Use → Type 0
IsNew a (init_kernel made) = (made ≢ a) × (made ≢ 0)
IsNew a (init_serial made) = (made ≢ a) × (made ≢ 0)
IsNew a (borrow_bootstrap made) = (made ≢ a) × (made ≢ 0)
IsNew a borrow_kernel = Unit {0}
IsNew a borrow_serial = Unit {0}

abbrev pub AllNew : ℕ → List Use → Type 0
AllNew a [] = Unit {0}
AllNew a (use_ ∷ uses) = IsNew a use_ × AllNew a uses

module _ (a : ℕ) (pos : a ≢ 0) where
  new_object-Owned : (st : Store) (made : ℕ) → made ≢ a → Owned a st → Owned a (new_object st made)
  new_object-Owned st made ne o = record {
    owner = o.owner;
    count = ground (arith, o.count);
    live = ground (arith, o.live);
    apart = o.apart;
    none_left = o.none_left;
  }

  -- A pointer that comes and goes.
  borrow-Owned :
      (st : Store) (b : ℕ) → Owned a st → Owned a (destruct (construct st caller b) caller)
  unfolding construct add_ref_ptr add_ref destruct release_ptr release
  borrow-Owned st b o =
      let owner = o.owner in
      let count = o.count in
      let live = o.live in
      let (no_temporary, no_caller) = o.none_left in
      record {
        owner = ground arith;
        count = ground arith;
        live = ground arith;
        apart = λ e. o.apart (ground arith);
        none_left = (ground arith, ground arith);
      }

  -- The serial console's owner gets another object.
  init_serial-Owned :
      (st : Store) (made : ℕ)
      → made ≢ a
      → made ≢ 0
      → st.ptr serial_owner ≡ 0
      → Owned a st
      → Owned a (
          destruct
            (assign_move (construct (new_object st made) temporary made) serial_owner temporary)
            temporary)
  unfolding construct add_ref_ptr add_ref assign_move destruct release_ptr release
  init_serial-Owned st made ne real unset o =
      let owner = o.owner in
      let count = o.count in
      let live = o.live in
      let (no_temporary, no_caller) = o.none_left in
      record {
        owner = ground arith;
        count = ground arith;
        live = ground arith;
        apart = λ e. ne (ground arith);
        none_left = (ground arith, ground arith);
      }

  run_use-Owned : (st : Store) (use_ : Use) → Owned a st → IsNew a use_ → Owned a (run_use st use_)
  unfolding run_use init_owner is_set
  run_use-Owned st (init_kernel made) o new =
      let held : (st.ptr console_owner == 0) ≡ false = ground (arith, o.owner) in rw held o
  run_use-Owned st (init_serial made) o new = elim (ℕ_discrete (st.ptr serial_owner) 0) [
    | yes unset ↦
        let test : (st.ptr serial_owner == 0) ≡ true = ground (arith, unset) in
        rw (init_owner, test) (init_serial-Owned st made new.0 new.1 unset o)
    | no there ↦
        let test : (st.ptr serial_owner == 0) ≡ false = ground (arith, there) in
        rw (init_owner, test) o
  ]
  run_use-Owned st (borrow_bootstrap made) o new =
      borrow-Owned (new_object st made) made (new_object-Owned st made new.0 o)
  run_use-Owned st borrow_kernel o new = borrow-Owned st (st.ptr console_owner) o
  run_use-Owned st borrow_serial o new = borrow-Owned st (st.ptr serial_owner) o

  run_uses-Owned :
      (st : Store) (uses : List Use) → Owned a st → AllNew a uses → Owned a (run_uses st uses)
  unfolding run_uses
  run_uses-Owned st [] o new = o
  run_uses-Owned st (use_ ∷ uses) o new =
      run_uses-Owned (run_use st use_) uses (run_use-Owned st use_ o new.0) new.1

  first_init-Owned :
      (st : Store)
      → st.ptr console_owner ≡ 0
      → st.ptr serial_owner ≢ a
      → st.ptr temporary ≡ 0
      → st.ptr caller ≡ 0
      → Owned a (run_use st (init_kernel a))
  unfolding run_use init_owner construct add_ref_ptr add_ref assign_move destruct release_ptr
      release is_set
  first_init-Owned st unset apart no_temporary no_caller = record {
    owner = ground arith;
    count = ground arith;
    live = ground arith;
    apart = λ e. apart (ground arith);
    none_left = (ground arith, ground arith);
  }

  -- From a state in which the kernel console's owner and the caller's pointer are null, the first
  -- initialization sets the owner, and whatever the caller does next with any of the functions, as long as
  -- `new` gives other objects, the owner keeps that object, which is not destroyed: further initializations
  -- of the console change nothing, and pointers that come and go leave its count.
  pub owner_kept :
      (st : Store) (uses : List Use)
      → st.ptr console_owner ≡ 0
      → st.ptr serial_owner ≢ a
      → st.ptr temporary ≡ 0
      → st.ptr caller ≡ 0
      → AllNew a uses
      → let st' = run_uses st (init_kernel a ∷ uses) in
        (get st' console_owner ≡ a) × (st'.ref_count a ≡ 2) × (st'.live a ≡ true)
  unfolding get run_uses
  owner_kept st uses unset apart no_temporary no_caller new =
      let first = first_init-Owned st unset apart no_temporary no_caller in
      let o = run_uses-Owned (run_use st (init_kernel a)) uses first new in
      (o.owner, o.count, o.live)

-- The object that GetBootstrapConsole makes for a caller stays, with one reference that no variable holds.
pub bootstrap_stays :
    (st : Store) (made : ℕ)
    → made ≢ 0
    → let st' = run_use st (borrow_bootstrap made) in
      (st'.ref_count made ≡ 1) × (st'.live made ≡ true) × (st'.ptr caller ≡ 0)
unfolding run_use get_bootstrap_console construct add_ref_ptr add_ref destruct release_ptr release
bootstrap_stays st made real = (ground arith, ground arith, ground arith)
