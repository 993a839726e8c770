-- ===== src/Panic.antt =====
-- Kernel/Core/ErrorHandling/Panic.cpp with GetBootstrapConsole of
-- Kernel/Core/KernelConsole/KernelConsole.hpp and HaltProcessor of
-- Kernel/Arch/x86_64/Utility/Halt.hpp. GetBootstrapConsole makes an object with `operator new`, which
-- panics when there is no page: the two call each other, on fuel, and `none` is a call that is not over.
-- What the devices do is the parameter `con`; that of the object on the heap only its size counts.
pub mod Message
pub mod Exhausted
pub mod Halts
use objective_hail_os.Prelude.{
  ℕ, zero, suc, ◌+◌, Bool, true, false, Option, none, some, List, [], ◌∷◌, ◌++◌, ◌==◌,
  if◌then◌else◌, ◌>>=◌, codes,
}
use objective_hail_os.Prelude.Words.{u64}
use objective_hail_os.SpinLock.Flag.{Critical, start_critical_section}
use objective_hail_os.HexString.{hex_string}
use objective_hail_os.PageAllocator.{nullptr, allocate_page_sized}
use objective_hail_os.OperatorNew.{HeapState, returned, panic, header_size, operator_new}
use objective_hail_os.Output.{OutputDevice}

-- The arguments of `PanicEx`: a string that may be null is `none` then, and so is a negative line.
pub record Report : Type 0 where
  pub status : ℕ
  pub param1 : ℕ
  pub param2 : ℕ
  pub param3 : ℕ
  pub param4 : ℕ
  pub file_name : Option (List ℕ)
  pub func : Option (List ℕ)
  pub line : Option ℕ

-- `Status::STATUS_ERROR`.
abbrev pub status_error : ℕ
status_error = 0x80000000

-- The macro `PANIC` in a function of a file.
abbrev pub panic_at : (status param1 : ℕ) (file_name func : List ℕ) (line : ℕ) → Report
panic_at status param1 file_name func line = record {
  status = status;
  param1 = param1;
  param2 = 0;
  param3 = 0;
  param4 = 0;
  file_name = some file_name;
  func = some func;
  line = some line;
}

-- The arguments of the calls of `PutString` in `PanicEx`, in their order.
unfoldable pub file_lines : Option (List ℕ) → List (List ℕ)
file_lines none = []
file_lines (some file_name) = codes "\nIn file:" ∷ file_name ∷ []

unfoldable pub line_lines : Option ℕ → List (List ℕ)
line_lines none = []
line_lines (some line) = codes "\nLine:" ∷ hex_string line ∷ []

unfoldable pub func_lines : Option (List ℕ) → List (List ℕ)
func_lines none = []
func_lines (some func) = codes "\nFunction:" ∷ func ∷ []

unfoldable pub panic_lines : Report → List (List ℕ)
unfolding file_lines line_lines func_lines
panic_lines r =
    (codes "Panic! Status:" ∷ hex_string r.status ∷ [])
    ++ (file_lines r.file_name
        ++ (line_lines r.line
            ++ (func_lines r.func
                ++ (codes "\nParam1:"
                    ∷ hex_string r.param1
                    ∷ codes "\nParam2:"
                    ∷ hex_string r.param2
                    ∷ codes "\nParam3:"
                    ∷ hex_string r.param3
                    ∷ codes "\nParam4:"
                    ∷ hex_string r.param4
                    ∷ []))))

-- What a panic can see and change: CriticalSection.cpp's state, the heap, the devices, and whether the
-- processor was halted for good.
pub record Machine (S : Type 0) : Type 0 where
  pub critical : Critical
  pub heap : HeapState
  pub out : S
  pub is_halted : Bool

-- A call that may end in a halt comes back with a pointer or does not come back.
pub data Call (S : Type 0) : Type 0 where
  came_back : ℕ → Machine S → Call S
  halted : Machine S → Call S

-- `HaltProcessor`.
abbrev pub halt_processor : {S : Type 0} → Machine S → Machine S
halt_processor m =
    let c : Critical = m.critical in
    record m { critical = record c { enabled = false }; is_halted = true }

-- The start of `PanicEx`.
abbrev pub enter_panic : {S : Type 0} → Machine S → Machine S
enter_panic m = record m { critical = start_critical_section m.critical }

-- Calls of `PutString` with these arguments.
unfoldable pub print : {S : Type 0} → OutputDevice S → S → List (List ℕ) → Option S
print con s [] = some s
print con s (text ∷ rest) = con.put_string s text >>= λ s1. print con s1 rest

-- `con` is the RedundantOutput of the two consoles, `size` the length of the page bitmap, `object_size`
-- the size of a RedundantOutput, and `new_report` the arguments of the panic in `operator new`.
module _ {S : Type 0} (con : OutputDevice S) (size object_size : ℕ) (new_report : Report) where
  -- `PanicEx` behind its call of GetBootstrapConsole.
  unfoldable pub panic_with : Report → Call S → Option (Call S)
  unfolding panic_lines print
  panic_with r (halted m) = some (halted m)
  panic_with r (came_back p m) = if p == nullptr then some (halted (halt_processor m)) else do
    s0 ← con.reset m.out
    s1 ← print con s0 (panic_lines r)
    s2 ← con.flush s1
    some (halted (halt_processor (record m { out = s2 })))

  -- `GetBootstrapConsole`: the pointer to the new RedundantOutput.
  unfoldable pub get_bootstrap_console : ℕ → Machine S → Option (Call S)
  unfolding panic_with
  get_bootstrap_console zero m = none
  get_bootstrap_console (suc fuel) m =
      let heap : HeapState = m.heap in
      let size_alloc = u64 (object_size + header_size) in
      let failed : HeapState = record heap {
        bitmap = (allocate_page_sized size heap.bitmap size_alloc).1;
      } in
      let again = get_bootstrap_console fuel (enter_panic (record m { heap = failed })) in
      elim (operator_new size heap object_size) [
        | returned p heap' ↦ some (came_back p (record m { heap = heap' }))
        | panic ↦ again >>= panic_with new_report
      ]

  unfoldable pub panic_ex : ℕ → Machine S → Report → Option (Call S)
  unfolding get_bootstrap_console panic_with
  panic_ex fuel m r = get_bootstrap_console fuel (enter_panic m) >>= panic_with r
