-- ===== src/Panic/Exhausted.antt =====
-- Kernel/Core/ErrorHandling/Panic.cpp when no page is left.
use objective_hail_os.Prelude.{ℕ, zero, suc, ◌+◌, ◌*◌, ◌≤◌, ◌≡◌, refl, none}
use objective_hail_os.PageBitmap.{page_size}
use objective_hail_os.PageAllocator.Single.{AllUsed}
use objective_hail_os.OperatorNew.{header_size}
use objective_hail_os.OperatorNew.Small.{operator_new-full}
use objective_hail_os.Output.{OutputDevice}
use objective_hail_os.Panic.{Report, Machine, enter_panic, get_bootstrap_console, panic_ex}

module _ {S : Type 0} (con : OutputDevice S) (size object_size : ℕ) (new_report : Report)
    (one_page : object_size + header_size ≤ page_size) where
  pub no_console :
      (fuel : ℕ) (m : Machine S)
      → AllUsed m.heap.bitmap 0 (size * 8)
      → get_bootstrap_console con size object_size new_report fuel m ≡ none
  unfolding get_bootstrap_console
  no_console zero m used = refl
  no_console (suc fuel) m used =
      let (panics, kept) = operator_new-full object_size one_page size m.heap used in
      rw (get_bootstrap_console, panics, kept, no_console fuel (enter_panic m) used) refl

  -- With every page in use no call of `PanicEx` comes to its halt, whatever the number of nested calls:
  -- the object that it prints through, of one page with its header, cannot be made, and `operator new`
  -- then panics itself.
  pub panic_ex-exhausted :
      (fuel : ℕ) (m : Machine S) (r : Report)
      → AllUsed m.heap.bitmap 0 (size * 8)
      → panic_ex con size object_size new_report fuel m r ≡ none
  unfolding panic_ex
  panic_ex-exhausted fuel m r used = rw (no_console fuel (enter_panic m) used) refl
