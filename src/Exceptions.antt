-- ===== src/Exceptions.antt =====
-- Kernel/Arch/x86_64/Interrupts/ExceptionHandlers.cpp, and the handlers that
-- Kernel/Core/KernelMain.cpp installs. The handlers' addresses are parameters; what they print goes
-- through GetBootstrapConsole, as in a panic.
pub mod Boot
pub mod Dump
use objective_hail_os.Prelude.{
  ℕ, Bool, true, false, Option, none, some, List, [], ◌∷◌, ◌++◌, ◌==◌, if◌then◌else◌, ◌>>=◌, codes,
}
use objective_hail_os.HexString.{hex_string}
use objective_hail_os.Interrupts.{
  InterruptFrame, Tables, vec_timer, init_interrupt_dispatch, register_interrupt_handler,
}
use objective_hail_os.Interrupts.Timer.{init_timer_handler}
use objective_hail_os.Output.{OutputDevice}
use objective_hail_os.Panic.{
  Report, Machine, Call, came_back, halted, halt_processor, print, get_bootstrap_console,
}

-- The arguments of the calls of `PutString` in `DumpException`, in their order; `cr3` is what ReadCR3
-- returns.
unfoldable pub dump_lines :
    InterruptFrame → (name : List ℕ) → (has_error : Bool) → (error_code cr3 : ℕ) → List (List ℕ)
dump_lines f name has_error error_code cr3 =
    (codes "===== x86-64 Processor Exception =====\n"
      ∷ name
      ∷ codes "\nRIP   :"
      ∷ hex_string f.rip
      ∷ codes "\nRSP   :"
      ∷ hex_string f.rsp
      ∷ codes "\nCS    :"
      ∷ hex_string f.cs
      ∷ codes "\nSS    :"
      ∷ hex_string f.ss
      ∷ codes "\nRFLAGS:"
      ∷ hex_string f.rflags
      ∷ [])
    ++ ((if has_error then codes "ERR   :" ∷ hex_string error_code ∷ [] else [])
        ++ (if cr3 == 0 then [] else codes "CR2   :" ∷ hex_string cr3 ∷ []))

module _ {S : Type 0} (con : OutputDevice S) (size object_size : ℕ) (new_report : Report)
    (cr3 : ℕ) where
  -- `DumpException` behind its call of GetBootstrapConsole.
  unfoldable pub dump_with : InterruptFrame → List ℕ → Bool → ℕ → Call S → Option (Call S)
  unfolding dump_lines print
  dump_with f name has_error error_code (halted m) = some (halted m)
  dump_with f name has_error error_code (came_back p m) = do
    s0 ← con.reset m.out
    s1 ← print con s0 (dump_lines f name has_error error_code cr3)
    some (came_back p (record m { out = s1 }))

  unfoldable pub dump_exception :
      ℕ → Machine S → InterruptFrame → List ℕ → Bool → ℕ → Option (Call S)
  unfolding get_bootstrap_console dump_with
  dump_exception fuel m f name has_error error_code =
      get_bootstrap_console con size object_size new_report fuel m
      >>= dump_with f name has_error error_code

  -- The halt behind a call that came back.
  abbrev pub then_halt : Call S → Call S
  then_halt (came_back p m) = halted (halt_processor m)
  then_halt (halted m) = halted m

  -- `HandlerUD`, `HandlerDF`, `HandlerGP` and `HandlerPF` differ in the name.
  abbrev pub handler_named : List ℕ → ℕ → Machine S → InterruptFrame → Bool → ℕ → Option (Call S)
  unfolding dump_exception
  handler_named name fuel m f has_error error_code = do
    call ← dump_exception fuel m f name has_error error_code
    some (then_halt call)

  abbrev pub handler_ud : ℕ → Machine S → InterruptFrame → Bool → ℕ → Option (Call S)
  handler_ud = handler_named (codes "#UD")

  abbrev pub handler_gp : ℕ → Machine S → InterruptFrame → Bool → ℕ → Option (Call S)
  handler_gp = handler_named (codes "#GP")

  abbrev pub handler_pf : ℕ → Machine S → InterruptFrame → Bool → ℕ → Option (Call S)
  handler_pf = handler_named (codes "#PF")

  abbrev pub handler_df : ℕ → Machine S → InterruptFrame → Bool → ℕ → Option (Call S)
  handler_df = handler_named (codes "#DF")

-- The addresses of the functions that `main` installs.
pub record Functions : Type 0 where
  pub on_ud : ℕ
  pub on_df : ℕ
  pub on_gp : ℕ
  pub on_pf : ℕ
  pub on_timer : ℕ

unfoldable pub init_core_exception_handlers : Functions → Tables → Tables
unfolding register_interrupt_handler
init_core_exception_handlers fns t =
    let t1 = (register_interrupt_handler t 6 fns.on_ud).0 in
    let t2 = (register_interrupt_handler t1 8 fns.on_df).0 in
    let t3 = (register_interrupt_handler t2 13 fns.on_gp).0 in
    (register_interrupt_handler t3 14 fns.on_pf).0

-- What `main` does to the tables of the dispatch, from InitInterruptDispatch on.
unfoldable pub boot_tables : Functions → Tables → Tables
unfolding init_core_exception_handlers init_interrupt_dispatch init_timer_handler
boot_tables fns t =
    let t1 = init_core_exception_handlers fns (init_interrupt_dispatch t) in
    init_timer_handler fns.on_timer t1 vec_timer
