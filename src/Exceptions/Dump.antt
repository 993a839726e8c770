-- ===== src/Exceptions/Dump.antt =====
-- Kernel/Arch/x86_64/Interrupts/ExceptionHandlers.cpp: what a handler prints.
use objective_hail_os.Prelude.{ℕ, suc, ◌≡◌, refl, true, Bool, Option, some, List, concat}
use objective_hail_os.Interrupts.{InterruptFrame}
use objective_hail_os.Serial.{Serial}
use objective_hail_os.Serial.Write.{Responds, Sent, with_returns}
use objective_hail_os.Console
use objective_hail_os.Console.{GraphicInfo, Font, Screen}
use objective_hail_os.Output.{OutputDevice}
use objective_hail_os.Panic.{Report, Machine, halted, halt_processor}
use objective_hail_os.Panic.Message.{print-concat}
use objective_hail_os.Panic.Halts.{
  HasPage, with_console, get_bootstrap_console-page, consoles, consoles-IsTextual, consoles_print,
}
use objective_hail_os.Exceptions.{dump_lines, dump_with, dump_exception, handler_named}

-- The text of an exception.
abbrev pub dump : InterruptFrame → List ℕ → Bool → ℕ → ℕ → List ℕ
dump f name has_error error_code cr3 = concat (dump_lines f name has_error error_code cr3)

module _ (status : ℕ → ℕ) (wait : ℕ) (info : GraphicInfo) (font : Font) (size object_size p : ℕ)
    (new_report : Report) (cr3 : ℕ) where
  abbrev pub con : OutputDevice (Option Serial × Screen)
  con = consoles status wait info font

  -- While there is a free page for the object that it prints through, and the transmitter of the serial
  -- port, which was set up, becomes ready within `wait` reads of its status, a handler of an exception,
  -- whatever its name, does not come back: the text of the exception with its registers, the error code
  -- if there is one, and CR3 if it is not 0, is sent to the port, with a carriage return in front of
  -- every line feed, and drawn on the cleared screen, and the processor is halted with interrupts off.
  pub handler-dump :
      (fuel : ℕ) (m : Machine (Option Serial × Screen)) (port : Serial) (screen : Screen)
      (f : InterruptFrame) (name : List ℕ) (has_error : Bool) (error_code : ℕ)
      → Responds status wait
      → port.is_ready ≡ true
      → m.out ≡ (some port, screen)
      → HasPage size object_size p m.heap
      → let text = dump f name has_error error_code cr3 in
        (port' : Serial) × (handler_named con size object_size new_report cr3 name
            (suc fuel)
            m
            f
            has_error
            error_code
          ≡ some (
              halted (
                halt_processor (record m {
                  heap = with_console object_size p m.heap;
                  out = (some port', Console.put_string info font (Console.reset info screen) text);
                }))))
        × Sent port (with_returns text) port'
  unfolding handler_named dump_exception dump_with
  handler-dump fuel m port screen f name has_error error_code responds ready at has =
      let text = dump f name has_error error_code cr3 in
      let (port', shown, sent) =
        consoles_print status wait info font port (Console.reset info screen) text responds ready in
      let console = get_bootstrap_console-page con size object_size p new_report fuel m has in
      let printed =
        print-concat con (some port, Console.reset info screen)
          (dump_lines f name has_error error_code cr3) (consoles-IsTextual status wait info font) in
      (port', rw (console, at, dump_with, printed, shown) refl, sent)
