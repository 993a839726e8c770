-- ===== src/Panic/Halts.antt =====
-- Kernel/Core/ErrorHandling/Panic.cpp while there is a page: the message and the halt.
use objective_hail_os.Prelude.{
  ℕ, suc, ◌+◌, ◌*◌, ◌≤◌, ◌<◌, ◌≡◌, ◌^◌, refl, sym, ◌∙◌, ap, arith, false, true, Option, some, ◌==◌,
  ◌>>=◌, >>=-ext, >>=_assoc, concat, List, [],
}
use mathlib.Core.List.{append-nil}
use mathlib.Core.Path.{subst}
use objective_hail_os.Prelude.Words.{u64}
use objective_hail_os.Bit.{array_bit, set_array_bit}
use objective_hail_os.PageBitmap.{page_size}
use objective_hail_os.PageAllocator.Single.{AllUsed}
use objective_hail_os.SpinLock.Flag.{start_critical_section}
use objective_hail_os.OperatorNew.{HeapState, header_size, header_of, recorded_pages, write_header}
use objective_hail_os.OperatorNew.Small.{operator_new-small}
use objective_hail_os.Serial.{Serial}
use objective_hail_os.Serial.Write.{
  Responds, Sent, with_returns, write-Sent, flush-Sent, Sent-trans,
}
use objective_hail_os.Console
use objective_hail_os.Console.{GraphicInfo, Font, Screen}
use objective_hail_os.Output.{OutputDevice, serial_console, kernel_console, redundant_output}
use objective_hail_os.Output.Text.{
  IsTextual, serial_console-IsTextual, kernel_console-IsTextual, redundant_output-IsTextual,
}
use objective_hail_os.Panic.{
  Report, Machine, Call, came_back, halted, halt_processor, enter_panic, panic_lines, panic_with,
  get_bootstrap_console, panic_ex,
}
use objective_hail_os.Panic.Message.{print-concat}

-- The text of a panic.
abbrev pub message : Report → List ℕ
message r = concat (panic_lines r)

-- The heap with the object for the console on page `p`.
abbrev pub with_console : (object_size p : ℕ) → HeapState → HeapState
with_console object_size p h = record {
  bitmap = set_array_bit h.bitmap p true;
  memory =
      write_header h.memory (header_of (p * page_size))
        (recorded_pages (u64 (object_size + header_size)));
}

-- Page `p` is free, the lowest one, and not page 0; the object fits into a page with its header.
pub record HasPage (size object_size p : ℕ) (h : HeapState) : Type 0 where
  pub small : size ≤ 2 ^ 32
  pub one_page : object_size + header_size ≤ page_size
  pub not_null : 0 < p
  pub inside : p < size * 8
  pub free : array_bit h.bitmap p ≡ false
  pub lowest : AllUsed h.bitmap 0 p

module _ {S : Type 0} (con : OutputDevice S) (size object_size p : ℕ) (new_report : Report) where
  pub get_bootstrap_console-page :
      (fuel : ℕ) (m : Machine S)
      → HasPage size object_size p m.heap
      → get_bootstrap_console con size object_size new_report (suc fuel) m
        ≡ some (came_back (p * page_size) (record m { heap = with_console object_size p m.heap }))
  unfolding get_bootstrap_console
  get_bootstrap_console-page fuel m has =
      let made =
        operator_new-small object_size has.one_page size p m.heap has.small has.not_null has.inside
          has.free has.lowest in
      rw (get_bootstrap_console, made) refl

  -- The machine that a panic halts, when the devices are left in the state `out`.
  abbrev pub halted_with : Machine S → S → Machine S
  halted_with m out =
      halt_processor
        (record (enter_panic m) { heap = with_console object_size p m.heap; out = out })

  -- What a panic does to a device whose strings are their characters.
  panic_ex-message :
      (fuel : ℕ) (m : Machine S) (r : Report)
      → IsTextual con
      → HasPage size object_size p m.heap
      → panic_ex con size object_size new_report (suc fuel) m r ≡ (
          con.reset m.out >>= λ s0.
          (con.put_string s0 (message r) >>= con.flush) >>= λ s2. some (halted (halted_with m s2)))
  unfolding panic_ex panic_with
  panic_ex-message fuel m r textual has =
      let console = get_bootstrap_console-page fuel (enter_panic m) has in
      let not_null : (p * page_size == 0) ≡ false = ground (arith, has.not_null) in
      let end : S → Option (Call S) = λ s2. some (halted (halted_with m s2)) in
      rw (console, panic_with, not_null)
        (>>=-ext (con.reset m.out) (λ s0.
          ap (λ call. call >>= λ s1. con.flush s1 >>= end)
            (print-concat con s0 (panic_lines r) textual)
          ∙ sym (>>=_assoc (con.put_string s0 (message r)) con.flush end)))

-- The consoles of the kernel: the serial port first, then the frame buffer.
module _ (status : ℕ → ℕ) (wait : ℕ) (info : GraphicInfo) (font : Font) where
  abbrev pub consoles : OutputDevice (Option Serial × Screen)
  consoles = redundant_output (some (serial_console status wait)) (some (kernel_console info font))

  pub consoles-IsTextual : IsTextual consoles
  consoles-IsTextual =
      redundant_output-IsTextual (some (serial_console status wait))
        (some (kernel_console info font)) (serial_console-IsTextual status wait)
        (kernel_console-IsTextual info font)

  -- A text on both.
  pub consoles_print :
      (port : Serial) (screen : Screen) (text : List ℕ)
      → Responds status wait
      → port.is_ready ≡ true
      → (port' : Serial) × (consoles.put_string (some port, screen) text
          ≡ some (some port', Console.put_string info font screen text))
        × Sent port (with_returns text) port'
  consoles_print port screen text responds ready =
      let (port1, ok1, sent1) = write-Sent status wait responds port text ready in
      (port1, rw ok1 refl, sent1)

  -- A text and the flush behind it, on both.
  pub consoles_show :
      (port : Serial) (screen : Screen) (text : List ℕ)
      → Responds status wait
      → port.is_ready ≡ true
      → (port' : Serial) × ((consoles.put_string (some port, screen) text >>= consoles.flush)
          ≡ some (some port', Console.flush info font (Console.put_string info font screen text)))
        × Sent port (with_returns text) port'
  consoles_show port screen text responds ready =
      let (port1, ok1, sent1) = write-Sent status wait responds port text ready in
      let (port2, ok2, sent2) = flush-Sent status wait responds port1 (sent1.is_ready ∙ ready) in
      (
        port2,
        rw (ok1, ok2) refl,
        subst (λ (bytes : List ℕ). Sent port bytes port2) (append-nil (with_returns text))
            (Sent-trans status wait responds port port1 port2 (with_returns text) [] sent1 sent2),
      )

  module _ (size object_size p : ℕ) (new_report : Report) where
    -- While there is a free page for the object that it prints through, and the transmitter of the
    -- serial port, which was set up, becomes ready within `wait` reads of its status, `PanicEx` comes to
    -- its end: the whole text of the report is sent to the port, with a carriage return in front of every
    -- line feed, and drawn on the cleared screen, interrupts are off, and the processor is halted.
    pub panic_ex-halts :
        (fuel : ℕ) (m : Machine (Option Serial × Screen)) (port : Serial) (screen : Screen)
        (r : Report)
        → Responds status wait
        → port.is_ready ≡ true
        → m.out ≡ (some port, screen)
        → HasPage size object_size p m.heap
        → (port' : Serial) × (panic_ex consoles size object_size new_report (suc fuel) m r
            ≡ some (
                halted (record {
                  critical = record { in_critical = true; enabled = false };
                  heap = with_console object_size p m.heap;
                  out = (
                    some port',
                    Console.flush info font
                        (Console.put_string info font (Console.reset info screen) (message r)),
                  );
                  is_halted = true;
                })))
          × Sent port (with_returns (message r)) port'
    unfolding start_critical_section
    panic_ex-halts fuel m port screen r responds ready at has =
        let (port', shown, sent) =
          consoles_show port (Console.reset info screen) (message r) responds ready in
        (
          port',
          panic_ex-message consoles size object_size p new_report fuel m r consoles-IsTextual has
              ∙ rw (at, shown) refl,
          sent,
        )
