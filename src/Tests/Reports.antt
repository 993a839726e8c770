-- ===== src/Tests/Reports.antt =====
-- Examples for Kernel/Core/ErrorHandling and Kernel/Arch/x86_64/Interrupts: panics and exceptions on a
-- screen of 640 by 480 pixels and a port whose transmitter is always ready.
use objective_hail_os.Prelude.{
  ℕ, ◌*◌, ◌≡◌, refl, Bool, true, false, Option, none, some, List, [], ◌∷◌, arith, ◌==◌,
  if◌then◌else◌, codes,
}
use objective_hail_os.Prelude.Bits.{all_below, all_below_at}
use objective_hail_os.Bit.{array_bit, bit}
use objective_hail_os.PageAllocator.Single.{AllUsed}
use objective_hail_os.Interrupts.{
  InterruptFrame, Effect, handler_call, Tables, handler, stub_has_error,
}
use objective_hail_os.Serial.{Serial}
use objective_hail_os.Serial.Write.{Responds, Sent, with_returns}
use objective_hail_os.Console
use objective_hail_os.Console.{Screen}
use objective_hail_os.Output.{redundant_output, serial_console, kernel_console}
use objective_hail_os.Output.Text.{
  put_chars, put_string-put_chars, serial_console-IsTextual, kernel_console-IsTextual,
}
use objective_hail_os.Panic.{
  Report, Machine, halted, halt_processor, panic_at, status_error, panic_ex,
}
use objective_hail_os.Panic.Exhausted.{panic_ex-exhausted}
use objective_hail_os.Panic.Halts.{HasPage, with_console, consoles, message, panic_ex-halts}
use objective_hail_os.Exceptions.{Functions, boot_tables, handler_pf}
use objective_hail_os.Exceptions.Boot.{installed, AreFunctions, handler-boot}
use objective_hail_os.Exceptions.Dump.{dump, handler-dump}
use objective_hail_os.Tests.Heap.{page_zero_used, first_used, rest_free}
use objective_hail_os.Tests.Screen.{info, font}

abbrev pub status : ℕ → ℕ
status read = 0x20

pub status-Responds : Responds status 1
status-Responds read = (0, omega arith, refl)

abbrev pub port : Serial
port = record { base = 0x3f8; is_ready = true; reads = 0; sent = [] }

abbrev screen : Screen
screen = record { x = 8; y = 0; pixels = λ a. 7 }

put_string_example :
    (redundant_output (some (serial_console status 1)) (some (kernel_console info font))).put_string
      (some port, screen)
      (codes "ok\n")
    ≡ put_chars
        (redundant_output (some (serial_console status 1)) (some (kernel_console info font)))
        (some port, screen)
        (codes "ok\n")
put_string_example =
    put_string-put_chars (some (serial_console status 1)) (some (kernel_console info font))
      (serial_console-IsTextual status 1) (kernel_console-IsTextual info font) (some port, screen)
      (codes "ok\n")

abbrev pub machine : (ℕ → ℕ) → Machine (Option Serial × Screen)
machine bitmap = record {
  critical = record { in_critical = false; enabled = true };
  heap = record { bitmap = bitmap; memory = λ a. 0 };
  out = (some port, screen);
  is_halted = false;
}

abbrev pub in_new : Report
in_new = panic_at status_error 0 (codes "NewDelete.cpp") (codes "operator new") 31

abbrev report : Report
report = panic_at status_error 0 (codes "KernelMain.cpp") (codes "InitMemory") 69

sixteen_used : all_below 16 (λ p. array_bit (λ i. 255) p) ≡ true
unfolding all_below array_bit bit
sixteen_used = refl

-- Every page of the bitmap is in use.
all_used : AllUsed (λ i. 255) 0 (2 * 8)
all_used p lo hi = all_below_at 16 (λ q. array_bit (λ i. 255) q) p sixteen_used (omega arith)

pub has_page : HasPage 2 40 1 (machine page_zero_used).heap
has_page = record {
  small = omega arith;
  one_page = omega arith;
  not_null = omega arith;
  inside = omega arith;
  free = rest_free 1 (omega arith);
  lowest = λ p lo hi. first_used p hi;
}

panic_ex_example :
    (port' : Serial) × (panic_ex
        (consoles status 1 info font)
        2
        40
        in_new
        1
        (machine page_zero_used)
        report
      ≡ some (
          halted (record {
            critical = record { in_critical = true; enabled = false };
            heap = with_console 40 1 (machine page_zero_used).heap;
            out = (
              some port',
              Console.flush info font
                  (Console.put_string info font (Console.reset info screen) (message report)),
            );
            is_halted = true;
          })))
    × Sent port (with_returns (message report)) port'
panic_ex_example =
    panic_ex-halts status 1 info font 2 40 1 in_new 0 (machine page_zero_used) port screen report
      status-Responds refl refl has_page

exhausted_example :
    panic_ex (consoles status 1 info font) 2 40 in_new 1000 (machine (λ i. 255)) report ≡ none
exhausted_example =
    panic_ex-exhausted (consoles status 1 info font) 2 40 in_new (omega arith) 1000
      (machine (λ i. 255)) report all_used

abbrev frame : InterruptFrame
frame = record { rip = 0x1000; cs = 8; rflags = 0x202; rsp = 0x8000; ss = 16 }

handler-dump_example :
    (port' : Serial) × (handler_pf
        (consoles status 1 info font)
        2
        40
        in_new
        0x5000
        1
        (machine page_zero_used)
        frame
        true
        2
      ≡ some (
          halted (
            halt_processor (record {
              critical = record { in_critical = false; enabled = true };
              heap = with_console 40 1 (machine page_zero_used).heap;
              out = (
                some port',
                Console.put_string info font
                    (Console.reset info screen)
                    (dump frame (codes "#PF") true 2 0x5000),
              );
              is_halted = false;
            }))))
    × Sent port (with_returns (dump frame (codes "#PF") true 2 0x5000)) port'
handler-dump_example =
    handler-dump status 1 info font 2 40 1 in_new 0x5000 0 (machine page_zero_used) port screen
      frame (codes "#PF") true 2 status-Responds refl refl has_page

abbrev functions : Functions
functions = record { on_ud = 1; on_df = 2; on_gp = 3; on_pf = 4; on_timer = 5 }

functions-AreFunctions : AreFunctions functions
functions-AreFunctions = record {
  ud = omega arith;
  df = omega arith;
  gp = omega arith;
  pf = omega arith;
  timer = omega arith;
}

abbrev pub no_tables : Tables
no_tables = record { handlers = λ v. 9; vector_counts = λ v. 0; eoi = 7; logger = 8 }

abbrev no_body : ℕ → InterruptFrame → Bool → ℕ → List Effect
no_body fn f has_error ec = []

handler-boot_example :
    (handler 0xfee00900 no_body 14 (boot_tables functions no_tables) frame 2).1 ≡ (
      if installed functions 14 == 0
      then []
      else handler_call (installed functions 14)
        ∷ no_body
            (installed functions 14)
            frame
            (stub_has_error 14)
            (if stub_has_error 14 then 2 else 0))
handler-boot_example =
    handler-boot 0xfee00900 no_body functions no_tables 14 frame 2 functions-AreFunctions
      (omega arith)
