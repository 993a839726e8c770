-- ===== src/Output.antt =====
-- Kernel/Include/Object/Interface/IOutputDevice.hpp with the devices of
-- Kernel/Devices/Console/SerialConsole.hpp, RedundantOutput.hpp and
-- Kernel/Core/KernelConsole/KernelConsole.hpp. A device is its operations on a state; `none` is a call
-- that is not over, a wait for the transmitter on fuel. A null pointer to a device is `none` too.
pub mod Text
use objective_hail_os.Prelude.{ℕ, Option, none, some, List, ◌>>=◌, some_pair}
use objective_hail_os.Serial
use objective_hail_os.Serial.{Serial, serial_put_char}
use objective_hail_os.Console
use objective_hail_os.Console.{GraphicInfo, Font, Screen}

pub record OutputDevice (S : Type 0) : Type 0 where
  pub put_char : S → ℕ → Option S
  pub put_string : S → List ℕ → Option S
  pub flush : S → Option S
  pub reset : S → Option S
  pub shutdown : S → Option S

-- `SerialConsole`; its state is what `m_Port` points to.
module _ (status : ℕ → ℕ) (fuel : ℕ) where
  -- `if (m_Port)`.
  abbrev pub on_port : (Serial → Option Serial) → Option Serial → Option (Option Serial)
  on_port call none = some none
  on_port call (some port) = do port' ← call port; some (some port')

  abbrev pub serial_console : OutputDevice (Option Serial)
  serial_console = record {
    put_char = λ s ch. on_port (λ port. serial_put_char status fuel port ch) s;
    put_string = λ s text. on_port (λ port. Serial.write status fuel port text) s;
    flush = on_port (Serial.flush status fuel);
    reset = some;
    shutdown = some;
  }

-- `KernelConsole`.
abbrev pub kernel_console : GraphicInfo → Font → OutputDevice Screen
kernel_console info font = record {
  put_char = λ s ch. some (Console.put_char info font s ch);
  put_string = λ s text. some (Console.put_string info font s text);
  flush = λ s. some (Console.flush info font s);
  reset = λ s. some (Console.reset info s);
  shutdown = some;
}

-- The calls of a device, each under the test that its pointer is not null.
abbrev pub guarded : {S : Type 0} → Option (OutputDevice S) → OutputDevice S
guarded none = record {
  put_char = λ s ch. some s;
  put_string = λ s text. some s;
  flush = some;
  reset = some;
  shutdown = some;
}
guarded (some device) = device

-- `RedundantOutput` of two devices with states of their own.
module _ {A B : Type 0} where
  -- The call of one device and then the call of the other one.
  abbrev pub both : Option A → Option B → Option (A × B)
  both call_a call_b = do s_a ← call_a; s_b ← call_b; some_pair s_a s_b

  abbrev pub redundant_output :
      Option (OutputDevice A) → Option (OutputDevice B) → OutputDevice (A × B)
  redundant_output a b = record {
    put_char = λ s ch. both ((guarded a).put_char s.0 ch) ((guarded b).put_char s.1 ch);
    put_string = λ s text. both ((guarded a).put_string s.0 text) ((guarded b).put_string s.1 text);
    flush = λ s. both ((guarded a).flush s.0) ((guarded b).flush s.1);
    reset = λ s. both ((guarded a).reset s.0) ((guarded b).reset s.1);
    shutdown = λ s. both ((guarded a).shutdown s.0) ((guarded b).shutdown s.1);
  }
