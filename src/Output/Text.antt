-- ===== src/Output/Text.antt =====
-- Kernel/Devices/Console/RedundantOutput.hpp and SerialConsole.hpp with Kernel/Core/KernelConsole: a
-- string is its characters, put one behind the other, whatever the device and also on two devices.
use objective_hail_os.Prelude.{
  ℕ, ◌≡◌, refl, sym, ◌∙◌, ap, false, not, Option, none, some, List, [], ◌∷◌, ◌++◌, ◌==◌,
  if◌then◌else◌, Bool-cases, inl, inr, ◌>>=◌, interleave, >>=-ext, >>=_assoc,
}
use objective_hail_os.Serial
use objective_hail_os.Serial.{Serial, write_byte, write_loop, serial_put_char}
use objective_hail_os.Console
use objective_hail_os.Console.{GraphicInfo, Font}
use objective_hail_os.Output.{
  OutputDevice, guarded, serial_console, kernel_console, redundant_output,
}

-- The characters of a text through `PutChar`, one call after the other.
unfoldable pub put_chars : {S : Type 0} → OutputDevice S → S → List ℕ → Option S
put_chars d s [] = some s
put_chars d s (ch ∷ rest) = d.put_char s ch >>= λ s1. put_chars d s1 rest

-- What a device promises of its strings.
pub record IsTextual {S : Type 0} (d : OutputDevice S) : Type 0 where
  pub empty : (s : S) → d.put_string s [] ≡ some s
  pub first :
      (s : S) (ch : ℕ) (rest : List ℕ)
      → d.put_string s (ch ∷ rest) ≡ (d.put_char s ch >>= λ s1. d.put_string s1 rest)

module _ {S : Type 0} (d : OutputDevice S) (textual : IsTextual d) where
  pub textual_put_chars : (s : S) (text : List ℕ) → d.put_string s text ≡ put_chars d s text
  unfolding put_chars
  textual_put_chars s [] = textual.empty s
  textual_put_chars s (ch ∷ rest) =
      textual.first s ch rest ∙ >>=-ext (d.put_char s ch) (λ s1. textual_put_chars s1 rest)

  -- Two strings behind each other are one.
  pub put_string-append :
      (s : S) (xs ys : List ℕ)
      → (d.put_string s xs >>= λ s1. d.put_string s1 ys) ≡ d.put_string s (xs ++ ys)
  put_string-append s [] ys = rw (textual.empty s) refl
  put_string-append s (ch ∷ xs) ys =
      rw (textual.first s ch xs, textual.first s ch (xs ++ ys))
        (>>=_assoc (d.put_char s ch) (λ s1. d.put_string s1 xs) (λ s1. d.put_string s1 ys)
          ∙ >>=-ext (d.put_char s ch) (λ s1. put_string-append s1 xs ys))

-- `PutString` of the serial console, with a port or without one.
module _ (status : ℕ → ℕ) (fuel : ℕ) where
  write_byte_idle :
      (port : Serial) (v : ℕ) → port.is_ready ≡ false → write_byte status fuel port v ≡ some port
  unfolding write_byte
  write_byte_idle port v idle = simp (ap not idle)

  write_loop_idle :
      (port : Serial) (text : List ℕ)
      → port.is_ready ≡ false
      → write_loop status fuel port text ≡ some port
  unfolding write_loop
  write_loop_idle port [] idle = refl
  write_loop_idle port (ch ∷ rest) idle =
      let step = write_byte_idle port ch idle in
      let returned = write_byte_idle port 13 idle in
      elim (Bool-cases (ch == 10)) [
        | inl feed ↦ rw (feed, returned, step) (write_loop_idle port rest idle)
        | inr plain ↦ rw (plain, step) (write_loop_idle port rest idle)
      ]

  write_as_loop :
      (port : Serial) (text : List ℕ)
      → Serial.write status fuel port text ≡ write_loop status fuel port text
  unfolding Serial.write
  write_as_loop port text = elim (Bool-cases port.is_ready) [
    | inl ready ↦ simp (ap not ready)
    | inr idle ↦ simp (ap not idle, write_loop_idle port text idle)
  ]

  write_first :
      (port : Serial) (ch : ℕ) (rest : List ℕ)
      → Serial.write status fuel port (ch ∷ rest)
        ≡ (serial_put_char status fuel port ch >>= λ port1. Serial.write status fuel port1 rest)
  unfolding write_loop serial_put_char
  write_first port ch rest =
      write_as_loop port (ch ∷ rest)
      ∙ sym (
          >>=_assoc (if ch == 10 then write_byte status fuel port 13 else some port)
            (λ s1. write_byte status fuel s1 ch) (λ s2. write_loop status fuel s2 rest))
      ∙ >>=-ext (serial_put_char status fuel port ch) (λ s1. sym (write_as_loop s1 rest))

  pub serial_console-IsTextual : IsTextual (serial_console status fuel)
  unfolding Serial.write write_loop
  serial_console-IsTextual = record { empty = empty; first = first }
    where
      empty : (s : Option Serial) → (serial_console status fuel).put_string s [] ≡ some s
      empty none = refl
      empty (some port) = ap (λ c. c >>= λ port'. some (some port')) (write_as_loop port [])

      first :
          (s : Option Serial) (ch : ℕ) (rest : List ℕ)
          → (serial_console status fuel).put_string s (ch ∷ rest) ≡ (
              (serial_console status fuel).put_char s ch >>= λ s1.
              (serial_console status fuel).put_string s1 rest)
      first none ch rest = refl
      first (some port) ch rest =
          let wrap = λ (port' : Serial). some (some port') in
          rw (write_first port ch rest) (
            >>=_assoc (serial_put_char status fuel port ch)
              (λ port1. Serial.write status fuel port1 rest) wrap
            ∙ sym (
                >>=_assoc (serial_put_char status fuel port ch) wrap
                  (λ s1. (serial_console status fuel).put_string s1 rest)))

-- `PutString` of the console on the frame buffer.
pub kernel_console-IsTextual :
    (info : GraphicInfo) (font : Font) → IsTextual (kernel_console info font)
unfolding Console.put_string
kernel_console-IsTextual info font = record { empty = λ s. refl; first = λ s ch rest. refl }

-- A null pointer, or a device that keeps the promise.
abbrev pub IsNullOrTextual : {S : Type 0} → Option (OutputDevice S) → Type 0
IsNullOrTextual none = Unit {0}
IsNullOrTextual (some d) = IsTextual d

guarded-IsTextual :
    {S : Type 0} (d : Option (OutputDevice S)) → IsNullOrTextual d → IsTextual (guarded d)
guarded-IsTextual none textual = record { empty = λ s. refl; first = λ s ch rest. refl }
guarded-IsTextual (some d) textual = textual

module _ {A B : Type 0} (a : Option (OutputDevice A)) (b : Option (OutputDevice B))
    (textual_a : IsNullOrTextual a) (textual_b : IsNullOrTextual b) where
  pub redundant_output-IsTextual : IsTextual (redundant_output a b)
  redundant_output-IsTextual =
      let laws_a = guarded-IsTextual a textual_a in
      let laws_b = guarded-IsTextual b textual_b in
      record {
        empty = λ s. rw (laws_a.empty s.0, laws_b.empty s.1) refl;
        first = λ s ch rest.
            rw (laws_a.first s.0 ch rest, laws_b.first s.1 ch rest)
              (interleave ((guarded a).put_char s.0 ch) (λ s_a. (guarded a).put_string s_a rest)
                ((guarded b).put_char s.1 ch) (λ s_b. (guarded b).put_string s_b rest));
      }

  -- On two devices, each of them null or one whose strings are their characters put one after the other,
  -- `PutString` of a text ends in the state that `PutChar` of its characters, one after the other on both,
  -- ends in, and is over when they are.
  pub put_string-put_chars :
      (s : A × B) (text : List ℕ)
      → (redundant_output a b).put_string s text ≡ put_chars (redundant_output a b) s text
  put_string-put_chars = textual_put_chars (redundant_output a b) redundant_output-IsTextual
