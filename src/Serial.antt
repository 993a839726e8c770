-- ===== src/Serial.antt =====
-- Kernel/Arch/x86_64/IO/Serial/Serial16550.hpp with PutChar of
-- Kernel/Devices/Console/SerialConsole.hpp. What the line status register holds at each read is a
-- parameter, `status`; the bytes that were written to ports are kept in order. A wait for the
-- transmitter runs on fuel.
pub mod Probe
pub mod Write
use objective_hail_os.Prelude.{
  ℕ, zero, suc, ◌+◌, ◌/◌, ◌%◌, ◌^◌, bit_and, bit_or, Bool, true, false, not, Option, none, some,
  List, [], ◌∷◌, ◌++◌, ◌==◌, if◌then◌else◌, ◌>>=◌,
}
use objective_hail_os.Prelude.Words.{u8, u16}

-- The port, how often the line status was read, and the writes.
pub record Serial : Type 0 where
  pub base : ℕ
  pub is_ready : Bool
  pub reads : ℕ
  pub sent : List (ℕ × ℕ)

abbrev pub out8 : Serial → (offset value : ℕ) → Serial
out8 s offset value = record s { sent = s.sent ++ (s.base + offset, value) ∷ [] }

-- The divisor of the constructor.
unfoldable pub divisor : ℕ → ℕ
divisor baud = u16 (115200 / (if baud == 0 then 115200 else baud))

-- The constructor behind its search for the base port: the writes that configure the chip.
unfoldable pub configure : Serial → (baud : ℕ) → Serial
configure s baud =
    let s0 : Serial = record s { is_ready = true } in
    let s1 = out8 s0 1 0 in
    let s2 = out8 s1 3 0x80 in
    let s3 = out8 s2 0 (u8 (divisor baud % 256)) in
    let s4 = out8 s3 1 (u8 (divisor baud / 2 ^ 8 % 256)) in
    let s5 = out8 s4 3 0x03 in
    let s6 = out8 s5 2 0xc7 in let s7 = out8 s6 4 0x0b in record s7 { reads = s7.reads + 1 }

-- The loop of the constructor over its candidates; `probe` says which of them answer.
unfoldable pub find_base : (probe : ℕ → Bool) → List ℕ → ℕ → ℕ
find_base probe [] base = base
find_base probe (b ∷ rest) base = find_base probe rest (if probe b then b else base)

abbrev pub base_cand : List ℕ
base_cand = 0x3f8 ∷ 0x2f8 ∷ 0x3e8 ∷ 0x2e8 ∷ []

-- `Serial16550(baud)`; `m_Base` is `old` where no candidate answers.
unfoldable pub serial_16550 : (probe : ℕ → Bool) → (old baud : ℕ) → Serial
unfolding find_base configure
serial_16550 probe old baud =
    let base = find_base probe base_cand 0 in
    if base == 0
    then record { base = old; is_ready = false; reads = 0; sent = [] }
    else configure (record { base = base; is_ready = false; reads = 0; sent = [] }) baud

-- `Serial16550(base, baud)`, which is deprecated: it leaves `m_IsReady` false.
unfoldable pub serial_16550_at : (base baud : ℕ) → Serial
unfolding configure
serial_16550_at base baud =
    let s = configure (record { base = base; is_ready = false; reads = 0; sent = [] }) baud in
    record s { is_ready = false }

module _ (status : ℕ → ℕ) where
  -- The test of `CanTx` at a read of the line status.
  abbrev pub can_tx : ℕ → Bool
  can_tx read = not (bit_and (status read) 0x20 == 0)

  -- `while (!CanTx())`; `none` is a wait that is not over.
  unfoldable pub wait_tx : ℕ → Serial → Option Serial
  wait_tx zero s = none
  wait_tx (suc fuel) s =
      let s' : Serial = record s { reads = s.reads + 1 } in
      let rest = wait_tx fuel s' in if can_tx s.reads then some s' else rest

  unfoldable pub write_byte : ℕ → Serial → ℕ → Option Serial
  write_byte fuel s v =
      if not s.is_ready
      then some s
      else elim (wait_tx fuel s) [ none ↦ none | some s' ↦ some (out8 s' 0 v) ]

  -- The loop of `Write`, on the bytes before the terminating zero.
  unfoldable pub write_loop : ℕ → Serial → List ℕ → Option Serial
  write_loop fuel s [] = some s
  write_loop fuel s (ch ∷ rest) = do
    s1 ← if ch == 10 then write_byte fuel s 13 else some s
    s2 ← write_byte fuel s1 ch
    write_loop fuel s2 rest

  unfoldable pub write : ℕ → Serial → List ℕ → Option Serial
  write fuel s text = if not s.is_ready then some s else write_loop fuel s text

  unfoldable pub flush : ℕ → Serial → Option Serial
  flush fuel s = if not s.is_ready then some s else wait_tx fuel s

  -- `SerialConsole::PutChar`, where there is a port.
  unfoldable pub serial_put_char : ℕ → Serial → ℕ → Option Serial
  serial_put_char fuel s ch = do
    s1 ← if ch == 10 then write_byte fuel s 13 else some s
    write_byte fuel s1 ch
