-- ===== src/Acpi/Shutdown.antt =====
-- Shutdown of Kernel/Core/ACPI/ACPIManager.cpp: the writes that put the machine to sleep, up to the wait
-- through a pointer that was never set.
use objective_hail_os.Prelude.{
  ℕ, ◌+◌, ◌*◌, ◌^◌, ◌≡◌, Bool, false, not, ◌&&◌, Option, none, some, List, [], ◌∷◌, ◌++◌, ◌==◌,
  if◌then◌else◌, arith,
}
use objective_hail_os.Prelude.Words.{u16}
use objective_hail_os.Acpi.{load32, load64, find_table}

-- `SLP_CMD`.
abbrev pub slp_cmd : ℕ
slp_cmd = 0x5 * 2 ^ 10 + 2 ^ 13

-- A port write of 8 or 16 bits, and a 16-bit write to memory.
pub data PowerEffect : Type 0 where
  port8 port16 store16 : ℕ → ℕ → PowerEffect

-- A panic after some writes, or all the writes.
pub data PowerOff : Type 0 where
  panic written : List PowerEffect → PowerOff

-- A control block of the FADT, from its extended address or else its 32-bit one: whether it is in
-- memory, and its address.
unfoldable pub control_block : (ℕ → ℕ) → (fadt extended plain : ℕ) → Option (Bool × ℕ)
control_block mem fadt extended plain =
    let x = load64 mem (fadt + extended + 4) in
    let p = load32 mem (fadt + plain) in
    if not (x == 0)
    then some (mem (fadt + extended) == 0, x)
    else (if not (p == 0) then some (false, p) else none)

-- The write of `SLP_CMD` to a block, with `WritePhysMem`.
unfoldable pub send_sleep : Bool × ℕ → List PowerEffect
send_sleep block =
    if not block.0
    then port16 (u16 block.1) slp_cmd ∷ []
    else (if block.1 == 0 then [] else store16 block.1 slp_cmd ∷ [])

-- `ACPIManager::Shutdown`; `rsdp` is `m_RSDPtr`.
unfoldable pub shutdown : (ℕ → ℕ) → (rsdp : ℕ) → PowerOff
shutdown mem rsdp =
    let fadt = find_table mem rsdp (b'F' ∷ b'A' ∷ b'C' ∷ b'P' ∷ []) in
    let enable : List PowerEffect =
      if not (mem (fadt + 52) == 0) && not (load32 mem (fadt + 48) == 0)
      then port8 (u16 (load32 mem (fadt + 48))) (mem (fadt + 52)) ∷ []
      else [] in
    let second : List PowerEffect = elim (control_block mem fadt 184 68) [
      | none ↦ []
      | some block ↦ send_sleep block
    ] in
    if rsdp == 0
    then panic []
    else (if fadt == 0 then panic [] else elim (control_block mem fadt 172 64) [
      | none ↦ panic enable
      | some block ↦ written (enable ++ (send_sleep block ++ second))
    ])

-- A block's address is never null, so the command is always sent.
pub control_block_sent :
    (mem : ℕ → ℕ) (fadt extended plain : ℕ) (block : Bool × ℕ)
    → control_block mem fadt extended plain ≡ some block
    → send_sleep block
      ≡ (if block.0 then store16 block.1 slp_cmd ∷ [] else port16 (u16 block.1) slp_cmd ∷ [])
unfolding control_block send_sleep
control_block_sent mem fadt extended plain block found = ground arith
