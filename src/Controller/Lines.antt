-- ===== src/Controller/Lines.antt =====
-- Kernel/Arch/x86_64/PIC/PIC.hpp: the lines of the legacy controllers, one by one.
use objective_hail_os.Prelude.{
  ℕ, ◌-◌, ◌^◌, ◌<◌, ◌≡◌, refl, sym, ◌∙◌, ap, bit_and, bit_or, Bool, true, false, ◌==◌,
  if◌then◌else◌, update, update_ne, arith, ==_iff, IsBytes, ℕ_discrete,
}
use objective_hail_os.Prelude.Words.{u8}
use objective_hail_os.Prelude.Bits.{all_below, all_below_at}
use objective_hail_os.Bit.{bit, set_bit}
use objective_hail_os.Bit.Byte.{bit-set_bit}
use objective_hail_os.Controller.{Ports, port_of, line_of, mask, unmask}

set_table : all_below 256 (λ v. all_below 8 (λ b. u8 (bit_or v (2 ^ b)) == set_bit v b true)) ≡ true
unfolding all_below set_bit
set_table = refl

clear_table :
    all_below 256 (λ v. all_below 8 (λ b. u8 (bit_and v (2 ^ 32 - 1 - 2 ^ b)) == set_bit v b false))
    ≡ true
unfolding all_below set_bit
clear_table = refl

as_set : (v b : ℕ) → v < 256 → b < 8 → u8 (bit_or v (2 ^ b)) ≡ set_bit v b true
as_set v b hv hb = (==_iff _ _).0 (all_below_at 8 _ b (all_below_at 256 _ v set_table hv) hb)

as_clear : (v b : ℕ) → v < 256 → b < 8 → u8 (bit_and v (2 ^ 32 - 1 - 2 ^ b)) ≡ set_bit v b false
as_clear v b hv hb = (==_iff _ _).0 (all_below_at 8 _ b (all_below_at 256 _ v clear_table hv) hb)

-- The line is masked.
abbrev pub is_masked : Ports → ℕ → Bool
is_masked ports irq = bit (ports (port_of irq)) (line_of irq)

-- A write of one bit to the port of a line.
written :
    (ports : Ports) (i j : ℕ) (flag : Bool)
    → IsBytes ports
    → i < 16
    → j < 16
    → is_masked (update ports (port_of i) (set_bit (ports (port_of i)) (line_of i) flag)) j
      ≡ (if i == j then flag else is_masked ports j)
written ports i j flag bytes hi hj =
    let own =
      bit-set_bit (ports (port_of i)) (line_of i) (line_of j) flag (bytes (port_of i))
        (ground arith) (ground arith) in
    let x = set_bit (ports (port_of i)) (line_of i) flag in
    elim (ℕ_discrete (port_of i) (port_of j)) [
      | yes same ↦
          let at : update ports (port_of i) x (port_of j) ≡ x = ground (arith, same) in
          let lines : (line_of i == line_of j) ≡ (i == j) = ground (arith, same) in
          ap (λ (v : ℕ). bit v (line_of j)) at
          ∙ own
          ∙ ap (λ (t : Bool). if t then flag else bit (ports (port_of i)) (line_of j)) lines
          ∙ ap (λ (q : ℕ). if i == j then flag else bit (ports q) (line_of j)) same
      | no differ ↦
          let other : (i == j) ≡ false = ground (arith, differ) in
          ap (λ (v : ℕ). bit v (line_of j)) (update_ne ports (port_of i) (port_of j) x differ)
          ∙ ap (λ (t : Bool). if t then flag else is_masked ports j) (sym other)
    ]

-- On the sixteen lines, `Mask` masks its line and `Unmask` unmasks it, and both leave the other lines as
-- they were.
pub mask-unmask_lines :
    (ports : Ports) (i j : ℕ)
    → IsBytes ports
    → i < 16
    → j < 16
    → (is_masked (mask ports i) j ≡ (if i == j then true else is_masked ports j))
      × (is_masked (unmask ports i) j ≡ (if i == j then false else is_masked ports j))
unfolding mask unmask
mask-unmask_lines ports i j bytes hi hj =
    let line : line_of i < 8 = ground arith in
    (
      rw (as_set (ports (port_of i)) (line_of i) (bytes (port_of i)) line)
          (written ports i j true bytes hi hj),
      rw (as_clear (ports (port_of i)) (line_of i) (bytes (port_of i)) line)
          (written ports i j false bytes hi hj),
    )
