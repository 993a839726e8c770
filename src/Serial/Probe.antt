-- ===== src/Serial/Probe.antt =====
-- Kernel/Arch/x86_64/IO/Serial/Serial16550.hpp: the loopback test of Probe, on the ports of a machine. The
-- instructions `in` and `out` and what the devices behind the ports do are a parameter.
use objective_hail_os.Prelude.{
  ℕ, ◌+◌, ◌≡◌, ◌≢◌, refl, ◌∙◌, ap, arith, bit_or, Bool, true, false, List, [], ◌∷◌, ◌==◌,
  if◌then◌else◌,
}
use objective_hail_os.Serial.{find_base}

pub record Ports (S : Type 0) : Type 0 where
  pub in8 : S → (port : ℕ) → ℕ × S
  pub out8 : S → (port value : ℕ) → S

module _ {S : Type 0} (ports : Ports S) where
  unfoldable pub probe : (base : ℕ) → S → Bool × S
  probe base s =
      let (line_status, s1) = ports.in8 s (base + 5) in
      if line_status == 0xff
      then (false, s1)
      else (let (ier, s2) = ports.in8 s1 (base + 1) in
          let (mcr, s3) = ports.in8 s2 (base + 4) in
          let s4 = ports.out8 s3 (base + 4) (bit_or mcr 0x10) in
          let s5 = ports.out8 s4 base 0xae in
          let (r, s6) = ports.in8 s5 base in
          let s7 = ports.out8 s6 (base + 4) mcr in
          let s8 = ports.out8 s7 (base + 1) ier in (r == 0xae, s8))

  -- The loop of the constructor over its candidates.
  unfoldable pub probe_all : List ℕ → (base : ℕ) → S → ℕ × S
  unfolding probe
  probe_all [] base s = (base, s)
  probe_all (b ∷ rest) base s =
      let (found, s1) = probe b s in probe_all rest (if found then b else base) s1

  -- What the data sheet of a 16550 at `base` says of the registers that Probe uses: `ier` and `mcr` are
  -- the values of the interrupt enable and the modem control register.
  pub record Is16550 (base : ℕ) (ier mcr : S → ℕ) : Type 0 where
    -- The line status never has all its bits set.
    pub line_status : (s : S) → (ports.in8 s (base + 5)).0 ≢ 0xff
    pub ier_in : (s : S) → (ports.in8 s (base + 1)).0 ≡ ier s
    pub mcr_in : (s : S) → (ports.in8 s (base + 4)).0 ≡ mcr s
    -- With the loop bit on, what is sent is received.
    pub loop :
        (s : S) (v value : ℕ)
        → (ports.in8 (ports.out8 (ports.out8 s (base + 4) (bit_or v 0x10)) base value) base).0
          ≡ value
    -- Only a write to a control register changes it.
    pub in_keeps :
        (s : S) (port : ℕ) → (ier (ports.in8 s port).1 ≡ ier s) × (mcr (ports.in8 s port).1 ≡ mcr s)
    pub data_out :
        (s : S) (v : ℕ) → (ier (ports.out8 s base v) ≡ ier s) × (mcr (ports.out8 s base v) ≡ mcr s)
    pub ier_out :
        (s : S) (v : ℕ)
        → (ier (ports.out8 s (base + 1) v) ≡ v) × (mcr (ports.out8 s (base + 1) v) ≡ mcr s)
    pub mcr_out :
        (s : S) (v : ℕ)
        → (ier (ports.out8 s (base + 4) v) ≡ ier s) × (mcr (ports.out8 s (base + 4) v) ≡ v)

  module _ (base : ℕ) (ier mcr : S → ℕ) (chip : Is16550 base ier mcr) where
    -- Probe finds a 16550, and leaves both control registers of it as they were.
    pub probe-Is16550 :
        (s : S)
        → ((probe base s).0 ≡ true)
          × (ier (probe base s).1 ≡ ier s)
          × (mcr (probe base s).1 ≡ mcr s)
    unfolding probe
    probe-Is16550 s =
        let there : ((ports.in8 s (base + 5)).0 == 0xff) ≡ false =
          ground (arith, chip.line_status s) in
        let s1 = (ports.in8 s (base + 5)).1 in
        let s2 = (ports.in8 s1 (base + 1)).1 in
        let s3 = (ports.in8 s2 (base + 4)).1 in
        let v = (ports.in8 s2 (base + 4)).0 in
        let e = (ports.in8 s1 (base + 1)).0 in
        let s5 = ports.out8 (ports.out8 s3 (base + 4) (bit_or v 0x10)) base 0xae in
        let s7 = ports.out8 (ports.in8 s5 base).1 (base + 4) v in
        rw there (
          rw (chip.loop s3 v 0xae) refl,
          (chip.ier_out s7 e).0 ∙ chip.ier_in s1 ∙ (chip.in_keeps s (base + 5)).0,
          (chip.ier_out s7 e).1
              ∙ (chip.mcr_out (ports.in8 s5 base).1 v).1
              ∙ chip.mcr_in s2
              ∙ (chip.in_keeps s1 (base + 1)).1
              ∙ (chip.in_keeps s (base + 5)).1,
        )

  -- Where the answers do not depend on what was done to the ports before, the loop finds the last
  -- candidate that answers.
  pub probe_all-find_base :
      (answers : ℕ → Bool)
      → ((b : ℕ) (s : S) → (probe b s).0 ≡ answers b)
      → (candidates : List ℕ) (base : ℕ) (s : S)
      → (probe_all candidates base s).0 ≡ find_base answers candidates base
  unfolding probe_all find_base
  probe_all-find_base answers same [] base s = refl
  probe_all-find_base answers same (b ∷ rest) base s =
      probe_all-find_base answers same rest (if (probe b s).0 then b else base) (probe b s).1
      ∙ ap (λ (found : Bool). find_base answers rest (if found then b else base)) (same b s)
