-- ===== src/Bit/Byte.antt =====
-- Kernel/Include/Utility/Bit.hpp: `Bit` and `SetBit` on one byte.
use objective_hail_os.Prelude.{
  ℕ, ◌<◌, ◌≡◌, refl, Bool, true, false, not, arith, ◌==◌, if◌then◌else◌,
}
use objective_hail_os.Prelude.Bits.{all_below, all_below_at}
use objective_hail_os.Bit.{bit, set_bit}

iffb : Bool → Bool → Bool
iffb true b = b
iffb false b = not b

iffb_sound : (a b : Bool) → iffb a b ≡ true → a ≡ b
unfolding iffb
iffb_sound a b h = ground arith

-- What `SetBit` at `b` must do to the bit `c` of the byte `v`.
checks : Bool → ℕ → ℕ → ℕ → Bool
unfolding iffb
checks flag v b c = iffb (bit (set_bit v b flag) c) (if b == c then flag else bit v c)

table_set : all_below 256 (λ v. all_below 8 (λ b. all_below 8 (checks true v b))) ≡ true
unfolding all_below checks bit set_bit
table_set = refl

table_clear : all_below 256 (λ v. all_below 8 (λ b. all_below 8 (checks false v b))) ≡ true
unfolding all_below checks bit set_bit
table_clear = refl

table : (flag : Bool) → all_below 256 (λ v. all_below 8 (λ b. all_below 8 (checks flag v b))) ≡ true
table true = table_set
table false = table_clear

-- `SetBit` writes the flag to its bit and leaves the other bits of the byte.
pub bit-set_bit :
    (v b c : ℕ) (flag : Bool)
    → v < 256
    → b < 8
    → c < 8
    → bit (set_bit v b flag) c ≡ (if b == c then flag else bit v c)
unfolding checks
bit-set_bit v b c flag hv hb hc =
    iffb_sound _ _
      (all_below_at 8 _ c (all_below_at 8 _ b (all_below_at 256 _ v (table flag) hv) hb) hc)

pub set_bit-lt : (v b : ℕ) (flag : Bool) → v < 256 → set_bit v b flag < 256
unfolding set_bit
set_bit-lt v b flag h = ground arith

all_ones : all_below 8 (λ b. bit 255 b) ≡ true
unfolding all_below bit
all_ones = refl

pub bit-ones : (b : ℕ) → b < 8 → bit 255 b ≡ true
bit-ones b h = all_below_at 8 _ b all_ones h
