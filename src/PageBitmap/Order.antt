-- ===== src/PageBitmap/Order.antt =====
-- Kernel/Core/Memory/PhysicalMemoryBitmap.cpp: the order of the regions in the boot loader's list.
use objective_hail_os.Prelude.{
  ℕ, zero, suc, ◌+◌, ◌*◌, ◌/◌, ◌%◌, ◌^◌, ◌≤◌, ◌<◌, ◌≡◌, refl, sym, ◌∙◌, ap, Bool, true, false, not,
  arith, ◌==◌, ==_iff, if◌then◌else◌, IsBytes, inl, inr, Bool-cases,
}
use objective_hail_os.Prelude.Bits.{all_below, all_below_at}
use objective_hail_os.Bit.{bit, array_bit}
use objective_hail_os.PageBitmap.{MemoryInfo, MemoryRegion, parse_memory_info}
use objective_hail_os.PageBitmap.Parse.{
  frees, frees_any, Fits, parse_memory_info_at, parse_memory_info-IsBytes,
}

-- Each free region of `a` is a free region of `b`.
abbrev pub Includes : MemoryInfo → MemoryInfo → Type 0
Includes a b =
    (j : ℕ)
    → j < a.free_region_count
    → (k : ℕ) × (k < b.free_region_count) × (a.free_memory j ≡ b.free_memory k)

-- The same free regions, in whatever order, and each of them however often.
pub record SameRegions (a b : MemoryInfo) : Type 0 where
  pub forward : Includes a b
  pub backward : Includes b a

module _ (p : ℕ) (regions : ℕ → MemoryRegion) where
  covering :
      (n i : ℕ)
      → frees_any n regions i p ≡ true
      → (j : ℕ) × (i ≤ j) × (j < i + n) × (frees (regions j) p ≡ true)
  unfolding frees_any
  covering zero i h = absurd (ground arith)
  covering (suc n) i h = elim (Bool-cases (frees (regions i) p)) [
    | inl here ↦ (i, omega arith, omega arith, here)
    | inr elsewhere ↦
        let (j, lo, hi, c) = covering n (i + 1) (ground (arith, h, elsewhere)) in
        (j, omega (arith, lo), omega (arith, hi), c)
  ]

  frees_any-frees :
      (n i j : ℕ) → i ≤ j → j < i + n → frees (regions j) p ≡ true → frees_any n regions i p ≡ true
  unfolding frees_any
  frees_any-frees zero i j lo hi h = absurd (omega arith)
  frees_any-frees (suc n) i j lo hi h = elim (Bool-cases (i == j)) [
    | inl same ↦ (let e : i ≡ j = (==_iff i j).0 same in rw (e, h) refl)
    | inr other ↦
        (let rest = frees_any-frees n (i + 1) j (ground (arith, other)) (omega arith) h in
          ground (arith, rest))
  ]

frees_any-Includes :
    (p : ℕ) (a b : MemoryInfo)
    → Includes a b
    → frees_any a.free_region_count a.free_memory 0 p ≡ true
    → frees_any b.free_region_count b.free_memory 0 p ≡ true
frees_any-Includes p a b includes h =
    let (j, lo, hi, c) = covering p a.free_memory a.free_region_count 0 h in
    let (k, lt, e) = includes j (omega (arith, hi)) in
    frees_any-frees p b.free_memory b.free_region_count 0 k (omega arith) (omega (arith, lt))
      (sym (ap (λ r. frees r p) e) ∙ c)

bool_ext : (x y : Bool) → (x ≡ true → y ≡ true) → (y ≡ true → x ≡ true) → x ≡ y
bool_ext true y h k = sym (h refl)
bool_ext false true h k = k refl
bool_ext false false h k = refl

-- The number with these eight bits.
from_bits : (ℕ → Bool) → ℕ
from_bits f =
    (if f 0 then 1 else 0)
    + (if f 1 then 2 else 0)
    + (if f 2 then 4 else 0)
    + (if f 3 then 8 else 0)
    + (if f 4 then 16 else 0)
    + (if f 5 then 32 else 0)
    + (if f 6 then 64 else 0)
    + (if f 7 then 128 else 0)

table : all_below 256 (λ v. from_bits (bit v) == v) ≡ true
unfolding all_below from_bits bit
table = refl

from_bits-bit : (v : ℕ) → v < 256 → from_bits (bit v) ≡ v
from_bits-bit v h = (==_iff _ v).0 (all_below_at 256 (λ v. from_bits (bit v) == v) v table h)

from_bits-ext : (f g : ℕ → Bool) → ((b : ℕ) → b < 8 → f b ≡ g b) → from_bits f ≡ from_bits g
unfolding from_bits
from_bits-ext f g h =
    rw
      (
        h 0 (omega arith),
        h 1 (omega arith),
        h 2 (omega arith),
        h 3 (omega arith),
        h 4 (omega arith),
        h 5 (omega arith),
        h 6 (omega arith),
        h 7 (omega arith),
      )
      refl

-- Bytes with the same bits are the same.
byte_ext : (v w : ℕ) → v < 256 → w < 256 → ((b : ℕ) → b < 8 → bit v b ≡ bit w b) → v ≡ w
byte_ext v w hv hw h =
    sym (from_bits-bit v hv) ∙ (from_bits-ext (bit v) (bit w) h ∙ from_bits-bit w hw)

array_bit-bit : (m : ℕ → ℕ) (i k : ℕ) → k < 8 → array_bit m (i * 8 + k) ≡ bit (m i) k
unfolding array_bit
array_bit-bit m i k h =
    let index : (i * 8 + k) / 8 ≡ i = omega (arith, h) in
    let offset : (i * 8 + k) % 8 ≡ k = omega (arith, h) in rw (index, offset) refl

module _ (size : ℕ) (m m' : ℕ → ℕ) (a b : MemoryInfo) where
  pub parsed_bit-SameRegions :
      (p : ℕ)
      → size < 2 ^ 32
      → p < size * 8
      → IsBytes m
      → IsBytes m'
      → ((j : ℕ) → j < a.free_region_count → Fits size (a.free_memory j))
      → ((j : ℕ) → j < b.free_region_count → Fits size (b.free_memory j))
      → SameRegions a b
      → array_bit (parse_memory_info false m size a) p
        ≡ array_bit (parse_memory_info false m' size b) p
  parsed_bit-SameRegions p small lt bytes bytes' fits fits' same =
      parse_memory_info_at m size p a small lt bytes fits
      ∙ (ap not (
            bool_ext _ _ (frees_any-Includes p a b same.forward)
              (frees_any-Includes p b a same.backward))
          ∙ sym (parse_memory_info_at m' size p b small lt bytes' fits'))

-- `ParseMemoryInfo` forgets the order of the list: two lists with the same free regions, in whatever
-- order and each of them however often, over whatever the bitmap held before, give the same bitmap, of
-- fewer than 2 ^ 32 bytes and with a bit for each page of the regions.
pub parse_memory_info-SameRegions :
    (size : ℕ) (m m' : ℕ → ℕ) (a b : MemoryInfo)
    → size < 2 ^ 32
    → IsBytes m
    → IsBytes m'
    → ((j : ℕ) → j < a.free_region_count → Fits size (a.free_memory j))
    → ((j : ℕ) → j < b.free_region_count → Fits size (b.free_memory j))
    → SameRegions a b
    → (i : ℕ) → i < size
    → parse_memory_info false m size a i ≡ parse_memory_info false m' size b i
parse_memory_info-SameRegions size m m' a b small bytes bytes' fits fits' same i hi =
    byte_ext _ _ (parse_memory_info-IsBytes m size a bytes i)
      (parse_memory_info-IsBytes m' size b bytes' i)
      (λ k lt.
        sym (array_bit-bit _ i k lt)
        ∙ (parsed_bit-SameRegions size m m' a b (i * 8 + k) small (omega (arith, hi, lt)) bytes
              bytes' fits fits' same
            ∙ array_bit-bit _ i k lt))
