-- ===== src/Tests/Heap.antt =====
-- Examples for Kernel/Core/Memory: allocations in a bitmap of two bytes whose first page is in use.
use objective_hail_os.Prelude.{
  ℕ, ◌+◌, ◌-◌, ◌*◌, ◌<◌, ◌≡◌, refl, Bool, true, false, not, arith, ltb, ◌==◌, if◌then◌else◌,
  IsBytes, ◌/◌, ◌%◌, dec_lt,
}
use objective_hail_os.Prelude.Bits.{all_below, all_below_at}
use objective_hail_os.Bit.{array_bit, bit}
use objective_hail_os.Bit.Range.{in_range}
use objective_hail_os.PageBitmap.{page_size}
use objective_hail_os.PageAllocator.{allocate_page_sized, page_count_of}
use objective_hail_os.PageAllocator.Search.{FirstRun}
use objective_hail_os.PageAllocator.Any.{Allocated, allocate_page_sized-Allocated}
use objective_hail_os.OperatorNew.{HeapState, operator_new, operator_delete, returned}
use objective_hail_os.OperatorNew.Delete.{delete-new, pages_for}

-- The first `n` bytes of the bitmap are `v`, the others are 0.
abbrev low_bytes : ℕ → ℕ → ℕ → ℕ
low_bytes n v i = if ltb i n then v else 0

abbrev pub page_zero_used : ℕ → ℕ
page_zero_used = low_bytes 1 1

pub page_zero_used-IsBytes : IsBytes page_zero_used
page_zero_used-IsBytes i = ground arith

not-true : (b : Bool) → not b ≡ true → b ≡ false
not-true true e = ground arith
not-true false e = refl

pub first_used : (p : ℕ) → p < 1 → array_bit page_zero_used p ≡ true
unfolding array_bit bit
first_used p h = let e : p ≡ 0 = omega arith in rw e refl

low_free : all_below 7 (λ k. not (array_bit page_zero_used (1 + k))) ≡ true
unfolding all_below array_bit bit
low_free = refl

no_bits : all_below 8 (λ b. not (bit 0 b)) ≡ true
unfolding all_below bit
no_bits = refl

pub rest_free : (p : ℕ) → 0 < p → array_bit page_zero_used p ≡ false
unfolding array_bit
rest_free p h = elim (dec_lt p 8) [
  | yes low ↦
      let e : 1 + (p - 1) ≡ p = omega arith in
      let t =
        all_below_at 7 (λ k. not (array_bit page_zero_used (1 + k))) (p - 1) low_free
          (omega arith) in
      not-true _ (rw e at t)
  | no high ↦
      let byte : page_zero_used (p / 8) ≡ 0 = ground arith in
      rw byte (not-true _ (all_below_at 8 (λ b. not (bit 0 b)) (p % 8) no_bits (omega arith)))
]

pub page_zero_used-FirstRun : (n : ℕ) → 0 < n → FirstRun page_zero_used n 1
page_zero_used-FirstRun n pos = record {
  free = λ p l h. rest_free p (omega arith);
  first = λ r h run.
      let used = first_used r h in let free = run r (omega arith) (omega arith) in ground arith;
}

pub few_pages : page_count_of 8000 ≡ 2
unfolding page_count_of
few_pages = refl

allocate_page_sized_example :
    Allocated page_zero_used (page_count_of 8000) 1 (allocate_page_sized 2 page_zero_used 8000)
allocate_page_sized_example =
    allocate_page_sized-Allocated page_zero_used 2 8000 1 (omega arith) (omega arith)
      (page_zero_used-FirstRun (page_count_of 8000) (omega (arith, few_pages)))
      page_zero_used-IsBytes (omega (arith, few_pages)) (omega (arith, few_pages))

abbrev heap : HeapState
heap = record { bitmap = page_zero_used; memory = λ a. 0 }

one_page : pages_for 100 ≡ 1
unfolding page_count_of
one_page = refl

delete-new_example :
    (h' : HeapState) × (operator_new 2 heap 100 ≡ returned (1 * page_size) h')
    × ((p : ℕ)
        → array_bit (operator_delete 2 h' (1 * page_size)).bitmap p ≡ (
            if p == 1 - 1
            then false
            else (if in_range 1 (pages_for 100) p then true else array_bit heap.bitmap p)))
delete-new_example =
    delete-new 2 100 1 heap (omega arith) (omega arith)
      (page_zero_used-FirstRun (pages_for 100) (omega (arith, one_page))) page_zero_used-IsBytes
      (omega (arith, one_page)) (omega (arith, one_page)) (omega (arith, one_page))
