-- ===== src/Tests/Memory.antt =====
-- Examples for Library/, Kernel/Include/Utility and Kernel/Core/Memory: a bitmap of two bytes whose first
-- page is in use.
use objective_hail_os.Prelude.{
  ℕ, ◌≡◌, refl, false, not, arith, inl, inr, Bool-cases, ◌==◌, if◌then◌else◌, IsBytes,
}
use objective_hail_os.Bit.{array_bit}
use objective_hail_os.PageBitmap.{MemoryInfo, MemoryRegion, parse_memory_info}
use objective_hail_os.PageBitmap.Parse.{frees_any, parse_memory_info_at}
use objective_hail_os.PageBitmap.Order.{SameRegions, parse_memory_info-SameRegions}

abbrev page_zero_used : ℕ → ℕ
page_zero_used i = if i == 0 then 1 else 0

page_zero_used-IsBytes : IsBytes page_zero_used
page_zero_used-IsBytes i = ground arith

-- Ten pages are free from the second page on.
abbrev one_region : MemoryInfo
one_region = record {
  free_memory = λ j. record { base = 4096; length = 40960 };
  free_region_count = 1;
  reserved_memory = λ j. record { base = 0; length = 0 };
  reserved_region_count = 0;
}

parse_memory_info_example :
    array_bit (parse_memory_info false page_zero_used 2 one_region) 3
    ≡ not (frees_any 1 one_region.free_memory 0 3)
parse_memory_info_example =
    parse_memory_info_at page_zero_used 2 3 one_region (omega arith) (omega arith)
      page_zero_used-IsBytes (λ j h. omega arith)

-- Two regions, in this order and with the second one twice in the other order.
abbrev low : MemoryRegion
low = record { base = 4096; length = 8192 }

abbrev high : MemoryRegion
high = record { base = 32768; length = 16384 }

abbrev low_high : MemoryInfo
low_high = record one_region {
  free_memory = λ j. if j == 0 then low else high;
  free_region_count = 2;
}

abbrev high_low_high : MemoryInfo
high_low_high = record one_region {
  free_memory = λ j. if j == 1 then low else high;
  free_region_count = 3;
}

same_regions : SameRegions low_high high_low_high
same_regions = record {
  forward = λ j lt. elim (Bool-cases (j == 0)) [
    | inl first ↦ (1, omega arith, rw first refl)
    | inr second ↦ (0, omega arith, rw second refl)
  ];
  backward = λ j lt. elim (Bool-cases (j == 1)) [
    | inl middle ↦ (0, omega arith, rw middle refl)
    | inr outer ↦ (1, omega arith, rw outer refl)
  ];
}

same_regions_example :
    parse_memory_info false page_zero_used 2 low_high 1
    ≡ parse_memory_info false (λ i. 0) 2 high_low_high 1
same_regions_example =
    parse_memory_info-SameRegions 2 page_zero_used (λ i. 0) low_high high_low_high (omega arith)
      page_zero_used-IsBytes (λ i. omega arith) (λ j lt. ground arith) (λ j lt. ground arith)
      same_regions 1 (omega arith)
