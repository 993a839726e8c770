-- ===== src/PageAllocator/Blocks/Outcome.antt =====
-- Kernel/Core/Memory/EarlyPageAllocator.cpp: AllocatePage(minSize) finds the lowest run or fails.
use objective_hail_os.Prelude.{
  ℕ, zero, suc, ◌+◌, ◌-◌, ◌*◌, ◌^◌, ◌≤◌, ◌<◌, ◌≡◌, ◌⊎◌, refl, sym, ◌∙◌, arith, true, inl, inr,
  IsBytes, Bool-cases, dec_lt, ℕ_discrete,
}
use mathlib.Core.Bool.{true≢false}
use objective_hail_os.Bit.{array_bit}
use objective_hail_os.PageAllocator.{nullptr, page_count_of, allocate_page_sized}
use objective_hail_os.PageAllocator.Single.{AllUsed, allocate_page-full}
use objective_hail_os.PageAllocator.Search.{FreeRun, FirstRun}
use objective_hail_os.PageAllocator.Sized.{page_count_of_bounds, allocate_page_sized-none}
use objective_hail_os.PageAllocator.Any.{Allocated, allocate_page_sized-Allocated}

-- Whether a run is free.
FreeRun-or_not : (m : ℕ → ℕ) (n s : ℕ) → FreeRun m n s ⊎ (FreeRun m n s → ⊥)
FreeRun-or_not m zero s = inl (λ p lo hi. absurd (omega arith))
FreeRun-or_not m (suc n) s = elim (FreeRun-or_not m n s) [
  | inr taken ↦ inr (λ run. taken (λ p lo hi. run p lo (omega arith)))
  | inl run ↦ elim (Bool-cases (array_bit m (s + n))) [
    | inl used ↦ inr (λ longer. true≢false (sym used ∙ longer (s + n) (omega arith) (omega arith)))
    | inr free ↦ inl (λ p lo hi. elim (dec_lt p (s + n)) [
      | yes lt ↦ run p lo lt
      | no last ↦ let e : p ≡ s + n = omega arith in rw e free
    ])
  ]
]

-- The lowest start below `k` of a free run, if there is one.
first_run :
    (m : ℕ → ℕ) (n k : ℕ)
    → ((s : ℕ) × (s < k) × FirstRun m n s) ⊎ ((s : ℕ) → s < k → FreeRun m n s → ⊥)
first_run m n zero = inr (λ s lt run. absurd (omega arith))
first_run m n (suc k) = elim (first_run m n k) [
  | inl (s, lt, is) ↦ inl (s, omega arith, is)
  | inr never ↦ elim (FreeRun-or_not m n k) [
    | inl run ↦ inl (k, omega arith, record { free = run; first = never })
    | inr taken ↦ inr (λ s lt run. elim (dec_lt s k) [
      | yes below ↦ never s below run
      | no at ↦ let e : s ≡ k = omega arith in taken (rw (← e) run)
    ])
  ]
]

-- The byte behind the bitmap, which the search looks at too, has no bit that reads as a free page.
abbrev pub NothingBehind : (size : ℕ) → (ℕ → ℕ) → Type 0
NothingBehind size m = (p : ℕ) → size * 8 ≤ p → p < (size + 1) * 8 → array_bit m p ≡ true

-- An allocation that was granted: its first page, and what it did.
pub record Granted (size : ℕ) (m : ℕ → ℕ) (bytes s : ℕ) : Type 0 where
  pub some_pages : 0 < page_count_of bytes
  pub not_null : 0 < s
  pub inside : s + page_count_of bytes ≤ size * 8
  pub free : FreeRun m (page_count_of bytes) s
  pub allocated : Allocated m (page_count_of bytes) s (allocate_page_sized size m bytes)

module _ (size bytes : ℕ) (m : ℕ → ℕ) (small : size < 2 ^ 32) (proper : IsBytes m)
    (first : array_bit m 0 ≡ true) (behind : NothingBehind size m) where
  abbrev n : ℕ
  n = page_count_of bytes

  granted : (s : ℕ) → 0 < n → s + n ≤ (size + 1) * 8 → FirstRun m n s → Granted size m bytes s
  granted s pos fits is =
      let not_null : 0 < s = elim (ℕ_discrete s 0) [
        | yes e ↦ absurd (true≢false (sym first ∙ is.free 0 (omega arith) (omega arith)))
        | no positive ↦ omega arith
      ] in
      let inside : s + n ≤ size * 8 = elim (dec_lt (size * 8) (s + n)) [
        | yes over ↦ absurd (
            true≢false (
              sym (behind (s + n - 1) (omega arith) (omega arith))
              ∙ is.free (s + n - 1) (omega arith) (omega arith)))
        | no fine ↦ omega arith
      ] in
      record {
        some_pages = pos;
        not_null = not_null;
        inside = inside;
        free = is.free;
        allocated =
            allocate_page_sized-Allocated m size bytes s small not_null is proper inside pos;
      }

  refused_one :
      n ≡ 1
      → ((s : ℕ) → s < (size + 1) * 8 → FreeRun m n s → ⊥)
      → allocate_page_sized size m bytes ≡ (nullptr, m)
  unfolding allocate_page_sized
  refused_one one never =
      let used : AllUsed m 0 (size * 8) = λ p lo hi. elim (Bool-cases (array_bit m p)) [
        | inl in_use ↦ in_use
        | inr free ↦
            absurd (
              never p (omega arith) (λ q low high. let e : q ≡ p = omega (arith, one) in rw e free))
      ] in
      rw (one, allocate_page-full m size used) refl

  -- AllocatePage(minSize) takes a free run inside the bitmap, or returns the null pointer and changes
  -- nothing.
  pub allocate_page_sized_outcome :
      ((s : ℕ) × Granted size m bytes s) ⊎ (allocate_page_sized size m bytes ≡ (nullptr, m))
  allocate_page_sized_outcome = elim (ℕ_discrete n 0) [
    | yes nothing ↦ inr (
        allocate_page_sized-none m size bytes (omega arith)
          (inr (omega (arith, page_count_of_bounds bytes, nothing))))
    | no pages ↦ elim (first_run m n ((size + 1) * 8 + 1 - n)) [
      | inl (s, lt, is) ↦ inl (s, granted s (omega arith) (omega arith) is)
      | inr never ↦ elim (ℕ_discrete n 1) [
        | yes one ↦ inr (refused_one one (λ s lt. never s (omega arith)))
        | no many ↦
            inr (allocate_page_sized-none m size bytes many (inl (λ s fits. never s (omega arith))))
      ]
    ]
  ]
