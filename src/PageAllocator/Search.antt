-- ===== src/PageAllocator/Search.antt =====
-- Kernel/Core/Memory/EarlyPageAllocator.cpp: the search of `FindAvailableAddress`.
use objective_hail_os.Prelude.{
  ℕ, zero, suc, ◌+◌, ◌-◌, ◌*◌, ◌^◌, ◌≤◌, ◌<◌, ◌≡◌, refl, inl, inr, ◌∙◌, true, false, arith, dec_lt,
  Bool-cases,
}
use objective_hail_os.Bit.{array_bit}
use objective_hail_os.PageBitmap.{page_size}
use objective_hail_os.PageAllocator.{nullptr, find_loop, find_available_address}

-- The `n` pages from `s` on are free.
abbrev pub FreeRun : (ℕ → ℕ) → ℕ → ℕ → Type 0
FreeRun m n s = (p : ℕ) → s ≤ p → p < s + n → array_bit m p ≡ false

module _ (m : ℕ → ℕ) (n : ℕ) where
  find_loop-used :
      (left i run : ℕ)
      → array_bit m i ≡ true
      → find_loop (suc left) m n i run ≡ find_loop left m n (i + 1) 0
  unfolding find_loop array_bit
  find_loop-used left i run used = ground arith

  find_loop-more :
      (left i run : ℕ)
      → array_bit m i ≡ false
      → run + 1 < n
      → find_loop (suc left) m n i run ≡ find_loop left m n (i + 1) (run + 1)
  unfolding find_loop array_bit
  find_loop-more left i run free short = ground arith

  find_loop-done :
      (left i run : ℕ)
      → i < 2 ^ 40
      → array_bit m i ≡ false
      → run ≤ i
      → run + 1 ≡ n
      → find_loop (suc left) m n i run ≡ (i - run) * page_size
  unfolding find_loop array_bit
  find_loop-done left i run near free behind done = ground arith

  -- `s` is the start of the lowest run of `n` free pages.
  pub record FirstRun (s : ℕ) : Type 0 where
    pub free : FreeRun m n s
    pub first : (r : ℕ) → r < s → FreeRun m n r → ⊥

  -- The pages behind the loop's position.
  abbrev Behind : ℕ → ℕ → Type 0
  Behind i run = (p : ℕ) → i - run ≤ p → p < i → array_bit m p ≡ false

  extend :
      (i run p : ℕ)
      → Behind i run
      → array_bit m i ≡ false
      → i - run ≤ p
      → p < i + 1
      → array_bit m p ≡ false
  extend i run p behind free lo hi = elim (dec_lt p i) [
    | yes lt ↦ behind p lo lt
    | no here ↦ let e : p ≡ i = omega arith in rw e free
  ]

  find_loop-first :
      (left i run s : ℕ)
      → i + left < 2 ^ 40
      → run ≤ i
      → run < n
      → Behind i run
      → i - run ≤ s
      → s + n ≤ i + left
      → FirstRun s
      → find_loop left m n i run ≡ s * page_size
  find_loop-first zero i run s near r lt behind lo hi is = absurd (omega arith)
  find_loop-first (suc left) i run s near r lt behind lo hi is = elim (Bool-cases (array_bit m i)) [
    | inl used ↦
        let past : i < s = elim (dec_lt i s) [
          | yes before ↦ before
          | no after ↦ let f : array_bit m i ≡ false = is.free i (omega arith) (omega arith) in cc
        ] in
        find_loop-used left i run used
        ∙ find_loop-first left (i + 1) 0 s (omega arith) (omega arith) (omega arith)
            (λ p lo' hi'. absurd (omega arith)) (omega arith) (omega arith) is
    | inr free ↦ elim (dec_lt (run + 1) n) [
      | yes short ↦
          find_loop-more left i run free short
          ∙ find_loop-first left (i + 1) (run + 1) s (omega arith) (omega arith) short
              (λ p lo' hi'. extend i run p behind free (omega arith) hi') (omega arith)
              (omega arith) is
      | no full ↦
          let found = find_loop-done left i run (omega arith) free r (omega arith) in
          elim (dec_lt (i - run) s) [
            | yes early ↦ absurd (
                is.first (i - run) early
                  (λ p lo' hi'. extend i run p behind free lo' (omega arith)))
            | no here ↦ omega (arith, found)
          ]
    ]
  ]

  find_loop-none :
      (left i run : ℕ)
      → run ≤ i
      → run < n
      → Behind i run
      → ((s : ℕ) → s + n ≤ i + left → FreeRun m n s → ⊥)
      → find_loop left m n i run ≡ nullptr
  find_loop-none zero i run r lt behind never = unfold find_loop in refl
  find_loop-none (suc left) i run r lt behind never = elim (Bool-cases (array_bit m i)) [
    | inl used ↦
        find_loop-used left i run used
        ∙ find_loop-none left (i + 1) 0 (omega arith) (omega arith)
            (λ p lo' hi'. absurd (omega arith)) (λ s fits. never s (omega arith))
    | inr free ↦ elim (dec_lt (run + 1) n) [
      | yes short ↦
          find_loop-more left i run free short
          ∙ find_loop-none left (i + 1) (run + 1) (omega arith) short
              (λ p lo' hi'. extend i run p behind free (omega arith) hi')
              (λ s fits. never s (omega arith))
      | no full ↦ absurd (
          never (i - run) (omega arith) (λ p lo' hi'. extend i run p behind free lo' (omega arith)))
    ]
  ]

-- With a lowest run of `n` free pages among the pages that the search looks at, the search returns
-- the address of its first page.
pub find_available_address-first :
    (m : ℕ → ℕ) (size n s : ℕ)
    → size < 2 ^ 32
    → 0 < n
    → s + n ≤ (size + 1) * 8
    → FirstRun m n s
    → find_available_address size m n ≡ s * page_size
unfolding find_available_address
find_available_address-first m size n s small pos fits is =
    let found =
      find_loop-first m n ((size + 1) * 8) 0 0 s (omega arith) (omega arith) pos
        (λ p lo hi. absurd (omega arith)) (omega arith) (omega arith) is in
    ground (arith, found)

-- Without such a run the search returns the null pointer.
pub find_available_address-none :
    (m : ℕ → ℕ) (size n : ℕ)
    → ((s : ℕ) → s + n ≤ (size + 1) * 8 → FreeRun m n s → ⊥)
    → find_available_address size m n ≡ nullptr
unfolding find_available_address
find_available_address-none m size n never = elim (dec_lt 0 n) [
  | yes pos ↦
      let missed =
        find_loop-none m n ((size + 1) * 8) 0 0 (omega arith) pos (λ p lo hi. absurd (omega arith))
          (λ s fits. never s (omega arith)) in
      ground (arith, missed)
  | no zero_pages ↦ ground arith
]
