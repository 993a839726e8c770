-- ===== src/Paging/Outcome.antt =====
-- Kernel/Arch/x86_64/Paging/Paging.cpp: when a call of BuildIdentityMap2M returns true.
use objective_hail_os.Prelude.{
  ℕ, zero, suc, ◌+◌, ◌*◌, ◌≤◌, ◌<◌, ◌≡◌, ◌≢◌, ◌↔◌, refl, sym, true, false, some, ◌==◌, arith, ltb,
  dec_le, ℕ_discrete, update,
}
use mathlib.Core.Bool.{true≢false}
use objective_hail_os.PageBitmap.{MemoryInfo}
use objective_hail_os.Paging.{
  Allocator, page_2m, entries, table_entry, align_up, calc_max_phys, gib_count_of, gib_loop,
  build_identity_map_2m,
}

module _ (allocator : Allocator) (info : MemoryInfo) where
  -- The allocator after `n` more pages.
  pub after : ℕ → allocator.State → allocator.State
  after zero st = st
  after (suc n) st = after n (allocator.allocate st).1

  -- The next `n` pages that are asked for are given.
  abbrev pub Gives : ℕ → allocator.State → Type 0
  Gives n st = (k : ℕ) → k < n → (allocator.allocate (after k st)).0 ≢ 0

  Gives-suc :
      (n : ℕ) (st : allocator.State)
      → (allocator.allocate st).0 ≢ 0
      → Gives n (allocator.allocate st).1
      → Gives (suc n) st
  unfolding after
  Gives-suc n st first rest zero h = first
  Gives-suc n st first rest (suc k) h = rest k (omega arith)

  gib_loop-true :
      (left : ℕ) (words : ℕ → ℕ) (st : allocator.State) (pdpt lim g : ℕ)
      → Gives left st
      → (gib_loop allocator info left words st pdpt lim g).0 ≡ true
  unfolding gib_loop after
  gib_loop-true zero words st pdpt lim g given = refl
  gib_loop-true (suc left) words st pdpt lim g given =
      let got : ((allocator.allocate st).0 == 0) ≡ false = ground (arith, given 0 (omega arith)) in
      rw got (
        gib_loop-true left _ (allocator.allocate st).1 pdpt lim (g + 1)
          (λ k h. given (suc k) (omega arith)))

  gib_loop_gave :
      (left : ℕ) (words : ℕ → ℕ) (st : allocator.State) (pdpt lim g : ℕ)
      → (gib_loop allocator info left words st pdpt lim g).0 ≡ true
      → Gives left st
  unfolding gib_loop
  gib_loop_gave zero words st pdpt lim g done = λ k h. absurd (omega arith)
  gib_loop_gave (suc left) words st pdpt lim g done =
      elim (ℕ_discrete (allocator.allocate st).0 0) [
        | yes null ↦
            let t : ((allocator.allocate st).0 == 0) ≡ true = ground arith in
            absurd (true≢false (sym (rw t at done)))
        | no got ↦
            let t : ((allocator.allocate st).0 == 0) ≡ false = ground arith in
            Gives-suc left st got
              (gib_loop_gave left _ (allocator.allocate st).1 pdpt lim (g + 1) (rw t at done))
      ]

  -- The call returns true exactly if the number of GiB that it computes is at most 512, the first page is
  -- given, and a page for each of these GiB is given after the second one, whether the second one is given
  -- or not. (The number is the rounded-up end of the highest region, taken modulo 2 ^ 64, in GiB: it can
  -- be 512, and it is 0 when rounding up passes 2 ^ 64.)
  pub build_identity_map_2m-ok :
      (cr3 : ℕ) (words : ℕ → ℕ) (st : allocator.State)
      → ((build_identity_map_2m allocator (some info) cr3 words st).ok ≡ true) ↔ (
          (gib_count_of info ≤ 512)
          × ((allocator.allocate st).0 ≢ 0)
          × Gives (gib_count_of info) (allocator.allocate (allocator.allocate st).1).1)
  unfolding build_identity_map_2m
  build_identity_map_2m-ok cr3 words st =
      let first =
        update words ((allocator.allocate st).0 + 8 * 0)
          (table_entry (allocator.allocate (allocator.allocate st).1).0) in
      let pdpt = (allocator.allocate (allocator.allocate st).1).0 in
      let st2 = (allocator.allocate (allocator.allocate st).1).1 in
      let lim = align_up (calc_max_phys info) page_2m in
      elim (dec_le (gib_count_of info) 512) [
        | no many ↦
            let t : ltb entries (gib_count_of info) ≡ true = ground arith in
            (λ ok. absurd (true≢false (sym (rw t at ok))), λ all. absurd (many all.0))
        | yes few ↦
            let t : ltb entries (gib_count_of info) ≡ false = ground arith in
            elim (ℕ_discrete (allocator.allocate st).0 0) [
              | yes null ↦
                  let t' : ((allocator.allocate st).0 == 0) ≡ true = ground arith in
                  (λ ok. absurd (true≢false (sym (rw (t, t') at ok))), λ all. absurd (all.1 null))
              | no got ↦
                  let t' : ((allocator.allocate st).0 == 0) ≡ false = ground arith in
                  (
                    λ ok. (
                      few,
                      got,
                      gib_loop_gave (gib_count_of info) first st2 pdpt lim 0 (loop_done t t' ok),
                    ),
                    λ all.
                        rw (t, t', gib_loop-true (gib_count_of info) first st2 pdpt lim 0 all.2)
                          refl,
                  )
            ]
      ]
    where
      loop_done :
          ltb entries (gib_count_of info) ≡ false
          → ((allocator.allocate st).0 == 0) ≡ false
          → (build_identity_map_2m allocator (some info) cr3 words st).ok ≡ true
          → (gib_loop allocator info
              (gib_count_of info)
              (update words
                ((allocator.allocate st).0 + 8 * 0)
                (table_entry (allocator.allocate (allocator.allocate st).1).0))
              (allocator.allocate (allocator.allocate st).1).1
              (allocator.allocate (allocator.allocate st).1).0
              (align_up (calc_max_phys info) page_2m)
              0).0
            ≡ true
      loop_done t t' ok = ground (arith, t, t', ok)
