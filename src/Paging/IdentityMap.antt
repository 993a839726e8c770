-- ===== src/Paging/IdentityMap.antt =====
-- Kernel/Arch/x86_64/Paging/Paging.cpp: the outer loop of BuildIdentityMap2M, with an allocator that
-- does not hand out a page twice.
use objective_hail_os.Prelude.{
  ℕ, zero, suc, ◌+◌, ◌*◌, ◌≤◌, ◌<◌, ◌≡◌, ◌≢◌, refl, ◌∙◌, sym, true, false, ◌==◌, if◌then◌else◌,
  arith, leb, update, update_ne, update_self, ℕ_discrete,
}
use mathlib.Core.Bool.{true≢false}
use objective_hail_os.Prelude.Words.{u64}
use objective_hail_os.MemoryUtility.{fill_memory}
use objective_hail_os.MemoryUtility.Loops.{fill_memory_at}
use objective_hail_os.PageBitmap.{MemoryInfo}
use objective_hail_os.Paging.{
  Allocator, page_4k, page_1g, entries, page_entry, table_entry, map_loop, gib_loop,
}
use objective_hail_os.Paging.Entry.{PageAddress, table_entry_lem}
use objective_hail_os.Paging.Directory.{phys_at, map_loop-entry, map_loop_outside}

-- What the code relies on: in the states that the allocator gets into, a page that it returns was free
-- and is not free afterwards, nothing else becomes free, and what is free is the address of a page.
pub record Lawful (allocator : Allocator) : Type 1 where
  pub Ok : allocator.State → Type 0
  pub Free : allocator.State → ℕ → Type 0
  pub keeps : (st : allocator.State) → Ok st → Ok (allocator.allocate st).1
  pub given :
      (st : allocator.State)
      → Ok st
      → (allocator.allocate st).0 ≢ 0
      → Free st (allocator.allocate st).0
  pub taken :
      (st : allocator.State) (p : ℕ)
      → Ok st
      → Free (allocator.allocate st).1 p
      → Free st p × (p ≢ (allocator.allocate st).0)
  pub address : (st : allocator.State) (p : ℕ) → Ok st → Free st p → PageAddress p

-- Words of different pages.
pages_apart :
    (p q i j : ℕ)
    → PageAddress p
    → PageAddress q
    → p ≢ q
    → i < 512
    → j < 512
    → p + 8 * i ≢ q + 8 * j
pages_apart p q i j hp hq ne hi hj = let a = hp.aligned in let b = hq.aligned in omega arith

-- The table at `pd` that entry `g` of `pdpt` points to maps the GiB `g` to itself below the limit.
pub record Directory (info : MemoryInfo) (words : ℕ → ℕ) (pdpt lim g pd : ℕ) : Type 0 where
  pub address : PageAddress pd
  pub apart : pdpt ≢ pd
  pub link : words (pdpt + 8 * g) ≡ pd + 3
  pub entry :
      (i : ℕ)
      → i < 512
      → words (pd + 8 * i) ≡ (if leb lim (phys_at g i) then 0 else page_entry info (phys_at g i))

module _ (info : MemoryInfo) (pdpt lim : ℕ) (table : PageAddress pdpt) where
  -- The words after one round of the outer loop.
  abbrev round_words : (ℕ → ℕ) → (pd g : ℕ) → ℕ → ℕ
  round_words words pd g =
      map_loop entries (update (fill_memory words pd page_4k 0) (pdpt + 8 * g) (table_entry pd))
        info pd (u64 (g * page_1g)) lim 0

  module _ (words : ℕ → ℕ) (pd g : ℕ) (page : PageAddress pd) (other : pdpt ≢ pd)
      (h : g < 512) where
    base : u64 (g * page_1g) ≡ g * page_1g
    base = omega arith

    round_words_outside :
        (q i : ℕ)
        → PageAddress q
        → q ≢ pd
        → i < 512
        → pdpt + 8 * g ≢ q + 8 * i
        → round_words words pd g (q + 8 * i) ≡ words (q + 8 * i)
    round_words_outside q i hq ne hi not_link =
        let linked = update (fill_memory words pd page_4k 0) (pdpt + 8 * g) (table_entry pd) in
        let a = hq.aligned in
        let b = page.aligned in
        let kept =
          map_loop_outside info pd g lim h 512 0 (q + 8 * i) linked refl
            (λ j hj. pages_apart pd q j i page hq (λ e. ne (sym e)) hj hi) in
        rw base kept
        ∙ update_ne (fill_memory words pd page_4k 0) (pdpt + 8 * g) (q + 8 * i) (table_entry pd)
            not_link
        ∙ fill_memory_at words pd page_4k 0 (q + 8 * i)
        ∙ ground arith

    round_words-Directory : Directory info (round_words words pd g) pdpt lim g pd
    round_words-Directory = record {
      address = page;
      apart = other;
      link =
          rw base (
            map_loop_outside info pd g lim h 512 0 (pdpt + 8 * g)
              (update (fill_memory words pd page_4k 0) (pdpt + 8 * g) (table_entry pd)) refl
              (λ j hj e. pages_apart pd pdpt j g page table (λ e'. other (sym e')) hj h e))
          ∙ update_self (fill_memory words pd page_4k 0) (pdpt + 8 * g) (table_entry pd)
          ∙ table_entry_lem pd page;
      entry = λ i hi.
          let zeroed : fill_memory words pd page_4k 0 (pd + 8 * i) ≡ 0 =
            fill_memory_at words pd page_4k 0 (pd + 8 * i) ∙ ground arith in
          let unlinked =
            update_ne (fill_memory words pd page_4k 0) (pdpt + 8 * g) (pd + 8 * i) (table_entry pd)
              (pages_apart pdpt pd g i table page other h hi) in
          rw base (
            map_loop-entry info pd g lim h 512 0 i
              (update (fill_memory words pd page_4k 0) (pdpt + 8 * g) (table_entry pd)) refl hi
            ∙ ground (arith, unlinked ∙ zeroed));
    }

    -- The tables of earlier rounds stay.
    earlier :
        (g' pd' : ℕ)
        → g' < g
        → pd' ≢ pd
        → Directory info words pdpt lim g' pd'
        → Directory info (round_words words pd g) pdpt lim g' pd'
    earlier g' pd' less ne d = record {
      address = d.address;
      apart = d.apart;
      link = round_words_outside pdpt g' table other (omega arith) (omega arith) ∙ d.link;
      entry = λ i hi.
          round_words_outside pd' i d.address ne hi
            (pages_apart pdpt pd' g i table d.address d.apart h hi)
          ∙ d.entry i hi;
    }

module _ (allocator : Allocator) (law : Lawful allocator) (info : MemoryInfo) (pdpt lim : ℕ)
    (table : PageAddress pdpt) where
  -- Every GiB below `g` has its table, in a page that is not free.
  abbrev pub Mapped : (ℕ → ℕ) → allocator.State → ℕ → Type 0
  Mapped words st g =
      (g' : ℕ) → g' < g → (pd : ℕ) × Directory info words pdpt lim g' pd × (law.Free st pd → ⊥)

  Mapped-round :
      (words : ℕ → ℕ) (st : allocator.State) (g : ℕ)
      → law.Ok st
      → g < 512
      → (law.Free st pdpt → ⊥)
      → (allocator.allocate st).0 ≢ 0
      → Mapped words st g
      → Mapped
          (round_words info pdpt lim table words (allocator.allocate st).0 g)
          (allocator.allocate st).1
          (g + 1)
  Mapped-round words st g ok h kept got mapped g' less =
      let pd = (allocator.allocate st).0 in
      let fresh = law.given st ok got in
      let page = law.address st pd ok fresh in
      let other : pdpt ≢ pd = λ e. kept (rw e fresh) in
      elim (ℕ_discrete g' g) [
        | yes last ↦ (
          pd,
          rw last (round_words-Directory info pdpt lim table words pd g page other h),
          λ free. (law.taken st pd ok free).1 refl,
        )
        | no before ↦ (
          (mapped g' (omega arith)).0,
          earlier info pdpt lim table words pd g page other h g' (mapped g' (omega arith)).0
              (omega arith) (λ e. (mapped g' (omega arith)).2 (rw e fresh))
              (mapped g' (omega arith)).1,
          λ free. (mapped g' (omega arith)).2 (law.taken st _ ok free).0,
        )
      ]

  pub still_taken :
      (st : allocator.State) (q : ℕ)
      → law.Ok st
      → (law.Free st q → ⊥)
      → law.Free (allocator.allocate st).1 q
      → ⊥
  still_taken st q ok kept free = kept (law.taken st q ok free).0

  -- When the loop goes through, all its GiB are mapped.
  pub gib_loop-Mapped :
      (left g : ℕ) (words : ℕ → ℕ) (st : allocator.State)
      → g + left ≤ 512
      → law.Ok st
      → (law.Free st pdpt → ⊥)
      → Mapped words st g
      → (gib_loop allocator info left words st pdpt lim g).0 ≡ true
      → Mapped
          (gib_loop allocator info left words st pdpt lim g).1
          (gib_loop allocator info left words st pdpt lim g).2
          (g + left)
  unfolding gib_loop
  gib_loop-Mapped zero g words st h ok kept mapped done =
      let all : g + 0 ≡ g = omega arith in rw all mapped
  gib_loop-Mapped (suc left) g words st h ok kept mapped done =
      elim (ℕ_discrete (allocator.allocate st).0 0) [
        | yes null ↦
            let test : ((allocator.allocate st).0 == 0) ≡ true = ground arith in
            absurd (true≢false (sym (rw test at done)))
        | no got ↦
            let test : ((allocator.allocate st).0 == 0) ≡ false = ground arith in
            let all : g + suc left ≡ g + 1 + left = omega arith in
            rw (test, all)
              (gib_loop-Mapped left (g + 1)
                (round_words info pdpt lim table words (allocator.allocate st).0 g)
                (allocator.allocate st).1 (omega arith) (law.keeps st ok)
                (still_taken st pdpt ok kept)
                (Mapped-round words st g ok (omega arith) kept got mapped) (rw test at done))
      ]

  -- It leaves the first word of another page that is not free as it was.
  pub gib_loop_outside :
      (left g : ℕ) (words : ℕ → ℕ) (st : allocator.State) (q : ℕ)
      → g + left ≤ 512
      → law.Ok st
      → PageAddress q
      → pdpt ≢ q
      → (law.Free st q → ⊥)
      → (law.Free st pdpt → ⊥)
      → (gib_loop allocator info left words st pdpt lim g).0 ≡ true
      → (gib_loop allocator info left words st pdpt lim g).1 (q + 8 * 0) ≡ words (q + 8 * 0)
  unfolding gib_loop
  gib_loop_outside zero g words st q h ok page ne taken kept done = refl
  gib_loop_outside (suc left) g words st q h ok page ne taken kept done =
      elim (ℕ_discrete (allocator.allocate st).0 0) [
        | yes null ↦
            let test : ((allocator.allocate st).0 == 0) ≡ true = ground arith in
            absurd (true≢false (sym (rw test at done)))
        | no got ↦
            let test : ((allocator.allocate st).0 == 0) ≡ false = ground arith in
            let pd = (allocator.allocate st).0 in
            let fresh = law.given st ok got in
            rw test (
              gib_loop_outside left (g + 1) (round_words info pdpt lim table words pd g)
                (allocator.allocate st).1 q (omega arith) (law.keeps st ok) page ne
                (still_taken st q ok taken) (still_taken st pdpt ok kept) (rw test at done)
              ∙ round_words_outside info pdpt lim table words pd g (law.address st pd ok fresh)
                  (λ e. kept (rw e fresh)) (omega arith) q 0 page (λ e. taken (rw e fresh))
                  (omega arith) (pages_apart pdpt q g 0 table page ne (omega arith) (omega arith)))
      ]
