-- ===== src/Paging/Call.antt =====
-- Kernel/Arch/x86_64/Paging/Paging.cpp: what a call of BuildIdentityMap2M leaves behind.
use objective_hail_os.Prelude.{
  ℕ, ◌+◌, ◌*◌, ◌/◌, ◌%◌, ◌^◌, ◌≤◌, ◌<◌, ◌≡◌, ◌≢◌, refl, ◌∙◌, sym, Bool, true, false, some,
  Bool-cases, update_self, ◌==◌, arith, inl, inr, ltb, dec_le, ℕ_discrete, update,
}
use mathlib.Core.Bool.{true≢false}
use objective_hail_os.PageBitmap.{MemoryInfo}
use objective_hail_os.Paging.{
  Allocator, page_2m, page_1g, entries, table_entry, align_up, calc_max_phys, gib_count_of,
  gib_loop, Build, build_identity_map_2m,
}
use objective_hail_os.Paging.Entry.{PageAddress, table_entry_lem, align_up-2m, translate}
use objective_hail_os.Paging.IdentityMap.{Lawful, gib_loop-Mapped, gib_loop_outside}
use objective_hail_os.Paging.Translate.{identity_at, translate-Directory}

module _ (allocator : Allocator) (law : Lawful allocator) (info : MemoryInfo) (cr3 : ℕ)
    (words : ℕ → ℕ) (st : allocator.State) where
  -- The call, and the two tables that it takes first.
  abbrev pub call : Build allocator.State
  call = build_identity_map_2m allocator (some info) cr3 words st

  abbrev pml4_of : ℕ
  pml4_of = (allocator.allocate st).0

  abbrev st1 : allocator.State
  st1 = (allocator.allocate st).1

  abbrev pdpt_of : ℕ
  pdpt_of = (allocator.allocate st1).0

  abbrev limit : ℕ
  limit = align_up (calc_max_phys info) page_2m

  abbrev loop_result : Bool × (ℕ → ℕ) × allocator.State
  loop_result =
      gib_loop allocator info (gib_count_of info)
        (update words (pml4_of + 8 * 0) (table_entry pdpt_of)) (allocator.allocate st1).1 pdpt_of
        limit 0

  -- A call that returns true passed all its tests.
  record Passed : Type 0 where
    count : gib_count_of info ≤ 512
    got : pml4_of ≢ 0
    done : loop_result.0 ≡ true
    root : call.cr3 ≡ pml4_of
    result : call.words ≡ loop_result.1

  passed : call.ok ≡ true → Passed
  unfolding build_identity_map_2m
  passed ok = elim (dec_le (gib_count_of info) 512) [
    | no many ↦
        let t : ltb entries (gib_count_of info) ≡ true = ground arith in
        absurd (true≢false (sym (rw t at ok)))
    | yes few ↦
        let t : ltb entries (gib_count_of info) ≡ false = ground arith in
        elim (ℕ_discrete pml4_of 0) [
          | yes null ↦
              let t' : (pml4_of == 0) ≡ true = ground arith in
              absurd (true≢false (sym (rw (t, t') at ok)))
          | no got ↦
              let t' : (pml4_of == 0) ≡ false = ground arith in
              elim (Bool-cases loop_result.0) [
                | inr failed ↦ absurd (true≢false (sym (rw (t, t', failed) at ok)))
                | inl done ↦ record {
                  count = few;
                  got = got;
                  done = done;
                  root = rw (t, t', done) refl;
                  result = rw (t, t', done) refl;
                }
              ]
        ]
  ]

  pml4-page : law.Ok st → Passed → PageAddress pml4_of
  pml4-page ok p = law.address st pml4_of ok (law.given st ok p.got)

  pdpt-page : law.Ok st → PageAddress pdpt_of
  pdpt-page ok = elim (ℕ_discrete pdpt_of 0) [
    | yes null ↦ record { aligned = omega arith; fits = omega arith }
    | no got ↦ law.address st1 pdpt_of (law.keeps st ok) (law.given st1 (law.keeps st ok) got)
  ]

  tables_differ : law.Ok st → Passed → pdpt_of ≢ pml4_of
  tables_differ ok p e =
      let got : pdpt_of ≢ 0 = λ z. p.got (sym e ∙ z) in
      (law.taken st pdpt_of ok (law.given st1 (law.keeps st ok) got)).1 e

  pml4_taken : law.Ok st → Passed → law.Free (allocator.allocate st1).1 pml4_of → ⊥
  pml4_taken ok p free =
      (law.taken st pml4_of ok (law.taken st1 pml4_of (law.keeps st ok) free).0).1 refl

  pdpt_taken : law.Ok st → law.Free (allocator.allocate st1).1 pdpt_of → ⊥
  pdpt_taken ok free = (law.taken st1 pdpt_of (law.keeps st ok) free).1 refl

  -- When no region ends above 512 GiB and the call returns true, then below the end of the last GiB
  -- that a region reaches into, an address is mapped to itself, cached exactly if its 2 MiB do not start
  -- in a reserved region; and the addresses above the highest 2 MiB that a region reaches into are not
  -- mapped. The allocator never returns a page twice.
  pub build_identity_map_2m-identity :
      law.Ok st
      → calc_max_phys info ≤ 2 ^ 39
      → call.ok ≡ true
      → (v : ℕ) → v < gib_count_of info * page_1g
      → translate call.words call.cr3 v ≡ identity_at info (align_up (calc_max_phys info) page_2m) v
  build_identity_map_2m-identity ok small returned v below =
      let p = passed returned in
      let table = pdpt-page ok in
      let ok1 = law.keeps st ok in
      let ok2 = law.keeps st1 ok1 in
      let count = p.count in
      let first = update words (pml4_of + 8 * 0) (table_entry pdpt_of) in
      let root_kept =
        gib_loop_outside allocator law info pdpt_of limit table (gib_count_of info) 0 first
          (allocator.allocate st1).1 pml4_of (omega arith) ok2 (pml4-page ok p) (tables_differ ok p)
          (pml4_taken ok p) (pdpt_taken ok) p.done in
      let root : loop_result.1 (pml4_of + 8 * 0) ≡ pdpt_of + 3 =
        root_kept
        ∙ update_self words (pml4_of + 8 * 0) (table_entry pdpt_of)
        ∙ table_entry_lem pdpt_of table in
      let mapped =
        gib_loop-Mapped allocator law info pdpt_of limit table (gib_count_of info) 0 first
          (allocator.allocate st1).1 (omega arith) ok2 (pdpt_taken ok)
          (λ g' none_yet. absurd (omega arith)) p.done (v / page_1g) (omega arith) in
      let whole : limit % page_2m ≡ 0 = omega (arith, align_up-2m (calc_max_phys info) small) in
      rw (p.root, p.result)
        (translate-Directory info loop_result.1 pml4_of pdpt_of limit mapped.0 v (omega arith) whole
          (pml4-page ok p) table root mapped.1)
