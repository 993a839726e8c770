-- ===== src/Paging/Translate.antt =====
-- Kernel/Arch/x86_64/Paging/Paging.cpp: the tables of BuildIdentityMap2M as the processor reads them.
use objective_hail_os.Prelude.{
  ℕ, ◌+◌, ◌*◌, ◌/◌, ◌%◌, ◌^◌, ◌<◌, ◌≡◌, refl, ◌∙◌, ap, Bool, true, false, not, Option, some, none,
  Bool-cases, ◌==◌, if◌then◌else◌, arith, inl, inr, leb, ltb, dec_lt,
}
use objective_hail_os.PageBitmap.{MemoryInfo}
use objective_hail_os.Paging.{page_2m, page_1g, page_entry, is_mmio_region}
use objective_hail_os.Paging.Entry.{PageAddress, field_of, page_entry_lem, translate}
use objective_hail_os.Paging.Directory.{phys_at}
use objective_hail_os.Paging.IdentityMap.{Directory}

field_of-page : (p k : ℕ) → PageAddress p → k < 4096 → field_of (p + k) ≡ p
field_of-page p k h small = let a = h.aligned in let b = h.fits in omega arith

-- The outcome at `v`: itself, cached unless its 2 MiB start in a reserved region; nothing at the limit
-- and above.
abbrev pub identity_at : MemoryInfo → (lim v : ℕ) → Option (ℕ × Bool)
identity_at info lim v =
    if ltb v lim then some (v, not (is_mmio_region (v / page_2m * page_2m) info)) else none

-- The last level: the entry of the page of `v`.
leaf : (e v : ℕ) → Option (ℕ × Bool)
leaf e v =
    if e % 2 == 0
    then none
    else (if e / 2 ^ 7 % 2 == 0
        then none
        else some (e / 2 ^ 21 % 2 ^ 31 * 2 ^ 21 + v % 2 ^ 21, e / 2 ^ 4 % 2 == 0))

leaf-page :
    (info : MemoryInfo) (v : ℕ)
    → v < 2 ^ 39
    → leaf (page_entry info (v / page_2m * page_2m)) v
      ≡ some (v, not (is_mmio_region (v / page_2m * page_2m) info))
unfolding leaf
leaf-page info v h =
    let n = v / page_2m in
    rw (page_entry_lem info n (omega arith))
      (elim (Bool-cases (is_mmio_region (n * page_2m) info)) [
        | inl device ↦
            let odd : ((n * page_2m + 155) % 2 == 0) ≡ false = ground arith in
            let big : ((n * page_2m + 155) / 2 ^ 7 % 2 == 0) ≡ false = ground arith in
            let cached : ((n * page_2m + 155) / 2 ^ 4 % 2 == 0) ≡ false = ground arith in
            let same : (n * page_2m + 155) / 2 ^ 21 % 2 ^ 31 * 2 ^ 21 + v % 2 ^ 21 ≡ v =
              omega arith in
            rw (device, odd, big, cached, same) refl
        | inr plain ↦
            let odd : ((n * page_2m + 131) % 2 == 0) ≡ false = ground arith in
            let big : ((n * page_2m + 131) / 2 ^ 7 % 2 == 0) ≡ false = ground arith in
            let cached : ((n * page_2m + 131) / 2 ^ 4 % 2 == 0) ≡ true = ground arith in
            let same : (n * page_2m + 131) / 2 ^ 21 % 2 ^ 31 * 2 ^ 21 + v % 2 ^ 21 ≡ v =
              omega arith in
            rw (plain, odd, big, cached, same) refl
      ])

-- Two upper levels whose entries are `pdpt + 3` and `pd + 3` lead to the entry in `pd`.
upper_levels :
    (words : ℕ → ℕ) (pml4 pdpt pd v : ℕ)
    → v < 2 ^ 39
    → PageAddress pml4
    → PageAddress pdpt
    → PageAddress pd
    → words (pml4 + 8 * 0) ≡ pdpt + 3
    → words (pdpt + 8 * (v / page_1g)) ≡ pd + 3
    → translate words pml4 v ≡ leaf (words (pd + 8 * (v / page_2m % 512))) v
unfolding translate leaf
upper_levels words pml4 pdpt pd v h p4 p3 p2 link4 link3 =
    let a4 = p4.aligned in
    let f4 = p4.fits in
    let at4 : field_of pml4 ≡ pml4 = omega arith in
    let i4 : v / 2 ^ 39 % 512 ≡ 0 = omega arith in
    let i3 : v / 2 ^ 30 % 512 ≡ v / page_1g = omega arith in
    let at3 = field_of-page pdpt 3 p3 (omega arith) in
    let at2 = field_of-page pd 3 p2 (omega arith) in
    let a3 = p3.aligned in
    let a2 = p2.aligned in
    let t4 : ((pdpt + 3) % 2 == 0) ≡ false = ground arith in
    let t3 : ((pd + 3) % 2 == 0) ≡ false = ground arith in
    let s3 : ((pd + 3) / 2 ^ 7 % 2 == 1) ≡ false = ground arith in
    rw (at4, i4, link4, at3, i3, link3, at2, t4, t3, s3) refl

-- A GiB with its table is mapped to itself below the limit.
pub translate-Directory :
    (info : MemoryInfo) (words : ℕ → ℕ) (pml4 pdpt lim pd v : ℕ)
    → v < 2 ^ 39
    → lim % page_2m ≡ 0
    → PageAddress pml4
    → PageAddress pdpt
    → words (pml4 + 8 * 0) ≡ pdpt + 3
    → Directory info words pdpt lim (v / page_1g) pd
    → translate words pml4 v ≡ identity_at info lim v
translate-Directory info words pml4 pdpt lim pd v h whole p4 p3 link4 d =
    let page : phys_at (v / page_1g) (v / page_2m % 512) ≡ v / page_2m * page_2m = omega arith in
    let entry = d.entry (v / page_2m % 512) (omega arith) in
    upper_levels words pml4 pdpt pd v h p4 p3 d.address link4 d.link
    ∙ ap (λ (e : ℕ). leaf e v) entry
    ∙ rw page (elim (dec_lt v lim) [
      | yes below ↦
          let t : leb lim (v / page_2m * page_2m) ≡ false = ground arith in
          let t' : ltb v lim ≡ true = ground arith in rw (t, t') (leaf-page info v h)
      | no above ↦
          let t : leb lim (v / page_2m * page_2m) ≡ true = ground arith in
          let t' : ltb v lim ≡ false = ground arith in rw (t, t') (unfold leaf in refl)
    ])
