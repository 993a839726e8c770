-- ===== src/Paging/Directory.antt =====
-- Kernel/Arch/x86_64/Paging/Paging.cpp: the inner loop of BuildIdentityMap2M, entry by entry.
use objective_hail_os.Prelude.{
  ℕ, zero, suc, ◌+◌, ◌*◌, ◌<◌, ◌≡◌, ◌≢◌, refl, ◌∙◌, ap, false, if◌then◌else◌, arith, leb, dec_le,
  update, update_ne, ℕ_discrete,
}
use objective_hail_os.Prelude.Words.{u64}
use objective_hail_os.PageBitmap.{MemoryInfo}
use objective_hail_os.Paging.{page_2m, page_1g, page_entry, map_loop}

-- The address that entry `i` of the directory for the GiB `g` maps.
abbrev pub phys_at : ℕ → ℕ → ℕ
phys_at g i = (512 * g + i) * page_2m

module _ (info : MemoryInfo) (pd g lim : ℕ) (bounded : g < 512) where
  address : (i : ℕ) → i < 512 → u64 (g * page_1g + u64 (i * page_2m)) ≡ phys_at g i
  address i h = omega arith

  -- What the loop writes from entry `i` on.
  pub map_loop-entry :
      (left i j : ℕ) (words : ℕ → ℕ)
      → i + left ≡ 512
      → j < 512
      → map_loop left words info pd (g * page_1g) lim i (pd + 8 * j) ≡ (
          if leb i j
          then (if leb lim (phys_at g j) then words (pd + 8 * j) else page_entry info (phys_at g j))
          else words (pd + 8 * j))
  unfolding map_loop
  map_loop-entry zero i j words all h = ground arith
  map_loop-entry (suc left) i j words all h =
      let ih =
        map_loop-entry left (i + 1) j (update words (pd + 8 * i) (page_entry info (phys_at g i)))
          (omega arith) h in
      rw (address i (omega arith)) (elim (dec_le lim (phys_at g i)) [
        | yes past ↦ ground arith
        | no more ↦
            let below : leb lim (phys_at g i) ≡ false = ground arith in
            rw below (elim (ℕ_discrete i j) [
              | yes same ↦ ground (arith, ih, ap (λ (t : ℕ). page_entry info (phys_at g t)) same)
              | no other ↦ ground (arith, ih)
            ])
      ])

  -- What it leaves alone.
  pub map_loop_outside :
      (left i a : ℕ) (words : ℕ → ℕ)
      → i + left ≡ 512
      → ((j : ℕ) → j < 512 → pd + 8 * j ≢ a)
      → map_loop left words info pd (g * page_1g) lim i a ≡ words a
  unfolding map_loop
  map_loop_outside zero i a words all h = refl
  map_loop_outside (suc left) i a words all h =
      let e = u64 (g * page_1g + u64 (i * page_2m)) in
      let ih =
        map_loop_outside left (i + 1) a (update words (pd + 8 * i) (page_entry info e))
          (omega arith) h
        ∙ update_ne words (pd + 8 * i) a (page_entry info e) (h i (omega arith)) in
      elim (dec_le lim e) [ yes past ↦ ground arith | no more ↦ ground (arith, ih) ]
