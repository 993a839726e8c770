-- ===== src/PageAllocator/Blocks/Held.antt =====
-- Kernel/Core/Memory/EarlyPageAllocator.cpp: no page is given to two callers.
use objective_hail_os.Prelude.{
  ℕ, ◌+◌, ◌*◌, ◌/◌, ◌%◌, ◌^◌, ◌≤◌, ◌<◌, ◌≡◌, refl, sym, ◌∙◌, ap, arith, true, false, inl, inr, List,
  [], ◌∷◌, ◌==◌, if◌then◌else◌, IsBytes, dec_le, Option-cases,
}
use mathlib.Core.Bool.{true≢false}
use objective_hail_os.Bit.{array_bit}
use objective_hail_os.Bit.Range.{in_range, array_bit-set_bit_range, set_bit_range-IsBytes}
use objective_hail_os.PageBitmap.{page_size}
use objective_hail_os.PageAllocator.{nullptr, page_count_of, allocate_page_sized, free_page_sized}
use objective_hail_os.PageAllocator.Blocks.{
  Block, first_page, pages, Caller, pick, Request, allocate, release, serve, serve_all, IsHeld,
  Apart, All, Disjoint,
}
use objective_hail_os.PageAllocator.Blocks.Picks.{
  All-map, Picks, pick-Picks, Picks-All, Picks-Disjoint,
}
use objective_hail_os.PageAllocator.Blocks.Outcome.{
  NothingBehind, Granted, allocate_page_sized_outcome,
}

-- What holds between two requests.
pub record Sound (size : ℕ) (c : Caller) : Type 0 where
  pub proper : IsBytes c.bitmap
  pub first : array_bit c.bitmap 0 ≡ true
  pub behind : NothingBehind size c.bitmap
  pub held : All (IsHeld size c.bitmap) c.blocks
  pub disjoint : Disjoint c.blocks

module _ (size : ℕ) (small : size < 2 ^ 32) where
  -- A page of a held block is in use, so a free run does not reach into the block.
  pub run-Apart :
      (m : ℕ → ℕ) (bytes s : ℕ) (b new : Block)
      → Granted size m bytes s
      → first_page new ≡ s
      → pages new ≡ page_count_of bytes
      → IsHeld size m b
      → Apart new b
  run-Apart m bytes s b new grant at count held =
      elim (dec_le (s + page_count_of bytes) (first_page b)) [
        | yes before ↦ inl (omega (arith, at, count, before))
        | no reaches ↦ elim (dec_le (first_page b + pages b) s) [
          | yes after ↦ inr (omega (arith, at, after))
          | no meets ↦
              let some = held.some_pages in
              let more = grant.some_pages in
              absurd (elim (dec_le s (first_page b)) [
                | yes low ↦ true≢false (
                    sym (held.used (first_page b) (omega arith) (omega arith))
                    ∙ grant.free (first_page b) low (omega arith))
                | no high ↦ true≢false (
                    sym (held.used s (omega arith) (omega arith))
                    ∙ grant.free s (omega arith) (omega arith))
              ])
        ]
      ]

  -- A block stays held while no page of it becomes free.
  keeps_IsHeld :
      (m m' : ℕ → ℕ) (b : Block)
      → ((p : ℕ)
          → first_page b ≤ p
          → p < first_page b + pages b
          → array_bit m p ≡ true
          → array_bit m' p ≡ true)
      → IsHeld size m b
      → IsHeld size m' b
  keeps_IsHeld m m' b kept held = record {
    pointer = held.pointer;
    some_pages = held.some_pages;
    not_null = held.not_null;
    inside = held.inside;
    used = λ p lo hi. kept p lo hi (held.used p lo hi);
  }

  pub Granted-Sound :
      (c : Caller) (bytes s : ℕ)
      → Sound size c
      → Granted size c.bitmap bytes s
      → Sound size (serve size c (allocate bytes))
  unfolding serve
  Granted-Sound c bytes s sound grant =
      let out = grant.allocated in
      let new : Block = record { ptr = s * page_size; bytes = bytes } in
      let m' = (allocate_page_sized size c.bitmap bytes).1 in
      let real : (s * page_size == nullptr) ≡ false = ground (arith, grant.not_null) in
      let at : first_page new ≡ s = omega arith in
      let stays : (p : ℕ) → array_bit c.bitmap p ≡ true → array_bit m' p ≡ true =
        λ p used. ground (arith, out.bits p, used) in
      rw (out.pointer, real)
        (record {
          proper = out.bytes;
          first = stays 0 sound.first;
          behind = λ p lo hi. stays p (sound.behind p lo hi);
          held = (
            record {
              pointer = ap (λ (q : ℕ). q * page_size) (sym at);
              some_pages = grant.some_pages;
              not_null = rw at grant.not_null;
              inside = rw at grant.inside;
              used = λ p lo hi. ground (arith, out.bits p, at);
            },
            All-map (IsHeld size c.bitmap) (IsHeld size m') c.blocks
                (λ b. keeps_IsHeld c.bitmap m' b (λ p lo hi. stays p)) sound.held,
          );
          disjoint = (
            All-map (IsHeld size c.bitmap) (Apart new) c.blocks
                (λ b. run-Apart c.bitmap bytes s b new grant at refl) sound.held,
            sound.disjoint,
          );
        })

  freed_bits :
      (m : ℕ → ℕ) (b : Block) (p : ℕ)
      → IsBytes m
      → IsHeld size m b
      → array_bit (free_page_sized size m b.ptr b.bytes) p
        ≡ (if in_range (first_page b) (pages b) p then false else array_bit m p)
  unfolding free_page_sized
  freed_bits m b p proper held =
      let s = first_page b in
      let inside = held.inside in
      ground (
        arith,
        array_bit-set_bit_range m size (s / 8) (s % 8) (pages b) false small (omega arith)
            (omega arith) (omega arith) p proper (omega arith),
      )

  freed-IsBytes :
      (m : ℕ → ℕ) (b : Block) → IsBytes m → IsBytes (free_page_sized size m b.ptr b.bytes)
  unfolding free_page_sized
  freed-IsBytes m b proper =
      set_bit_range-IsBytes m size (first_page b / 8) (first_page b % 8) (pages b) false proper

  -- The other blocks lie apart from the pages that became free.
  others_stay :
      (m : ℕ → ℕ) (b : Block) (others : List Block)
      → IsBytes m
      → IsHeld size m b
      → All (Apart b) others
      → All (IsHeld size m) others
      → All (IsHeld size (free_page_sized size m b.ptr b.bytes)) others
  others_stay m b [] proper held apart all = tt
  others_stay m b (c ∷ others) proper held (away, apart) (one, all) = (
    keeps_IsHeld m (free_page_sized size m b.ptr b.bytes) c
        (λ p lo hi used. ground (arith, freed_bits m b p proper held, away, used)) one,
    others_stay m b others proper held apart all,
  )

  released-Sound :
      (c : Caller) (b : Block) (others : List Block)
      → Sound size c
      → Picks c.blocks b others
      → Sound size
          (record { bitmap = free_page_sized size c.bitmap b.ptr b.bytes; blocks = others })
  released-Sound c b others sound picks =
      let (held, others_held) = Picks-All (IsHeld size c.bitmap) picks sound.held in
      let (apart, disjoint) = Picks-Disjoint picks sound.disjoint in
      let m' = free_page_sized size c.bitmap b.ptr b.bytes in
      let not_null = held.not_null in
      let inside = held.inside in
      let bits = λ (p : ℕ). freed_bits c.bitmap b p sound.proper held in
      record {
        proper = freed-IsBytes c.bitmap b sound.proper;
        first = ground (arith, bits 0, sound.first);
        behind = λ p lo hi. ground (arith, bits p, sound.behind p lo hi);
        held = others_stay c.bitmap b others sound.proper held apart others_held;
        disjoint = disjoint;
      }

  refused_same :
      (c : Caller) (bytes : ℕ)
      → Sound size c
      → allocate_page_sized size c.bitmap bytes ≡ (nullptr, c.bitmap)
      → Sound size (serve size c (allocate bytes))
  unfolding serve
  refused_same c bytes sound refused = rw refused sound

  serve-Sound : (c : Caller) (request : Request) → Sound size c → Sound size (serve size c request)
  unfolding serve
  serve-Sound c (allocate bytes) sound =
      elim (allocate_page_sized_outcome size bytes c.bitmap small sound.proper sound.first
        sound.behind) [
          | inl (s, grant) ↦ Granted-Sound c bytes s sound grant
          | inr refused ↦ refused_same c bytes sound refused
        ]
  serve-Sound c (release i) sound = elim (Option-cases (pick i c.blocks)) [
    | inl nothing ↦ rw (serve, nothing) sound
    | inr (found, at) ↦
        rw (serve, at) (released-Sound c found.0 found.1 sound (pick-Picks i c.blocks found at))
  ]

  serve_all-Sound :
      (c : Caller) (requests : List Request) → Sound size c → Sound size (serve_all size c requests)
  unfolding serve_all
  serve_all-Sound c [] sound = sound
  serve_all-Sound c (request ∷ requests) sound =
      serve_all-Sound (serve size c request) requests (serve-Sound c request sound)

  -- From a bitmap of fewer than 2 ^ 32 bytes in which page 0 and what the search reads behind the bitmap
  -- are in use, any allocations and releases, of any sizes and in any order, keep the blocks that the
  -- caller holds apart: two of them have no page in common, each lies inside the bitmap behind page 0, and
  -- all its pages are marked as used.
  pub blocks_apart :
      (bitmap : ℕ → ℕ) (requests : List Request)
      → IsBytes bitmap
      → array_bit bitmap 0 ≡ true
      → NothingBehind size bitmap
      → let c = serve_all size (record { bitmap = bitmap; blocks = [] }) requests in
        Disjoint c.blocks × All (IsHeld size c.bitmap) c.blocks
  blocks_apart bitmap requests proper first behind =
      let sound =
        serve_all-Sound (record { bitmap = bitmap; blocks = [] }) requests
          (record { proper = proper; first = first; behind = behind; held = tt; disjoint = tt }) in
      (sound.disjoint, sound.held)
