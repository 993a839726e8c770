-- ===== src/PageAllocator/Blocks.antt =====
-- Kernel/Core/Memory/EarlyPageAllocator.cpp under a caller: allocations and releases in any order, and the
-- blocks that the caller holds.
pub mod Outcome
pub mod Picks
pub mod Held
use objective_hail_os.Prelude.{
  ℕ, zero, suc, ◌+◌, ◌*◌, ◌/◌, ◌≤◌, ◌<◌, ◌≡◌, ◌⊎◌, Bool, true, Option, none, some, List, [], ◌∷◌,
  ◌==◌, if◌then◌else◌,
}
use objective_hail_os.Bit.{array_bit}
use objective_hail_os.PageBitmap.{page_size}
use objective_hail_os.PageAllocator.{nullptr, page_count_of, allocate_page_sized, free_page_sized}

-- A pointer that AllocatePage returned, and the number of bytes that was asked for.
pub record Block : Type 0 where
  pub ptr : ℕ
  pub bytes : ℕ

abbrev pub first_page : Block → ℕ
first_page b = b.ptr / page_size

abbrev pub pages : Block → ℕ
pages b = page_count_of b.bytes

-- The bitmap and the blocks that were allocated and not released.
pub record Caller : Type 0 where
  pub bitmap : ℕ → ℕ
  pub blocks : List Block

-- The block at an index, and the others.
unfoldable pub pick : ℕ → List Block → Option (Block × List Block)
pick i [] = none
pick zero (b ∷ rest) = some (b, rest)
pick (suc i) (b ∷ rest) = elim (pick i rest) [
  | none ↦ none
  | some (c, others) ↦ some (c, b ∷ others)
]

-- A caller asks for some bytes, or gives the block at an index back with the bytes it asked for.
pub data Request : Type 0 where
  allocate release : ℕ → Request

module _ (size : ℕ) where
  unfoldable pub serve : Caller → Request → Caller
  unfolding pick
  serve c (allocate bytes) =
      let (p, bitmap') = allocate_page_sized size c.bitmap bytes in
      if p == nullptr
      then record c { bitmap = bitmap' }
      else record { bitmap = bitmap'; blocks = record { ptr = p; bytes = bytes } ∷ c.blocks }
  serve c (release i) = elim (pick i c.blocks) [
    | none ↦ c
    | some (b, others) ↦ record {
      bitmap = free_page_sized size c.bitmap b.ptr b.bytes;
      blocks = others;
    }
  ]

  unfoldable pub serve_all : Caller → List Request → Caller
  unfolding serve
  serve_all c [] = c
  serve_all c (request ∷ rest) = serve_all (serve c request) rest

-- The block's pages follow page 0, lie in the bitmap, and are in use.
pub record IsHeld (size : ℕ) (bitmap : ℕ → ℕ) (b : Block) : Type 0 where
  pub pointer : b.ptr ≡ first_page b * page_size
  pub some_pages : 0 < pages b
  pub not_null : 0 < first_page b
  pub inside : first_page b + pages b ≤ size * 8
  pub used : (p : ℕ) → first_page b ≤ p → p < first_page b + pages b → array_bit bitmap p ≡ true

abbrev pub Apart : Block → Block → Type 0
Apart b c = (first_page b + pages b ≤ first_page c) ⊎ (first_page c + pages c ≤ first_page b)

abbrev pub All : (Block → Type 0) → List Block → Type 0
All P [] = Unit {0}
All P (b ∷ rest) = P b × All P rest

abbrev pub Disjoint : List Block → Type 0
Disjoint [] = Unit {0}
Disjoint (b ∷ rest) = All (Apart b) rest × Disjoint rest
