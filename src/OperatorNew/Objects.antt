-- ===== src/OperatorNew/Objects.antt =====
-- Kernel/Core/Memory/NewDelete.cpp: objects that `new` makes one after the other. The header of an object
-- lies in front of its first page, where the page before it ends.
use objective_hail_os.Prelude.{
  ℕ, ◌+◌, ◌-◌, ◌*◌, ◌^◌, ◌≤◌, ◌<◌, ◌≡◌, ◌⊎◌, refl, sym, ◌∙◌, ap, arith, true, false, inl, inr,
  Option, none, some, List, [], ◌∷◌, ◌==◌, IsBytes,
}
use mathlib.Core.Path.{subst}
use mathlib.Core.Option.{some-injective, none-ne-some}
use objective_hail_os.Prelude.Words.{u64}
use objective_hail_os.Bit.{array_bit}
use objective_hail_os.PageBitmap.{page_size}
use objective_hail_os.PageAllocator.{nullptr, page_count_of, allocate_page_sized}
use objective_hail_os.PageAllocator.Sized.{page_count_of_bounds}
use objective_hail_os.PageAllocator.Blocks.{Block, pages, Caller, allocate, serve, IsHeld, Apart}
use objective_hail_os.PageAllocator.Blocks.Outcome.{
  NothingBehind, Granted, allocate_page_sized_outcome,
}
use objective_hail_os.PageAllocator.Blocks.Held.{Sound, run-Apart, Granted-Sound}
use objective_hail_os.OperatorNew.{
  HeapState, NewResult, returned, panic, header_of, store32, write_header, recorded_pages,
  operator_new,
}

-- Calls of `new` with these sizes, one after the other; `none` is a panic.
unfoldable pub new_all : (size : ℕ) → HeapState → List ℕ → Option HeapState
new_all size h [] = some h
new_all size h (bytes ∷ rest) = elim (operator_new size h bytes) [
  | returned p h' ↦ new_all size h' rest
  | panic ↦ none
]

-- The heap with the block of one object, an object and its header in bytes.
abbrev pub holding : HeapState → Block → Caller
holding h b = record { bitmap = h.bitmap; blocks = b ∷ [] }

write_header_elsewhere :
    (m : ℕ → ℕ) (h pages a : ℕ) → (a < h) ⊎ (h + 8 ≤ a) → write_header m h pages a ≡ m a
unfolding write_header store32
write_header_elsewhere m h pages a (inl below) = ground (arith, below)
write_header_elsewhere m h pages a (inr above) = ground (arith, above)

serve-Granted :
    (size bytes s : ℕ) (c : Caller)
    → Granted size c.bitmap bytes s
    → serve size c (allocate bytes) ≡ record {
      bitmap = (allocate_page_sized size c.bitmap bytes).1;
      blocks = record { ptr = s * page_size; bytes = bytes } ∷ c.blocks;
    }
unfolding serve
serve-Granted size bytes s c grant =
    let real : (s * page_size == nullptr) ≡ false = ground (arith, grant.not_null) in
    rw (grant.allocated.pointer, real) refl

-- The heap behind a call of `new` that was granted the pages from `s` on.
abbrev with_object : (size bytes s : ℕ) → HeapState → HeapState
with_object size bytes s h = record {
  bitmap = (allocate_page_sized size h.bitmap (u64 (bytes + 8))).1;
  memory = write_header h.memory (header_of (s * page_size)) (recorded_pages (u64 (bytes + 8)));
}

abbrev block_of : (bytes s : ℕ) → Block
block_of bytes s = record { ptr = s * page_size; bytes = u64 (bytes + 8) }

new_outcome :
    (size bytes : ℕ) (h : HeapState) (bs : List Block)
    → size < 2 ^ 32
    → Sound size (record { bitmap = h.bitmap; blocks = bs })
    → (operator_new size h bytes ≡ panic)
      ⊎ ((s : ℕ) × Granted size h.bitmap (u64 (bytes + 8)) s
          × (operator_new size h bytes ≡ returned (s * page_size) (with_object size bytes s h))
          × Sound size (record {
            bitmap = (with_object size bytes s h).bitmap;
            blocks = block_of bytes s ∷ bs;
          }))
unfolding operator_new
new_outcome size bytes h bs small sound =
    let x = u64 (bytes + 8) in
    let c : Caller = record { bitmap = h.bitmap; blocks = bs } in
    elim (allocate_page_sized_outcome size x h.bitmap small sound.proper sound.first sound.behind) [
      | inr refused ↦ inl (rw refused refl)
      | inl (s, grant) ↦
          let real : (s * page_size == nullptr) ≡ false = ground (arith, grant.not_null) in
          inr (
            s,
            grant,
            rw (grant.allocated.pointer, real) refl,
            subst (Sound size) (serve-Granted size x s c grant)
                (Granted-Sound size small c x s sound grant),
          )
    ]

-- Of two blocks the second one.
second_alone :
    (size : ℕ) (m : ℕ → ℕ) (new b : Block)
    → Sound size (record { bitmap = m; blocks = new ∷ b ∷ [] })
    → Sound size (record { bitmap = m; blocks = b ∷ [] })
second_alone size m new b sound = record {
  proper = sound.proper;
  first = sound.first;
  behind = sound.behind;
  held = sound.held.1;
  disjoint = sound.disjoint.1;
}

module _ (size : ℕ) (small : size < 2 ^ 32) (b : Block) (a : ℕ) (from : b.ptr ≤ a)
    (to : a < b.ptr + (b.bytes - 8)) where
  header-Apart :
      (s x : ℕ) (m : ℕ → ℕ)
      → 0 < s
      → s + page_count_of x ≤ size * 8
      → IsHeld size m b
      → Apart (record { ptr = s * page_size; bytes = x }) b
      → (a < header_of (s * page_size)) ⊎ (header_of (s * page_size) + 8 ≤ a)
  header-Apart s x m not_null inside held (inl before) = inr (omega (arith, before, held.pointer))
  header-Apart s x m not_null inside held (inr behind) =
      inl (omega (arith, behind, held.pointer, page_count_of_bounds b.bytes))

  new_all-memory :
      (sizes : List ℕ) (h h' : HeapState)
      → Sound size (holding h b)
      → new_all size h sizes ≡ some h'
      → h'.memory a ≡ h.memory a
  unfolding new_all
  new_all-memory [] h h' sound e = ap (λ (g : HeapState). g.memory a) (sym (some-injective _ _ e))
  new_all-memory (bytes ∷ rest) h h' sound e =
      elim (new_outcome size bytes h (b ∷ []) small sound) [
        | inl full ↦ absurd (none-ne-some h' (rw (full, new_all) at e))
        | inr (s, grant, made, after) ↦
            new_all-memory rest (with_object size bytes s h) h'
              (second_alone size _ (block_of bytes s) b after) (rw (made, new_all) at e)
            ∙ write_header_elsewhere h.memory (header_of (s * page_size))
                (recorded_pages (u64 (bytes + 8))) a
                (header-Apart s (u64 (bytes + 8)) h.bitmap grant.not_null grant.inside sound.held.0
                  (run-Apart size small h.bitmap (u64 (bytes + 8)) s b (block_of bytes s) grant
                    (omega arith) refl sound.held.0))
      ]

as_option : NewResult → Option (ℕ × HeapState)
as_option (returned p h) = some (p, h)
as_option panic = none

-- Objects that `new` makes keep what is stored in them: from a heap in which page 0 and what the search
-- reads behind a bitmap of fewer than 2 ^ 32 bytes are in use, no later call of `new` that returns, with
-- whatever size, changes a byte of an object that an earlier call returned, though each writes a header
-- in front of its own pages.
pub objects_kept :
    (size bytes : ℕ) (sizes : List ℕ) (h h1 h2 : HeapState) (p a : ℕ)
    → size < 2 ^ 32
    → bytes + 8 < 2 ^ 64
    → IsBytes h.bitmap
    → array_bit h.bitmap 0 ≡ true
    → NothingBehind size h.bitmap
    → operator_new size h bytes ≡ returned p h1
    → p ≤ a
    → a < p + bytes
    → new_all size h1 sizes ≡ some h2
    → h2.memory a ≡ h1.memory a
unfolding as_option
objects_kept size bytes sizes h h1 h2 p a small fits proper first behind made from to all_made =
    let sound : Sound size (record { bitmap = h.bitmap; blocks = [] }) = record {
      proper = proper;
      first = first;
      behind = behind;
      held = tt;
      disjoint = tt;
    } in
    elim (new_outcome size bytes h [] small sound) [
      | inl full ↦ absurd (none-ne-some (p, h1) (ap as_option (sym full ∙ made)))
      | inr (s, grant, at, after) ↦
          let same = some-injective _ _ (ap as_option (sym at ∙ made)) in
          let e : s * page_size ≡ p = ap (λ (t : ℕ × HeapState). t.0) same in
          subst (λ (g : HeapState). new_all size g sizes ≡ some h2 → h2.memory a ≡ g.memory a)
            (ap (λ (t : ℕ × HeapState). t.1) same)
            (new_all-memory size small (block_of bytes s) a (omega (arith, e)) (omega (arith, e))
              sizes (with_object size bytes s h) h2 after)
            all_made
    ]
