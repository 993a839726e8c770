-- ===== src/IoApic/Create.antt =====
-- Kernel/Core/KernelMain.cpp: the IOAPIC objects that `main` makes of the entries of the MADT, in pages of
-- the early allocator. The objects are at their addresses; `object_size` is the size of one.
use objective_hail_os.Prelude.{
  ℕ, zero, suc, ◌+◌, ◌*◌, ◌≤◌, ◌<◌, ◌≡◌, ◌≢◌, ◌^◌, ◌∙◌, refl, sym, arith, true, if◌then◌else◌,
  update, update_self, IsBytes, dec_lt,
}
use native.Mathlib.Nat.{mul-le-mul_right}
use objective_hail_os.Prelude.Words.{u64}
use objective_hail_os.Bit.{array_bit}
use objective_hail_os.Bit.Range.{in_range}
use objective_hail_os.PageBitmap.{page_size}
use objective_hail_os.PageAllocator.{page_count_of, allocate_page_sized}
use objective_hail_os.PageAllocator.Search.{FirstRun}
use objective_hail_os.PageAllocator.Sized.{page_count_of_bounds}
use objective_hail_os.PageAllocator.Any.{allocate_page_sized-Allocated}
use objective_hail_os.Acpi.{IoApicInfo, ParsedMadt}
use objective_hail_os.IoApic.{IoApic}

-- The constructor.
abbrev pub io_apic : IoApicInfo → IoApic
io_apic info = record { phys_base = info.phys; gsi_base = info.gsi_base }

module _ (object_size : ℕ) (infos : ℕ → IoApicInfo) (base : ℕ) where
  -- The loop of `main` at entry `i`, with `left` entries left.
  unfoldable pub place_loop : (left i : ℕ) → (ℕ → IoApic) → ℕ → IoApic
  place_loop zero i objects = objects
  place_loop (suc left) i objects =
      place_loop left (i + 1)
        (update objects (u64 (base + u64 (i * object_size))) (io_apic (infos i)))

-- The call of AllocatePage and the loop: the address of the first object, the bitmap, and the objects.
unfoldable pub create_io_apics :
    (size object_size : ℕ) → ParsedMadt → (ℕ → ℕ) → (ℕ → IoApic) → ℕ × (ℕ → ℕ) × (ℕ → IoApic)
unfolding place_loop
create_io_apics size object_size madt bitmap objects =
    let bytes = u64 (object_size * madt.io_apic_count) in
    let (base, bitmap') = allocate_page_sized size bitmap bytes in
    (base, bitmap', place_loop object_size madt.io_apics base madt.io_apic_count 0 objects)

module _ (object_size : ℕ) (infos : ℕ → IoApicInfo) (base : ℕ) where
  abbrev address : ℕ → ℕ
  address i = u64 (base + u64 (i * object_size))

  -- An object that the loop does not reach.
  place_loop_before :
      (left i : ℕ) (objects : ℕ → IoApic) (a : ℕ)
      → ((j : ℕ) → i ≤ j → j < i + left → address j ≢ a)
      → place_loop object_size infos base left i objects a ≡ objects a
  unfolding place_loop
  place_loop_before zero i objects a apart = refl
  place_loop_before (suc left) i objects a apart =
      place_loop_before left (i + 1) (update objects (address i) (io_apic (infos i))) a
        (λ j lo hi. apart j (omega arith) (omega arith))
      ∙ ground (arith, apart i (omega arith) (omega arith))

  module _ (some_bytes : 0 < object_size) (count : ℕ)
      (fits : base + count * object_size < 2 ^ 64) where
    address_of : (i : ℕ) → i < count → address i ≡ base + i * object_size
    address_of i lt =
        let le = mul-le-mul_right {m = i} {n = count} object_size (omega arith) in omega (arith, le)

    address_apart : (i j : ℕ) → i < j → j < count → address i ≢ address j
    address_apart i j lt last e =
        let more = mul-le-mul_right {m = i + 1} {n = j} object_size (omega arith) in
        let own : (i + 1) * object_size ≡ i * object_size + object_size = omega arith in
        let one = address_of i (omega arith) in
        let two = address_of j last in omega (arith, more, own, one, two, e)

    place_loop_at :
        (left i k : ℕ) (objects : ℕ → IoApic)
        → i + left ≡ count
        → i ≤ k
        → k < count
        → place_loop object_size infos base left i objects (address k) ≡ io_apic (infos k)
    unfolding place_loop
    place_loop_at zero i k objects e lo hi = absurd (omega arith)
    place_loop_at (suc left) i k objects e lo hi = elim (dec_lt i k) [
      | yes later ↦ place_loop_at left (i + 1) k _ (omega arith) (omega arith) hi
      | no here ↦
          let own : i ≡ k = omega arith in
          place_loop_before left (i + 1) (update objects (address i) (io_apic (infos i)))
            (address k) (λ j after lt e'. address_apart k j (omega arith) (omega arith) (sym e'))
          ∙ rw own (update_self objects (address k) (io_apic (infos k)))
    ]

module _ (size object_size s : ℕ) (madt : ParsedMadt) (bitmap : ℕ → ℕ) (objects : ℕ → IoApic)
    (some_bytes : 0 < object_size) (bounded : object_size * madt.io_apic_count < 2 ^ 32)
    (small : size < 2 ^ 32) (not_null : 0 < s)
    (is : FirstRun bitmap (page_count_of (object_size * madt.io_apic_count)) s)
    (proper : IsBytes bitmap)
    (fits : s + page_count_of (object_size * madt.io_apic_count) ≤ size * 8) where
  abbrev pages : ℕ
  pages = page_count_of (object_size * madt.io_apic_count)

  -- When the pages for the objects are found as the lowest free run, not at page 0 and inside the bitmap (of
  -- fewer than 2 ^ 32 bytes), the object at index `i` of the array holds the address and the first interrupt
  -- of the IOAPIC that the MADT lists as number `i`, and lies in the pages of the run, which are in use
  -- then.
  pub create_io_apics-at :
      (i p : ℕ)
      → i < madt.io_apic_count
      → let (base, bitmap', objects') = create_io_apics size object_size madt bitmap objects in
        (objects' (base + i * object_size) ≡ io_apic (madt.io_apics i))
        × (s * page_size ≤ base + i * object_size)
        × (base + i * object_size + object_size ≤ (s + pages) * page_size)
        × (array_bit bitmap' p ≡ (if in_range s pages p then true else array_bit bitmap p))
  unfolding create_io_apics
  create_io_apics-at i p lt =
      let bytes = object_size * madt.io_apic_count in
      let exact : u64 bytes ≡ bytes = omega arith in
      let bounds = page_count_of_bounds bytes in
      let more = mul-le-mul_right {m = i + 1} {n = madt.io_apic_count} object_size (omega arith) in
      let outcome =
        allocate_page_sized-Allocated bitmap size bytes s small not_null is proper fits
          (omega (arith, bounds, more)) in
      let room : s * page_size + madt.io_apic_count * object_size < 2 ^ 64 = omega arith in
      let at =
        address_of object_size madt.io_apics (s * page_size) some_bytes madt.io_apic_count room i
          lt in
      rw (exact, outcome.pointer)
        (
          rw at at (
              place_loop_at object_size madt.io_apics (s * page_size) some_bytes madt.io_apic_count
                room madt.io_apic_count 0 i objects (omega arith) (omega arith) lt),
          omega arith,
          omega (arith, bounds, more),
          outcome.bits p,
        )
