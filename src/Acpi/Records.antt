-- ===== src/Acpi/Records.antt =====
-- Kernel/Core/ACPI/MADT.cpp: what the loop of ParseMADT records of the table's entries.
use objective_hail_os.Prelude.{
  ℕ, zero, suc, ◌+◌, ◌-◌, ◌*◌, ◌^◌, ◌≤◌, ◌<◌, ◌≡◌, refl, sym, ◌∙◌, Bool, true, false, ◌&&◌, some,
  List, [], ◌∷◌, ◌++◌, arith, ltb, leb, ◌==◌, if◌then◌else◌, update, inl, inr, Bool-cases,
}
use mathlib.Core.List.{map, append_assoc, append-nil}
use objective_hail_os.Acpi.{
  IoApicInfo, IsoInfo, ParsedMadt, max_io_apics, max_isos, io_apic_at, iso_at, parse_entry,
  madt_loop, load16, load32,
}
use objective_hail_os.Acpi.Walk.{Entries}

-- A 32-bit number of four bytes, the lowest one first.
abbrev pub little_endian : (ℕ → ℕ) → ℕ → ℕ
little_endian mem a = mem a + mem (a + 1) * 2 ^ 8 + mem (a + 2) * 2 ^ 16 + mem (a + 3) * 2 ^ 24

-- An IOAPIC's entry as ACPI lays it out: the type 1, the length, the number, a reserved byte, the address,
-- and the first interrupt.
abbrev pub is_io_apic : (ℕ → ℕ) → ℕ → Bool
is_io_apic mem e = (mem e == 1) && leb 12 (mem (e + 1))

abbrev pub described_io_apic : (ℕ → ℕ) → ℕ → IoApicInfo
described_io_apic mem e = record {
  id = mem (e + 2);
  phys = little_endian mem (e + 4);
  gsi_base = little_endian mem (e + 8);
}

-- An interrupt source override has the type 2. `misplaced_iso` is what stands at the places of its fields
-- when these are looked for 42 bytes too far.
abbrev pub is_iso : (ℕ → ℕ) → ℕ → Bool
is_iso mem e = (mem e == 2) && leb 10 (mem (e + 1))

abbrev pub misplaced_iso : (ℕ → ℕ) → ℕ → IsoInfo
misplaced_iso mem e = record {
  irq = mem (e + 45);
  gsi = little_endian mem (e + 46);
  flags = mem (e + 50) + mem (e + 51) * 2 ^ 8;
}

-- The addresses that pass a test, in their order.
unfoldable pub select : (ℕ → Bool) → List ℕ → List ℕ
select test [] = []
select test (e ∷ es) = let rest = select test es in if test e then e ∷ rest else rest

module _ {A : Type 0} where
  -- The first `n` items, or all of them.
  unfoldable pub take : ℕ → List A → List A
  take zero xs = []
  take (suc n) [] = []
  take (suc n) (x ∷ xs) = x ∷ take n xs

  take-none : (n : ℕ) → take n [] ≡ []
  unfolding take
  take-none zero = refl
  take-none (suc n) = refl

  -- The first `n` items of an array.
  unfoldable pub listed : (ℕ → A) → ℕ → List A
  listed array zero = []
  listed array (suc n) = listed array n ++ (array n ∷ [])

  listed-update :
      (array : ℕ → A) (n j : ℕ) (x : A) → n ≤ j → listed (update array j x) n ≡ listed array n
  unfolding listed
  listed-update array zero j x h = refl
  listed-update array (suc n) j x h =
      let other : update array j x n ≡ array n = ground arith in
      rw (listed-update array n j x (omega arith), other) refl

  -- One more item is recorded while there is room.
  recorded_one :
      (array : ℕ → A) (n max : ℕ) (x : A) (xs : List A)
      → n < max
      → listed (update array n x) (n + 1) ++ take (max - (n + 1)) xs
        ≡ listed array n ++ take (max - n) (x ∷ xs)
  unfolding listed take
  recorded_one array n max x xs h =
      let next : n + 1 ≡ suc n = omega arith in
      let room : max - n ≡ suc (max - (n + 1)) = omega arith in
      let here : update array n x n ≡ x = ground arith in
      rw (room, next, listed-update array n n x (omega arith), here)
        (append_assoc (listed array n) (x ∷ []) (take (max - suc n) xs))

-- What the loop recorded behind what was there: the IOAPICs of the table, and what it takes for the
-- overrides, each in the table's order and as far as the array has room.
pub record Recorded (mem : ℕ → ℕ) (es : List ℕ) (out parsed : ParsedMadt) : Type 0 where
  pub io_apics :
      listed parsed.io_apics parsed.io_apic_count
      ≡ listed out.io_apics out.io_apic_count
        ++ take
            (max_io_apics - out.io_apic_count)
            (map (described_io_apic mem) (select (is_io_apic mem) es))
  pub isos :
      listed parsed.isos parsed.iso_count
      ≡ listed out.isos out.iso_count
        ++ take (max_isos - out.iso_count) (map (misplaced_iso mem) (select (is_iso mem) es))
  pub local_apic_base : parsed.local_apic_base ≡ out.local_apic_base

load32-little_endian : (mem : ℕ → ℕ) (a b : ℕ) → a ≡ b → load32 mem a ≡ little_endian mem b
unfolding load32 load16
load32-little_endian mem a b e =
    let third : b + 2 + 1 ≡ b + 3 = omega arith in rw (e, third) (omega arith)

io_apic_at_entry : (mem : ℕ → ℕ) (e : ℕ) → io_apic_at mem (e + 2) ≡ described_io_apic mem e
unfolding io_apic_at
io_apic_at_entry mem e =
    rw
      (
        load32-little_endian mem (e + 2 + 2) (e + 4) (omega arith),
        load32-little_endian mem (e + 2 + 6) (e + 8) (omega arith),
      )
      refl

iso_at_entry : (mem : ℕ → ℕ) (e : ℕ) → iso_at mem (e + 44) ≡ misplaced_iso mem e
unfolding iso_at load16
iso_at_entry mem e =
    let irq : e + 44 + 1 ≡ e + 45 = omega arith in
    let flags : e + 44 + 6 ≡ e + 50 = omega arith in
    let high : e + 50 + 1 ≡ e + 51 = omega arith in
    rw (load32-little_endian mem (e + 44 + 2) (e + 46) (omega arith), irq, flags, high) refl

module _ (mem : ℕ → ℕ) (e : ℕ) (es : List ℕ) (out : ParsedMadt) where
  io_apics_step :
      let out' = parse_entry mem e out in
      listed out'.io_apics out'.io_apic_count
        ++ take
            (max_io_apics - out'.io_apic_count)
            (map (described_io_apic mem) (select (is_io_apic mem) es))
      ≡ listed out.io_apics out.io_apic_count
        ++ take
            (max_io_apics - out.io_apic_count)
            (map (described_io_apic mem) (select (is_io_apic mem) (e ∷ es)))
  unfolding parse_entry select take
  io_apics_step = elim (Bool-cases (mem e == 1)) [
    | inl kind ↦ elim (Bool-cases (leb 12 (mem (e + 1)))) [
      | inl long ↦ elim (Bool-cases (ltb out.io_apic_count max_io_apics)) [
        | inl room ↦
            rw (kind, long, room, io_apic_at_entry mem e)
              (recorded_one out.io_apics out.io_apic_count max_io_apics (described_io_apic mem e)
                (map (described_io_apic mem) (select (is_io_apic mem) es)) (ground (arith, room)))
        | inr full ↦
            let none_left : max_io_apics - out.io_apic_count ≡ 0 = ground (arith, full) in
            rw (kind, long, full, none_left) refl
      ]
      | inr short ↦ rw (kind, short) refl
    ]
    | inr kind ↦ elim (Bool-cases (mem e == 2)) [
      | inl other ↦ elim (Bool-cases (leb 10 (mem (e + 1)) && ltb out.iso_count max_isos)) [
        | inl added ↦ rw (kind, other, added) refl
        | inr left_out ↦ rw (kind, other, left_out) refl
      ]
      | inr other ↦ rw (kind, other) refl
    ]
  ]

  isos_step :
      let out' = parse_entry mem e out in
      listed out'.isos out'.iso_count
        ++ take (max_isos - out'.iso_count) (map (misplaced_iso mem) (select (is_iso mem) es))
      ≡ listed out.isos out.iso_count
        ++ take (max_isos - out.iso_count) (map (misplaced_iso mem) (select (is_iso mem) (e ∷ es)))
  unfolding parse_entry select take
  isos_step = elim (Bool-cases (mem e == 1)) [
    | inl kind ↦
        let differs : (mem e == 2) ≡ false = ground (arith, kind) in
        elim (Bool-cases (leb 12 (mem (e + 1)) && ltb out.io_apic_count max_io_apics)) [
          | inl added ↦ rw (kind, differs, added) refl
          | inr left_out ↦ rw (kind, differs, left_out) refl
        ]
    | inr kind ↦ elim (Bool-cases (mem e == 2)) [
      | inl other ↦ elim (Bool-cases (leb 10 (mem (e + 1)))) [
        | inl long ↦ elim (Bool-cases (ltb out.iso_count max_isos)) [
          | inl room ↦
              rw (kind, other, long, room, iso_at_entry mem e)
                (recorded_one out.isos out.iso_count max_isos (misplaced_iso mem e)
                  (map (misplaced_iso mem) (select (is_iso mem) es)) (ground (arith, room)))
          | inr full ↦
              let none_left : max_isos - out.iso_count ≡ 0 = ground (arith, full) in
              rw (kind, other, long, full, none_left) refl
        ]
        | inr short ↦ rw (kind, other, short) refl
      ]
      | inr other ↦ rw (kind, other) refl
    ]
  ]

  base_step : (parse_entry mem e out).local_apic_base ≡ out.local_apic_base
  unfolding parse_entry
  base_step = ground arith

-- On a table whose entries have lengths that are not 0 and fill it, with fuel for its bytes, the loop ends.
-- Behind the IOAPICs that were recorded before, it has recorded the number, the address and the first
-- interrupt of the table's IOAPICs (entries of type 1 with 12 bytes at least), in the table's order, as
-- far as the array of 8 has room. Of the entries of type 2 with 10 bytes at least it has recorded as many
-- as the array of 32 has room for, in the table's order too, but each with what stands 42 bytes behind
-- the places of its fields.
pub madt_loop-Recorded :
    (fuel : ℕ) (mem : ℕ → ℕ) (p end : ℕ) (es : List ℕ) (out : ParsedMadt)
    → 0 < fuel
    → end < p + fuel
    → Entries mem p end es
    → (parsed : ParsedMadt) × (madt_loop fuel mem p end out ≡ some parsed)
      × Recorded mem es out parsed
unfolding madt_loop Entries select
madt_loop-Recorded zero mem p end [] out pos h l = absurd (omega arith)
madt_loop-Recorded zero mem p end (e ∷ es) out pos h l = absurd (omega arith)
madt_loop-Recorded (suc fuel) mem p end [] out pos h l =
    let over : leb (p + 2) end ≡ false = ground arith in
    (
      out,
      rw over refl,
      record {
        io_apics = sym (rw (take-none (max_io_apics - out.io_apic_count)) (append-nil _));
        isos = sym (rw (take-none (max_isos - out.iso_count)) (append-nil _));
        local_apic_base = refl;
      },
    )
madt_loop-Recorded (suc fuel) mem p end (e ∷ es) out pos h l =
    let fits : leb (p + 2) end ≡ true = ground arith in
    let long : (mem (p + 1) == 0) ≡ false = ground arith in
    let (parsed, done, rest) =
      madt_loop-Recorded fuel mem (p + mem (p + 1)) end es (parse_entry mem p out)
        (omega (arith, l.1)) (omega (arith, l.1, l.2)) l.3 in
    (
      parsed,
      rw (fits, long) done,
      rw l.0 (record {
        io_apics = rest.io_apics ∙ io_apics_step mem p es out;
        isos = rest.isos ∙ isos_step mem p es out;
        local_apic_base = rest.local_apic_base ∙ base_step mem p es out;
      }),
    )
