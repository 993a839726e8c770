-- ===== src/Workers/Pages.antt =====
-- Kernel/Core/KernelMain.cpp with KernelConsole.hpp: the pages that WorkerA's messages take.
use objective_hail_os.Prelude.{
  ℕ, zero, suc, ◌+◌, ◌*◌, ◌≤◌, ◌<◌, ◌≡◌, ◌≢◌, ◌^◌, ◌∙◌, sym, refl, arith, true, false, none, some,
  ◌⊎◌, inl, inr, IsBytes, Bool-cases, Option-cases, dec_lt, ℕ_discrete, codes, ap,
}
use mathlib.Core.Bool.{true≢false}
use mathlib.Core.Option.{none-ne-some}
use objective_hail_os.Bit.{array_bit, set_array_bit}
use objective_hail_os.Bit.Range.{set_array_bit-IsBytes, array_bit-set_array_bit}
use objective_hail_os.PageBitmap.{page_size}
use objective_hail_os.PageAllocator.Single.{AllUsed}
use objective_hail_os.PageAllocator.Available.{free_pages, free_pages-set}
use objective_hail_os.OperatorNew.{HeapState, header_size}
use objective_hail_os.Output.{OutputDevice}
use objective_hail_os.Panic.{Report, Machine, get_bootstrap_console}
use objective_hail_os.Panic.Exhausted.{no_console}
use objective_hail_os.Panic.Halts.{HasPage, with_console, get_bootstrap_console-page}
use objective_hail_os.RefCount.{Store, destruct}
use objective_hail_os.RefCount.Consoles.{caller, run_use, bootstrap_stays}
use objective_hail_os.RefCount.Consoles.{get_bootstrap_console as get_bootstrap_pointer}
use objective_hail_os.Workers.{Counting, delete_if_gone, greet, worker_a}

-- The lowest free page, if there is one among the first `n`.
lowest_free :
    (m : ℕ → ℕ) (n : ℕ)
    → AllUsed m 0 n ⊎ ((p : ℕ) × (p < n) × (array_bit m p ≡ false) × AllUsed m 0 p)
lowest_free m zero = inl (λ p lo hi. absurd (omega arith))
lowest_free m (suc n) = elim (lowest_free m n) [
  | inr (p, lt, free, used) ↦ inr (p, omega arith, free, used)
  | inl used ↦ elim (Bool-cases (array_bit m n)) [
    | inl full ↦ inl (λ p lo hi. elim (dec_lt p n) [
      | yes below ↦ used p lo below
      | no at ↦ let e : p ≡ n = omega arith in rw e full
    ])
    | inr free ↦ inr (n, omega arith, free, used)
  ]
]

not_page_0 : (m : ℕ → ℕ) (p : ℕ) → array_bit m 0 ≡ true → array_bit m p ≡ false → 0 < p
not_page_0 m p first free = elim (ℕ_discrete p 0) [
  | yes e ↦ absurd (true≢false (sym first ∙ ap (array_bit m) (sym e) ∙ free))
  | no pos ↦ omega arith
]

still_used :
    (m : ℕ → ℕ) (p : ℕ)
    → IsBytes m
    → array_bit m 0 ≡ true
    → array_bit (set_array_bit m p true) 0 ≡ true
still_used m p bytes first = ground (arith, array_bit-set_array_bit m p 0 true bytes, first)

-- The object that WorkerA's `con` held is not destroyed when `con` ends.
still_live :
    (counts : Store) (a : ℕ)
    → a ≢ 0
    → (destruct (get_bootstrap_pointer counts caller a) caller).live a ≡ true
unfolding run_use
still_live counts a real = (bootstrap_stays counts a real).1

module _ {S : Type 0} (con : OutputDevice S) (size object_size : ℕ) (new_report : Report)
    (small : size < 2 ^ 32) (one_page : object_size + header_size ≤ page_size) where
  no_round :
      (fuel n : ℕ) (counts : Store) (m : Machine S) (r : Counting S)
      → get_bootstrap_console con size object_size new_report fuel m ≡ none
      → worker_a con size object_size new_report fuel (suc n) counts m ≡ some r
      → none ≡ some r
  unfolding worker_a
  no_round fuel n counts m r stuck ends = rw stuck at ends

  no_fuel :
      (n : ℕ) (counts : Store) (m : Machine S) (r : Counting S)
      → worker_a con size object_size new_report zero (suc n) counts m ≡ some r
      → none ≡ some r
  unfolding get_bootstrap_console
  no_fuel n counts m r ends = no_round zero n counts m r refl ends

  -- A round that comes to an end took page `p`, and the others are still to come.
  one_round :
      (fuel n p : ℕ) (counts : Store) (m : Machine S) (r : Counting S)
      → HasPage size object_size p m.heap
      → worker_a con size object_size new_report (suc fuel) (suc n) counts m ≡ some r
      → (counts' : Store) × (m' : Machine S) × (m'.heap ≡ with_console object_size p m.heap)
        × (worker_a con size object_size new_report (suc fuel) n counts' m' ≡ some r)
  unfolding worker_a greet
  one_round fuel n p counts m r has ends =
      let console = get_bootstrap_console-page con size object_size p new_report fuel m has in
      let text = codes "Hello, Scheduled tasks! This message must be shown once per a second!\n" in
      let live = still_live counts (p * page_size) (omega (arith, has.not_null)) in
      elim (Option-cases (con.put_string m.out text)) [
        | inl stuck ↦
            let never : none ≡ some r = rw (console, greet, stuck) at ends in
            absurd (none-ne-some r never)
        | inr (s, put) ↦ (
          destruct (get_bootstrap_pointer counts caller (p * page_size)) caller,
          record m { heap = with_console object_size p m.heap; out = s },
          refl,
          rw (console, greet, put, delete_if_gone, live) at ends,
        )
      ]

  -- Each round of WorkerA takes a page that stays in use, since the object keeps a reference when `con` has
  -- released its own: with page 0 in use and a bitmap of fewer than 2 ^ 32 bytes, no more rounds come to
  -- an end than there were free pages, even when nothing else allocates.
  pub worker_a-pages :
      (fuel n : ℕ) (counts : Store) (m : Machine S) (r : Counting S)
      → IsBytes m.heap.bitmap
      → array_bit m.heap.bitmap 0 ≡ true
      → worker_a con size object_size new_report fuel n counts m ≡ some r
      → n ≤ free_pages m.heap.bitmap 0 (size * 8)
  worker_a-pages fuel zero counts m r bytes first ends = omega arith
  worker_a-pages zero (suc n) counts m r bytes first ends =
      absurd (none-ne-some r (no_fuel n counts m r ends))
  worker_a-pages (suc fuel) (suc n) counts m r bytes first ends =
      elim (lowest_free m.heap.bitmap (size * 8)) [
        | inl used ↦
            let none_left = no_console con size object_size new_report one_page (suc fuel) m used in
            absurd (none-ne-some r (no_round (suc fuel) n counts m r none_left ends))
        | inr (p, lt, free, used) ↦
            let has : HasPage size object_size p m.heap = record {
              small = omega arith;
              one_page = one_page;
              not_null = not_page_0 m.heap.bitmap p first free;
              inside = lt;
              free = free;
              lowest = used;
            } in
            let (counts', m', heap, rest) = one_round fuel n p counts m r has ends in
            let bitmap : m'.heap.bitmap ≡ set_array_bit m.heap.bitmap p true =
              ap (λ (h : HeapState). h.bitmap) heap in
            let kept = set_array_bit-IsBytes m.heap.bitmap p true bytes in
            let later =
              worker_a-pages (suc fuel) n counts' m' r (rw bitmap kept)
                (rw bitmap (still_used m.heap.bitmap p bytes first)) rest in
            let less =
              free_pages-set m.heap.bitmap 0 (size * 8) p bytes free (omega arith) (omega arith) in
            omega (arith, less, rw bitmap at later)
      ]
