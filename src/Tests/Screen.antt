-- ===== src/Tests/Screen.antt =====
-- Examples for Kernel/Core/KernelConsole and Kernel/Arch/x86_64/Paging: a screen of 640 by 480 pixels, and
-- the tables for the 40 KiB from the second page on.
use objective_hail_os.Prelude.{
  ap, none, Bool, ℕ, ◌+◌, ◌-◌, ◌*◌, ◌≤◌, ◌≡◌, ◌≢◌, ◌↔◌, refl, inl, true, some, [], ◌∷◌, arith,
  if◌then◌else◌,
}
use objective_hail_os.PageBitmap.{MemoryInfo, parse_memory_info, parse_region, align}
use objective_hail_os.MemoryUtility.{fill_memory}
use objective_hail_os.Bit.{bit, set_bit, set_bit_range, set_bits, set_array_bit}
use objective_hail_os.PageAllocator.{allocate_page}
use objective_hail_os.Console.{GraphicInfo, Screen, Font, make_room, put_char, put_string}
use objective_hail_os.Console.Cursor.{Fits, OnScreen}
use objective_hail_os.Console.Draw.{Buffer, address_of}
use objective_hail_os.Console.Glyph.{in_cell, row_color, put_char-glyph, put_string_outside}
use objective_hail_os.Paging.{
  Build, Allocator, max_loop, gib_loop, align_up, calc_max_phys, gib_count_of, page_2m,
  build_identity_map_2m,
}
use objective_hail_os.Paging.Entry.{translate}
use objective_hail_os.Paging.Translate.{identity_at}
use objective_hail_os.Paging.Early.{early_allocator}
use objective_hail_os.Startup.Memory.{
  init_bitmap, init_early_page_allocator, init_memory, init_memory-identity,
}
use objective_hail_os.Paging.Outcome.{Gives, build_identity_map_2m-ok}
use objective_hail_os.Tests.Heap.{page_zero_used, page_zero_used-IsBytes}

abbrev pub info : GraphicInfo
info = record {
  frame_buffer_base = 0x80000000;
  frame_buffer_size = 1228800;
  pixels_per_scan_line = 640;
  horizontal_resolution = 640;
  vertical_resolution = 480;
}

info-Fits : Fits info
info-Fits = record {
  columns = omega arith;
  rows = omega arith;
  wide = omega arith;
  high = omega arith;
}

info-Buffer : Buffer info
info-Buffer = record {
  lines = omega arith;
  holds = omega arith;
  counted = omega arith;
  ends = omega arith;
}

-- Every glyph is two upright lines.
abbrev pub font : Font
font ch row = 0x81

abbrev screen : Screen
screen = record { x = 0; y = 464; pixels = λ a. 7 }

screen-OnScreen : OnScreen info screen
screen-OnScreen = record { column = omega arith; row = omega arith }

put_char-glyph_example :
    let r = make_room info screen in
    (put_char info font screen b'a').pixels (address_of info 7 470)
    ≡ (if in_cell r.x r.y 7 470 then row_color 0x81 (7 - r.x) else r.pixels (address_of info 7 470))
put_char-glyph_example =
    put_char-glyph info info-Fits info-Buffer font screen b'a' 7 470 screen-OnScreen refl
      (omega arith) (omega arith) (omega arith)

put_string_outside_example : (put_string info font screen (b'a' ∷ 10 ∷ b'b' ∷ [])).pixels 0x1000 ≡ 7
put_string_outside_example =
    put_string_outside info info-Buffer 0x1000 (inl (omega arith)) font screen
      (b'a' ∷ 10 ∷ b'b' ∷ [])

abbrev one_region : MemoryInfo
one_region = record {
  free_memory = λ j. record { base = 4096; length = 40960 };
  free_region_count = 1;
  reserved_memory = λ j. record { base = 0; length = 0 };
  reserved_region_count = 0;
}

highest : calc_max_phys one_region ≡ 45056
unfolding calc_max_phys max_loop
highest = refl

one_gib : gib_count_of one_region ≡ 1
unfolding gib_count_of calc_max_phys align_up max_loop
one_gib = refl

abbrev built : Build (ℕ → ℕ)
built =
    build_identity_map_2m (early_allocator 2) (some one_region) 0 (λ a. 0)
      (init_bitmap 2 page_zero_used one_region)

built_ok : built.ok ≡ true
unfolding build_identity_map_2m gib_loop gib_count_of calc_max_phys align_up max_loop allocate_page
    bit set_bit init_bitmap init_early_page_allocator parse_memory_info parse_region align
    set_bit_range set_bits set_array_bit fill_memory
built_ok = refl

no_panic : init_memory 2 page_zero_used (λ a. 0) 0 one_region ≡ some built
unfolding init_memory
no_panic = ap (λ (ok : Bool). if ok then some built else none) built_ok

init_memory_example :
    translate built.words built.cr3 5000
    ≡ identity_at one_region (align_up (calc_max_phys one_region) page_2m) 5000
init_memory_example =
    init_memory-identity 2 page_zero_used (λ a. 0) 0 one_region built 5000 (omega arith)
      page_zero_used-IsBytes (omega (arith, highest)) no_panic (omega (arith, one_gib))

-- Pages one after the other.
abbrev counting : Allocator
counting = record { State = ℕ; allocate = λ n. (n * 4096, n + 1) }

build_ok_example : ((build_identity_map_2m counting (some one_region) 0 (λ a. 0) 1).ok ≡ true) ↔ (
    (gib_count_of one_region ≤ 512)
    × (1 * 4096 ≢ 0)
    × Gives counting one_region (gib_count_of one_region) 3)
build_ok_example = build_identity_map_2m-ok counting one_region 0 (λ a. 0) 1
