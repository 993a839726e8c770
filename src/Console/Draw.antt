-- ===== src/Console/Draw.antt =====
-- Kernel/Core/KernelConsole/KernelConsole.cpp: single pixels, and the memory that drawing writes.
use native.Mathlib.Nat.{mul-le-mul_right}
use objective_hail_os.Prelude.{
  ℕ, suc, ◌+◌, ◌*◌, ◌^◌, ◌≤◌, ◌<◌, ◌≡◌, ◌≢◌, refl, ◌∙◌, ap, true, false, ◌&&◌, leb, ◌==◌,
  if◌then◌else◌, arith, inl, inr, ◌⊎◌, update_self, update_ne, ℕ_discrete, dec_lt,
}
use objective_hail_os.Prelude.Words.{u64}
use objective_hail_os.Console.{GraphicInfo, calc_pixel_offset, draw_pixel}

-- The frame buffer holds every line of the screen, and is memory that can be addressed.
pub record Buffer (info : GraphicInfo) : Type 0 where
  pub lines : info.horizontal_resolution ≤ info.pixels_per_scan_line
  pub holds : info.vertical_resolution * info.pixels_per_scan_line * 4 ≤ info.frame_buffer_size
  pub counted : info.vertical_resolution * info.pixels_per_scan_line < 2 ^ 32
  pub ends : info.frame_buffer_base + info.frame_buffer_size ≤ 2 ^ 64

-- The address of a pixel.
abbrev pub address_of : GraphicInfo → (x y : ℕ) → ℕ
address_of info x y = info.frame_buffer_base + (y * info.pixels_per_scan_line + x) * 4

module _ (info : GraphicInfo) (buffer : Buffer info) where
  row_before :
      (y y' : ℕ)
      → y < y'
      → y * info.pixels_per_scan_line + info.pixels_per_scan_line ≤ y' * info.pixels_per_scan_line
  row_before y y' h =
      let step : suc y * info.pixels_per_scan_line ≤ y' * info.pixels_per_scan_line =
        mul-le-mul_right info.pixels_per_scan_line h in
      omega (arith, step)

  -- The pixels of the screen lie in the buffer.
  pub address_of_inside :
      (x y : ℕ)
      → x < info.horizontal_resolution
      → y < info.vertical_resolution
      → address_of info x y + 4 ≤ info.frame_buffer_base + info.frame_buffer_size
  address_of_inside x y hx hy =
      omega (arith, buffer.lines, buffer.holds, row_before y info.vertical_resolution hy)

  -- Different pixels have different addresses.
  pub address_of_apart :
      (x y x' y' : ℕ)
      → x < info.horizontal_resolution
      → x' < info.horizontal_resolution
      → (x ≢ x') ⊎ (y ≢ y')
      → address_of info x y ≢ address_of info x' y'
  address_of_apart x y x' y' hx hx' ne = elim (ℕ_discrete y y') [
    | yes same ↦
        let rows = ap (λ (t : ℕ). t * info.pixels_per_scan_line) same in
        λ e. ground (arith, ne, same, rows, e)
    | no differ ↦ elim (dec_lt y y') [
      | yes before ↦ λ e. omega (arith, buffer.lines, row_before y y' before, e)
      | no behind ↦ λ e. omega (arith, buffer.lines, row_before y' y (omega arith), e)
    ]
  ]

  offset :
      (x y : ℕ)
      → x < info.horizontal_resolution
      → y < info.vertical_resolution
      → u64 (info.frame_buffer_base + calc_pixel_offset info x y) ≡ address_of info x y
  unfolding calc_pixel_offset
  offset x y hx hy =
      let inside = address_of_inside x y hx hy in
      let before = row_before y info.vertical_resolution hy in
      omega (arith, inside, before, buffer.lines, buffer.counted, buffer.ends)

  -- A pixel of the screen after a pixel, on the screen or not, is drawn.
  pub draw_pixel_at :
      (pixels : ℕ → ℕ) (x y color x' y' : ℕ)
      → x' < info.horizontal_resolution
      → y' < info.vertical_resolution
      → draw_pixel info pixels x y color (address_of info x' y')
        ≡ (if x == x' && y == y' then color else pixels (address_of info x' y'))
  unfolding draw_pixel
  draw_pixel_at pixels x y color x' y' hx hy = elim (dec_lt x info.horizontal_resolution) [
    | no off ↦ let t : leb info.horizontal_resolution x ≡ true = ground arith in rw t (ground arith)
    | yes on_x ↦
        let t : leb info.horizontal_resolution x ≡ false = ground arith in
        elim (dec_lt y info.vertical_resolution) [
          | no off ↦
              let t' : leb info.vertical_resolution y ≡ true = ground arith in
              rw (t, t') (ground arith)
          | yes on_y ↦
              let t' : leb info.vertical_resolution y ≡ false = ground arith in
              rw (t, t', offset x y on_x on_y)
                (elim (ℕ_discrete x x') [
                  | no ne ↦
                      update_ne pixels (address_of info x y) (address_of info x' y') color
                        (address_of_apart x y x' y' on_x hx (inl ne))
                      ∙ ground arith
                  | yes same ↦ elim (ℕ_discrete y y') [
                    | no ne ↦
                        update_ne pixels (address_of info x y) (address_of info x' y') color
                          (address_of_apart x y x' y' on_x hx (inr ne))
                        ∙ ground arith
                    | yes same' ↦
                        rw (same, same')
                          (update_self pixels (address_of info x' y') color ∙ ground arith)
                  ]
                ])
        ]
  ]

  -- Memory outside the frame buffer.
  abbrev pub Outside : ℕ → Type 0
  Outside a = (a < info.frame_buffer_base) ⊎ (info.frame_buffer_base + info.frame_buffer_size ≤ a)

  pub draw_pixel-Outside :
      (pixels : ℕ → ℕ) (x y color a : ℕ) → Outside a → draw_pixel info pixels x y color a ≡ pixels a
  unfolding draw_pixel
  draw_pixel-Outside pixels x y color a out = elim (dec_lt x info.horizontal_resolution) [
    | no off ↦ let t : leb info.horizontal_resolution x ≡ true = ground arith in rw t refl
    | yes on_x ↦
        let t : leb info.horizontal_resolution x ≡ false = ground arith in
        elim (dec_lt y info.vertical_resolution) [
          | no off ↦
              let t' : leb info.vertical_resolution y ≡ true = ground arith in rw (t, t') refl
          | yes on_y ↦
              let t' : leb info.vertical_resolution y ≡ false = ground arith in
              let inside = address_of_inside x y on_x on_y in
              rw (t, t', offset x y on_x on_y)
                (update_ne pixels (address_of info x y) a color (ground (arith, out, inside)))
        ]
  ]
