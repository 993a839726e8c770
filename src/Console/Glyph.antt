-- ===== src/Console/Glyph.antt =====
-- Kernel/Core/KernelConsole/KernelConsole.cpp: the glyph that PutChar draws, and what strings write.
use objective_hail_os.Prelude.{
  ℕ, zero, suc, ◌+◌, ◌-◌, ◌^◌, ◌≤◌, ◌<◌, ◌≡◌, ◌≢◌, refl, ◌∙◌, bit_and, Bool, true, false, ◌&&◌,
  List, [], ◌∷◌, ltb, leb, ◌==◌, if◌then◌else◌, arith, Bool-cases, inl, inr, ℕ_discrete,
}
use objective_hail_os.Prelude.Words.{u32}
use objective_hail_os.MemoryUtility.Loops.{fill_memory_at}
use objective_hail_os.Console.{
  GraphicInfo, Screen, Font, font_height, font_width, color_background, color_foreground,
  is_visible_char, draw_pixel, draw_columns, draw_rows, reset, make_room, put_char, put_string,
}
use objective_hail_os.Console.Cursor.{Fits, OnScreen, make_room-HasRoom}
use objective_hail_os.Console.Draw.{Buffer, address_of, draw_pixel_at, draw_pixel-Outside, Outside}

-- The color of column `k` of a row of bits, the highest bit leftmost.
abbrev pub row_color : ℕ → ℕ → ℕ
row_color line k = if bit_and line (2 ^ (7 - k)) == 0 then color_background else color_foreground

-- The pixel lies in the cell of a character at `x` and `y`.
abbrev pub in_cell : (x y x' y' : ℕ) → Bool
in_cell x y x' y' = (leb y y' && ltb y' (y + font_height)) && (leb x x' && ltb x' (x + font_width))

module _ (info : GraphicInfo) (fits : Fits info) (buffer : Buffer info) where
  module _ (x y x' y' : ℕ) (room : x + font_width ≤ info.horizontal_resolution)
      (hx : x' < info.horizontal_resolution) (hy : y' < info.vertical_resolution) where
    draw_columns_at :
        (left k line : ℕ) (pixels : ℕ → ℕ)
        → k + left ≡ font_width
        → draw_columns info left pixels x y line k (address_of info x' y') ≡ (
            if (y == y') && (leb (x + k) x' && ltb x' (x + font_width))
            then row_color line (x' - x)
            else pixels (address_of info x' y'))
    unfolding draw_columns
    draw_columns_at zero k line pixels all = ground arith
    draw_columns_at (suc left) k line pixels all =
        let wide = fits.wide in
        let column : u32 (x + k) ≡ x + k = omega arith in
        let ih =
          draw_columns_at left (k + 1) line (draw_pixel info pixels (x + k) y (row_color line k))
            (omega arith) in
        let pixel = draw_pixel_at info buffer pixels (x + k) y (row_color line k) x' y' hx hy in
        rw column (
          ih ∙ elim (ℕ_discrete (x + k) x') [
            | yes same ↦ let at : x' - x ≡ k = omega arith in rw (pixel, at) (ground arith)
            | no other ↦ rw pixel (ground arith)
          ])

  module _ (x y x' y' : ℕ) (room : x + font_width ≤ info.horizontal_resolution)
      (below : y + font_height ≤ info.vertical_resolution) (hx : x' < info.horizontal_resolution)
      (hy : y' < info.vertical_resolution) where
    draw_rows_at :
        (left i : ℕ) (glyph pixels : ℕ → ℕ)
        → i + left ≡ font_height
        → draw_rows info left pixels x y glyph i (address_of info x' y') ≡ (
            if (leb (y + i) y' && ltb y' (y + font_height)) && (leb x x' && ltb x' (x + font_width))
            then row_color (glyph (y' - y)) (x' - x)
            else pixels (address_of info x' y'))
    unfolding draw_rows
    draw_rows_at zero i glyph pixels all = ground arith
    draw_rows_at (suc left) i glyph pixels all =
        let high = fits.high in
        let row : u32 (y + i) ≡ y + i = omega arith in
        let ih =
          draw_rows_at left (i + 1) glyph
            (draw_columns info font_width pixels x (y + i) (glyph i) 0) (omega arith) in
        let line = draw_columns_at x (y + i) x' y' room hx hy font_width 0 (glyph i) pixels refl in
        rw row (
          ih ∙ elim (ℕ_discrete (y + i) y') [
            | yes same ↦ let at : y' - y ≡ i = omega arith in rw (line, at) (ground arith)
            | no other ↦ rw line (ground arith)
          ])

  -- A visible character other than a space is drawn with its top left corner where the cursor is after
  -- it made room: the pixels of its cell are the bits of the font, and the other pixels of the screen
  -- are as they were then. The cursor starts on the screen, which holds a character at least and whose
  -- lines the frame buffer holds.
  pub put_char-glyph :
      (font : Font) (s : Screen) (ch x' y' : ℕ)
      → OnScreen info s
      → is_visible_char ch ≡ true
      → ch ≢ 32
      → x' < info.horizontal_resolution
      → y' < info.vertical_resolution
      → let r = make_room info s in
        (put_char info font s ch).pixels (address_of info x' y') ≡ (
          if in_cell r.x r.y x' y'
          then row_color (font ch (y' - r.y)) (x' - r.x)
          else r.pixels (address_of info x' y'))
  unfolding put_char
  put_char-glyph font s ch x' y' on visible ink hx hy =
      let r = make_room info s in
      let room = make_room-HasRoom info fits s on in
      let dark : (ch == 32) ≡ false = ground arith in
      rw (visible, dark)
        (draw_rows_at r.x r.y x' y' room.column room.row hx hy font_height 0 (font ch) r.pixels refl
          ∙ ground arith)

module _ (info : GraphicInfo) (buffer : Buffer info) (a : ℕ) (out : Outside info buffer a) where
  draw_columns_outside :
      (left : ℕ) (pixels : ℕ → ℕ) (x y line k : ℕ)
      → draw_columns info left pixels x y line k a ≡ pixels a
  unfolding draw_columns
  draw_columns_outside zero pixels x y line k = refl
  draw_columns_outside (suc left) pixels x y line k =
      draw_columns_outside left (draw_pixel info pixels (u32 (x + k)) y (row_color line k)) x y line
        (k + 1)
      ∙ draw_pixel-Outside info buffer pixels (u32 (x + k)) y (row_color line k) a out

  draw_rows_outside :
      (left : ℕ) (pixels : ℕ → ℕ) (x y : ℕ) (glyph : ℕ → ℕ) (i : ℕ)
      → draw_rows info left pixels x y glyph i a ≡ pixels a
  unfolding draw_rows
  draw_rows_outside zero pixels x y glyph i = refl
  draw_rows_outside (suc left) pixels x y glyph i =
      draw_rows_outside left (draw_columns info font_width pixels x (u32 (y + i)) (glyph i) 0) x y
        glyph (i + 1)
      ∙ draw_columns_outside font_width pixels x (u32 (y + i)) (glyph i) 0

  reset_outside : (s : Screen) → (reset info s).pixels a ≡ s.pixels a
  unfolding reset
  reset_outside s =
      fill_memory_at s.pixels info.frame_buffer_base info.frame_buffer_size 0 a
      ∙ ground (arith, out)

  make_room_outside : (s : Screen) → (make_room info s).pixels a ≡ s.pixels a
  unfolding make_room reset
  make_room_outside s = ground (arith, reset_outside s)

  put_char_outside :
      (font : Font) (s : Screen) (ch : ℕ) → (put_char info font s ch).pixels a ≡ s.pixels a
  unfolding put_char reset
  put_char_outside font s ch =
      let r = make_room info s in
      let cleared = reset_outside s in
      let kept = make_room_outside s in
      let drawn = draw_rows_outside font_height r.pixels r.x r.y (font ch) 0 in
      elim (Bool-cases (is_visible_char ch)) [
        | inl visible ↦ rw visible (ground (arith, drawn, kept))
        | inr hidden ↦ rw hidden (ground (arith, cleared))
      ]

  -- A string, whatever its characters and wherever the cursor is, changes no memory outside the frame
  -- buffer, when the frame buffer holds every line of the screen.
  pub put_string_outside :
      (font : Font) (s : Screen) (text : List ℕ)
      → (put_string info font s text).pixels a ≡ s.pixels a
  unfolding put_string
  put_string_outside font s [] = refl
  put_string_outside font s (ch ∷ text) =
      put_string_outside font (put_char info font s ch) text ∙ put_char_outside font s ch
