-- ===== src/Console.antt =====
-- Kernel/Core/KernelConsole/KernelConsole.{hpp,cpp}: text drawn into a frame buffer. Memory is the
-- pixels, of four bytes, at their addresses; the font of ConsoleFont.c, a table of rows of bits, is a
-- parameter.
pub mod Cursor
pub mod Draw
pub mod Glyph
use objective_hail_os.Prelude.{
  ℕ, zero, suc, ◌+◌, ◌-◌, ◌*◌, ◌^◌, bit_and, Bool, true, false, not, ◌&&◌, List, [], ◌∷◌, ltb, leb,
  ◌==◌, if◌then◌else◌, update,
}
use objective_hail_os.Prelude.Words.{u32, u64}
use objective_hail_os.MemoryUtility.{fill_memory}

abbrev pub font_height : ℕ
font_height = 16

abbrev pub font_width : ℕ
font_width = 8

-- `GraphicInfo`, without the format of the pixels, which nothing reads.
pub record GraphicInfo : Type 0 where
  pub frame_buffer_base : ℕ
  pub frame_buffer_size : ℕ
  pub pixels_per_scan_line : ℕ
  pub horizontal_resolution : ℕ
  pub vertical_resolution : ℕ

-- The cursor of a `KernelConsole`, and memory.
pub record Screen : Type 0 where
  pub x : ℕ
  pub y : ℕ
  pub pixels : ℕ → ℕ

-- `FrameBufferColor` as a number, the first byte lowest.
abbrev pub color_background : ℕ
color_background = 0

abbrev pub color_foreground : ℕ
color_foreground = 0xffffff

abbrev pub is_visible_char : ℕ → Bool
is_visible_char ch = ltb 0x19 ch && ltb ch 0x7f

-- The rows of the glyphs: the character, the row.
abbrev pub Font : Type 0
Font = ℕ → ℕ → ℕ

module _ (info : GraphicInfo) where
  unfoldable pub is_new_line_required : Screen → Bool
  is_new_line_required s = ltb (u32 (info.horizontal_resolution + 2 ^ 32 - font_width)) s.x

  unfoldable pub is_end_of_screen : Screen → Bool
  is_end_of_screen s = ltb (u32 (info.vertical_resolution + 2 ^ 32 - font_height)) s.y

  unfoldable pub calc_pixel_offset : ℕ → ℕ → ℕ
  calc_pixel_offset x y = u32 (u32 (y * info.pixels_per_scan_line) + x) * 4

  unfoldable pub draw_pixel : (ℕ → ℕ) → (x y color : ℕ) → ℕ → ℕ
  draw_pixel pixels x y color =
      if leb info.horizontal_resolution x
      then pixels
      else (if leb info.vertical_resolution y
          then pixels
          else update pixels (u64 (info.frame_buffer_base + calc_pixel_offset x y)) color)

  unfoldable pub reset : Screen → Screen
  reset s = record {
    x = 0;
    y = 0;
    pixels = fill_memory s.pixels info.frame_buffer_base info.frame_buffer_size 0;
  }

  -- The inner loop of `PutChar` at column `k` of the row `line`.
  unfoldable pub draw_columns : ℕ → (ℕ → ℕ) → (x y line k : ℕ) → ℕ → ℕ
  draw_columns zero pixels x y line k = pixels
  draw_columns (suc left) pixels x y line k =
      let color = if bit_and line (2 ^ (7 - k)) == 0 then color_background else color_foreground in
      draw_columns left (draw_pixel pixels (u32 (x + k)) y color) x y line (k + 1)

  -- The outer loop of `PutChar` at row `i` of the glyph.
  unfoldable pub draw_rows : ℕ → (ℕ → ℕ) → (x y : ℕ) → (ℕ → ℕ) → ℕ → ℕ → ℕ
  draw_rows zero pixels x y glyph i = pixels
  draw_rows (suc left) pixels x y glyph i =
      draw_rows left (draw_columns font_width pixels x (u32 (y + i)) (glyph i) 0) x y glyph (i + 1)

  -- The cursor's moves of `PutChar` before it draws.
  unfoldable pub make_room : Screen → Screen
  make_room s =
      let s1 =
        if is_new_line_required s then record s { x = 0; y = u32 (s.y + font_height) } else s in
      if is_end_of_screen s1 then reset s1 else s1

  unfoldable pub put_char : Font → Screen → ℕ → Screen
  put_char font s ch =
      let s2 = make_room s in
      let next = u32 (s2.x + font_width) in
      let line = record s { x = 0; y = u32 (s.y + font_height) } in
      if is_visible_char ch
      then (if ch == 32 then record s2 { x = next } else record s2 {
        x = next;
        pixels = draw_rows font_height s2.pixels s2.x s2.y (font ch) 0;
      })
      else (if ch == 10 then (if is_end_of_screen line then reset line else line) else s)

  -- `PutString` of the bytes before the terminating zero.
  unfoldable pub put_string : Font → Screen → List ℕ → Screen
  put_string font s [] = s
  put_string font s (ch ∷ rest) = put_string font (put_char font s ch) rest

  unfoldable pub flush : Font → Screen → Screen
  flush font s = put_char font s 10

  -- The constructor.
  unfoldable pub kernel_console : (ℕ → ℕ) → Screen
  kernel_console pixels = record {
    x = 0;
    y = 0;
    pixels = fill_memory pixels info.frame_buffer_base info.frame_buffer_size 0;
  }
