-- ===== src/Console/Cursor.antt =====
-- Kernel/Core/KernelConsole/KernelConsole.cpp: where the cursor is.
use objective_hail_os.Prelude.{ℕ, ◌+◌, ◌^◌, ◌≤◌, ◌<◌, List, [], ◌∷◌, arith, Bool-cases, inl, inr}
use objective_hail_os.Console.{
  GraphicInfo, Screen, Font, font_height, font_width, is_visible_char, is_new_line_required,
  is_end_of_screen, reset, make_room, put_char, put_string,
}

-- A screen that holds a character at least, with sizes that leave room in 32 bits.
pub record Fits (info : GraphicInfo) : Type 0 where
  pub columns : font_width ≤ info.horizontal_resolution
  pub rows : font_height ≤ info.vertical_resolution
  pub wide : info.horizontal_resolution < 2 ^ 31
  pub high : info.vertical_resolution < 2 ^ 31

-- The cursor is on the screen, with a whole line of text below it.
pub record OnScreen (info : GraphicInfo) (s : Screen) : Type 0 where
  pub column : s.x ≤ info.horizontal_resolution
  pub row : s.y + font_height ≤ info.vertical_resolution

-- There is room for a character at the cursor.
pub record HasRoom (info : GraphicInfo) (s : Screen) : Type 0 where
  pub column : s.x + font_width ≤ info.horizontal_resolution
  pub row : s.y + font_height ≤ info.vertical_resolution

module _ (info : GraphicInfo) (fits : Fits info) where
  pub make_room-HasRoom : (s : Screen) → OnScreen info s → HasRoom info (make_room info s)
  unfolding make_room is_new_line_required is_end_of_screen reset
  make_room-HasRoom s on =
      let columns = fits.columns in
      let rows = fits.rows in
      let wide = fits.wide in
      let high = fits.high in
      let column = on.column in
      let row = on.row in record { column = ground arith; row = ground arith }

  put_char-OnScreen :
      (font : Font) (s : Screen) (ch : ℕ)
      → OnScreen info s
      → OnScreen info (put_char info font s ch)
  unfolding put_char is_end_of_screen reset
  put_char-OnScreen font s ch on =
      let columns = fits.columns in
      let rows = fits.rows in
      let wide = fits.wide in
      let high = fits.high in
      let column = on.column in
      let row = on.row in
      let room = make_room-HasRoom s on in
      let room_column = room.column in
      let room_row = room.row in
      elim (Bool-cases (is_visible_char ch)) [
        | inl visible ↦ rw visible (record { column = ground arith; row = ground arith })
        | inr hidden ↦ rw hidden (record { column = ground arith; row = ground arith })
      ]

  -- On a screen that holds a character, with fewer than 2 ^ 31 columns and rows, every string leaves
  -- the cursor inside the screen with a whole line of text below it.
  pub put_string-OnScreen :
      (font : Font) (s : Screen) (text : List ℕ)
      → OnScreen info s
      → OnScreen info (put_string info font s text)
  unfolding put_string
  put_string-OnScreen font s [] on = on
  put_string-OnScreen font s (ch ∷ text) on =
      put_string-OnScreen font (put_char info font s ch) text (put_char-OnScreen font s ch on)
