-- ===== src/Vga.antt =====
-- src/vga_buffer.rs: the text screen. The buffer is a list of rows; an index out of bounds panics.
mod Tests
pub mod Example
pub mod Colors
pub mod Scroll
pub mod Text
pub mod Lines
pub mod Print
use capucho_os.Base.{
  ℕ, zero, suc, ◌+◌, ◌-◌, ◌*◌, ◌%◌, ◌^◌, ◌≡◌, Bool, true, false, List, [], ◌∷◌, Option, Run, ret,
  index_out_of_bounds, or_panic, ◌>>=◌, get_elem?, set, bit_or, u8, ◌<<<◌, ◌==◌, leb, ◌&&◌, ◌||◌,
  if◌then◌else◌,
}

pub data Color : Type 0 where
  black blue green cyan red magenta brown light_gray dark_gray light_blue light_green light_cyan
        light_red pink yellow white :
      Color

-- `color as u8`.
abbrev pub color_number : Color → ℕ
color_number black = 0
color_number blue = 1
color_number green = 2
color_number cyan = 3
color_number red = 4
color_number magenta = 5
color_number brown = 6
color_number light_gray = 7
color_number dark_gray = 8
color_number light_blue = 9
color_number light_green = 10
color_number light_cyan = 11
color_number light_red = 12
color_number pink = 13
color_number yellow = 14
color_number white = 15

-- `ColorCode::new`.
unfoldable pub color_code_new : Color → Color → ℕ
color_code_new foreground background =
    bit_or (u8 (color_number background <<< 4)) (color_number foreground)

pub record ScreenChar : Type 0 where
  pub ascii_character : ℕ
  pub color_code : ℕ

abbrev pub buffer_height : ℕ
buffer_height = 25

abbrev pub buffer_width : ℕ
buffer_width = 80

abbrev pub Buffer : Type 0
Buffer = List (List ScreenChar)

pub record Writer : Type 0 where
  pub column_position : ℕ
  pub color_code : ℕ
  pub buffer : Buffer

-- `get_char_mut(row, col).read()` and `.write(character)`.
unfoldable pub read_char : Buffer → ℕ → ℕ → Run ScreenChar
read_char b row col = do
  line ← or_panic index_out_of_bounds (get_elem? b row)
  or_panic index_out_of_bounds (get_elem? line col)

unfoldable pub write_char : Buffer → ℕ → ℕ → ScreenChar → Run Buffer
write_char b row col character = do
  line ← or_panic index_out_of_bounds (get_elem? b row)
  old ← or_panic index_out_of_bounds (get_elem? line col)
  ret (set b row (set line col character))

-- The loop of `clear_row` from column `col` on, with `n` rounds left.
unfoldable pub clear_cols : ℕ → ScreenChar → ℕ → ℕ → Buffer → Run Buffer
clear_cols row blank zero col b = ret b
clear_cols row blank (suc n) col b =
    write_char b row col blank >>= λ b'. clear_cols row blank n (suc col) b'

unfoldable pub clear_row : Writer → ℕ → Run Writer
clear_row this row =
    clear_cols row (record { ascii_character = b' '; color_code = this.color_code }) buffer_width 0
      this.buffer
    >>= λ b. ret (record this { buffer = b })

-- The inner loop of `new_line`: row `suc row` is copied to row `row`.
unfoldable pub copy_cols : ℕ → ℕ → ℕ → Buffer → Run Buffer
copy_cols row zero col b = ret b
copy_cols row (suc n) col b = do
  character ← read_char b (suc row) col
  b' ← write_char b row col character
  copy_cols row n (suc col) b'

-- The outer loop, with `suc row` for the variable `row` of the source.
unfoldable pub copy_rows : ℕ → ℕ → Buffer → Run Buffer
copy_rows zero row b = ret b
copy_rows (suc n) row b = copy_cols row buffer_width 0 b >>= λ b'. copy_rows n (suc row) b'

unfoldable pub new_line : Writer → Run Writer
new_line this = do
  b ← copy_rows (buffer_height - 1) 0 this.buffer
  cleared ← clear_row (record this { buffer = b }) (buffer_height - 1)
  ret (record cleared { column_position = 0 })

unfoldable pub put_char : Writer → ℕ → Run Writer
put_char this char = do
  b ←
      write_char this.buffer (buffer_height - 1) this.column_position
        (record { ascii_character = char; color_code = this.color_code })
  ret (record this { buffer = b; column_position = this.column_position + 1 })

unfoldable pub write_byte : Writer → ℕ → Run Writer
write_byte this char =
    if char == b'\n'
    then new_line this
    else ((if leb buffer_width this.column_position then new_line this else ret this) >>= λ w.
        put_char w char)

-- What `write_string` prints for a byte of the string.
abbrev pub printable : ℕ → ℕ
printable char = if (leb 0x20 char && leb char 0x7e) || char == b'\n' then char else 0xfe

unfoldable pub write_string : Writer → List ℕ → Run Writer
write_string this [] = ret this
write_string this (char ∷ rest) = write_byte this (printable char) >>= λ w. write_string w rest
