-- ===== src/Vga/Colors.antt =====
-- The color codes of src/vga_buffer.rs.
use capucho_os.Base.{◌*◌, ◌/◌, ◌%◌, ◌^◌, ◌≡◌, ◌<◌, arith}
use capucho_os.Base.Shifts.{bit_or-shifted}
use capucho_os.Vga.{Color, color_number, color_code_new}

color_number-lt : (c : Color) → color_number c < 16
color_number-lt c = ground arith

-- The low four bits of a color code are the number of the foreground, the next four the one of the
-- background.
pub color_code_new_parts :
    (foreground background : Color)
    → (color_code_new foreground background % 16 ≡ color_number foreground)
      × (color_code_new foreground background / 16 ≡ color_number background)
unfolding color_code_new
color_code_new_parts foreground background =
    let f = color_number-lt foreground in
    let b = color_number-lt background in
    let kept : color_number background * 2 ^ 4 % 2 ^ 8 ≡ color_number background * 2 ^ 4 =
      omega arith in
    rw (kept, bit_or-shifted 4 (color_number background) (color_number foreground) f)
      (omega arith, omega arith)
