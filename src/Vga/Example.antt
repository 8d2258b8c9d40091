-- ===== src/Vga/Example.antt =====
-- A blank screen, which the tests write on.
use capucho_os.Vga.Lines.{Text, Shows}
use capucho_os.Base.{
  [], refl, arith, ℕ, zero, suc, ◌≡◌, List, some, get_elem?, length, replicate, length-replicate,
}
use capucho_os.Vga.{ScreenChar, Buffer, Writer, buffer_height, buffer_width}
use capucho_os.Vga.Text.{IsWriter}
use capucho_os.Vga.Scroll.{IsScreen, blank}

abbrev pub dark : List ScreenChar
dark = replicate buffer_width (blank 7)

get_elem?-replicate :
    (n i : ℕ) (line x : List ScreenChar)
    → get_elem? (replicate n line) i ≡ some x
    → length x ≡ length line
get_elem?-replicate zero i line x e = absurd (cc)
get_elem?-replicate (suc n) zero line x e = cc
get_elem?-replicate (suc n) (suc i) line x e = get_elem?-replicate n i line x e

abbrev pub empty_screen : Buffer
empty_screen = replicate buffer_height dark

pub empty_screen-IsScreen : IsScreen empty_screen
empty_screen-IsScreen = record {
  height = length-replicate buffer_height dark;
  width = λ i line e. get_elem?-replicate buffer_height i dark line e;
}

abbrev pub writer : Writer
writer = record { column_position = 12; color_code = 0x0E; buffer = empty_screen }

pub writer-IsWriter : IsWriter writer
writer-IsWriter = record { screen = empty_screen-IsScreen; column = omega arith }

abbrev pub start : Text
start = record { lines = replicate 24 dark; line = [] }

abbrev pub top : Writer
top = record { column_position = 0; color_code = 7; buffer = empty_screen }

pub top-Shows : Shows top 7 start
top-Shows = record {
  shown = refl;
  column = refl;
  in_color = refl;
  narrow = omega arith;
  tall = omega arith;
  screen = empty_screen-IsScreen;
}
