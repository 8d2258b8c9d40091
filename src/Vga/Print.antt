-- ===== src/Vga/Print.antt =====
-- `WRITER`, `_print` and the macros of src/vga_buffer.rs. What the macros are given is the list of the
-- pieces that `core::fmt` makes of their arguments: `write_fmt` gives them to `write_str` in turn. The
-- lock and the interrupt flag are left out.
use capucho_os.Vga.Lines.{GivesShown, type_text, Shows, Text, write_string-Shows}
use capucho_os.Vga.{write_string, Writer, yellow, black, color_code_new, Buffer}
use capucho_os.Base.{[], Run, ◌>>=◌, List, ret, ◌++◌, refl, ◌∷◌, ℕ}
use capucho_os.Base.Text.{codes}

-- The first value of `WRITER`, on what the memory at 0xb8000 holds.
unfoldable pub first_writer : Buffer → Writer
first_writer buffer = record {
  column_position = 0;
  color_code = color_code_new yellow black;
  buffer = buffer;
}

-- The result `Ok(())` is left out.
unfoldable pub write_str : Writer → List ℕ → Run Writer
write_str this s = write_string this s

-- `_print` and `print!`.
unfoldable pub print : Writer → List (List ℕ) → Run Writer
print this [] = ret this
print this (s ∷ pieces) = write_str this s >>= λ w. print w pieces

-- `println!` with a format.
unfoldable pub println : Writer → List (List ℕ) → Run Writer
println this pieces = print this (pieces ++ codes "\n" ∷ [])

-- The pieces typed in turn.
abbrev pub type_pieces : ℕ → Text → List (List ℕ) → Text
type_pieces color t [] = t
type_pieces color t (s ∷ pieces) = type_pieces color (type_text color t s) pieces

-- What calls of `println!` with these pieces type in turn.
abbrev pub type_lines : ℕ → Text → List (List (List ℕ)) → Text
type_lines color t [] = t
type_lines color t (line ∷ rest) =
    type_lines color (type_pieces color t (line ++ codes "\n" ∷ [])) rest

print-Shows :
    (this : Writer) (color : ℕ) (t : Text) (pieces : List (List ℕ))
    → Shows this color t
    → GivesShown (print this pieces) color (type_pieces color t pieces)
unfolding print write_str
print-Shows this color t [] h = (this, refl, h)
print-Shows this color t (s ∷ pieces) h =
    let (w, run, h') = write_string-Shows this color t s h in
    rw run (print-Shows w color (type_text color t s) pieces h')

-- A writer that shows the end of a text does not panic in `println!`, and shows the text with the line
-- typed to it.
pub println-Shows :
    (this : Writer) (color : ℕ) (t : Text) (pieces : List (List ℕ))
    → Shows this color t
    → GivesShown (println this pieces) color (type_lines color t (pieces ∷ []))
unfolding println
println-Shows this color t pieces h = print-Shows this color t (pieces ++ codes "\n" ∷ []) h
