-- ===== src/Vga/Tests.antt =====
-- Text on a blank screen.
use capucho_os.Base.{[], ◌∷◌}
use capucho_os.Vga.{write_string}
use capucho_os.Vga.Lines.{GivesShown, type_text, write_string-Shows}
use capucho_os.Vga.Example.{start, top, top-Shows}

write_string-Shows_example :
    GivesShown
      (write_string top (b'H' ∷ b'\n' ∷ b'i' ∷ []))
      7
      (type_text 7 start (b'H' ∷ b'\n' ∷ b'i' ∷ []))
write_string-Shows_example = write_string-Shows top 7 start (b'H' ∷ b'\n' ∷ b'i' ∷ []) top-Shows
