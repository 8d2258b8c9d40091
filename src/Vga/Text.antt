-- ===== src/Vga/Text.antt =====
-- Text on the screen of src/vga_buffer.rs: `write_byte` and `write_string` stay on the screen.
use capucho_os.Base.{
  ℕ, suc, ◌+◌, ◌≡◌, ◌≤◌, ◌<◌, refl, List, [], ◌∷◌, Run, ret, inl, inr, set, length, drop, replicate,
  length-append, length-set, length-replicate, leb, ◌==◌, arith, Bool-cases, sym, ap, ◌∙◌,
}
use capucho_os.Base.Slices.{length-drop, some_elem, get_elem?-snoc, get_elem?-drop_one}
use capucho_os.Vga.{
  ScreenChar, Buffer, Writer, buffer_width, new_line, put_char, write_byte, printable, write_string,
}
use capucho_os.Vga.Scroll.{IsScreen, scrolled, blank, set-IsScreen, write_char_lem, new_line_lem}

-- A writer on a full screen, at a column of the line or just behind it.
pub record IsWriter (w : Writer) : Type 0 where
  pub screen : IsScreen w.buffer
  pub column : w.column_position ≤ buffer_width

pub scrolled-IsScreen : (color : ℕ) (b : Buffer) → IsScreen b → IsScreen (scrolled color b)
scrolled-IsScreen color b s =
    let dark = replicate buffer_width (blank color) in
    record {
      height = omega (arith, length-append (drop 1 b) (dark ∷ []), length-drop 1 b, s.height);
      width = λ i line at. elim (get_elem?-snoc (drop 1 b) dark i line at) [
        | inl e ↦ s.width (suc i) line (sym (get_elem?-drop_one b i) ∙ e)
        | inr e ↦ ap length (sym e) ∙ length-replicate buffer_width (blank color)
      ];
    }

-- The run gives a writer that is again on a full screen.
abbrev pub GivesWriter : Run Writer → Type 0
GivesWriter m = (w : Writer) × (m ≡ ret w) × IsWriter w

new_line-GivesWriter : (this : Writer) → IsWriter this → GivesWriter (new_line this)
new_line-GivesWriter this v = (
  record this { column_position = 0; buffer = scrolled this.color_code this.buffer },
  new_line_lem this v.screen,
  record { screen = scrolled-IsScreen this.color_code this.buffer v.screen; column = omega arith },
)

put_char-GivesWriter :
    (this : Writer) (char : ℕ)
    → IsScreen this.buffer
    → this.column_position < buffer_width
    → GivesWriter (put_char this char)
unfolding put_char
put_char-GivesWriter this char s h =
    let c : ScreenChar = record { ascii_character = char; color_code = this.color_code } in
    let col = this.column_position in
    let (line, at) = some_elem this.buffer 24 (omega (arith, s.height)) in
    let wide = s.width 24 line at in
    (
      record this { buffer = set this.buffer 24 (set line col c); column_position = col + 1 },
      rw (write_char_lem this.buffer 24 col line c at (omega (arith, wide))),
      record {
        screen = set-IsScreen this.buffer 24 (set line col c) (length-set line col c ∙ wide) s;
        column = omega arith;
      },
    )

write_byte-GivesWriter :
    (this : Writer) (char : ℕ) → IsWriter this → GivesWriter (write_byte this char)
unfolding write_byte
write_byte-GivesWriter this char v = elim (Bool-cases (char == b'\n')) [
  | inl e ↦ rw e (new_line-GivesWriter this v)
  | inr e ↦ elim (Bool-cases (leb buffer_width this.column_position)) [
    | inl full ↦
        let start : Writer = record this {
          column_position = 0;
          buffer = scrolled this.color_code this.buffer;
        } in
        rw (e, full, new_line_lem this v.screen)
          (put_char-GivesWriter start char (scrolled-IsScreen this.color_code this.buffer v.screen)
            (omega arith))
    | inr room ↦ rw (e, room) (put_char-GivesWriter this char v.screen (ground arith))
  ]
]

-- On a full screen, at a column of at most 80, `write_string` never panics, whatever the bytes are, and
-- leaves a full screen and a column of at most 80.
pub write_string-GivesWriter :
    (this : Writer) (s : List ℕ) → IsWriter this → GivesWriter (write_string this s)
unfolding write_string
write_string-GivesWriter this [] v = (this, refl, v)
write_string-GivesWriter this (char ∷ rest) v =
    let (w, run, v') = write_byte-GivesWriter this (printable char) v in
    rw run (write_string-GivesWriter w rest v')
