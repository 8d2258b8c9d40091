-- ===== src/Vga/Lines.antt =====
-- The screen of src/vga_buffer.rs as the end of a text: `write_string` shows the last 25 lines of all
-- that was written, broken at 80 columns.
use capucho_os.Base.{
  false, true, length-set, ℕ, zero, suc, ◌+◌, ◌-◌, ◌≡◌, ◌≤◌, ◌<◌, refl, List, [], ◌∷◌, ◌++◌, Run,
  ret, inl, inr, set, length, drop, replicate, get_elem?, some, length-append, leb, ◌==◌,
  if◌then◌else◌, arith, Bool-cases, ap, ◌∙◌,
}
use capucho_os.Base.Slices.{length-drop, drop-append, set-append, get_elem?-last}
use capucho_os.Vga.{
  ScreenChar, Buffer, Writer, buffer_width, new_line, put_char, write_byte, printable, write_string,
}
use capucho_os.Vga.Scroll.{IsScreen, scrolled, blank, set-IsScreen, write_char_lem, new_line_lem}
use capucho_os.Vga.Text.{scrolled-IsScreen}

-- All lines that are complete, and the one that is being written.
pub record Text : Type 0 where
  pub lines : List (List ScreenChar)
  pub line : List ScreenChar

-- A line, filled up with blanks.
abbrev pub row : ℕ → List ScreenChar → List ScreenChar
row color line = line ++ replicate (buffer_width - length line) (blank color)

abbrev pub break_line : ℕ → Text → Text
break_line color t = record { lines = t.lines ++ row color t.line ∷ []; line = [] }

abbrev pub add_char : ℕ → Text → ℕ → Text
add_char color t char = record t {
  line = t.line ++ record { ascii_character = char; color_code = color } ∷ [];
}

abbrev pub type_byte : ℕ → Text → ℕ → Text
type_byte color t char =
    if char == b'\n'
    then break_line color t
    else if leb buffer_width (length t.line)
    then add_char color (break_line color t) char
    else add_char color t char

abbrev pub type_text : ℕ → Text → List ℕ → Text
type_text color t [] = t
type_text color t (char ∷ rest) = type_text color (type_byte color t (printable char)) rest

-- The last 24 complete lines and the one that is being written.
abbrev pub last_rows : ℕ → Text → Buffer
last_rows color t = drop (length t.lines - 24) t.lines ++ row color t.line ∷ []

-- The writer shows the end of the text.
pub record Shows (w : Writer) (color : ℕ) (t : Text) : Type 0 where
  pub shown : w.buffer ≡ last_rows color t
  pub column : w.column_position ≡ length t.line
  pub in_color : w.color_code ≡ color
  pub narrow : length t.line ≤ buffer_width
  pub tall : 24 ≤ length t.lines
  pub screen : IsScreen w.buffer

-- The run gives a writer that shows the text.
abbrev pub GivesShown : Run Writer → ℕ → Text → Type 0
GivesShown m color t = (w : Writer) × (m ≡ ret w) × Shows w color t

drop_one-drop : {A : Type 0} (n : ℕ) (xs : List A) → drop 1 (drop n xs) ≡ drop (suc n) xs
drop_one-drop zero xs = refl
drop_one-drop (suc n) [] = refl
drop_one-drop (suc n) (x ∷ xs) = drop_one-drop n xs

scrolled-last_rows :
    (color : ℕ) (t : Text)
    → 24 ≤ length t.lines
    → scrolled color (last_rows color t) ≡ last_rows color (break_line color t)
scrolled-last_rows color t tall =
    let k = length t.lines - 24 in
    let r = row color t.line in
    let one : 1 ≤ length (drop k t.lines) = omega (arith, length-drop k t.lines) in
    let more : length (t.lines ++ r ∷ []) - 24 ≡ suc k =
      omega (arith, length-append t.lines (r ∷ [])) in
    let first : drop 1 (drop k t.lines ++ r ∷ []) ≡ drop 1 (drop k t.lines) ++ r ∷ [] =
      drop-append 1 (drop k t.lines) (r ∷ []) one in
    let second : drop (suc k) (t.lines ++ r ∷ []) ≡ drop (suc k) t.lines ++ r ∷ [] =
      drop-append (suc k) t.lines (r ∷ []) (omega arith) in
    rw (first, more, second, drop_one-drop k t.lines)

set-line :
    (line rest : List ScreenChar) (old c : ScreenChar) (n : ℕ)
    → length line ≡ n
    → set (line ++ old ∷ rest) n c ≡ (line ++ c ∷ []) ++ rest
set-line [] rest old c zero h = refl
set-line [] rest old c (suc n) h = absurd (omega arith)
set-line (x ∷ line) rest old c zero h = absurd (omega arith)
set-line (x ∷ line) rest old c (suc n) h = ap (◌∷◌ x) (set-line line rest old c n (omega arith))

-- A character takes the place of the first blank.
set-row :
    (color : ℕ) (line : List ScreenChar) (c : ScreenChar)
    → length line < buffer_width
    → set (row color line) (length line) c ≡ row color (line ++ c ∷ [])
set-row color line c h =
    let left : buffer_width - length line ≡ suc (buffer_width - suc (length line)) = omega arith in
    let longer : length (line ++ c ∷ []) ≡ suc (length line) =
      omega (arith, length-append line (c ∷ [])) in
    rw (left, longer)
      (set-line line (replicate (buffer_width - suc (length line)) (blank color)) (blank color) c
        (length line) refl)

new_line-Shows :
    (this : Writer) (color : ℕ) (t : Text)
    → Shows this color t
    → GivesShown (new_line this) color (break_line color t)
new_line-Shows this color t s = (
  record this { column_position = 0; buffer = scrolled this.color_code this.buffer },
  new_line_lem this s.screen,
  record {
    shown = rw (s.shown, s.in_color) (scrolled-last_rows color t s.tall);
    column = refl;
    in_color = s.in_color;
    narrow = omega arith;
    tall = omega (arith, length-append t.lines (row color t.line ∷ []), s.tall);
    screen = scrolled-IsScreen this.color_code this.buffer s.screen;
  },
)

put_char-Shows :
    (this : Writer) (color : ℕ) (t : Text) (char : ℕ)
    → Shows this color t
    → length t.line < buffer_width
    → GivesShown (put_char this char) color (add_char color t char)
unfolding put_char
put_char-Shows this color t char s h =
    let c : ScreenChar = record { ascii_character = char; color_code = this.color_code } in
    let col = this.column_position in
    let above = drop (length t.lines - 24) t.lines in
    let high : length above ≡ 24 =
      omega (arith, length-drop (length t.lines - 24) t.lines, s.tall) in
    let r = row color t.line in
    let at : get_elem? this.buffer 24 ≡ some r =
      ap (λ b. get_elem? b 24) s.shown ∙ get_elem?-last above r 24 high in
    let wide : length r ≡ buffer_width = s.screen.width 24 r at in
    let c' : ScreenChar = record { ascii_character = char; color_code = color } in
    let same : set r col c ≡ row color (t.line ++ c' ∷ []) =
      rw (s.column, s.in_color) (set-row color t.line c' h) in
    (
      record this { buffer = set this.buffer 24 (set r col c); column_position = col + 1 },
      rw (write_char_lem this.buffer 24 col r c at (omega (arith, wide, s.column))),
      record {
        shown =
            ap (λ b. set b 24 (set r col c)) s.shown
            ∙ set-append above r (set r col c) 24 high
            ∙ ap (λ x. above ++ x ∷ []) same;
        column = omega (arith, s.column, length-append t.line (c' ∷ []));
        in_color = s.in_color;
        narrow = omega (arith, length-append t.line (c' ∷ []));
        tall = s.tall;
        screen = set-IsScreen this.buffer 24 (set r col c) (length-set r col c ∙ wide) s.screen;
      },
    )

write_byte-Shows :
    (this : Writer) (color : ℕ) (t : Text) (char : ℕ)
    → Shows this color t
    → GivesShown (write_byte this char) color (type_byte color t char)
unfolding write_byte
write_byte-Shows this color t char s = elim (Bool-cases (char == b'\n')) [
  | inl e ↦ rw e (new_line-Shows this color t s)
  | inr e ↦ elim (Bool-cases (leb buffer_width (length t.line))) [
    | inl full ↦
        let (w, run, s') = new_line-Shows this color t s in
        let full' : leb buffer_width this.column_position ≡ true =
          ap (leb buffer_width) s.column ∙ full in
        rw (e, full, full', run) (put_char-Shows w color (break_line color t) char s' (omega arith))
    | inr room ↦
        let room' : leb buffer_width this.column_position ≡ false =
          ap (leb buffer_width) s.column ∙ room in
        rw (e, room, room') (put_char-Shows this color t char s (ground arith))
  ]
]

-- A writer that shows the end of a text, of which 24 lines are complete, does not panic in
-- `write_string`, whatever the bytes are, and shows the end of the text with the bytes typed to it:
-- broken at a line feed and before the 81st column, with 0xfe for what is not printable.
pub write_string-Shows :
    (this : Writer) (color : ℕ) (t : Text) (s : List ℕ)
    → Shows this color t
    → GivesShown (write_string this s) color (type_text color t s)
unfolding write_string
write_string-Shows this color t [] h = (this, refl, h)
write_string-Shows this color t (char ∷ rest) h =
    let (w, run, h') = write_byte-Shows this color t (printable char) h in
    rw run (write_string-Shows w color (type_byte color t (printable char)) rest h')
