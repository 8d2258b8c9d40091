-- ===== src/Vga/Scroll.antt =====
-- `new_line` of src/vga_buffer.rs moves the rows up by one and clears the last one.
use mathlib.Core.List.{append-nil}
use capucho_os.Base.{
  Bool-cases, ℕ, zero, suc, ◌+◌, ◌≡◌, ◌<◌, List, [], ◌∷◌, ◌++◌, some, ret, get_elem?, set, length,
  take, drop, replicate, length-set, get_elem?-set_self, get_elem?-set_ne, set_same, arith, ap, sym,
  ◌∙◌, ◌==◌, Bool-cases, inl, inr,
}
use capucho_os.Base.Slices.{
  length-drop, drop-all, take-append-drop, take-all, set-set, take-set-drop, drop-set, set-append,
  take-set-one, drop-step, get_elem?-last, some_elem,
}
use capucho_os.Vga.{
  ScreenChar, Buffer, Writer, buffer_width, buffer_height, read_char, write_char, clear_cols,
  clear_row, copy_cols, copy_rows, new_line,
}

-- The screen has 25 rows of 80 characters.
pub record IsScreen (b : Buffer) : Type 0 where
  pub height : length b ≡ buffer_height
  pub width :
      (i : ℕ) (line : List ScreenChar) → get_elem? b i ≡ some line → length line ≡ buffer_width

abbrev pub blank : ℕ → ScreenChar
blank color = record { ascii_character = b' '; color_code = color }

pub write_char_lem :
    (b : Buffer) (row col : ℕ) (line : List ScreenChar) (c : ScreenChar)
    → get_elem? b row ≡ some line
    → col < length line
    → write_char b row col c ≡ ret (set b row (set line col c))
unfolding write_char
write_char_lem b row col line c e h = let (old, at) = some_elem line col h in rw (e, at)

get_elem?-lt {ℓ} :
    {A : Type ℓ} (xs : List A) (i : ℕ) (a : A) → get_elem? xs i ≡ some a → i < length xs
get_elem?-lt [] i a e = absurd (cc)
get_elem?-lt (x ∷ xs) zero a e = omega arith
get_elem?-lt (x ∷ xs) (suc i) a e = omega (arith, get_elem?-lt xs i a e)

copy_cols_lem :
    (n col row : ℕ) (b : Buffer) (upper lower : List ScreenChar)
    → get_elem? b row ≡ some upper
    → get_elem? b (suc row) ≡ some lower
    → length upper ≡ length lower
    → col + n ≡ length lower
    → copy_cols row n col b ≡ ret (set b row (take col upper ++ drop col lower))
unfolding copy_cols read_char
copy_cols_lem zero col row b upper lower eu el same e =
    let seam : take col upper ++ drop col lower ≡ upper =
      rw (take-all col upper (omega arith), drop-all col lower (omega arith)) (append-nil upper) in
    rw seam (ap ret (sym (set_same b row upper eu)))
copy_cols_lem (suc n) col row b upper lower eu el same e =
    let (c, at) = some_elem lower col (omega arith) in
    let upper' = set upper col c in
    let b' = set b row upper' in
    let eu' : get_elem? b' row ≡ some upper' =
      get_elem?-set_self b row upper' (get_elem?-lt b row upper eu) in
    let el' : get_elem? b' (suc row) ≡ some lower =
      get_elem?-set_ne b row (suc row) upper' (omega arith) ∙ el in
    rw (
      el,
      at,
      write_char_lem b row col upper c eu (omega arith),
      copy_cols_lem n (suc col) row b' upper' lower eu' el' (length-set upper col c ∙ same)
          (omega arith),
      set-set b row upper' (take (suc col) upper' ++ drop (suc col) lower),
      take-set-drop col upper lower c (omega arith) at,
    )

clear_cols_lem :
    (n col row : ℕ) (b : Buffer) (line : List ScreenChar) (c : ScreenChar)
    → get_elem? b row ≡ some line
    → col + n ≡ length line
    → clear_cols row c n col b ≡ ret (set b row (take col line ++ replicate n c))
unfolding clear_cols
clear_cols_lem zero col row b line c el e =
    rw (take-all col line (omega arith), append-nil line) (ap ret (sym (set_same b row line el)))
clear_cols_lem (suc n) col row b line c el e =
    let line' = set line col c in
    let b' = set b row line' in
    let el' : get_elem? b' row ≡ some line' =
      get_elem?-set_self b row line' (get_elem?-lt b row line el) in
    rw (
      write_char_lem b row col line c el (omega arith),
      clear_cols_lem n (suc col) row b' line' c el' (omega (arith, length-set line col c)),
      set-set b row line' (take (suc col) line' ++ replicate n c),
      take-set-one col line c (replicate n c) (omega arith),
    )

pub set-IsScreen :
    (b : Buffer) (row : ℕ) (line : List ScreenChar)
    → length line ≡ buffer_width
    → IsScreen b
    → IsScreen (set b row line)
set-IsScreen b row line e s = record {
  height = length-set b row line ∙ s.height;
  width = λ i other at. elim (Bool-cases (row == i)) [
    | inl same ↦
        let eq : i ≡ row = ground arith in
        let inside = get_elem?-lt (set b row line) i other at in
        let at' : some line ≡ some other =
          sym (get_elem?-set_self b row line (omega (arith, length-set b row line)))
          ∙ ap (get_elem? (set b row line)) (sym eq)
          ∙ at in
        let found : line ≡ other = cc in ap length (sym found) ∙ e
    | inr ne ↦ s.width i other (sym (get_elem?-set_ne b row i line (ground arith)) ∙ at)
  ];
}

copy_rows_lem :
    (n row : ℕ) (b : Buffer)
    → IsScreen b
    → row + n ≡ 24
    → copy_rows n row b ≡ ret (take row b ++ (drop (suc row) b ++ drop 24 b))
unfolding copy_rows
copy_rows_lem zero row b s e =
    let last : row ≡ 24 = omega arith in
    rw (last, drop-all 25 b (omega (arith, s.height))) (ap ret (sym (take-append-drop 24 b)))
copy_rows_lem (suc n) row b s e =
    let (upper, eu) = some_elem b row (omega (arith, s.height)) in
    let (lower, el) = some_elem b (suc row) (omega (arith, s.height)) in
    let wide = s.width (suc row) lower el in
    let same : length upper ≡ length lower = s.width row upper eu ∙ sym wide in
    rw (
      copy_cols_lem buffer_width 0 row b upper lower eu el same (omega (arith, wide)),
      copy_rows_lem n (suc row) (set b row lower) (set-IsScreen b row lower wide s) (omega arith),
      drop-set (suc (suc row)) row b lower (omega arith),
      drop-set 24 row b lower (omega arith),
      take-set-one row b lower (drop (suc (suc row)) b ++ drop 24 b) (omega (arith, s.height)),
      drop-step (suc row) b lower el,
    )

-- The buffer after `new_line`: the first row is gone, and a blank one stands below the others.
abbrev pub scrolled : ℕ → Buffer → Buffer
scrolled color b = drop 1 b ++ replicate buffer_width (blank color) ∷ []

-- On a full screen `new_line` never panics: it moves every row up by one, drops the first row,
-- blanks the last one in the current color, and goes back to column 0.
pub new_line_lem :
    (this : Writer)
    → IsScreen this.buffer
    → new_line this
      ≡ ret (record this { column_position = 0; buffer = scrolled this.color_code this.buffer })
unfolding new_line clear_row
new_line_lem this s =
    let b = this.buffer in
    let (last, at) = some_elem b 24 (omega (arith, s.height)) in
    let one : drop 24 b ≡ last ∷ [] =
      drop-step 24 b last at ∙ ap (◌∷◌ last) (drop-all 25 b (omega (arith, s.height))) in
    let rest : length (drop 1 b) ≡ 24 = omega (arith, length-drop 1 b, s.height) in
    let moved = drop 1 b ++ last ∷ [] in
    rw (
      copy_rows_lem 24 0 b s (omega arith),
      one,
      clear_cols_lem buffer_width 0 24 moved last (blank this.color_code)
          (get_elem?-last (drop 1 b) last 24 rest) (omega (arith, s.width 24 last at)),
      set-append (drop 1 b) last (replicate buffer_width (blank this.color_code)) 24 rest,
    )
