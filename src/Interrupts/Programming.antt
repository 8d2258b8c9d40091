-- ===== src/Interrupts/Programming.antt =====
-- What the accesses of src/interrupts/controller.rs make of the two 8259 chips, read off the log of
-- the port accesses.
use capucho_os.Base.{
  ◌-◌, ℕ, ◌+◌, ◌^◌, ◌%◌, ◌≡◌, ◌≤◌, ◌<◌, ◌⊎◌, inl, inr, refl, true, false, List, [], ◌∷◌, ret,
  panics, overflow, ◌==◌, ltb, leb, ◌&&◌, if◌then◌else◌, arith, Bool-cases,
}
use capucho_os.Base.Io.{
  byte, Event, port_write, port_read, mem_write, mem_read, halt, sized_write, sized_read,
  instruction, serial_sent, Machine, after,
}
use capucho_os.Interrupts.Controller.{
  pics, init, init_pics, wait, in_pic_range, notify_end_of_interrupt, pic1_cmd_port, pic1_data_port,
  pic2_cmd_port, pic2_data_port,
}

-- What a chip takes the next byte on its data port for.
pub data Expects : Type 0 where
  new_mask new_offset new_chaining new_mode : Expects

pub record Chip : Type 0 where
  pub expects : Expects
  pub offset : ℕ
  pub chaining : ℕ
  pub mode : ℕ
  pub mask : ℕ

abbrev pub data_byte : ℕ → Expects → Chip → Chip
data_byte v new_mask c = record c { mask = v }
data_byte v new_offset c = record c { expects = new_chaining; offset = v }
data_byte v new_chaining c = record c { expects = new_mode; chaining = v }
data_byte v new_mode c = record c { expects = new_mask; mode = v }

-- The chip with command port `cmd` after the accesses of a log: the command 0x11 starts the sequence of
-- offset, chaining and mode and clears the mask.
abbrev pub chip : ℕ → List Event → Chip
chip cmd [] = record { expects = new_mask; offset = 0; chaining = 0; mode = 0; mask = 0 }
chip cmd (port_write w port v ∷ past) =
    let c = chip cmd past in
    if port == cmd
    then (if v == 0x11
        then record { expects = new_offset; offset = 0; chaining = 0; mode = 0; mask = 0 }
        else c)
    else (if port == cmd + 1 then data_byte v c.expects c else c)
chip cmd (port_read w port v ∷ past) = chip cmd past
chip cmd (mem_write a v ∷ past) = chip cmd past
chip cmd (mem_read a v ∷ past) = chip cmd past
chip cmd (halt ∷ past) = chip cmd past
chip cmd (sized_write size addr v ∷ past) = chip cmd past
chip cmd (sized_read size addr v ∷ past) = chip cmd past
chip cmd (instruction i ∷ past) = chip cmd past
chip cmd (serial_sent b ∷ past) = chip cmd past

-- A chip that takes interrupts from `offset` on and has the mask `mask`.
abbrev pub programmed : ℕ → ℕ → ℕ → Chip
programmed offset chaining mask = record {
  expects = new_mask;
  offset = offset;
  chaining = chaining;
  mode = 1;
  mask = mask;
}

pub init-Programs :
    (pic1_offset pic2_offset : ℕ) (mach : Machine) (past : List Event)
    → let mask1 = mach.port_value past byte pic1_data_port % 2 ^ 8 in
      let mask2 =
        mach.port_value (port_read byte pic1_data_port mask1 ∷ past) byte pic2_data_port % 2 ^ 8 in
      (log : List Event) × (init (pics pic1_offset pic2_offset) mach past ≡ ret (tt, log))
      × (chip pic1_cmd_port log ≡ programmed pic1_offset 2 mask1)
      × (chip pic2_cmd_port log ≡ programmed pic2_offset 4 mask2)
unfolding init init_pics wait
init-Programs pic1_offset pic2_offset mach past = (_, refl, refl, refl)

-- The accesses that tell the chips that the interrupt on line `line` is done.
abbrev pub eoi_of_line : ℕ → List Event
eoi_of_line line =
    if leb 8 line
    then port_write byte pic2_cmd_port 0x20 ∷ port_write byte pic1_cmd_port 0x20 ∷ []
    else port_write byte pic1_cmd_port 0x20 ∷ []

abbrev pub vector_of_line : ℕ → ℕ → ℕ → ℕ
vector_of_line pic1_offset pic2_offset line =
    if leb 8 line then pic2_offset + (line - 8) else pic1_offset + line

-- Both offsets are below 248.
notify_end_of_interrupt_low :
    (pic1_offset pic2_offset line : ℕ) (mach : Machine) (past : List Event)
    → pic1_offset + 8 < 256
    → pic2_offset + 8 < 256
    → (pic1_offset + 8 ≤ pic2_offset) ⊎ (pic2_offset + 8 ≤ pic1_offset)
    → line < 16
    → notify_end_of_interrupt
        (pics pic1_offset pic2_offset)
        (vector_of_line pic1_offset pic2_offset line)
        mach
        past
      ≡ ret (tt, after past (eoi_of_line line))
unfolding notify_end_of_interrupt in_pic_range
notify_end_of_interrupt_low o1 o2 line mach past a b apart h =
    let id = vector_of_line o1 o2 line in
    let fits1 : ltb (o1 + 8) (2 ^ 8) ≡ true = ground arith in
    let fits2 : ltb (o2 + 8) (2 ^ 8) ≡ true = ground arith in
    elim (Bool-cases (leb 8 line)) [
      | inl e ↦
          let hit : (leb o2 (o2 + (line - 8)) && ltb (o2 + (line - 8)) (o2 + 8)) ≡ true =
            ground arith in
          rw (e, fits2, hit)
      | inr e ↦
          let miss : (leb o2 (o1 + line) && ltb (o1 + line) (o2 + 8)) ≡ false = ground arith in
          let hit : (leb o1 (o1 + line) && ltb (o1 + line) (o1 + 8)) ≡ true = ground arith in
          rw (e, fits2, miss, fits1, hit)
    ]

-- With the offset 248 or more for the second chip, the end of every interrupt panics, since the end of
-- the range is no `u8`.
notify_end_of_interrupt_overflow :
    (pic1_offset pic2_offset id : ℕ) (mach : Machine) (past : List Event)
    → 248 ≤ pic2_offset
    → notify_end_of_interrupt (pics pic1_offset pic2_offset) id mach past ≡ panics overflow
unfolding notify_end_of_interrupt in_pic_range
notify_end_of_interrupt_overflow o1 o2 id mach past h =
    let big : ltb (o2 + 8) (2 ^ 8) ≡ false = ground arith in rw big

-- For chips whose ranges do not meet, with an offset below 248 for the first one: the end of the
-- interrupt of one of the 16 lines goes to the first chip for the lines below 8, and to the second and
-- then the first for the others; but if the second offset is 248 or more, the end of every interrupt
-- panics, since the end of the range is no `u8`.
pub notify_end_of_interrupt_line :
    (pic1_offset pic2_offset line : ℕ) (mach : Machine) (past : List Event)
    → pic1_offset + 8 < 256
    → (pic1_offset + 8 ≤ pic2_offset) ⊎ (pic2_offset + 8 ≤ pic1_offset)
    → line < 16
    → notify_end_of_interrupt
        (pics pic1_offset pic2_offset)
        (vector_of_line pic1_offset pic2_offset line)
        mach
        past
      ≡ (if leb 248 pic2_offset then panics overflow else ret (tt, after past (eoi_of_line line)))
notify_end_of_interrupt_line o1 o2 line mach past a apart h = elim (Bool-cases (leb 248 o2)) [
  | inl high ↦
      rw high (
        notify_end_of_interrupt_overflow o1 o2 (vector_of_line o1 o2 line) mach past (ground arith))
  | inr low ↦ rw low (notify_end_of_interrupt_low o1 o2 line mach past a (ground arith) apart h)
]
