-- ===== src/Interrupts/Handlers/Acknowledge.antt =====
-- Both handlers of src/interrupts/mod.rs end their interrupt, whatever the keyboard sends.
use capucho_os.Base.{
  ℕ, ◌+◌, ◌%◌, ◌^◌, ◌≡◌, ◌<◌, refl, Bool, true, false, List, [], ◌∷◌, Option, none, some, Run, ret,
  ltb, arith, sym, ◌∙◌, ap,
}
use capucho_os.Base
use capucho_os.Base.Io.{Event, Machine, byte, port_read, port_write, mem_write, ◌>>=◌, ◌>>◌}
use capucho_os.Vga.{Writer}
use capucho_os.Vga.Text.{IsWriter, GivesWriter, write_string-GivesWriter}
use capucho_os.Interrupts.Controller.{
  InterruptController, pics, apic, notify_end_of_interrupt, in_pic_range, write_apic_reg,
  pic1_cmd_port,
}
use capucho_os.Interrupts.Programming.{vector_of_line}
use capucho_os.Interrupts.Handlers.{
  timer_fn, keyboard_fn, handler_at, idt, InterruptIndex, index_number, pic_1_offset, pic_2_offset,
  timer, keyboard, timer_interrupt_handler, DecodedKey, KeyboardCrate, unicode, raw_key, print_key,
  print_decoded, process, keyboard_interrupt_handler,
}

-- The controllers that the kernel has: the PICs at the kernel's offsets, and a local APIC whose
-- registers have addresses.
pub data IsKernels : InterruptController → Type 0 where
  chained : IsKernels (pics pic_1_offset pic_2_offset)
  local : {base_address : ℕ} → base_address + 0xB0 < 2 ^ 64 → IsKernels (apic base_address)

-- The access that ends an interrupt of the first chip, or of the local APIC.
abbrev pub end_access : InterruptController → Event
end_access (pics pic1_offset pic2_offset) = port_write byte pic1_cmd_port 0x20
end_access (apic base_address) = mem_write (base_address + 0xB0) 0

notify_end_of_interrupt_kernels :
    (controller : InterruptController) (i : InterruptIndex) (mach : Machine) (past : List Event)
    → IsKernels controller
    → notify_end_of_interrupt controller (index_number i) mach past
      ≡ ret (tt, end_access controller ∷ past)
unfolding notify_end_of_interrupt in_pic_range write_apic_reg
notify_end_of_interrupt_kernels controller timer mach past chained = refl
notify_end_of_interrupt_kernels controller keyboard mach past chained = refl
notify_end_of_interrupt_kernels (apic base) i mach past (local h) =
    let fits : ltb (base + 0xB0) (2 ^ 64) ≡ true = ground arith in rw fits

-- The vectors that the chips give for the lines 0 and 1 are those of the two handlers.
table_lem :
    (handler_at idt (vector_of_line pic_1_offset pic_2_offset 0) ≡ some timer_fn)
    × (handler_at idt (vector_of_line pic_1_offset pic_2_offset 1) ≡ some keyboard_fn)
unfolding handler_at
table_lem = (refl, refl)

module _ (crate : KeyboardCrate) where
  -- The run returns, and the writer is again on a full screen.
  abbrev pub Keeps : Run (crate.Keyboard × Writer) → Type 0
  Keeps m = (keys : crate.Keyboard) × (screen : Writer) × (m ≡ ret (keys, screen)) × IsWriter screen

  print_key-GivesWriter :
      (key : DecodedKey crate.KeyCode) (screen : Writer)
      → IsWriter screen
      → GivesWriter (print_key crate key screen)
  unfolding print_key
  print_key-GivesWriter (unicode character) screen v =
      write_string-GivesWriter screen (crate.character_text character) v
  print_key-GivesWriter (raw_key key) screen v =
      write_string-GivesWriter screen (crate.key_text key) v

  print_decoded-Keeps :
      (decoded : Option (DecodedKey crate.KeyCode) × crate.Keyboard) (screen : Writer)
      → IsWriter screen
      → Keeps (print_decoded crate decoded screen)
  unfolding print_decoded
  print_decoded-Keeps (none, keys) screen v = (keys, screen, refl, v)
  print_decoded-Keeps (some key, keys) screen v =
      let (w, run, v') = print_key-GivesWriter key screen v in (keys, w, rw (Base.◌>>=◌, run), v')

  process-Keeps :
      (added : Option (Option crate.KeyEvent) × crate.Keyboard) (screen : Writer)
      → IsWriter screen
      → Keeps (process crate added screen)
  unfolding process
  process-Keeps (some (some key_event), keys) screen v =
      print_decoded-Keeps (crate.process_keyevent keys key_event) screen v
  process-Keeps (some none, keys) screen v = (keys, screen, refl, v)
  process-Keeps (none, keys) screen v = (keys, screen, refl, v)

  -- With the controllers that the kernel has, a writer on a full screen, and any keyboard: the handler
  -- of the keyboard returns, with the writer on a full screen, after it read the port 0x60 and then
  -- made exactly the access that ends the interrupt, and the handler of the timer makes that access
  -- alone. The table has these handlers at the vectors that the PICs give for the lines 1 and 0.
  pub keyboard_interrupt_handler-Keeps :
      (controller : InterruptController) (keys : crate.Keyboard) (screen : Writer) (mach : Machine)
      (past : List Event)
      → IsKernels controller
      → IsWriter screen
      → let scancode = mach.port_value past byte 0x60 % 2 ^ 8 in
        (keys' : crate.Keyboard) × (screen' : Writer) × (keyboard_interrupt_handler crate controller
            keys screen mach past
          ≡ ret ((keys', screen'), end_access controller ∷ port_read byte 0x60 scancode ∷ past))
        × IsWriter screen'
        × (timer_interrupt_handler controller mach past ≡ ret (tt, end_access controller ∷ past))
        × (handler_at idt (vector_of_line pic_1_offset pic_2_offset 0) ≡ some timer_fn)
        × (handler_at idt (vector_of_line pic_1_offset pic_2_offset 1) ≡ some keyboard_fn)
  unfolding keyboard_interrupt_handler timer_interrupt_handler
  keyboard_interrupt_handler-Keeps controller keys screen mach past k v =
      let scancode = mach.port_value past byte 0x60 % 2 ^ 8 in
      let (keys', screen', run, v') = process-Keeps (crate.add_byte keys scancode) screen v in
      (
        keys',
        screen',
        rw (
          ◌>>=◌,
          ◌>>◌,
          run,
          notify_end_of_interrupt_kernels controller keyboard mach
              (port_read byte 0x60 scancode ∷ past) k,
        ),
        v',
        notify_end_of_interrupt_kernels controller timer mach past k,
        table_lem.0,
        table_lem.1,
      )
