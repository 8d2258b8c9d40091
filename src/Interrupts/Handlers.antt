-- ===== src/Interrupts/Handlers.antt =====
-- The handlers of the two lines that the kernel uses, from src/interrupts/mod.rs. The locks are left
-- out: a handler takes what they guard and gives it back.
pub mod Acknowledge
use capucho_os.Base.{
  ℕ, ◌+◌, Bool, false, List, [], ◌∷◌, Option, none, some, Run, ret, ◌==◌, if◌then◌else◌,
}
use capucho_os.Base
use capucho_os.Base.Io.{Io, byte, ◌>>=◌, ◌>>◌, pure, lift, read_from_port}
use capucho_os.Vga.{Writer, write_string}
use capucho_os.Interrupts.Controller.{InterruptController, pics, notify_end_of_interrupt}

abbrev pub pic_1_offset : ℕ
pic_1_offset = 32

abbrev pub pic_2_offset : ℕ
pic_2_offset = pic_1_offset + 8

pub data InterruptIndex : Type 0 where
  timer keyboard : InterruptIndex

-- `index as u8`.
abbrev pub index_number : InterruptIndex → ℕ
index_number timer = pic_1_offset
index_number keyboard = pic_1_offset + 1

-- The first value of `PICS`.
abbrev pub first_pics : InterruptController
first_pics = pics pic_1_offset pic_2_offset

-- The functions of the table, and the places of the table that the source names.
pub data HandlerFn : Type 0 where
  breakpoint_fn page_fault_fn double_fault_fn timer_fn keyboard_fn : HandlerFn

pub data Slot : Type 0 where
  breakpoint page_fault double_fault : Slot
  index : ℕ → Slot

pub record Entry : Type 0 where
  pub slot : Slot
  pub handler : HandlerFn
  pub stack_index : Option ℕ

abbrev pub double_fault_ist_index : ℕ
double_fault_ist_index = 0

abbrev pub entry : Slot → HandlerFn → Entry
entry slot handler = record { slot = slot; handler = handler; stack_index = none }

-- `IDT`, by the calls that fill it.
abbrev pub idt : List Entry
idt =
    entry breakpoint breakpoint_fn
    ∷ entry page_fault page_fault_fn
    ∷ record {
      slot = double_fault;
      handler = double_fault_fn;
      stack_index = some double_fault_ist_index;
    }
    ∷ entry (index (index_number timer)) timer_fn
    ∷ entry (index (index_number keyboard)) keyboard_fn
    ∷ []

-- The handler that the table has for the vector `n`, for `n` from 32 on.
abbrev pub matches : Slot → ℕ → Bool
matches (index k) n = k == n
matches slot n = false

unfoldable pub handler_at : List Entry → ℕ → Option HandlerFn
handler_at [] n = none
handler_at (e ∷ rest) n =
    let later = handler_at rest n in if matches e.slot n then some e.handler else later

unfoldable pub timer_interrupt_handler : InterruptController → Io (Unit {0})
timer_interrupt_handler controller = notify_end_of_interrupt controller (index_number timer)

-- What the source uses of the crate `pc_keyboard`, and of `core::fmt` for what it decodes.
pub data DecodedKey (KeyCode : Type 0) : Type 0 where
  unicode : ℕ → DecodedKey KeyCode
  raw_key : KeyCode → DecodedKey KeyCode

pub record KeyboardCrate : Type 1 where
  pub Keyboard : Type 0
  pub KeyEvent : Type 0
  pub KeyCode : Type 0
  -- `add_byte`: the outer option is none for an error.
  pub add_byte : Keyboard → ℕ → Option (Option KeyEvent) × Keyboard
  pub process_keyevent : Keyboard → KeyEvent → Option (DecodedKey KeyCode) × Keyboard
  -- The bytes of a character and of a key's name.
  pub character_text : ℕ → List ℕ
  pub key_text : KeyCode → List ℕ

module _ (crate : KeyboardCrate) where
  -- `print!` of a key.
  unfoldable pub print_key : DecodedKey crate.KeyCode → Writer → Run Writer
  print_key (unicode character) screen = write_string screen (crate.character_text character)
  print_key (raw_key key) screen = write_string screen (crate.key_text key)

  unfoldable pub print_decoded :
      Option (DecodedKey crate.KeyCode) × crate.Keyboard → Writer → Run (crate.Keyboard × Writer)
  print_decoded (none, keys) screen = ret (keys, screen)
  print_decoded (some key, keys) screen =
      Base.◌>>=◌ (print_key key screen) (λ after. ret (keys, after))

  -- The two patterns: only `Ok(Some(key_event))` goes on.
  unfoldable pub process :
      Option (Option crate.KeyEvent) × crate.Keyboard → Writer → Run (crate.Keyboard × Writer)
  process (some (some key_event), keys) screen =
      print_decoded (crate.process_keyevent keys key_event) screen
  process (some none, keys) screen = ret (keys, screen)
  process (none, keys) screen = ret (keys, screen)

  unfoldable pub keyboard_interrupt_handler :
      InterruptController → crate.Keyboard → Writer → Io (crate.Keyboard × Writer)
  keyboard_interrupt_handler controller keys screen = do
    scancode ← read_from_port byte 0x60
    after ← lift (process (crate.add_byte keys scancode) screen)
    notify_end_of_interrupt controller (index_number keyboard)
    pure after
