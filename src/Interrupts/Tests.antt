-- ===== src/Interrupts/Tests.antt =====
-- The controllers at the offsets 32 and 40 of the kernel.
use capucho_os.Interrupts.Locks.Waits.{Reach-proceeds}
use capucho_os.Interrupts.Locks.{
  maps_access, perform, acquire, release, critical_end, init_actions, writer_lock, Config,
  reach_step, main_actions, hands_over, main_step, at_start, prints,
}
use capucho_os.Base.Text.{codes}
use capucho_os.Vga.Lines.{Shows, GivesShown}
use capucho_os.Vga.Print.{type_lines}
use capucho_os.Interrupts.Exceptions.Fault.{halts, fault_lines, page_fault_handler-Shows}
use capucho_os.Base.{
  ◌++◌, refl, none, false, ℕ, some, ◌∷◌, ◌≡◌, inl, [], ret, arith, ◌==◌, if◌then◌else◌,
}
use capucho_os.Base.Io.{byte, port_read, Machine, after}
use capucho_os.Interrupts.Controller.{pics, notify_end_of_interrupt, pic1_data_port}
use capucho_os.Vga.{Writer}
use capucho_os.Vga.Text.{IsWriter}
use capucho_os.Memory.Example.{crates, mapper, context}
use capucho_os.Interrupts.Exceptions.{
  page_fault_handler, StackFrame, FaultCrates, breakpoint_handler, mapped,
}
use capucho_os.Vga.Example.{start, top, top-Shows, writer, writer-IsWriter}
use capucho_os.Interrupts.Handlers.{
  timer_fn, keyboard_fn, handler_at, idt, KeyboardCrate, unicode, first_pics,
  timer_interrupt_handler, keyboard_interrupt_handler,
}
use capucho_os.Interrupts.Handlers.Acknowledge.{
  chained, end_access, keyboard_interrupt_handler-Keeps,
}
use capucho_os.Interrupts.Programming.{eoi_of_line, vector_of_line, notify_end_of_interrupt_line}

abbrev quiet : Machine
quiet = record {
  port_value = λ past w port. if port == pic1_data_port then 0xB8 else 0x8E;
  mem_value = λ past a. 0;
  sized_value = λ past size a. 0;
}

notify_end_of_interrupt_line_example :
    notify_end_of_interrupt (pics 32 40) (vector_of_line 32 40 9) quiet []
    ≡ ret (tt, after [] (eoi_of_line 9))
notify_end_of_interrupt_line_example =
    notify_end_of_interrupt_line 32 40 9 quiet [] (omega arith) (inl (omega arith)) (omega arith)

-- A keyboard that prints an A for every byte.
abbrev keys : KeyboardCrate
keys = record {
  Keyboard = Unit {0};
  KeyEvent = ℕ;
  KeyCode = ℕ;
  add_byte = λ k b. (some (some b), k);
  process_keyevent = λ k e. (some (unicode b'A'), k);
  character_text = λ c. c ∷ [];
  key_text = λ k. [];
}

keyboard_interrupt_handler-Keeps_example :
    (keys' : Unit {0}) × (screen' : Writer) × (keyboard_interrupt_handler keys first_pics tt writer
        quiet []
      ≡ ret ((keys', screen'), end_access first_pics ∷ port_read byte 0x60 0x8E ∷ []))
    × IsWriter screen'
    × (timer_interrupt_handler first_pics quiet [] ≡ ret (tt, end_access first_pics ∷ []))
    × (handler_at idt (vector_of_line 32 40 0) ≡ some timer_fn)
    × (handler_at idt (vector_of_line 32 40 1) ≡ some keyboard_fn)
keyboard_interrupt_handler-Keeps_example =
    keyboard_interrupt_handler-Keeps keys first_pics tt writer quiet [] chained writer-IsWriter

-- Every address is mapped to frame 0x5000, and the texts are short.
abbrev x86 : FaultCrates mapper
x86 = record {
  Flags = ℕ;
  translate = λ table addr. mapped 0x5000 3;
  hex_text = λ n. codes "0x";
  address_text = λ n. codes "VirtAddr";
  error_text = λ n. codes "WRITE";
  flags_text = λ n. codes "PRESENT";
  rflags_text = λ n. codes "IF";
  frame_text = λ frame. codes "frame";
}

abbrev frame : StackFrame
frame = record {
  instruction_pointer = 0x1000;
  code_segment = 8;
  cpu_flags = 0x202;
  stack_pointer = 0x2000;
  stack_segment = 0;
}

page_fault_handler-Shows_example :
    ((w : Writer) × (page_fault_handler crates mapper x86 frame 2 0x5008
          (some context)
          top
          3
          quiet
          []
        ≡ ret (w, halts 3 []))
      × Shows w 7
          (type_lines 7 start (fault_lines crates mapper x86 frame 2 0x5008 (some context))))
    × GivesShown
        (breakpoint_handler crates mapper x86 frame top)
        7
        (type_lines 7 start ((codes "EXCEPTION: BREAKPOINT\n" ∷ codes "frame" ∷ []) ∷ []))
page_fault_handler-Shows_example =
    page_fault_handler-Shows crates mapper x86 frame 2 0x5008 (some context) top 7 start 3 quiet []
      top-Shows

-- After the first step of the kernel, which turns the interrupts off for the screen.
Reach-proceeds_example :
    (d : Config) × (perform
        (acquire writer_lock)
        (record { interrupts = false; saved = false ∷ []; held = [] })
      ≡ some d)
Reach-proceeds_example =
    Reach-proceeds (prints ∷ hands_over (maps_access 1 ∷ []) 1 1 ∷ [])
      (record {
        config = record { interrupts = false; saved = false ∷ []; held = [] };
        main =
            acquire writer_lock
            ∷ release writer_lock
            ∷ critical_end
            ∷ (init_actions ++ main_actions (prints ∷ hands_over (maps_access 1 ∷ []) 1 1 ∷ []));
        handler = none;
      })
      (acquire writer_lock) (reach_step at_start (main_step refl)) refl
