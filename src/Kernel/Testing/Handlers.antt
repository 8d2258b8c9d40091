-- ===== src/Kernel/Testing/Handlers.antt =====
-- What the panic handlers of src/main.rs and src/lib.rs leave behind.
use capucho_os.Kernel.Tick.{exit_qemu}
use capucho_os.Kernel.Logger.{Record}
use capucho_os.Vga.Print.{println-Shows, type_lines}
use capucho_os.Kernel.Testing.{panic_handler, test_panic_handler}
use capucho_os.Vga.{Writer}
use capucho_os.Vga.Lines.{Text, Shows}
use capucho_os.Interrupts.Exceptions.Fault.{hlt_loop-halts, halts}
use capucho_os.Kernel.Logger.Line.{
  sent-append, sent, record_text, serial_print-sent, log_record-sent,
}
use capucho_os.Base.{Bool, true, false, if◌then◌else◌, [], ◌≡◌, ret, ◌∷◌, sym, ap, List, ◌++◌, ℕ}
use capucho_os.Base.Text.{codes}
use capucho_os.Base.Io.{Event, port_write, Machine, dword, ◌>>=◌, ◌>>◌}

test_panic_handler_lem :
    (text : List ℕ) (n : ℕ) (mach : Machine) (past : List Event)
    → test_panic_handler text n mach past
      ≡ ret (
        tt,
        halts n (
            port_write dword 0xf4 0x11
            ∷ sent past (codes "[failed]\n\n" ++ (codes "Error: " ++ text ++ codes "\n\n"))),
      )
unfolding test_panic_handler exit_qemu
test_panic_handler_lem text n mach past =
    let first = codes "[failed]\n\n" in
    let second = codes "Error: " ++ text ++ codes "\n\n" in
    let log : List Event = sent (sent past first) second in
    rw
      (
        test_panic_handler,
        ◌>>◌,
        ◌>>=◌,
        serial_print-sent first mach past,
        serial_print-sent second mach (sent past first),
        hlt_loop-halts n mach (port_write dword 0xf4 0x11 ∷ log),
      )
      (ap (λ l. ret (tt, halts n (port_write dword 0xf4 0x11 ∷ l)))
        (sym (sent-append past first second)))

-- On a writer that shows the end of a text, whatever the text of the panic is, the kernel's handler
-- does not panic: it shows the text of the panic as a line, sends one line of level ERROR with it if
-- a logger is set and the level passes, and then every round of its loop is a `hlt`. The handler of
-- the tests sends its two texts, then writes 0x11 to the port 0xf4, and then every round is a `hlt`.
pub panic_handler-Shows :
    (text : List ℕ) (place : Record) (logging : Bool) (screen : Writer) (color : ℕ) (t : Text)
    (n : ℕ) (mach : Machine) (past : List Event)
    → Shows screen color t
    → ((w : Writer) × (panic_handler text place logging screen n mach past
          ≡ ret (
            w,
            halts n (
                if logging
                then sent past (record_text (record place { level = codes "ERROR"; args = text }))
                else past),
          ))
        × Shows w color (type_lines color t ((text ∷ []) ∷ [])))
      × (test_panic_handler text n mach past
          ≡ ret (
            tt,
            halts n (
                port_write dword 0xf4 0x11
                ∷ sent past (codes "[failed]\n\n" ++ (codes "Error: " ++ text ++ codes "\n\n"))),
          ))
unfolding panic_handler
panic_handler-Shows text place true screen color t n mach past h =
    let (w, run, h') = println-Shows screen color t (text ∷ []) h in
    let r : Record = record place { level = codes "ERROR"; args = text } in
    (
      (
        w,
        rw (
          ◌>>=◌,
          ◌>>◌,
          run,
          log_record-sent r mach past,
          hlt_loop-halts n mach (sent past (record_text r)),
        ),
        h',
      ),
      test_panic_handler_lem text n mach past,
    )
panic_handler-Shows text place false screen color t n mach past h =
    let (w, run, h') = println-Shows screen color t (text ∷ []) h in
    (
      (w, rw (◌>>=◌, ◌>>◌, run, hlt_loop-halts n mach past), h'),
      test_panic_handler_lem text n mach past,
    )
