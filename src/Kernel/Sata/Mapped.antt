-- ===== src/Kernel/Sata/Mapped.antt =====
-- The registers that `kernel_main` of src/main.rs reads lie in the frames that it maps.
use capucho_os.Kernel.Sata.Log.{Formats, info}
use capucho_os.Base.Text.{codes}
use capucho_os.Kernel.Sata.{abar_frames}
use capucho_os.Ahci.Debug.{status_text, speed_text}
use capucho_os.Memory.External.{Mapper, Crates}
use capucho_os.Ahci.{number_of_ports, number_of_cmd_slots, count_ones, cap_if_speed}
use capucho_os.Kernel.Sata.Frames.{abar_frames-touches, touches}
use capucho_os.Base.Io.Keeps.{
  check-Keeps, Keeps, pure-Keeps, read_volatile-Keeps, then-Keeps, log-Keeps,
}
use capucho_os.Acpi.Regions.Balance.{occurrences}
use capucho_os.Kernel.Sata.Registers.{
  registers_size, ghc_offset, log_registers, log_slice, ports_offset, port_implemented_offset,
  ssts_offset, sig_offset, log_port, port_size, int_enable_offset, int_status_offset, log_ports,
}
use capucho_os.Kernel.Logger.{print_line, Record, serial_print, log_record, print_file}
use capucho_os.Base.{
  index_out_of_bounds, leb, ◌^◌, ◌++◌, ◌∙◌, ret, All, [], some, ◌≡◌, List, true, ◌*◌, ◌≤◌, ◌/◌, ◌∷◌,
  Option, ◌==◌, none, ◌<◌, ltb, zero, suc, arith, ◌%◌, ◌+◌, subst, ℕ,
}
use capucho_os.Base.Io.{Machine, read_volatile, mem_read, mem_write, Event, serial_sent}
use capucho_os.Acpi.Accesses.Counted.{frame_of}

-- The frames in the list have the four bytes of the register.
abbrev pub IsCovered : List ℕ → ℕ → Type 0
IsCovered fs addr =
    (occurrences (frame_of addr) fs ≡ 1) × (occurrences (frame_of (addr + 3)) fs ≡ 1)

-- A memory access is to a register that is covered; other events are not memory accesses.
abbrev pub IsMapped : List ℕ → Event → Type 0
IsMapped fs (mem_read addr v) = IsCovered fs addr
IsMapped fs (mem_write addr v) = IsCovered fs addr
IsMapped fs e = Unit {0}

touches_lem :
    (a size addr : ℕ) → a ≤ addr → addr < a + size → touches a (a + size) (frame_of addr) ≡ 1
touches_lem a size addr low high =
    let whole : (addr / 4096 * 4096 % 4096 == 0) ≡ true = ground arith in
    let first : ltb a (addr / 4096 * 4096 + 4096) ≡ true = ground arith in
    let last : ltb (addr / 4096 * 4096) (a + size) ≡ true = ground arith in rw (whole, first, last)

count_ones-le : (w bits : ℕ) → count_ones w bits ≤ w
count_ones-le zero bits = omega arith
count_ones-le (suc w) bits = omega (arith, count_ones-le w (bits / 2))

module _ (fs : List ℕ) where
  serial_print-Keeps : (bytes : List ℕ) → Keeps (IsMapped fs) (serial_print bytes)
  unfolding serial_print
  serial_print-Keeps [] = pure-Keeps tt
  serial_print-Keeps (b ∷ bytes) =
      then-Keeps (log-Keeps (serial_sent b) tt) (λ done. serial_print-Keeps bytes)

  print_line-Keeps : (line : Option (List ℕ)) → Keeps (IsMapped fs) (print_line line)
  unfolding print_line
  print_line-Keeps none = pure-Keeps tt
  print_line-Keeps (some line) = serial_print-Keeps (b':' ∷ line)

  print_file-Keeps : (file line : Option (List ℕ)) → Keeps (IsMapped fs) (print_file file line)
  unfolding print_file
  print_file-Keeps none line = pure-Keeps tt
  print_file-Keeps (some file) line =
      then-Keeps (serial_print-Keeps (b'[' ∷ file))
        (λ x. then-Keeps (print_line-Keeps line) (λ y. serial_print-Keeps (b']' ∷ [])))

  log_record-Keeps : (r : Record) → Keeps (IsMapped fs) (log_record r)
  unfolding log_record
  log_record-Keeps r =
      then-Keeps (serial_print-Keeps _)
        (λ x. then-Keeps (print_file-Keeps r.file r.line) (λ y. serial_print-Keeps _))

  module _ (formats : Formats) where
    info-Keeps : (args : List ℕ) → Keeps (IsMapped fs) (info formats args)
    unfolding info
    info-Keeps args = log_record-Keeps _

    -- The registers of the block of that size are covered.
    abbrev AreCovered : ℕ → ℕ → Type 0
    AreCovered base size = (k : ℕ) → k + 4 ≤ size → IsCovered fs (base + k)

    read-Keeps :
        (base size k : ℕ)
        → AreCovered base size
        → k + 4 ≤ size
        → Keeps (IsMapped fs) (read_volatile (base + k))
    read-Keeps base size k h p = read_volatile-Keeps (base + k) (λ v. h k p)

    log_port-Keeps :
        (port : ℕ) → AreCovered port port_size → Keeps (IsMapped fs) (log_port formats port)
    unfolding log_port
    log_port-Keeps port h =
        then-Keeps (read-Keeps port port_size sig_offset h (omega arith)) (λ sig.
          then-Keeps (info-Keeps (formats.hex_text sig)) (λ x1.
            then-Keeps (read-Keeps port port_size ssts_offset h (omega arith)) (λ ssts.
              then-Keeps (info-Keeps (status_text ssts)) (λ x2.
                then-Keeps (read-Keeps port port_size int_status_offset h (omega arith)) (λ st.
                  then-Keeps (info-Keeps (formats.interrupt_text st)) (λ x3.
                    then-Keeps (read-Keeps port port_size int_enable_offset h (omega arith))
                      (λ en. info-Keeps (formats.interrupt_text en ++ codes "\n"))))))))

    log_ports-Keeps :
        (n port : ℕ)
        → AreCovered port (n * port_size)
        → Keeps (IsMapped fs) (log_ports formats n port)
    unfolding log_ports
    log_ports-Keeps zero port h = pure-Keeps tt
    log_ports-Keeps (suc n) port h =
        then-Keeps (log_port-Keeps port (λ k p. h k (omega arith))) (λ x.
          log_ports-Keeps n (port + port_size) (λ k p.
            let eq : port + (port_size + k) ≡ port + port_size + k = omega arith in
            subst (IsCovered fs) eq (h (port_size + k) (omega arith))))

    log_slice-Keeps :
        (count base : ℕ)
        → count ≤ 32
        → AreCovered base registers_size
        → Keeps (IsMapped fs) (log_slice formats count base)
    unfolding log_slice
    log_slice-Keeps count base few h =
        let fits : leb count 32 ≡ true = ground arith in
        check-Keeps (leb count 32) index_out_of_bounds fits (
          log_ports-Keeps count (base + ports_offset) (λ k p.
            let eq : base + (ports_offset + k) ≡ base + ports_offset + k = omega arith in
            subst (IsCovered fs) eq (h (ports_offset + k) (omega arith))))

    log_registers-Keeps :
        (base : ℕ)
        → AreCovered base registers_size
        → Keeps (IsMapped fs) (log_registers formats base)
    unfolding log_registers
    log_registers-Keeps base h =
        let zero_off : base + 0 ≡ base = omega arith in
        let cap_read =
          read_volatile-Keeps base (λ v. subst (IsCovered fs) zero_off (h 0 (omega arith))) in
        then-Keeps cap_read (λ ports_cap. then-Keeps cap_read (λ slots_cap.
          then-Keeps cap_read (λ speed_cap. then-Keeps cap_read (λ cap.
            then-Keeps
              (info-Keeps (
                formats.capabilities_text cap
                ++ b' ' ∷ formats.decimal (number_of_ports ports_cap)
                ++ b' ' ∷ formats.decimal (number_of_cmd_slots slots_cap)
                ++ b' ' ∷ speed_text (cap_if_speed speed_cap)))
              (λ x1. then-Keeps (read-Keeps base registers_size ghc_offset h (omega arith)) (λ ghc.
                then-Keeps (info-Keeps (formats.control_text ghc)) (λ x2.
                  then-Keeps
                    (read-Keeps base registers_size port_implemented_offset h (omega arith))
                    (λ ports.
                      log_slice-Keeps (count_ones 32 ports) base (count_ones-le 32 ports) h))))))))

-- For a register block of at least 0x1100 bytes that ends below 2 ^ 47: the frames to map are found
-- without a panic, and whatever the machine answers, writing the registers to the log then returns,
-- and every access to memory that it makes is to a register of which all four bytes lie in these frames, each of which is
-- mapped once.
pub log_registers-IsMapped :
    (crates : Crates) (mapper : Mapper) (formats : Formats) (abar_address abar_size : ℕ)
    → 0x1100 ≤ abar_size
    → abar_address + abar_size < 2 ^ 47
    → (fs : List ℕ) × (abar_frames crates mapper abar_address abar_size ≡ ret fs)
      × ((mach : Machine)
          → (log : List Event) × (log_registers formats abar_address mach [] ≡ ret (tt, log))
            × All (IsMapped fs) log)
log_registers-IsMapped crates mapper formats a size big small =
    let (fs, run, found) = abar_frames-touches crates mapper a size (omega arith) small in
    let covered : (k : ℕ) → k + 4 ≤ registers_size → IsCovered fs (a + k) = λ k p. (
      found (frame_of (a + k)) ∙ touches_lem a size (a + k) (omega arith) (omega arith),
      found (frame_of (a + k + 3)) ∙ touches_lem a size (a + k + 3) (omega arith) (omega arith),
    ) in
    (
      fs,
      run,
      λ mach.
          let (done, log, e, all) = (log_registers-Keeps fs formats a covered).outcome mach [] tt in
          (log, e, all),
    )
