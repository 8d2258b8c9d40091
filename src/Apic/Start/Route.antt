-- ===== src/Apic/Start/Route.antt =====
-- The entry that `apic_init` of src/apic.rs sets up, on an I/O APIC that keeps its registers.
use capucho_os.Base.{
  ℕ, ◌+◌, ◌*◌, ◌/◌, ◌%◌, ◌^◌, ◌≡◌, ◌<◌, false, not, List, some, ret, get_elem?, bit_or, u64, ◌<<<◌,
  arith, ◌∙◌, ap,
}
use capucho_os.Base.Bits.{bit_or-lt, bit_xor-lt}
use capucho_os.Base.Io.{Event, Machine, ◌>>=◌}
use capucho_os.Apic.Routing.{Apic, IoApic, get_interrupt_source, get_interrupt_ioapic}
use capucho_os.Apic.Entries.{get_entry, set_entry}
use capucho_os.Apic.Registers.{redir_entry}
use capucho_os.Apic.Registers.Device.{
  KeepsRegisters, content, redir_entry-set_redir_entry, set_redir_entry-log, redir_entry-log,
  kept-read_log, set_log, get_log, read_log,
}
use capucho_os.Apic.RedirEntry.{vector, set_vector, masked, set_masked}
use capucho_os.Apic.RedirEntry.Laws.{
  set_vector_lem, flag_setters, vector-set_masked, masked-set_vector,
}
use capucho_os.Apic.Start.{set_up_entry}

set_up-lt : (e v : ℕ) → e < 2 ^ 64 → v < 256 → set_masked (set_vector e v) false < 2 ^ 64
unfolding set_masked set_vector
set_up-lt e v h k =
    bit_or-lt 64 _ _ (bit_xor-lt 64 (bit_or e v) _ (bit_or-lt 64 e v h (omega arith)) (omega arith))
      (omega arith)

-- The entry of an input in the two registers that hold it.
abbrev pub held : ℕ → (ℕ → ℕ) → List Event → ℕ → ℕ
held base_address initial past input =
    bit_or (u64 ((content base_address initial past (0x11 + input * 2) % 2 ^ 32) <<< 32))
      (content base_address initial past (0x10 + input * 2) % 2 ^ 32)

module _ (this : Apic) (irq idx : ℕ) (io_apic : IoApic)
    (routed : get_interrupt_ioapic this (get_interrupt_source this irq) ≡ ret idx)
    (found : get_elem? this.io_apics idx ≡ some io_apic) (mach : Machine) (initial : ℕ → ℕ)
    (keeps : KeepsRegisters mach io_apic.base_address initial)
    (fits : io_apic.base_address + 0x10 < 2 ^ 64)
    (small : get_interrupt_source this irq < 120) where
  abbrev input : ℕ
  input = get_interrupt_source this irq

  abbrev kept : List Event → ℕ → ℕ
  kept past r = content io_apic.base_address initial past r

  get_entry-redir_entry :
      (p : List Event) → get_entry this irq mach p ≡ redir_entry io_apic input mach p
  unfolding get_entry
  get_entry-redir_entry p = rw (get_entry, ◌>>=◌, routed, found)

  get_entry-log :
      (past : List Event)
      → input < kept past 1 / 2 ^ 16 % 2 ^ 8
      → get_entry this irq mach past
        ≡ ret (
          held io_apic.base_address initial past input,
          get_log mach io_apic initial keeps fits past input,
        )
  get_entry-log past c =
      get_entry-redir_entry past
      ∙ redir_entry-log mach io_apic initial keeps fits past input small c

  set_entry-log :
      (p : List Event) (entry : ℕ)
      → set_entry this irq entry mach p
        ≡ ret (tt, set_log mach io_apic initial keeps fits p input entry)
  unfolding set_entry
  set_entry-log p entry =
      rw (set_entry, ◌>>=◌, routed, found)
        (set_redir_entry-log mach io_apic initial keeps fits p input entry small)

  -- An interrupt that is routed to an input below 120 that the device has, is set up: the entry that is
  -- read afterwards has the vector or-ed to the one that it had, and its mask is the opposite of what
  -- it was.
  pub get_entry-set_up_entry :
      (past : List Event) (v : ℕ)
      → input < kept past 1 / 2 ^ 16 % 2 ^ 8
      → v < 256
      → (entry : ℕ) × (log : List Event) × ((set_up_entry this irq v >>= λ done. get_entry this irq)
            mach past
          ≡ ret (entry, log))
        × (vector entry ≡ bit_or (vector (held io_apic.base_address initial past input)) v)
        × (masked entry ≡ not (masked (held io_apic.base_address initial past input)))
  unfolding set_up_entry
  get_entry-set_up_entry past v c h =
      let e = held io_apic.base_address initial past input in
      let entry = set_masked (set_vector e v) false in
      let mid = get_log mach io_apic initial keeps fits past input in
      let e_small : e < 2 ^ 64 =
        bit_or-lt 64 (u64 ((kept past (0x11 + input * 2) % 2 ^ 32) <<< 32))
          (kept past (0x10 + input * 2) % 2 ^ 32) (omega arith) (omega arith) in
      let log1 : List Event = read_log mach io_apic initial keeps fits past 0x01 in
      let log2 : List Event = read_log mach io_apic initial keeps fits log1 (0x10 + input * 2) in
      let count : kept mid 1 ≡ kept past 1 =
        kept-read_log mach io_apic initial keeps fits log2 (0x11 + input * 2) 1
        ∙ kept-read_log mach io_apic initial keeps fits log1 (0x10 + input * 2) 1
        ∙ kept-read_log mach io_apic initial keeps fits past 0x01 1 in
      let c' : input < kept mid 1 / 2 ^ 16 % 2 ^ 8 = rw count c in
      let (log, both) =
        redir_entry-set_redir_entry mach io_apic initial keeps fits mid input entry small c'
          (set_up-lt e v e_small h) in
      let set = set_redir_entry-log mach io_apic initial keeps fits mid input entry small in
      let again : redir_entry io_apic input mach
            (set_log mach io_apic initial keeps fits mid input entry)
          ≡ ret (entry, log) =
        rw (◌>>=◌, set) at both in
      let (_, _, _, mask) = flag_setters (set_vector e v) false in
      (
        entry,
        log,
        rw (
          ◌>>=◌,
          set_up_entry,
          get_entry-log past c,
          set_entry-log mid entry,
          get_entry-redir_entry (set_log mach io_apic initial keeps fits mid input entry),
          again,
        ),
        vector-set_masked (set_vector e v) false ∙ (set_vector_lem e v h).0,
        mask.0 ∙ ap not (masked-set_vector e v h),
      )
