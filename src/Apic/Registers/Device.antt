-- ===== src/Apic/Registers/Device.antt =====
-- The redirection entries of src/apic.rs on a device whose registers keep what is written to them.
use capucho_os.Base.{
  ℕ, ◌+◌, ◌*◌, ◌/◌, ◌%◌, ◌^◌, ◌≡◌, ◌≤◌, ◌<◌, true, false, List, [], ◌∷◌, ret, bit_and, bit_or, u8,
  u32, u64, ◌<<<◌, ◌>>>◌, ◌==◌, ltb, leb, ◌&&◌, if◌then◌else◌, arith, ==_self, ==_ne,
}
use capucho_os.Base.Shifts.{bit_and-mask, bit_or-halves}
use capucho_os.Base.Io.{
  Event, port_write, port_read, mem_write, mem_read, halt, sized_write, sized_read, instruction,
  serial_sent, Machine, ◌>>=◌, ◌>>◌,
}
use capucho_os.Apic.Routing.{IoApic}
use capucho_os.Apic.Registers.{
  read_reg, write_reg, redir_entry_count, half_reg, redir_entry, set_redir_entry,
}

-- The number that was last written to the base address.
abbrev pub selected : ℕ → List Event → ℕ
selected base [] = 0
selected base (mem_write a v ∷ past) = if a == base then v else selected base past
selected base (mem_read a v ∷ past) = selected base past
selected base (port_write w port v ∷ past) = selected base past
selected base (port_read w port v ∷ past) = selected base past
selected base (halt ∷ past) = selected base past
selected base (sized_write size addr v ∷ past) = selected base past
selected base (sized_read size addr v ∷ past) = selected base past
selected base (instruction i ∷ past) = selected base past
selected base (serial_sent b ∷ past) = selected base past

-- What register `r` holds: the last value written through the data address while it was selected.
abbrev pub content : ℕ → (ℕ → ℕ) → List Event → ℕ → ℕ
content base initial [] r = initial r
content base initial (mem_write a v ∷ past) r =
    let old = content base initial past r in
    if a == base + 0x10 && selected base past == r then v else old
content base initial (mem_read a v ∷ past) r = content base initial past r
content base initial (port_write w port v ∷ past) r = content base initial past r
content base initial (port_read w port v ∷ past) r = content base initial past r
content base initial (halt ∷ past) r = content base initial past r
content base initial (sized_write size addr v ∷ past) r = content base initial past r
content base initial (sized_read size addr v ∷ past) r = content base initial past r
content base initial (instruction i ∷ past) r = content base initial past r
content base initial (serial_sent b ∷ past) r = content base initial past r

-- The data address reads the selected register.
abbrev pub KeepsRegisters : Machine → ℕ → (ℕ → ℕ) → Type 0
KeepsRegisters mach base initial =
    (past : List Event)
    → mach.mem_value past (base + 0x10) ≡ content base initial past (selected base past)

module _ (mach : Machine) (this : IoApic) (initial : ℕ → ℕ)
    (keeps : KeepsRegisters mach this.base_address initial)
    (fits : this.base_address + 0x10 < 2 ^ 64) where
  other : (this.base_address == this.base_address + 0x10) ≡ false
  other = ==_ne this.base_address (this.base_address + 0x10) (λ e. omega arith)

  other' : (this.base_address + 0x10 == this.base_address) ≡ false
  other' = ==_ne (this.base_address + 0x10) this.base_address (λ e. omega arith)

  inside : ltb (this.base_address + 0x10) (2 ^ 64) ≡ true
  inside = ground arith

  abbrev kept : List Event → ℕ → ℕ
  kept past r = content this.base_address initial past r

  -- The log after a read and after a write of a register.
  abbrev pub read_log : List Event → ℕ → List Event
  read_log past reg =
      mem_read (this.base_address + 0x10) (kept past reg % 2 ^ 32)
      ∷ mem_write this.base_address reg
      ∷ past

  abbrev write_log : List Event → ℕ → ℕ → List Event
  write_log past reg val =
      mem_write (this.base_address + 0x10) val ∷ mem_write this.base_address reg ∷ past

  pub read_reg-log :
      (past : List Event) (reg : ℕ)
      → read_reg this reg mach past ≡ ret (kept past reg % 2 ^ 32, read_log past reg)
  unfolding read_reg
  read_reg-log past reg =
      rw (inside, keeps (mem_write this.base_address reg ∷ past), ==_self this.base_address, other)

  write_reg-log :
      (past : List Event) (reg val : ℕ)
      → write_reg this reg val mach past ≡ ret (tt, write_log past reg val)
  unfolding write_reg
  write_reg-log past reg val = rw inside

  pub kept-read_log : (past : List Event) (reg r : ℕ) → kept (read_log past reg) r ≡ kept past r
  kept-read_log past reg r = rw other

  kept-write_log :
      (past : List Event) (reg val r : ℕ)
      → kept (write_log past reg val) r ≡ (if reg == r then val else kept past r)
  kept-write_log past reg val r =
      rw (==_self (this.base_address + 0x10), ==_self this.base_address, other)

  in_range : (first idx : ℕ) → first ≤ 17 → idx < 120 → half_reg first idx ≡ ret (first + idx * 2)
  unfolding half_reg
  in_range first idx a b =
      let small : (ltb (idx * 2) (2 ^ 8) && ltb (first + idx * 2) (2 ^ 8)) ≡ true = ground arith in
      rw small

  abbrev pub set_log : List Event → ℕ → ℕ → List Event
  set_log past idx entry =
      write_log (write_log past (0x10 + idx * 2) (u32 entry)) (0x11 + idx * 2) (u32 (entry >>> 32))

  pub set_redir_entry-log :
      (past : List Event) (idx entry : ℕ)
      → idx < 120
      → set_redir_entry this idx entry mach past ≡ ret (tt, set_log past idx entry)
  unfolding set_redir_entry
  set_redir_entry-log past idx entry h =
      let low_log = write_log past (0x10 + idx * 2) (u32 entry) in
      rw (
        ◌>>=◌,
        ◌>>◌,
        in_range 0x10 idx (omega arith) h,
        write_reg-log past (0x10 + idx * 2) (u32 entry),
        in_range 0x11 idx (omega arith) h,
        write_reg-log low_log (0x11 + idx * 2) (u32 (entry >>> 32)),
      )

  abbrev pub get_log : List Event → ℕ → List Event
  get_log past idx = read_log (read_log (read_log past 0x01) (0x10 + idx * 2)) (0x11 + idx * 2)

  pub redir_entry-log :
      (past : List Event) (idx : ℕ)
      → idx < 120
      → idx < kept past 1 / 2 ^ 16 % 2 ^ 8
      → redir_entry this idx mach past
        ≡ ret (
          bit_or
              (u64 ((kept past (0x11 + idx * 2) % 2 ^ 32) <<< 32))
              (kept past (0x10 + idx * 2) % 2 ^ 32),
          get_log past idx,
        )
  unfolding redir_entry redir_entry_count
  redir_entry-log past idx h c =
      let log1 = read_log past 0x01 in
      let log2 = read_log log1 (0x10 + idx * 2) in
      let count : u8 (bit_and ((kept past 1 % 2 ^ 32) >>> 16) 0xFF) ≡ kept past 1 / 2 ^ 16 % 2 ^ 8 =
        rw (bit_and-mask 8 (kept past 1 % 2 ^ 32 / 2 ^ 16)) (omega arith) in
      let inside_count : leb (kept past 1 / 2 ^ 16 % 2 ^ 8) idx ≡ false = ground arith in
      rw (
        ◌>>=◌,
        ◌>>◌,
        read_reg-log past 0x01,
        count,
        inside_count,
        in_range 0x10 idx (omega arith) h,
        read_reg-log log1 (0x10 + idx * 2),
        in_range 0x11 idx (omega arith) h,
        read_reg-log log2 (0x11 + idx * 2),
        kept-read_log log1 (0x10 + idx * 2) (0x11 + idx * 2),
        kept-read_log past 0x01 (0x11 + idx * 2),
        kept-read_log past 0x01 (0x10 + idx * 2),
      )

  -- For an index below 120 and below the count that the device tells, an entry of 64 bits that is set is
  -- the one that is read afterwards, and neither panics.
  pub redir_entry-set_redir_entry :
      (past : List Event) (idx entry : ℕ)
      → idx < 120
      → idx < content this.base_address initial past 1 / 2 ^ 16 % 2 ^ 8
      → entry < 2 ^ 64
      → (log : List Event) × ((set_redir_entry this idx entry >>= λ done. redir_entry this idx) mach
            past
          ≡ ret (entry, log))
  redir_entry-set_redir_entry past idx entry h c e =
      let low_log = write_log past (0x10 + idx * 2) (u32 entry) in
      let kept_set : (r : ℕ)
          → kept (set_log past idx entry) r ≡ (
              if 0x11 + idx * 2 == r
              then u32 (entry >>> 32)
              else if 0x10 + idx * 2 == r
              then u32 entry
              else kept past r) =
        λ r. rw (
          kept-write_log low_log (0x11 + idx * 2) (u32 (entry >>> 32)) r,
          kept-write_log past (0x10 + idx * 2) (u32 entry) r,
        ) in
      let count : kept (set_log past idx entry) 1 ≡ kept past 1 = ground (arith, kept_set 1) in
      let low : kept (set_log past idx entry) (0x10 + idx * 2) ≡ entry % 2 ^ 32 =
        ground (arith, kept_set (0x10 + idx * 2)) in
      let high : kept (set_log past idx entry) (0x11 + idx * 2) ≡ entry / 2 ^ 32 % 2 ^ 32 =
        ground (arith, kept_set (0x11 + idx * 2)) in
      let same : bit_or (u64 ((entry / 2 ^ 32 % 2 ^ 32 % 2 ^ 32) <<< 32)) (entry % 2 ^ 32 % 2 ^ 32)
          ≡ entry =
        let high_half : entry / 2 ^ 32 % 2 ^ 32 % 2 ^ 32 ≡ entry / 2 ^ 32 % 2 ^ 32 = omega arith in
        let low_half : entry % 2 ^ 32 % 2 ^ 32 ≡ entry % 2 ^ 32 = omega arith in
        rw (high_half, low_half) (bit_or-halves entry e) in
      (
        get_log (set_log past idx entry) idx,
        rw (
          ◌>>=◌,
          set_redir_entry-log past idx entry h,
          redir_entry-log (set_log past idx entry) idx h (omega (arith, count)),
          high,
          low,
          same,
        ),
      )
