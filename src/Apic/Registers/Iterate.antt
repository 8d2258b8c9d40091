-- ===== src/Apic/Registers/Iterate.antt =====
-- `RedirEntryIter` of src/apic.rs on a device whose registers keep what is written to them.
use capucho_os.Base.{
  ℕ, zero, suc, ◌+◌, ◌*◌, ◌/◌, ◌%◌, ◌^◌, ◌≡◌, ◌≤◌, ◌<◌, ◌⊎◌, inl, inr, refl, true, false, List, [],
  ◌∷◌, Option, some, none, ret, bit_or, u64, ◌<<<◌, ◌==◌, ltb, if◌then◌else◌, arith, Bool-cases,
  ◌∙◌, ap,
}
use capucho_os.Base.Shifts.{bit_and-mask}
use capucho_os.Base.Io.{Event, Machine, Io, ◌>>=◌, pure}
use capucho_os.Apic.Routing.{IoApic}
use capucho_os.Apic.Registers.{redir_entry_count, RedirEntryIter, next, redir_entry_iter}
use capucho_os.Apic.Registers.Device.{
  content, KeepsRegisters, read_log, get_log, read_reg-log, redir_entry-log, kept-read_log,
}

-- `n` calls of `next`: what they give, in order, and the iterator after them.
abbrev pub calls : ℕ → RedirEntryIter → Io (List (Option ℕ) × RedirEntryIter)
calls zero this = pure ([], this)
calls (suc n) this = next this >>= λ one. calls n one.1 >>= λ rest. pure (one.0 ∷ rest.0, rest.1)

-- The entry `idx` of registers that hold `regs`, and the count of entries that they tell.
abbrev pub entry_of : (ℕ → ℕ) → ℕ → ℕ
entry_of regs idx =
    bit_or (u64 ((regs (0x11 + idx * 2) % 2 ^ 32) <<< 32)) (regs (0x10 + idx * 2) % 2 ^ 32)

abbrev pub count_of : (ℕ → ℕ) → ℕ
count_of regs = regs 1 / 2 ^ 16 % 2 ^ 8

-- `n` answers from the call number `i` on: the entry of that number, or none from the count on.
abbrev pub answers : (ℕ → ℕ) → ℕ → ℕ → List (Option ℕ)
answers regs zero i = []
answers regs (suc n) i =
    (if ltb i (count_of regs) then some (entry_of regs i) else none) ∷ answers regs n (suc i)

calls_step :
    (n : ℕ) (it it1 it2 : RedirEntryIter) (mach : Machine) (past log1 log2 : List Event)
    (x : Option ℕ) (xs : List (Option ℕ))
    → next it mach past ≡ ret ((x, it1), log1)
    → calls n it1 mach log1 ≡ ret ((xs, it2), log2)
    → calls (suc n) it mach past ≡ ret ((x ∷ xs, it2), log2)
calls_step n it it1 it2 mach past log1 log2 x xs run1 run2 = rw (◌>>=◌, run1, run2)

module _ (mach : Machine) (this : IoApic) (initial regs : ℕ → ℕ)
    (keeps : KeepsRegisters mach this.base_address initial)
    (fits : this.base_address + 0x10 < 2 ^ 64) (few : count_of regs ≤ 120) where
  -- The registers hold `regs` after the log.
  abbrev pub Holds : List Event → Type 0
  Holds past = (r : ℕ) → content this.base_address initial past r ≡ regs r

  read_log-Holds :
      (past : List Event) (reg : ℕ)
      → Holds past
      → Holds (read_log mach this initial keeps fits past reg)
  read_log-Holds past reg h r = kept-read_log mach this initial keeps fits past reg r ∙ h r

  get_log-Holds :
      (past : List Event) (idx : ℕ)
      → Holds past
      → Holds (get_log mach this initial keeps fits past idx)
  get_log-Holds past idx h =
      let log1 = read_log mach this initial keeps fits past 0x01 in
      let log2 = read_log mach this initial keeps fits log1 (0x10 + idx * 2) in
      let h1 : Holds log1 = read_log-Holds past 0x01 h in
      let h2 : Holds log2 = read_log-Holds log1 (0x10 + idx * 2) h1 in
      read_log-Holds log2 (0x11 + idx * 2) h2

  redir_entry_count-log :
      (past : List Event)
      → Holds past
      → redir_entry_count this mach past
        ≡ ret (count_of regs, read_log mach this initial keeps fits past 0x01)
  unfolding redir_entry_count
  redir_entry_count-log past h =
      let low : regs 1 % 2 ^ 32 / 2 ^ 16 % 2 ^ 8 % 2 ^ 8 ≡ regs 1 / 2 ^ 16 % 2 ^ 8 = omega arith in
      rw (
        ◌>>=◌,
        read_reg-log mach this initial keeps fits past 0x01,
        bit_and-mask 8 (content this.base_address initial past 1 % 2 ^ 32 / 2 ^ 16),
        h 1,
        low,
      )

  next_inside :
      (past : List Event) (idx : ℕ)
      → Holds past
      → idx < count_of regs
      → (log : List Event) × (next (record { idx = idx; ioapic = this }) mach past
          ≡ ret ((some (entry_of regs idx), record { idx = suc idx; ioapic = this }), log))
        × Holds log
  unfolding next
  next_inside past idx h inside =
      let log1 = read_log mach this initial keeps fits past 0x01 in
      let h1 : Holds log1 = read_log-Holds past 0x01 h in
      let below : (idx == count_of regs) ≡ false = ground arith in
      let counted : idx < content this.base_address initial log1 1 / 2 ^ 16 % 2 ^ 8 =
        rw (h1 1) inside in
      let entry = redir_entry-log mach this initial keeps fits log1 idx (omega arith) counted in
      let fits8 : ltb (idx + 1) (2 ^ 8) ≡ true = ground arith in
      let up : idx + 1 ≡ suc idx = omega arith in
      (
        get_log mach this initial keeps fits log1 idx,
        rw (
          ◌>>=◌,
          redir_entry_count-log past h,
          below,
          entry,
          fits8,
          up,
          h1 (0x11 + idx * 2),
          h1 (0x10 + idx * 2),
        ),
        get_log-Holds log1 idx h1,
      )

  next_end :
      (past : List Event) (idx : ℕ)
      → Holds past
      → idx ≡ count_of regs
      → (log : List Event) × (next (record { idx = idx; ioapic = this }) mach past
          ≡ ret ((none, record { idx = idx; ioapic = this }), log))
        × Holds log
  unfolding next
  next_end past idx h end =
      let same : (idx == count_of regs) ≡ true = ground arith in
      (
        read_log mach this initial keeps fits past 0x01,
        rw (◌>>=◌, redir_entry_count-log past h, same),
        read_log-Holds past 0x01 h,
      )

  -- The iterator's number before the call `i`: it stops at the count.
  abbrev At : ℕ → ℕ → Type 0
  At i idx = ((idx ≡ i) × (i ≤ count_of regs)) ⊎ ((idx ≡ count_of regs) × (count_of regs ≤ i))

  calls_from :
      (n i idx : ℕ) (past : List Event)
      → Holds past
      → At i idx
      → (this' : RedirEntryIter) × (log : List Event) × (calls n
            (record { idx = idx; ioapic = this })
            mach
            past
          ≡ ret ((answers regs n i, this'), log))
  calls_from zero i idx past h at = (record { idx = idx; ioapic = this }, past, refl)
  calls_from (suc n) i idx past h at = elim (Bool-cases (ltb idx (count_of regs))) [
    | inl inside ↦
        let same : idx ≡ i = ground arith in
        let (log1, run1, h1) = next_inside past idx h (ground arith) in
        let (this', log2, run2) = calls_from n (suc i) (suc idx) log1 h1 (inl (ground arith)) in
        let here : ltb i (count_of regs) ≡ true = ground arith in
        let given : some (entry_of regs idx)
            ≡ (if ltb i (count_of regs) then some (entry_of regs i) else none) =
          ap (λ k. some (entry_of regs k)) same ∙ rw here in
        (
          this',
          log2,
          calls_step n _ _ this' mach past log1 log2 _ (answers regs n (suc i)) run1 run2
              ∙ ap (λ x. ret ((x ∷ answers regs n (suc i), this'), log2)) given,
        )
    | inr out ↦
        let end : idx ≡ count_of regs = ground arith in
        let (log1, run1, h1) = next_end past idx h end in
        let (this', log2, run2) = calls_from n (suc i) idx log1 h1 (inr (ground arith)) in
        let gone : ltb i (count_of regs) ≡ false = ground arith in
        (this', log2, rw (◌>>=◌, run1, run2, gone))
  ]

  -- When the registers hold `regs`, which tell a count of at most 120, `n` calls of `next` on a new
  -- iterator do not panic: the call of each number below the count gives the entry of that number, and
  -- the other calls give none.
  pub calls-redir_entry_iter :
      (n : ℕ) (past : List Event)
      → Holds past
      → (this' : RedirEntryIter) × (log : List Event) × (calls n (redir_entry_iter this) mach past
          ≡ ret ((answers regs n 0, this'), log))
  unfolding redir_entry_iter
  calls-redir_entry_iter n past h = calls_from n 0 0 past h (inl (omega arith))
