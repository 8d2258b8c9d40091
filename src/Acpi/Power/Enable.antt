-- ===== src/Acpi/Power/Enable.antt =====
-- The polling loop of `Acpi::enable` in src/acpi.rs.
use capucho_os.Base.{
  leb, ℕ, zero, suc, ◌+◌, ◌*◌, ◌%◌, ◌^◌, ◌≡◌, ◌≢◌, ◌≤◌, refl, Bool, true, false, List, [], ◌∷◌,
  Option, none, some, ret, bit_and, ◌==◌, ◌||◌, arith, Bool-cases, inl, inr, ==_ne, ap,
}
use capucho_os.Base.Shifts.{bit_and-mask}
use capucho_os.Base.Io.{
  Event, Machine, byte, word, ◌>>=◌, port_write, port_read, mem_write, mem_read, sized_write,
  sized_read, halt, instruction, serial_sent,
}
use capucho_os.Kernel.Tick.{sleep}
use capucho_os.Acpi.Power.{Registers, second_enabled, enabled, enable_rounds, enable}

-- How often `hlt` returned, which every interrupt makes it do, not only the timer's.
abbrev pub wakes : List Event → ℕ
wakes [] = 0
wakes (halt ∷ past) = suc (wakes past)
wakes (port_write w port v ∷ past) = wakes past
wakes (port_read w port v ∷ past) = wakes past
wakes (mem_write a v ∷ past) = wakes past
wakes (mem_read a v ∷ past) = wakes past
wakes (sized_write size a v ∷ past) = wakes past
wakes (sized_read size a v ∷ past) = wakes past
wakes (instruction i ∷ past) = wakes past
wakes (serial_sent b ∷ past) = wakes past

sleep_lem :
    (n : ℕ) (mach : Machine) (past : List Event)
    → (log : List Event) × (sleep n mach past ≡ ret (tt, log)) × (wakes log ≡ n + wakes past)
unfolding sleep
sleep_lem zero mach past = (past, refl, omega arith)
sleep_lem (suc n) mach past =
    let (log, run, count) = sleep_lem n mach (halt ∷ past) in (log, run, omega arith)

second_enabled_lem :
    (cnt : Option ℕ) (mach : Machine) (past : List Event)
    → (b : Bool) × (log : List Event) × (second_enabled cnt mach past ≡ ret (b, log))
      × (wakes log ≡ wakes past)
unfolding second_enabled
second_enabled_lem none mach past = (true, past, refl, refl)
second_enabled_lem (some cnt) mach past = (_, _, refl, refl)

enabled_lem :
    (this : Registers) (mach : Machine) (past : List Event)
    → (b : Bool) × (log : List Event) × (enabled this mach past ≡ ret (b, log))
      × (wakes log ≡ wakes past)
unfolding enabled
enabled_lem this mach past =
    let v = mach.port_value past word this.pm1a_cnt % 2 ^ 16 in
    let log = port_read word this.pm1a_cnt v ∷ past in
    elim (Bool-cases (bit_and v 1 == 1)) [
      | inl e ↦
          let (b, log', run, same) = second_enabled_lem this.pm1b_cnt mach log in
          (b, log', rw e run, same)
      | inr e ↦ (false, log, rw e, refl)
    ]

enable_rounds-wakes :
    (n : ℕ) (this : Registers) (mach : Machine) (past : List Event)
    → (b : Bool) × (log : List Event) × (enable_rounds n this mach past ≡ ret (b, log))
      × (wakes log ≤ n * 10 + wakes past)
unfolding enable_rounds
enable_rounds-wakes zero this mach past = (false, past, refl, omega arith)
enable_rounds-wakes (suc n) this mach past =
    let (b, log, run, same) = enabled_lem this mach past in
    let (log1, slept, count1) = sleep_lem 10 mach log in
    let (b2, log2, run2, count2) = enable_rounds-wakes n this mach log1 in
    elim (Bool-cases b) [
      | inl e ↦ (true, log, rw (◌>>=◌, run, e), omega (arith, same))
      | inr e ↦ (b2, log2, rw (◌>>=◌, run, e, slept) run2, omega (arith, same, count1, count2))
    ]

-- On every machine `enable` comes to an end: it returns after `hlt` returned at most 3000 times, and never
-- panics.
pub enable-wakes :
    (this : Registers) (mach : Machine) (past : List Event)
    → (b : Bool) × (log : List Event) × (enable this mach past ≡ ret (b, log))
      × (wakes log ≤ 3000 + wakes past)
unfolding enable
enable-wakes this mach past =
    let start = port_write byte this.smi_cmd_port this.acpi_enable ∷ past in
    let (b, log, run, count) = enable_rounds-wakes 300 this mach start in
    elim (Bool-cases (this.smi_cmd_port == 0 || this.acpi_enable == 0)) [
      | inl e ↦ (false, past, rw e, omega arith)
      | inr e ↦ (b, log, rw e run, omega (arith, count))
    ]

-- Once `hlt` has returned `limit` times, the lowest bit of the register at the port reads 1.
abbrev pub Answers : Machine → ℕ → ℕ → Type 0
Answers mach limit port =
    (past : List Event) → limit ≤ wakes past → mach.port_value past word port % 2 ≡ 1

abbrev pub SecondAnswers : Machine → ℕ → Option ℕ → Type 0
SecondAnswers mach limit none = Unit
SecondAnswers mach limit (some cnt) = Answers mach limit cnt

low_bit : (v : ℕ) → v % 2 ≡ 1 → (bit_and (v % 2 ^ 16) 1 == 1) ≡ true
low_bit v h = rw (bit_and-mask 1 (v % 2 ^ 16)) (ground arith)

second_enabled-true :
    (cnt : Option ℕ) (mach : Machine) (limit : ℕ) (past : List Event)
    → SecondAnswers mach limit cnt
    → limit ≤ wakes past
    → (log : List Event) × (second_enabled cnt mach past ≡ ret (true, log))
unfolding second_enabled
second_enabled-true none mach limit past h late = (past, refl)
second_enabled-true (some cnt) mach limit past h late =
    let v = mach.port_value past word cnt in
    (
      port_read word cnt (v % 2 ^ 16) ∷ past,
      ap (λ b. ret (b, port_read word cnt (v % 2 ^ 16) ∷ past)) (low_bit v (h past late)),
    )

module _ (this : Registers) (mach : Machine) (limit : ℕ) (first : Answers mach limit this.pm1a_cnt)
    (second : SecondAnswers mach limit this.pm1b_cnt) where
  enabled-true :
      (past : List Event)
      → limit ≤ wakes past
      → (log : List Event) × (enabled this mach past ≡ ret (true, log))
  unfolding enabled
  enabled-true past late =
      let v = mach.port_value past word this.pm1a_cnt in
      let (log, run) =
        second_enabled-true this.pm1b_cnt mach limit
          (port_read word this.pm1a_cnt (v % 2 ^ 16) ∷ past) second late in
      (log, rw (low_bit v (first past late)) run)

  enable_rounds-true :
      (n : ℕ) (past : List Event)
      → limit ≤ wakes past + n * 10
      → (log : List Event) × (enable_rounds (suc n) this mach past ≡ ret (true, log))
  unfolding enable_rounds
  enable_rounds-true zero past soon =
      let (log, run) = enabled-true past (omega arith) in (log, rw (◌>>=◌, run))
  enable_rounds-true (suc n) past soon = elim (Bool-cases (leb limit (wakes past))) [
    | inl late ↦ let (log, run) = enabled-true past (ground arith) in (log, rw (◌>>=◌, run))
    | inr early ↦
        let (b, log, run, same) = enabled_lem this mach past in
        elim (Bool-cases b) [
          | inl e ↦ (log, rw (◌>>=◌, run, e))
          | inr e ↦
              let (log1, slept, count1) = sleep_lem 10 mach log in
              let (log2, run2) = enable_rounds-true n log1 (omega (arith, same, count1)) in
              (log2, rw (◌>>=◌, run, e, slept) run2)
        ]
  ]

-- When the command port and the command are not 0, and the lowest bits of the control registers that
-- exist read 1 from some return of `hlt` on, of whatever interrupt, that is at most 2990 returns away,
-- `enable` returns true.
pub enable-true :
    (this : Registers) (mach : Machine) (limit : ℕ) (past : List Event)
    → this.smi_cmd_port ≢ 0
    → this.acpi_enable ≢ 0
    → Answers mach limit this.pm1a_cnt
    → SecondAnswers mach limit this.pm1b_cnt
    → limit ≤ wakes past + 2990
    → (log : List Event) × (enable this mach past ≡ ret (true, log))
unfolding enable
enable-true this mach limit past port command first second soon =
    let start = port_write byte this.smi_cmd_port this.acpi_enable ∷ past in
    let (log, run) = enable_rounds-true this mach limit first second 299 start (omega arith) in
    let e1 : (this.smi_cmd_port == 0) ≡ false = ==_ne _ _ port in
    let e2 : (this.acpi_enable == 0) ≡ false = ==_ne _ _ command in (log, rw (e1, e2) run)
