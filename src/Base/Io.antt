-- ===== src/Base/Io.antt =====
-- Device access: the ports and the memory-mapped registers. What a read gives is the machine's
-- choice, from everything that happened before; every access is logged, the latest one first.
pub mod Keeps
pub mod Inversion
use mathlib.Core.List.{List, [], ◌∷◌}
use Prim.Native.Nat.{ℕ, ◌%◌, ◌^◌}
use capucho_os.Base.Panicking.{Run, Panic, ret, panics}

pub data Width : Type 0 where
  byte word dword : Width

abbrev pub bits : Width → ℕ
bits byte = 8
bits word = 16
bits dword = 32

-- The instructions that the crate x86_64 wraps.
pub data Instruction : Type 0 where
  load_gdt set_cs load_tss load_idt enable_interrupts : Instruction

pub data Event : Type 0 where
  port_write port_read : Width → ℕ → ℕ → Event
  mem_write mem_read : ℕ → ℕ → Event
  sized_write sized_read : ℕ → ℕ → ℕ → Event
  halt : Event
  instruction : Instruction → Event
  serial_sent : ℕ → Event

pub record Machine : Type 0 where
  pub port_value : List Event → Width → ℕ → ℕ
  pub mem_value : List Event → ℕ → ℕ
  pub sized_value : List Event → ℕ → ℕ → ℕ

abbrev pub Io {ℓ} : Type ℓ → Type ℓ
Io A = Machine → List Event → Run (A × List Event)

infixl 5 ◌>>=◌ ◌>>◌
abbrev pub ◌>>=◌ {ℓ κ} : {A : Type ℓ} {B : Type κ} → Io A → (A → Io B) → Io B
◌>>=◌ m f mach past = elim (m mach past) [ panics p ↦ panics p | ret r ↦ f r.0 mach r.1 ]

abbrev pub ◌>>◌ {ℓ} : {B : Type ℓ} → Io (Unit {0}) → Io B → Io B
m >> k = m >>= λ _. k

abbrev pub pure {ℓ} : {A : Type ℓ} → A → Io A
pure a mach past = ret (a, past)

abbrev pub panic {ℓ} : {A : Type ℓ} → Panic → Io A
panic p mach past = panics p

abbrev pub lift {ℓ} : {A : Type ℓ} → Run A → Io A
lift (ret a) mach past = ret (a, past)
lift (panics p) mach past = panics p

abbrev pub log : Event → Io (Unit {0})
log e mach past = ret (tt, e ∷ past)

-- `write_to_port` and `read_from_port` of the integer of that width.
abbrev pub write_to_port : Width → ℕ → ℕ → Io (Unit {0})
write_to_port w port value = log (port_write w port value)

abbrev pub read_from_port : Width → ℕ → Io ℕ
read_from_port w port mach past =
    let v = mach.port_value past w port % 2 ^ bits w in ret (v, port_read w port v ∷ past)

-- `write_volatile` and `read_volatile` of a 32-bit register.
abbrev pub write_volatile : ℕ → ℕ → Io (Unit {0})
write_volatile addr value = log (mem_write addr value)

abbrev pub read_volatile : ℕ → Io ℕ
read_volatile addr mach past =
    let v = mach.mem_value past addr % 2 ^ 32 in ret (v, mem_read addr v ∷ past)

-- The same for a value of `size` bits.
abbrev pub write_sized : ℕ → ℕ → ℕ → Io (Unit {0})
write_sized size addr value = log (sized_write size addr value)

abbrev pub read_sized : ℕ → ℕ → Io ℕ
read_sized size addr mach past =
    let v = mach.sized_value past size addr % 2 ^ size in ret (v, sized_read size addr v ∷ past)

-- The log after the events `es`, in the order in which they happen.
abbrev pub after : List Event → List Event → List Event
after past [] = past
after past (e ∷ es) = after (e ∷ past) es
