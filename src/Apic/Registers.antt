-- ===== src/Apic/Registers.antt =====
-- The registers of an I/O APIC, `IOApic` of src/apic.rs: the register's number is written to the base
-- address and its value passes through the base address plus 0x10.
pub mod Device
pub mod Iterate
use capucho_os.Base.{
  ℕ, zero, suc, ◌+◌, ◌*◌, ◌/◌, ◌%◌, ◌^◌, ◌≡◌, Bool, true, false, not, List, Option, none, some, Run,
  ret, panics, overflow, message, bit_and, bit_or, u8, u32, u64, ◌<<<◌, ◌>>>◌, ◌==◌, ltb, leb, ◌&&◌,
  if◌then◌else◌,
}
use capucho_os.Base.Io.{Io, ◌>>=◌, ◌>>◌, pure, panic, lift, write_volatile, read_volatile}
use capucho_os.Apic.Routing.{IoApic}

-- Sums and products of `u8` and `u64` that must not overflow.
abbrev pub in_u8 : ℕ → Run ℕ
in_u8 n = if ltb n (2 ^ 8) then ret n else panics overflow

abbrev pub in_u64 : ℕ → Run ℕ
in_u64 n = if ltb n (2 ^ 64) then ret n else panics overflow

unfoldable pub read_reg : IoApic → ℕ → Io ℕ
read_reg this reg = lift (in_u64 (this.base_address + 0x10)) >>= λ data_reg.
    write_volatile this.base_address reg >> read_volatile data_reg

unfoldable pub write_reg : IoApic → ℕ → ℕ → Io (Unit {0})
write_reg this reg val = lift (in_u64 (this.base_address + 0x10)) >>= λ data_reg.
    write_volatile this.base_address reg >> write_volatile data_reg val

unfoldable pub id : IoApic → Io ℕ
id this = read_reg this 0x00 >>= λ res. pure (u8 (bit_and (res >>> 24) 0xF))

unfoldable pub version : IoApic → Io ℕ
version this = read_reg this 0x01 >>= λ res. pure (u8 (bit_and res 0xff))

unfoldable pub redir_entry_count : IoApic → Io ℕ
redir_entry_count this = read_reg this 0x01 >>= λ res. pure (u8 (bit_and (res >>> 16) 0xFF))

unfoldable pub arbitration_priority : IoApic → Io ℕ
arbitration_priority this = read_reg this 0x02 >>= λ res. pure (u8 (bit_and (res >>> 24) 0xF))

-- `first + idx * 2`, the number of one half of an entry.
unfoldable pub half_reg : ℕ → ℕ → Run ℕ
half_reg first idx =
    if ltb (idx * 2) (2 ^ 8) && ltb (first + idx * 2) (2 ^ 8)
    then ret (first + idx * 2)
    else panics overflow

unfoldable pub redir_entry : IoApic → ℕ → Io ℕ
redir_entry this idx = do
  count ← redir_entry_count this
  if leb count idx then panic (message "Out of bounds") else do
    low_reg ← lift (half_reg 0x10 idx)
    low ← read_reg this low_reg
    high_reg ← lift (half_reg 0x11 idx)
    high ← read_reg this high_reg
    pure (bit_or (u64 (high <<< 32)) low)

unfoldable pub set_redir_entry : IoApic → ℕ → ℕ → Io (Unit {0})
set_redir_entry this idx entry = do
  low_reg ← lift (half_reg 0x10 idx)
  write_reg this low_reg (u32 entry)
  high_reg ← lift (half_reg 0x11 idx)
  write_reg this high_reg (u32 (entry >>> 32))

pub record RedirEntryIter : Type 0 where
  pub idx : ℕ
  pub ioapic : IoApic

unfoldable pub next : RedirEntryIter → Io (Option ℕ × RedirEntryIter)
next this = do
  count ← redir_entry_count this.ioapic
  if this.idx == count then pure (none, this) else do
    res ← redir_entry this.ioapic this.idx
    idx ← lift (in_u8 (this.idx + 1))
    pure (some res, record this { idx = idx })

-- `IOApic::redir_entry_iter`.
unfoldable pub redir_entry_iter : IoApic → RedirEntryIter
redir_entry_iter this = record { idx = 0; ioapic = this }
