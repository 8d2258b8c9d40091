-- ===== src/Acpi/Accesses.antt =====
-- The memory and port accesses of `AmlHandler` in src/acpi/handlers.rs, with `LockedHandler::read` and
-- `write` of src/acpi.rs, which map the frame of the address first.
pub mod Counted
use capucho_os.Base.{ℕ, Bool, true, false, Run, Panic, message, check}
use capucho_os.Base.Io.{
  Io, byte, word, dword, ◌>>=◌, ◌>>◌, pure, lift, write_to_port, read_from_port, write_sized,
  read_sized,
}
use capucho_os.Memory.External.{Crates, Mapper}
use capucho_os.Acpi.Handler.{Handler, map}

-- The page fault of the processor: `page_fault_handler` of src/interrupts/mod.rs does not return, so it
-- ends the run.
abbrev pub page_fault : Panic
page_fault = message "EXCEPTION: PAGE FAULT"

module _ (crates : Crates) (mapper : Mapper) (lets : mapper.Table → Bool → ℕ → ℕ → Bool) where
  -- `lets table writes address size` is whether the processor, on these page tables, lets an access of
  -- `size` bits at the address pass, or a write if `writes` is set: all its bytes must be mapped.
  abbrev translate : Handler crates mapper → Bool → ℕ → ℕ → Run (Unit {0})
  translate this writes address size =
      check (lets this.context.table writes address size) page_fault

  -- `size` is the number of bits of the type.
  unfoldable pub read : Handler crates mapper → ℕ → ℕ → Io (ℕ × Handler crates mapper)
  read this size address = do
    addr ← lift (crates.phys_addr_new address)
    after ← lift (map crates mapper this (crates.frame_containing addr))
    lift (translate after false address size)
    value ← read_sized size address
    pure (value, after)

  unfoldable pub write : Handler crates mapper → ℕ → ℕ → ℕ → Io (Handler crates mapper)
  write this size address value = do
    addr ← lift (crates.phys_addr_new address)
    after ← lift (map crates mapper this (crates.frame_containing addr))
    lift (translate after true address size)
    write_sized size address value
    pure after

  unfoldable pub read_u8 : Handler crates mapper → ℕ → Io (ℕ × Handler crates mapper)
  read_u8 this address = read this 8 address

  unfoldable pub read_u16 : Handler crates mapper → ℕ → Io (ℕ × Handler crates mapper)
  read_u16 this address = read this 16 address

  unfoldable pub read_u32 : Handler crates mapper → ℕ → Io (ℕ × Handler crates mapper)
  read_u32 this address = read this 32 address

  unfoldable pub read_u64 : Handler crates mapper → ℕ → Io (ℕ × Handler crates mapper)
  read_u64 this address = read this 64 address

  unfoldable pub write_u8 : Handler crates mapper → ℕ → ℕ → Io (Handler crates mapper)
  write_u8 this address value = write this 8 address value

  unfoldable pub write_u16 : Handler crates mapper → ℕ → ℕ → Io (Handler crates mapper)
  write_u16 this address value = write this 16 address value

  unfoldable pub write_u32 : Handler crates mapper → ℕ → ℕ → Io (Handler crates mapper)
  write_u32 this address value = write this 32 address value

  unfoldable pub write_u64 : Handler crates mapper → ℕ → ℕ → Io (Handler crates mapper)
  write_u64 this address value = write this 64 address value

unfoldable pub read_io_u8 : ℕ → Io ℕ
read_io_u8 port = read_from_port byte port

unfoldable pub read_io_u16 : ℕ → Io ℕ
read_io_u16 port = read_from_port word port

unfoldable pub read_io_u32 : ℕ → Io ℕ
read_io_u32 port = read_from_port dword port

unfoldable pub write_io_u8 : ℕ → ℕ → Io (Unit {0})
write_io_u8 port value = write_to_port byte port value

unfoldable pub write_io_u16 : ℕ → ℕ → Io (Unit {0})
write_io_u16 port value = write_to_port word port value

unfoldable pub write_io_u32 : ℕ → ℕ → Io (Unit {0})
write_io_u32 port value = write_to_port dword port value
