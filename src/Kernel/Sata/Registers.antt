-- ===== src/Kernel/Sata/Registers.antt =====
-- The registers of the SATA controller that `kernel_main` of src/main.rs writes to the log. They are
-- plain loads of the source, which a compiler may merge or repeat; here each use is one, and what a
-- `{:?}` shows is read before its line is sent.
use capucho_os.Kernel.Sata.Log.{Formats, info}
use capucho_os.Acpi.Handler.Refs.{count}
use capucho_os.Ahci.{number_of_cmd_slots, number_of_ports, count_ones, cap_if_speed}
use capucho_os.Ahci.Debug.{speed_text, status_text}
use capucho_os.Base.{suc, ◌*◌, ◌+◌, index_out_of_bounds, check, leb, ◌++◌, ◌∷◌, zero, ℕ}
use capucho_os.Base.Text.{codes}
use capucho_os.Base.Io.{pure, Io, read_volatile, lift, ◌>>=◌, ◌>>◌}

-- Where the fields of `HBAMemoryRegisters` and of `HBAPortRegisters` stand, which are packed.
abbrev pub ghc_offset : ℕ
ghc_offset = 0x04

abbrev pub port_implemented_offset : ℕ
port_implemented_offset = 0x0C

abbrev pub ports_offset : ℕ
ports_offset = 11 * 4 + 116 + 96

abbrev pub port_size : ℕ
port_size = 17 * 4 + 11 * 4 + 4 * 4

abbrev pub registers_size : ℕ
registers_size = ports_offset + 32 * port_size

abbrev pub int_status_offset : ℕ
int_status_offset = 0x10

abbrev pub int_enable_offset : ℕ
int_enable_offset = 0x14

abbrev pub sig_offset : ℕ
sig_offset = 0x24

abbrev pub ssts_offset : ℕ
ssts_offset = 0x28

module _ (formats : Formats) where
  -- The body of the loop, for the port at the address `port`.
  unfoldable pub log_port : ℕ → Io (Unit {0})
  log_port port = do
    sig ← read_volatile (port + sig_offset)
    info formats (formats.hex_text sig)
    ssts ← read_volatile (port + ssts_offset)
    info formats (status_text ssts)
    int_status ← read_volatile (port + int_status_offset)
    info formats (formats.interrupt_text int_status)
    int_enable ← read_volatile (port + int_enable_offset)
    info formats (formats.interrupt_text int_enable ++ codes "\n")

  -- The loop over the ports, from the address `port` on with `n` ports left.
  unfoldable pub log_ports : ℕ → ℕ → Io (Unit {0})
  log_ports zero port = pure tt
  log_ports (suc n) port = log_port port >> log_ports n (port + port_size)

  -- `port_slice_mut` gives as many ports as its bound of 32 allows, or panics.
  unfoldable pub log_slice : ℕ → ℕ → Io (Unit {0})
  log_slice count base =
      lift (check (leb count 32) index_out_of_bounds) >> log_ports count (base + ports_offset)

  unfoldable pub log_registers : ℕ → Io (Unit {0})
  log_registers base = do
    ports_cap ← read_volatile base
    slots_cap ← read_volatile base
    speed_cap ← read_volatile base
    cap ← read_volatile base
    info formats (
        formats.capabilities_text cap
        ++ b' ' ∷ formats.decimal (number_of_ports ports_cap)
        ++ b' ' ∷ formats.decimal (number_of_cmd_slots slots_cap)
        ++ b' ' ∷ speed_text (cap_if_speed speed_cap))
    ghc ← read_volatile (base + ghc_offset)
    info formats (formats.control_text ghc)
    port_implemented ← read_volatile (base + port_implemented_offset)
    log_slice (count_ones 32 port_implemented) base
