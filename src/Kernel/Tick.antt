-- ===== src/Kernel/Tick.antt =====
-- `pit_init`, `sleep` and `exit_qemu` of src/lib.rs.
use capucho_os.Base.{ℕ, zero, suc, u8, ◌>>>◌}
use capucho_os.Base.Io.{Io, byte, dword, halt, ◌>>◌, pure, log, write_to_port}

abbrev pub divisor : ℕ
divisor = 1193

unfoldable pub pit_init : Io (Unit {0})
pit_init = do
  write_to_port byte 0x43 0b00110100
  write_to_port byte 0x40 (u8 divisor)
  write_to_port byte 0x40 (u8 (divisor >>> 8))

-- Each `hlt` waits for the next interrupt.
unfoldable pub sleep : ℕ → Io (Unit {0})
sleep zero = pure tt
sleep (suc n) = log halt >> sleep n

pub data QemuExitCode : Type 0 where
  success failed : QemuExitCode

abbrev pub exit_number : QemuExitCode → ℕ
exit_number success = 0x10
exit_number failed = 0x11

unfoldable pub exit_qemu : QemuExitCode → Io (Unit {0})
exit_qemu exit_code = write_to_port dword 0xf4 (exit_number exit_code)
