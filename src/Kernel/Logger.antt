-- ===== src/Kernel/Logger.antt =====
-- `Logger::log` of src/logger.rs. A `{}` of the source gives the bytes that `core::fmt` makes; the port
-- that takes them is a crate's.
pub mod Line
use capucho_os.Base.{ℕ, List, [], ◌∷◌, ◌++◌, Option, none, some}
use capucho_os.Base.Io.{Io, ◌>>◌, pure, log, serial_sent}

-- The texts of the parts of a `log::Record`.
pub record Record : Type 0 where
  pub level : List ℕ
  pub target : List ℕ
  pub file : Option (List ℕ)
  pub line : Option (List ℕ)
  pub args : List ℕ

-- What the source uses of the crate `uart_16550`.
pub record SerialCrate : Type 1 where
  pub SerialPort : Type 0
  pub new : ℕ → SerialPort
  pub init : SerialPort → SerialPort

-- `SERIAL1`.
unfoldable pub serial1 : (crate : SerialCrate) → crate.SerialPort
serial1 crate = crate.init (crate.new 0x3F8)

-- `serial_print!`, by `_print`: the bytes go to the port in turn.
unfoldable pub serial_print : List ℕ → Io (Unit {0})
serial_print [] = pure tt
serial_print (byte ∷ bytes) = log (serial_sent byte) >> serial_print bytes

unfoldable pub print_line : Option (List ℕ) → Io (Unit {0})
print_line none = pure tt
print_line (some line) = serial_print (b':' ∷ line)

unfoldable pub print_file : Option (List ℕ) → Option (List ℕ) → Io (Unit {0})
print_file none line = pure tt
print_file (some file) line =
    serial_print (b'[' ∷ file) >> (print_line line >> serial_print (b']' ∷ []))

-- `enabled` is always true.
unfoldable pub log_record : Record → Io (Unit {0})
log_record record' = do
  serial_print (b'[' ∷ record'.level ++ b']' ∷ b'[' ∷ record'.target ++ b']' ∷ [])
  print_file record'.file record'.line
  serial_print (record'.args ++ b'\n' ∷ [])
