-- ===== src/Pci.antt =====
-- src/pci.rs: access to the PCI configuration space by ports 0xCF8 and 0xCFC, and the search for
-- functions. `PciHeader::new` only wraps the address it is given, so the search returns the addresses.
mod Tests
pub mod Aml
pub mod Address
pub mod Find
use capucho_os.Base.{
  ℕ, zero, suc, ◌+◌, ◌*◌, ◌^◌, ◌≡◌, Bool, true, false, not, List, [], ◌∷◌, ◌++◌, message, bit_and,
  bit_or, u32, ◌<<<◌, ◌==◌, if◌then◌else◌,
}
use capucho_os.Base.Io.{
  Width, byte, word, dword, Io, ◌>>=◌, ◌>>◌, pure, panic, write_to_port, read_from_port,
}

-- `PciAddress` of the crate pci_types: a segment, a bus, a device and a function number.
pub record PciAddress : Type 0 where
  pub segment : ℕ
  pub bus : ℕ
  pub device : ℕ
  pub function : ℕ

abbrev pub config_address_port : ℕ
config_address_port = 0xCF8

abbrev pub config_data_port : ℕ
config_data_port = 0xCFC

-- `ConfigAddress::from`.
unfoldable pub config_address : PciAddress → ℕ
config_address address =
    bit_or
      (bit_or (bit_or (u32 (address.function <<< 8)) (u32 (address.device <<< 11)))
        (u32 (address.bus <<< 16)))
      (1 <<< 31)

-- The value that selects the register at `offset`.
unfoldable pub select : PciAddress → ℕ → ℕ
select address offset = bit_or (config_address address) (bit_and offset 0xff)

unfoldable pub read : PciAddress → ℕ → Io ℕ
read address offset =
    if not (bit_and offset 0b11 == 0)
    then panic (message "Try to read pci with unaligned offset")
    else (write_to_port dword config_address_port (select address offset)
        >> read_from_port dword config_data_port)

unfoldable pub write : PciAddress → ℕ → ℕ → Io (Unit {0})
write address offset value =
    if not (bit_and offset 0b11 == 0)
    then panic (message "Try to write pci with unaligned offset")
    else (write_to_port dword config_address_port (select address offset)
        >> write_to_port dword config_data_port value)

unfoldable pub function_exists : PciAddress → Io Bool
function_exists address = read address 0 >>= λ value. pure (not (bit_and value 0xFFFF == 0xFFFF))

abbrev pub address_of : ℕ → ℕ → ℕ → PciAddress
address_of bus device function = record {
  segment = 0;
  bus = bus;
  device = device;
  function = function;
}

-- The three loops of `brute_force_find`, each with `n` rounds left.
unfoldable pub find_function : ℕ → ℕ → ℕ → ℕ → List PciAddress → Io (List PciAddress)
find_function bus device zero function results = pure results
find_function bus device (suc n) function results =
    let address = address_of bus device function in
    function_exists address >>= λ found.
    find_function bus device n (suc function) (if found then results ++ address ∷ [] else results)

unfoldable pub find_device : ℕ → ℕ → ℕ → List PciAddress → Io (List PciAddress)
find_device bus zero device results = pure results
find_device bus (suc n) device results =
    find_function bus device 8 0 results >>= λ more. find_device bus n (suc device) more

unfoldable pub find_bus : ℕ → ℕ → List PciAddress → Io (List PciAddress)
find_bus zero bus results = pure results
find_bus (suc n) bus results = find_device bus 32 0 results >>= λ more. find_bus n (suc bus) more

unfoldable pub brute_force_find : Io (List PciAddress)
brute_force_find = find_bus 256 0 []
