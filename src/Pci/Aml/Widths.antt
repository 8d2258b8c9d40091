-- ===== src/Pci/Aml/Widths.antt =====
-- The bytes that the 8-bit and 16-bit accesses of src/acpi/handlers.rs reach.
use capucho_os.Base.{
  ap, ℕ, zero, suc, ◌*◌, ◌/◌, ◌%◌, ◌^◌, ◌≡◌, ◌<◌, List, ◌∷◌, ret, bit_and, arith, ◌∙◌,
}
use capucho_os.Base.Bits.{test_bit, test_bit_ext, test_bit-bit_and, test_bit-zero}
use capucho_os.Base.Shifts.{bit_and-mask, test_bit-mod, test_bit_lem}
use capucho_os.Base.Io.{dword, Event, port_write, port_read, Machine}
use capucho_os.Pci.{PciAddress, select, read, config_address_port, config_data_port}
use capucho_os.Pci.Find.{ServesConfig}
use capucho_os.Pci.Aml.{AddressCrate, read_pci_u8, read_pci_u16}

two_clear : (k : ℕ) → k < 2 → test_bit 0xFFFC k ≡ 0
two_clear zero h = test_bit_lem 0xFFFC 0
two_clear (suc zero) h = test_bit_lem 0xFFFC 1
two_clear (suc (suc k)) h = absurd (omega arith)

-- `offset & 0xFFFC` passes the test for an aligned offset.
aligned : (offset : ℕ) → bit_and (bit_and offset 0xFFFC) 0b11 ≡ 0
aligned offset =
    bit_and-mask 2 (bit_and offset 0xFFFC)
    ∙ test_bit_ext 2 (bit_and offset 0xFFFC % 4) 0 (omega arith) (omega arith) (λ k h. omega (
      arith,
      test_bit-mod 2 (bit_and offset 0xFFFC) k h,
      test_bit-bit_and offset 0xFFFC k,
      two_clear k h,
      test_bit-zero k,
    ))

-- The register of the address that `offset` lies in.
abbrev pub register_of : (ℕ → ℕ) → PciAddress → ℕ → ℕ
register_of registers address offset = registers (select address (bit_and offset 0xFFFC)) % 2 ^ 32

abbrev pub whole_address : ℕ → ℕ → ℕ → ℕ → PciAddress
whole_address segment bus device function = record {
  segment = segment;
  bus = bus;
  device = device;
  function = function;
}

module _ (crate : AddressCrate) (mach : Machine) (registers : ℕ → ℕ)
    (serves : ServesConfig mach registers) where
  abbrev read_log : PciAddress → ℕ → List Event → List Event
  read_log address offset past =
      port_read dword config_data_port (register_of registers address offset)
      ∷ port_write dword config_address_port (select address (bit_and offset 0xFFFC))
      ∷ past

  -- On registers that do not change, for a device below 32 and a function below 8, which an address
  -- can hold, neither read panics: `read_pci_u8` gives the byte of the register at `offset % 4`, but
  -- `read_pci_u16` gives the low half of the register at every even offset.
  pub read_pci_narrow :
      (segment bus device function offset : ℕ) (past : List Event)
      → device < 32
      → function < 8
      → offset % 2 ≡ 0
      → (log : List Event) × (read_pci_u8 crate segment bus device function offset mach past
          ≡ ret (
            register_of registers (whole_address segment bus device function) offset
                / 2 ^ (offset % 4 * 8)
                % 256,
            log,
          ))
        × (read_pci_u16 crate segment bus device function offset mach past
            ≡ ret (
              register_of registers (whole_address segment bus device function) offset % 2 ^ 16,
              log,
            ))
  unfolding read_pci_u8 read_pci_u16 read
  read_pci_narrow segment bus device function offset past d f even =
      let address = whole_address segment bus device function in
      let selector = select address (bit_and offset 0xFFFC) in
      let made = crate.new_lem segment bus device function d f in
      (
        read_log address offset past,
        rw (made, aligned offset, serves past selector),
        rw (made, aligned offset, even, serves past selector)
            (ap (λ v. ret (v, read_log address offset past)) (omega arith)),
      )
