-- ===== src/Pci/Tests.antt =====
-- A bus with one device, and concrete addresses.
use capucho_os.Base.{
  Run, panics, overflow, ltb, ◌&&◌, ◌<◌, true, ℕ, ◌/◌, ◌^◌, ◌%◌, ◌≡◌, refl, List, [], ◌∷◌, ret,
  arith, ◌==◌, if◌then◌else◌,
}
use capucho_os.Base.Io.{
  Event, Machine, port_write, port_read, mem_write, mem_read, halt, sized_write, sized_read,
  instruction, serial_sent,
}
use capucho_os.Pci.{PciAddress, address_of, brute_force_find, config_address_port}
use capucho_os.Pci.Address.{IsAddress, select_injective}
use capucho_os.Pci.Find.{present_from, brute_force_find-present}
use capucho_os.Pci.Aml.{AddressCrate, read_pci_u8, read_pci_u16}
use capucho_os.Pci.Aml.Widths.{read_pci_narrow, register_of, whole_address}

abbrev disk : PciAddress
disk = address_of 0 31 2

-- The offset of a register of the disk.
abbrev bar : ℕ
bar = 0x24

disk-IsAddress : IsAddress disk
disk-IsAddress = record {
  bus_bound = omega arith;
  device_bound = omega arith;
  function_bound = omega arith;
}

-- The disk answers with its vendor, nobody else does.
abbrev registers : ℕ → ℕ
registers selector = if selector == 0x8000FA00 then 0x29228086 else 0xFFFFFFFF

-- What the address port was last given.
abbrev selector_of : List Event → ℕ
selector_of [] = 0
selector_of (port_write w port v ∷ past) =
    let old = selector_of past in if port == config_address_port then v else old
selector_of (port_read w port v ∷ past) = selector_of past
selector_of (mem_write a v ∷ past) = selector_of past
selector_of (mem_read a v ∷ past) = selector_of past
selector_of (halt ∷ past) = selector_of past
selector_of (sized_write size addr v ∷ past) = selector_of past
selector_of (sized_read size addr v ∷ past) = selector_of past
selector_of (instruction i ∷ past) = selector_of past
selector_of (serial_sent b ∷ past) = selector_of past

abbrev bus : Machine
bus = record {
  port_value = λ past w port. registers (selector_of past);
  mem_value = λ past a. 0;
  sized_value = λ past size a. 0;
}

select_injective_example :
    (disk.bus ≡ disk.bus)
    × (disk.device ≡ disk.device)
    × (disk.function ≡ disk.function)
    × (bar ≡ bar)
select_injective_example =
    select_injective disk disk bar bar disk-IsAddress disk-IsAddress (omega arith) (omega arith)
      refl

brute_force_find-present_example :
    (log : List Event) × (brute_force_find bus [] ≡ ret (present_from registers 0 65536, log))
brute_force_find-present_example = brute_force_find-present bus registers (λ past selector. refl) []

-- The crate's constructor, which refuses what does not fit.
unfoldable new_address : ℕ → ℕ → ℕ → ℕ → Run PciAddress
new_address segment bus device function =
    if ltb device 32 && ltb function 8
    then ret (whole_address segment bus device function)
    else panics overflow

new_address_lem :
    (segment bus device function : ℕ)
    → device < 32
    → function < 8
    → new_address segment bus device function ≡ ret (whole_address segment bus device function)
unfolding new_address
new_address_lem segment bus device function d f =
    let d' : ltb device 32 ≡ true = ground arith in
    let f' : ltb function 8 ≡ true = ground arith in rw (d', f')

abbrev crate : AddressCrate
crate = record { new = new_address; new_lem = new_address_lem }

read_pci_narrow_example :
    (log : List Event) × (read_pci_u8 crate 0 0 31 2 2 bus []
      ≡ ret (register_of registers (whole_address 0 0 31 2) 2 / 2 ^ 16 % 256, log))
    × (read_pci_u16 crate 0 0 31 2 2 bus []
        ≡ ret (register_of registers (whole_address 0 0 31 2) 2 % 2 ^ 16, log))
read_pci_narrow_example =
    read_pci_narrow crate bus registers (λ past selector. refl) 0 0 31 2 2 [] (omega arith)
      (omega arith) refl
