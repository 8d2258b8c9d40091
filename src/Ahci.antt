-- ===== src/Ahci.antt =====
-- src/ahci.rs: the register block of an AHCI host bus adapter. A register is a number of 32 bits; the
-- reserved and the vendor words, which no function touches, are lists.
mod Tests
pub mod Ports
pub mod Flags
pub mod Debug
use capucho_os.Base.{
  ℕ, zero, suc, ◌+◌, ◌*◌, ◌/◌, ◌%◌, ◌^◌, ◌≡◌, Bool, true, false, not, List, [], ◌∷◌, ◌++◌, Option,
  none, some, Run, ret, check, or_panic, ◌>>=◌, ◌>>◌, index_out_of_bounds, message, bit_and, bit_or,
  u8, u32, u64, ◌<<<◌, ◌>>>◌, ◌==◌, ltb, leb, if◌then◌else◌, length, take, get_elem?,
}

pub data InterfaceSpeed : Type 0 where
  gen1 gen2 gen3 reserved : InterfaceSpeed

pub data InterfacePowerManagement : Type 0 where
  no_device active partial slumber dev_sleep reserved : InterfacePowerManagement

pub data DeviceDetection : Type 0 where
  no_device device_no_phy device interface_disabled reserved : DeviceDetection

-- `InterfaceSpeed::from`, `InterfacePowerManagement::from` and `DeviceDetection::from`.
unfoldable pub speed_from : ℕ → InterfaceSpeed
speed_from bits =
    if bits == 0
    then InterfaceSpeed.reserved
    else if bits == 0b0001
    then gen1
    else if bits == 0b0010
    then gen2
    else if bits == 0b0011
    then gen3
    else InterfaceSpeed.reserved

unfoldable pub power_management_from : ℕ → InterfacePowerManagement
power_management_from bits =
    if bits == 0
    then InterfacePowerManagement.no_device
    else if bits == 0b0001
    then active
    else if bits == 0b0010
    then partial
    else if bits == 0b0110
    then slumber
    else if bits == 0b1000
    then dev_sleep
    else InterfacePowerManagement.reserved

unfoldable pub detection_from : ℕ → DeviceDetection
detection_from bits =
    if bits == 0
    then DeviceDetection.no_device
    else if bits == 0b0001
    then device_no_phy
    else if bits == 0b0011
    then device
    else if bits == 0b0100
    then interface_disabled
    else DeviceDetection.reserved

unfoldable pub has_device : DeviceDetection → Bool
has_device device = true
has_device device_no_phy = true
has_device _ = false

-- The functions of `HBACapabilities`, on its bits.
unfoldable pub number_of_ports : ℕ → ℕ
number_of_ports cap = u8 (bit_and cap 0b11111)

unfoldable pub number_of_cmd_slots : ℕ → ℕ
number_of_cmd_slots cap = u8 (bit_and (cap >>> 8) 0b11111)

unfoldable pub cap_if_speed : ℕ → InterfaceSpeed
cap_if_speed cap = speed_from (bit_and (cap >>> 20) 0b1111)

-- The functions of `StatusPort`, on its number.
unfoldable pub if_speed : ℕ → InterfaceSpeed
if_speed status = speed_from (bit_and (status >>> 4) 0b1111)

unfoldable pub if_power_management : ℕ → InterfacePowerManagement
if_power_management status = power_management_from (bit_and (status >>> 8) 0b1111)

unfoldable pub detection : ℕ → DeviceDetection
detection status = detection_from (bit_and status 0b1111)

pub record HbaPortRegisters : Type 0 where
  pub clb : ℕ
  pub clbu : ℕ
  pub fb : ℕ
  pub fbu : ℕ
  pub int_status : ℕ
  pub int_enable : ℕ
  pub cmd : ℕ
  pub reserved_0 : ℕ
  pub tfd : ℕ
  pub sig : ℕ
  pub ssts : ℕ
  pub sctl : ℕ
  pub serr : ℕ
  pub sact : ℕ
  pub cmd_issue : ℕ
  pub sntf : ℕ
  pub fbs : ℕ
  pub reserved_1 : List ℕ
  pub vendor : List ℕ

unfoldable pub cmd_list_addr : HbaPortRegisters → ℕ
cmd_list_addr this = bit_or (u64 (this.clbu <<< 32)) this.clb

unfoldable pub set_cmd_list_addr : HbaPortRegisters → ℕ → Run HbaPortRegisters
set_cmd_list_addr this addr =
    check (bit_and addr 0x3FF == 0) (message "Address must be 1K aligned")
    >> ret (record this { clb = u32 addr; clbu = u32 (addr >>> 32) })

unfoldable pub fis_addr : HbaPortRegisters → ℕ
fis_addr this = bit_or (u64 (this.fbu <<< 32)) this.fb

unfoldable pub set_fb_list_addr : HbaPortRegisters → ℕ → Run HbaPortRegisters
set_fb_list_addr this addr =
    check (bit_and addr 0x3FF == 0) (message "Address must be 1K aligned")
    >> ret (record this { fb = u32 addr; fbu = u32 (addr >>> 32) })

-- `ports` has the 32 places of the array.
pub record HbaMemoryRegisters : Type 0 where
  pub cap : ℕ
  pub ghc : ℕ
  pub int_status : ℕ
  pub port_implemented : ℕ
  pub version : ℕ
  pub ccc_ctl : ℕ
  pub ccc_ports : ℕ
  pub em_loc : ℕ
  pub em_ctl : ℕ
  pub cap_ext : ℕ
  pub bohc : ℕ
  pub reserved_0 : List ℕ
  pub vendor : List ℕ
  pub ports : List HbaPortRegisters

-- `get_port` and `get_port_mut`: the port that the reference is to.
unfoldable pub get_port : HbaMemoryRegisters → ℕ → Run (Option HbaPortRegisters)
get_port this idx =
    check (ltb idx 32) (message "There are only 32 ports")
    >> (if bit_and (this.port_implemented >>> idx) 1 == 1
        then (or_panic index_out_of_bounds (get_elem? this.ports idx) >>= λ port. ret (some port))
        else ret none)

-- `count_ones` of a number of `w` bits.
abbrev pub count_ones : ℕ → ℕ → ℕ
count_ones zero bits = 0
count_ones (suc w) bits = bits % 2 + count_ones w (bits / 2)

unfoldable pub port_count : HbaMemoryRegisters → ℕ
port_count this = count_ones 32 this.port_implemented

-- `port_slice` and `port_slice_mut`.
unfoldable pub port_slice : HbaMemoryRegisters → Run (List HbaPortRegisters)
port_slice this =
    let count = port_count this in
    check (leb count (length this.ports)) index_out_of_bounds >> ret (take count this.ports)
