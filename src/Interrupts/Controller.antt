-- ===== src/Interrupts/Controller.antt =====
-- src/interrupts/controller.rs: the chained PICs or the local APIC, by port and register accesses.

use capucho_os.Base.{
  ℕ, ◌+◌, ◌^◌, Bool, Run, ret, panics, overflow, bit_or, ltb, leb, ◌&&◌, if◌then◌else◌,
}
use capucho_os.Base.Io.{
  byte, Io, ◌>>=◌, ◌>>◌, pure, lift, write_to_port, read_from_port, write_volatile, read_volatile,
}

abbrev pub pic1_cmd_port : ℕ
pic1_cmd_port = 0x20

abbrev pub pic1_data_port : ℕ
pic1_data_port = 0x21

abbrev pub pic2_cmd_port : ℕ
pic2_cmd_port = 0xA0

abbrev pub pic2_data_port : ℕ
pic2_data_port = 0xA1

abbrev pub pics_8086_mode : ℕ
pics_8086_mode = 0x01

abbrev pub pics_eoi_cmd : ℕ
pics_eoi_cmd = 0x20

abbrev pub pics_init_cmd : ℕ
pics_init_cmd = 0x11

pub data InterruptController : Type 0 where
  pics : ℕ → ℕ → InterruptController
  apic : ℕ → InterruptController

-- `base_address as usize + offset` must fit in 64 bits.
abbrev pub apic_reg : ℕ → ℕ → Run ℕ
apic_reg base_address offset =
    if ltb (base_address + offset) (2 ^ 64) then ret (base_address + offset) else panics overflow

unfoldable pub read_apic_reg : ℕ → ℕ → Io ℕ
read_apic_reg base_address offset = lift (apic_reg base_address offset) >>= read_volatile

unfoldable pub write_apic_reg : ℕ → ℕ → ℕ → Io (Unit {0})
write_apic_reg base_address offset val =
    lift (apic_reg base_address offset) >>= λ ptr. write_volatile ptr val

unfoldable pub wait : Io (Unit {0})
wait = write_to_port byte 0x80 0

unfoldable pub init_pics : ℕ → ℕ → Io (Unit {0})
init_pics pic1_offset pic2_offset = do
  pic1_mask ← read_from_port byte pic1_data_port
  pic2_mask ← read_from_port byte pic2_data_port
  write_to_port byte pic1_cmd_port pics_init_cmd
  wait
  write_to_port byte pic2_cmd_port pics_init_cmd
  wait
  write_to_port byte pic1_data_port pic1_offset
  wait
  write_to_port byte pic2_data_port pic2_offset
  wait
  write_to_port byte pic1_data_port 2
  wait
  write_to_port byte pic2_data_port 4
  wait
  write_to_port byte pic1_data_port pics_8086_mode
  wait
  write_to_port byte pic2_data_port pics_8086_mode
  wait
  write_to_port byte pic1_data_port pic1_mask
  write_to_port byte pic2_data_port pic2_mask

unfoldable pub init : InterruptController → Io (Unit {0})
init (pics pic1_offset pic2_offset) = init_pics pic1_offset pic2_offset
init (apic base_address) = read_apic_reg base_address 0xF0 >>= λ siv_reg.
    write_apic_reg base_address 0xF0 (bit_or siv_reg 0x100)
    >> (write_to_port byte pic1_data_port 0xFF >> write_to_port byte pic2_data_port 0xFF)

-- `pic_range(offset).contains(&id)`: the end of the range is a `u8`.
unfoldable pub in_pic_range : ℕ → ℕ → Run Bool
in_pic_range offset id =
    if ltb (offset + 8) (2 ^ 8) then ret (leb offset id && ltb id (offset + 8)) else panics overflow

unfoldable pub notify_end_of_interrupt : InterruptController → ℕ → Io (Unit {0})
notify_end_of_interrupt (pics pic1_offset pic2_offset) id =
    lift (in_pic_range pic2_offset id) >>= λ second.
    if second
    then (write_to_port byte pic2_cmd_port pics_eoi_cmd
        >> write_to_port byte pic1_cmd_port pics_eoi_cmd)
    else (lift (in_pic_range pic1_offset id) >>= λ first.
        if first then write_to_port byte pic1_cmd_port pics_eoi_cmd else pure tt)
notify_end_of_interrupt (apic base_address) id = write_apic_reg base_address 0xB0 0

unfoldable pub apic_handover : InterruptController → ℕ → Io InterruptController
apic_handover this base_address = let after = apic base_address in init after >> pure after
