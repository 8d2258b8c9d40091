-- ===== src/Apic/RedirEntry.antt =====
-- `RedirEntry` of src/apic.rs: an entry of the redirection table, a `u64`. A `|=` or `^=` of the
-- source gives the new entry.
pub mod Laws
pub mod Debug
use capucho_os.Base.{
  ℕ, ◌≡◌, Bool, true, false, not, Run, ret, panics, message, bit_and, bit_or, bit_xor, u8, ◌<<<◌,
  ◌>>>◌, ◌==◌, if◌then◌else◌,
}

pub data DeliveryMode : Type 0 where
  normal low_priority sm_interrupt nm_interrupt init external reserved : DeliveryMode

-- `mode as u64`.
abbrev pub as_bit : Bool → ℕ
as_bit true = 1
as_bit false = 0

-- `RedirEntry::new`.
unfoldable pub new : ℕ → ℕ
new vector = vector

unfoldable pub vector : ℕ → ℕ
vector e = u8 (bit_and e 0xFF)

unfoldable pub set_vector : ℕ → ℕ → ℕ
set_vector e v = bit_or e v

unfoldable pub delivery_mode : ℕ → DeliveryMode
delivery_mode e =
    let bits = bit_and (e >>> 8) 0b111 in
    if bits == 0
    then normal
    else if bits == 1
    then low_priority
    else if bits == 2
    then sm_interrupt
    else if bits == 4
    then nm_interrupt
    else if bits == 5
    then init
    else if bits == 7
    then external
    else reserved

abbrev pub mode_bits : DeliveryMode → Run ℕ
mode_bits normal = ret 0
mode_bits low_priority = ret 1
mode_bits sm_interrupt = ret 2
mode_bits nm_interrupt = ret 4
mode_bits init = ret 5
mode_bits external = ret 7
mode_bits reserved = panics (message "Cannot use a reserved mode")

unfoldable pub set_delivery_mode : ℕ → DeliveryMode → Run ℕ
set_delivery_mode e mode = elim (mode_bits mode) [
  | panics p ↦ panics p
  | ret bits ↦ ret (bit_or (bit_xor e (0b111 <<< 8)) (bits <<< 8))
]

unfoldable pub logical_mode : ℕ → Bool
logical_mode e = not (bit_and (e >>> 11) 1 == 0)

unfoldable pub set_logical_mode : ℕ → Bool → ℕ
set_logical_mode e mode = bit_or (bit_xor e (1 <<< 11)) (as_bit mode <<< 11)

unfoldable pub is_busy : ℕ → Bool
is_busy e = not (bit_and (e >>> 12) 1 == 0)

unfoldable pub low_is_active : ℕ → Bool
low_is_active e = not (bit_and (e >>> 13) 1 == 0)

unfoldable pub set_low_is_active : ℕ → Bool → ℕ
set_low_is_active e mode = bit_or (bit_xor e (1 <<< 13)) (as_bit mode <<< 13)

unfoldable pub lapic_responded : ℕ → Bool
lapic_responded e = bit_and (e >>> 14) 1 == 0

unfoldable pub level_sensitive : ℕ → Bool
level_sensitive e = not (bit_and (e >>> 15) 1 == 0)

unfoldable pub set_level_sensitive : ℕ → Bool → ℕ
set_level_sensitive e mode = bit_or (bit_xor e (1 <<< 15)) (as_bit mode <<< 15)

unfoldable pub masked : ℕ → Bool
masked e = not (bit_and (e >>> 16) 1 == 0)

unfoldable pub set_masked : ℕ → Bool → ℕ
set_masked e mode = bit_or (bit_xor e (1 <<< 16)) (as_bit mode <<< 16)

unfoldable pub destination_id : ℕ → ℕ
destination_id e = u8 (bit_and (e >>> 56) 0xF)
