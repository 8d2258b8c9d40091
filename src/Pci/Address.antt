-- ===== src/Pci/Address.antt =====
-- The configuration addresses of src/pci.rs.
use capucho_os.Base.{ℕ, ◌+◌, ◌*◌, ◌%◌, ◌^◌, ◌≡◌, ◌<◌, arith, sym, ◌∙◌}
use capucho_os.Base.Shifts.{bit_and-mask, bit_or-shifted, bit_or-below}
use capucho_os.Pci.{PciAddress, config_address, select}

-- An address that the two ports can name.
pub record IsAddress (address : PciAddress) : Type 0 where
  pub bus_bound : address.bus < 256
  pub device_bound : address.device < 32
  pub function_bound : address.function < 8

select_lem :
    (address : PciAddress) (offset : ℕ)
    → IsAddress address
    → offset < 256
    → select address offset
      ≡ (0x800000 + address.bus * 2 ^ 8 + address.device * 2 ^ 3 + address.function) * 2 ^ 8
        + offset
unfolding select config_address
select_lem address offset v h =
    let b = address.bus in
    let d = address.device in
    let f = address.function in
    let cut_f : f * 2 ^ 8 % 2 ^ 32 ≡ f * 2 ^ 8 = omega (arith, v.function_bound) in
    let cut_d : d * 2 ^ 11 % 2 ^ 32 ≡ d * 2 ^ 11 = omega (arith, v.device_bound) in
    let cut_b : b * 2 ^ 16 % 2 ^ 32 ≡ b * 2 ^ 16 = omega (arith, v.bus_bound) in
    let all : 1 * 2 ^ 31 + (b * 2 ^ 16 + (d * 2 ^ 11 + f * 2 ^ 8))
        ≡ (0x800000 + b * 2 ^ 8 + d * 2 ^ 3 + f) * 2 ^ 8 =
      omega arith in
    rw
      (
        cut_f,
        cut_d,
        cut_b,
        bit_or-below 11 d (f * 2 ^ 8) (omega (arith, v.function_bound)),
        bit_or-below 16 b (d * 2 ^ 11 + f * 2 ^ 8)
            (omega (arith, v.function_bound, v.device_bound)),
        bit_or-below 31 1 (b * 2 ^ 16 + (d * 2 ^ 11 + f * 2 ^ 8))
            (omega (arith, v.function_bound, v.device_bound, v.bus_bound)),
        all,
        bit_and-mask 8 offset,
      )
      (let low : offset % 2 ^ 8 ≡ offset = omega arith in
        rw low (bit_or-shifted 8 (0x800000 + b * 2 ^ 8 + d * 2 ^ 3 + f) offset (omega arith)))

-- Two addresses within the bounds, with offsets below 256, that write the same value to the address
-- port are the same in bus, device and function, and so are the offsets.
pub select_injective :
    (x y : PciAddress) (offset_x offset_y : ℕ)
    → IsAddress x
    → IsAddress y
    → offset_x < 256
    → offset_y < 256
    → select x offset_x ≡ select y offset_y
    → (x.bus ≡ y.bus) × (x.device ≡ y.device) × (x.function ≡ y.function) × (offset_x ≡ offset_y)
select_injective x y p q vx vy hp hq e =
    let same = sym (select_lem x p vx hp) ∙ e ∙ select_lem y q vy hq in
    let low : p ≡ q = omega (arith, same) in
    let function : x.function ≡ y.function =
      omega (arith, same, vx.function_bound, vy.function_bound) in
    let device : x.device ≡ y.device =
      omega (arith, same, vx.function_bound, vy.function_bound, vx.device_bound, vy.device_bound) in
    (omega (arith, same), device, function, low)
