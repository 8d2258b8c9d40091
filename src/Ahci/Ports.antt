-- ===== src/Ahci/Ports.antt =====
-- The addresses and the ports of src/ahci.rs.
use capucho_os.Base.{
  ◌-◌, ℕ, zero, suc, ◌/◌, ◌%◌, ◌^◌, ◌≡◌, ◌≤◌, ◌<◌, true, List, [], ◌∷◌, none, ret, ◌>>=◌,
  if◌then◌else◌, ltb, bit_and, length, take, get_elem?, arith, Bool-cases, inl, inr, leb, sym, ◌∙◌,
}
use capucho_os.Base.Slices.{some_elem}
use capucho_os.Base.Bits.{pow-pos, test_bit, test_bit_not, test_bit-zero, test_bit_above}
use capucho_os.Base.Shifts.{test_bit_lem, bit_and-mask, bit_or-halves}
use capucho_os.Ahci.{
  HbaPortRegisters, HbaMemoryRegisters, cmd_list_addr, set_cmd_list_addr, fis_addr,
  set_fb_list_addr, get_port, port_count, count_ones, port_slice,
}

abbrev pub addresses : HbaPortRegisters → ℕ × ℕ
addresses p = (cmd_list_addr p, fis_addr p)

-- For a 64-bit address that is 1K aligned, the setter of either address does not panic, its getter
-- gives the address afterwards, and the other address is as before.
pub address_setters :
    (this : HbaPortRegisters) (addr : ℕ)
    → addr < 2 ^ 64
    → addr % 1024 ≡ 0
    → ((set_cmd_list_addr this addr >>= λ p. ret (addresses p)) ≡ ret (addr, fis_addr this))
      × ((set_fb_list_addr this addr >>= λ p. ret (addresses p)) ≡ ret (cmd_list_addr this, addr))
unfolding cmd_list_addr set_cmd_list_addr fis_addr set_fb_list_addr
address_setters this addr h aligned = (
  rw (bit_and-mask 10 addr, aligned, bit_or-halves addr h),
  rw (bit_and-mask 10 addr, aligned, bit_or-halves addr h),
)

shifted_bit : (k n : ℕ) → bit_and (n / 2 ^ k) 1 ≡ test_bit n k
shifted_bit k n = bit_and-mask 1 (n / 2 ^ k) ∙ sym (test_bit_lem n k)

abbrev low_ones : ℕ → ℕ
low_ones n = 2 ^ n - 1

count_ones-low : (w n : ℕ) → n ≤ w → count_ones w (low_ones n) ≡ n
count_ones-low zero n h = omega arith
count_ones-low (suc w) zero h = omega (arith, count_ones-low w 0 (omega arith))
count_ones-low (suc w) (suc n) h =
    let half : (2 ^ suc n - 1) / 2 ≡ 2 ^ n - 1 = omega (arith, pow-pos n) in
    let odd : (2 ^ suc n - 1) % 2 ≡ 1 = omega (arith, pow-pos n) in
    rw (half, odd, count_ones-low w n (omega arith)) (omega arith)

test_bit-low : (n k : ℕ) → test_bit (low_ones n) k ≡ (if ltb k n then 1 else 0)
test_bit-low n k = elim (Bool-cases (ltb k n)) [
  | inl e ↦
      let p : k < n = ground arith in
      let none_below : 2 ^ n - 1 - 0 ≡ 2 ^ n - 1 = omega arith in
      rw e (rw none_below at (test_bit_not n 0 k (pow-pos n) p) ∙ rw (test_bit-zero k))
  | inr e ↦ rw e (test_bit_above n (2 ^ n - 1) k (omega (arith, pow-pos n)) (ground arith))
]

get_elem?-take {ℓ} :
    {A : Type ℓ} (n : ℕ) (xs : List A) (i : ℕ)
    → get_elem? (take n xs) i ≡ (if ltb i n then get_elem? xs i else none)
get_elem?-take zero xs i = ground arith
get_elem?-take (suc n) [] i = ground arith
get_elem?-take (suc n) (x ∷ xs) zero = ground arith
get_elem?-take (suc n) (x ∷ xs) (suc i) = ground (arith, get_elem?-take n xs i)

-- With 32 places for ports, of which the first `n` are the implemented ones, `port_slice` does not
-- panic and its port at every index below 32 is what `get_port` gives for that index.
pub port_slice-get_port :
    (this : HbaMemoryRegisters) (n idx : ℕ)
    → length this.ports ≡ 32
    → n ≤ 32
    → this.port_implemented ≡ 2 ^ n - 1
    → idx < 32
    → (port_slice this >>= λ ports. ret (get_elem? ports idx)) ≡ get_port this idx
unfolding port_slice port_count get_port
port_slice-get_port this n idx full h e i =
    let fits : leb n (length this.ports) ≡ true = ground arith in
    let below : ltb idx 32 ≡ true = ground arith in
    let (port, at) = some_elem this.ports idx (omega (arith, full)) in
    rw
      (
        e,
        count_ones-low 32 n h,
        fits,
        below,
        get_elem?-take n this.ports idx,
        shifted_bit idx (2 ^ n - 1),
        test_bit-low n idx,
        at,
      )
      (elim (Bool-cases (ltb idx n)) [ inl p ↦ rw p | inr p ↦ rw p ])
