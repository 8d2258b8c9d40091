-- ===== src/Apic/RedirEntry/Laws.antt =====
-- The fields of a redirection entry under the setters of src/apic.rs, bit by bit.
use capucho_os.Base.Dict.{get, put}
use capucho_os.Base.{
  ◌⊎◌, ◌≤◌, ltb, ℕ, ◌≡◌, ◌<◌, ◌+◌, ◌-◌, ◌*◌, ◌/◌, ◌%◌, ◌^◌, max, Bool, true, false, not, ◌||◌, ret,
  ap, sym, ◌∙◌, bit_and, bit_or, bit_xor, ◌<<<◌, ◌>>>◌, ◌==◌, if◌then◌else◌, arith, ==_self,
  Bool-cases, inl, inr,
}
use capucho_os.Base.Bits.{
  bit_or-lt, test_bit_ext, test_bit_above, test_bit_not, test_bit, test_bit-le-one, test_bit-bit_or,
  test_bit-bit_xor, test_bit-pow, test_bit-zero,
}
use capucho_os.Base.Shifts.{
  test_bit-shift_up, test_bit-shift_down, test_bit-mod, test_bit_lem, bit_and-mask,
}
use capucho_os.Apic.RedirEntry.{
  DeliveryMode, as_bit, mode_bits, vector, set_vector, set_delivery_mode, logical_mode,
  set_logical_mode, low_is_active, set_low_is_active, level_sensitive, set_level_sensitive, masked,
  set_masked,
}

-- Bit `k` of an entry, as the getters read it.
abbrev pub flag : ℕ → ℕ → Bool
flag k e = not (test_bit e k == 0)

shifted_bit : (k e : ℕ) → bit_and (e >>> k) 1 ≡ test_bit e k
shifted_bit k e = bit_and-mask 1 (e / 2 ^ k) ∙ sym (test_bit_lem e k)

test_bit-as_bit :
    (k : ℕ) (b : Bool) (j : ℕ) → test_bit (as_bit b <<< k) j ≡ (if k == j then as_bit b else 0)
test_bit-as_bit k true j = let one : 1 * 2 ^ k ≡ 2 ^ k = omega arith in rw one (test_bit-pow k j)
test_bit-as_bit k false j =
    let none_set : 0 * 2 ^ k ≡ 0 = omega arith in rw none_set (test_bit-zero j ∙ ground arith)

-- The setters flip the old bit and add the new one: the bit ends up 1 if either says so.
toggled : ℕ → ℕ → Bool → ℕ
toggled k e b = bit_or (bit_xor e (1 <<< k)) (as_bit b <<< k)

test_bit-toggled :
    (k e : ℕ) (b : Bool) (j : ℕ)
    → test_bit (toggled k e b) j
      ≡ (if k == j then max (1 - test_bit e j) (as_bit b) else test_bit e j)
unfolding toggled
test_bit-toggled k e b j =
    let one : 1 * 2 ^ k ≡ 2 ^ k = omega arith in
    rw
      (
        one,
        test_bit-bit_or (bit_xor e (2 ^ k)) (as_bit b <<< k) j,
        test_bit-bit_xor e (2 ^ k) j,
        test_bit-pow k j,
        test_bit-as_bit k b j,
      )
      (ground (arith, test_bit-le-one e j))

-- What a setter of bit `k` makes of the entry `e` that is given `b`: the bit is set if `b` is true or
-- the bit was clear, it is clear otherwise, and every other bit is as before.
abbrev pub SetsOrFlips : ℕ → (ℕ → Bool) → (ℕ → Bool → ℕ) → ℕ → Bool → Type 0
SetsOrFlips k get put e b =
    (get (put e b) ≡ (b || not (get e)))
    × ((j : ℕ)
        → test_bit (put e b) j ≡ (if k == j then as_bit (b || not (get e)) else test_bit e j))

flag-toggled : (k e : ℕ) (b : Bool) → SetsOrFlips k (flag k) (toggled k) e b
flag-toggled k e b = (
  rw (test_bit-toggled k e b k, ==_self k) (ground (arith, test_bit-le-one e k)),
  λ j. elim (Bool-cases (k == j)) [
    | inl same ↦
        let eq : k ≡ j = ground arith in
        rw (test_bit-toggled k e b j, ← eq, ==_self k) (ground (arith, test_bit-le-one e k))
    | inr other ↦ rw (test_bit-toggled k e b j, other)
  ],
)

-- Each of the four flag setters sets its flag to "given, or clear before", and no other bit: given
-- `false` on a clear flag it sets the flag.
pub flag_setters :
    (e : ℕ) (b : Bool)
    → SetsOrFlips 11 logical_mode set_logical_mode e b
      × SetsOrFlips 13 low_is_active set_low_is_active e b
      × SetsOrFlips 15 level_sensitive set_level_sensitive e b
      × SetsOrFlips 16 masked set_masked e b
flag_setters e b = (
  unfold logical_mode set_logical_mode toggled in
      rw (shifted_bit 11 (set_logical_mode e b), shifted_bit 11 e) (flag-toggled 11 e b),
  unfold low_is_active set_low_is_active toggled in
      rw (shifted_bit 13 (set_low_is_active e b), shifted_bit 13 e) (flag-toggled 13 e b),
  unfold level_sensitive set_level_sensitive toggled in
      rw (shifted_bit 15 (set_level_sensitive e b), shifted_bit 15 e) (flag-toggled 15 e b),
  unfold masked set_masked toggled in
      rw (shifted_bit 16 (set_masked e b), shifted_bit 16 e) (flag-toggled 16 e b),
)

vector_lem : (e : ℕ) → vector e ≡ e % 256
unfolding vector
vector_lem e = rw (bit_and-mask 8 e) (omega arith)

-- `set_vector` adds the bits of the new vector to those of the old one, and changes no bit from 8 on.
pub set_vector_lem :
    (e v : ℕ)
    → v < 256
    → (vector (set_vector e v) ≡ bit_or (vector e) v)
      × ((j : ℕ) → 8 ≤ j → test_bit (set_vector e v) j ≡ test_bit e j)
unfolding set_vector
set_vector_lem e v h =
    let low : bit_or e v % 256 ≡ bit_or (e % 256) v =
      test_bit_ext 8 (bit_or e v % 256) (bit_or (e % 256) v) (omega arith)
        (bit_or-lt 8 (e % 256) v (omega arith) h)
        (λ k p. omega (
          arith,
          test_bit-mod 8 (bit_or e v) k p,
          test_bit-mod 8 e k p,
          test_bit-bit_or e v k,
          test_bit-bit_or (e % 256) v k,
        )) in
    (
      rw (vector_lem (bit_or e v), vector_lem e) low,
      λ j p. omega (arith, test_bit-bit_or e v j, test_bit_above 8 v j h p),
    )

-- The setters leave each other's fields alone.
pub vector-set_masked : (e : ℕ) (b : Bool) → vector (set_masked e b) ≡ vector e
vector-set_masked e b =
    let (_, _, _, mask) = flag_setters e b in
    rw (vector_lem (set_masked e b), vector_lem e)
      (test_bit_ext 8 (set_masked e b % 256) (e % 256) (omega arith) (omega arith) (λ k p.
        let apart : (16 == k) ≡ false = ground arith in
        let same : test_bit (set_masked e b) k ≡ test_bit e k = mask.1 k ∙ rw apart in
        omega (arith, same, test_bit-mod 8 (set_masked e b) k p, test_bit-mod 8 e k p)))

pub masked-set_vector : (e v : ℕ) → v < 256 → masked (set_vector e v) ≡ masked e
unfolding masked
masked-set_vector e v h =
    let same = (set_vector_lem e v h).1 16 (omega arith) in
    rw (shifted_bit 16 (set_vector e v), shifted_bit 16 e, same)

-- The three bits of the delivery mode.
abbrev pub mode_field : ℕ → ℕ
mode_field e = e / 256 % 8

mode_bits-lt : (mode : DeliveryMode) (bits : ℕ) → mode_bits mode ≡ ret bits → bits < 8
mode_bits-lt mode bits h = ground arith

test_bit-mode_field : (e k : ℕ) → k < 3 → test_bit (mode_field e) k ≡ test_bit e (8 + k)
test_bit-mode_field e k h = test_bit-mod 3 (e / 256) k h ∙ test_bit-shift_down 8 e k

flipped_mode : ℕ → ℕ → ℕ
flipped_mode e bits = bit_or (bit_xor e (0b111 <<< 8)) (bits <<< 8)

seven_bits : (k : ℕ) → test_bit 7 k ≡ (if ltb k 3 then 1 else 0)
seven_bits k = elim (Bool-cases (ltb k 3)) [
  | inl e ↦
      let p : k < 3 = ground arith in
      rw e (test_bit_not 3 0 k (omega arith) p ∙ rw (test_bit-zero k))
  | inr e ↦ rw e (test_bit_above 3 7 k (omega arith) (ground arith))
]

test_bit-flipped_mode :
    (e bits j : ℕ)
    → test_bit (flipped_mode e bits) j
      ≡ max
          ((test_bit e j + (if ltb j 8 then 0 else if ltb (j - 8) 3 then 1 else 0)) % 2)
          (if ltb j 8 then 0 else test_bit bits (j - 8))
unfolding flipped_mode
test_bit-flipped_mode e bits j = rw (
  test_bit-bit_or (bit_xor e (7 <<< 8)) (bits <<< 8) j,
  test_bit-bit_xor e (7 <<< 8) j,
  test_bit-shift_up 8 7 j,
  test_bit-shift_up 8 bits j,
  seven_bits (j - 8),
)

-- For every mode but the reserved one, `set_delivery_mode` adds the bits of the mode to the flipped
-- bits of the old mode, and changes no other bit.
set_delivery_mode_lem :
    (e : ℕ) (mode : DeliveryMode) (bits : ℕ)
    → mode_bits mode ≡ ret bits
    → (e' : ℕ) × (set_delivery_mode e mode ≡ ret e')
      × (mode_field e' ≡ bit_or (7 - mode_field e) bits)
      × ((j : ℕ) → (j < 8) ⊎ (11 ≤ j) → test_bit e' j ≡ test_bit e j)
unfolding set_delivery_mode
set_delivery_mode_lem e mode bits h =
    let small = mode_bits-lt mode bits h in
    (
      flipped_mode e bits,
      unfold flipped_mode in rw (h, set_delivery_mode),
      test_bit_ext 3 (mode_field (flipped_mode e bits)) (bit_or (7 - mode_field e) bits)
          (omega arith) (bit_or-lt 3 (7 - mode_field e) bits (omega arith) (omega arith))
          (λ k p. ground (
            arith,
            test_bit-mode_field (flipped_mode e bits) k p,
            test_bit-flipped_mode e bits (8 + k),
            test_bit-mode_field e k p,
            test_bit_not 3 (mode_field e) k (omega arith) p,
            test_bit-bit_or (7 - mode_field e) bits k,
            ap (test_bit bits) (let t : 8 + k - 8 ≡ k = omega arith in t),
            test_bit-le-one e (8 + k),
          )),
      λ j p. ground (
        arith,
        test_bit-flipped_mode e bits j,
        test_bit-le-one e j,
        test_bit_above 3 bits (j - 8) small,
      ),
    )

-- For every mode but the reserved one, `set_delivery_mode` adds the bits of the mode to the flipped
-- bits of the old mode, and changes no other bit; `set_vector` adds the bits of the new vector to those
-- of the old one, and changes no bit from 8 on.
pub set_fields_lem :
    (e : ℕ) (mode : DeliveryMode) (bits v : ℕ)
    → mode_bits mode ≡ ret bits
    → v < 256
    → ((e' : ℕ) × (set_delivery_mode e mode ≡ ret e')
        × (mode_field e' ≡ bit_or (7 - mode_field e) bits)
        × ((j : ℕ) → (j < 8) ⊎ (11 ≤ j) → test_bit e' j ≡ test_bit e j))
      × (vector (set_vector e v) ≡ bit_or (vector e) v)
      × ((j : ℕ) → 8 ≤ j → test_bit (set_vector e v) j ≡ test_bit e j)
set_fields_lem e mode bits v h p =
    let vector_part = set_vector_lem e v p in
    (set_delivery_mode_lem e mode bits h, vector_part.0, vector_part.1)
