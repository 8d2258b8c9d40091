-- ===== src/Memory/Frames/Marks.antt =====
-- The bitmap operations of src/memory/frame_allocator/mod.rs as operations on a set of frames.
use native.Mathlib.Nat.{one-le-pow, pow-le-pow_right}
use native.Mathlib.Decide.{dec_lt}
use capucho_os.Base.{
  ◌&&◌, panics, ℕ, suc, zero, ◌-◌, ◌*◌, ◌/◌, ◌%◌, ◌^◌, ◌≡◌, ◌≢◌, inl, inr, ◌<◌, ◌≤◌, refl, Bool,
  true, false, not, List, [], ◌∷◌, none, ret, index_out_of_bounds, ◌>>=◌, bit_and, bit_or, u32,
  ◌<<<◌, ◌==◌, get_elem?, get_or, set, length, length-set, get_or-set_self, get_or-set_ne,
  get_elem?-eq-get_or, if◌then◌else◌, arith, Bool-cases, ==_iff, ap, ◌∙◌, ◌||◌,
}
use capucho_os.Base.Bits.{
  test_bit, test_bit-le-one, test_bit-bit_or, test_bit-bit_and, test_bit-pow, test_bit_not,
  bit_and-pow,
}
use capucho_os.Memory.Frames.Bitmap.{
  GlobalFrameAllocator, frame_idx_to_parts, is_used, mark_used, mark_unused,
}

-- The bitmap has a word for the frame.
abbrev pub Covers : GlobalFrameAllocator → ℕ → Type 0
Covers this i = i / 32 < length this.bitmap

abbrev pub word_of : GlobalFrameAllocator → ℕ → ℕ
word_of this i = get_or this.bitmap (i / 32) 0

-- The set of frames that the bitmap stands for.
abbrev pub used : GlobalFrameAllocator → ℕ → Bool
used this i = not (test_bit (word_of this i) (i % 32) == 0)

abbrev pub with_word : GlobalFrameAllocator → ℕ → ℕ → GlobalFrameAllocator
with_word this i w = record this { bitmap = set this.bitmap (i / 32) w }

abbrev pub marked : GlobalFrameAllocator → ℕ → GlobalFrameAllocator
marked this i = with_word this i (bit_or (word_of this i) (2 ^ (i % 32)))

abbrev pub unmarked : GlobalFrameAllocator → ℕ → GlobalFrameAllocator
unmarked this i = with_word this i (bit_and (word_of this i) (2 ^ 32 - 1 - 2 ^ (i % 32)))

parts_lem : (i : ℕ) → (u32 i % 32 ≡ i % 32) × (1 <<< (i % 32) ≡ 2 ^ (i % 32))
parts_lem i = (omega arith, omega arith)

masked_zero : (b p : ℕ) → 1 ≤ p → (b * p == 0) ≡ (b == 0)
masked_zero zero p h = ground arith
masked_zero (suc b) p h = ground (arith, one-le-mul b p h)
  where
    one-le-mul : (b p : ℕ) → 1 ≤ p → 1 ≤ suc b * p
    one-le-mul b p h = grind arith

-- Reading a covered bit does not panic.
pub is_used_lem :
    (this : GlobalFrameAllocator) (i : ℕ) → Covers this i → is_used this i ≡ ret (used this i)
unfolding is_used frame_idx_to_parts
is_used_lem this i h = rw (
  (parts_lem i).0,
  (parts_lem i).1,
  get_elem?-eq-get_or this.bitmap (i / 32) 0 h,
  bit_and-pow (word_of this i) (i % 32),
  masked_zero (test_bit (word_of this i) (i % 32)) (2 ^ (i % 32))
      (one-le-pow (i % 32) 2 (omega arith)),
)

get_elem?-out : (xs : List ℕ) (i : ℕ) → ¬ (i < length xs) → get_elem? xs i ≡ none
get_elem?-out [] i h = refl
get_elem?-out (x ∷ xs) zero h = absurd (h (omega arith))
get_elem?-out (x ∷ xs) (suc i) h = get_elem?-out xs i (λ p. h (omega arith))

-- Outside the bitmap it panics.
is_used_out :
    (this : GlobalFrameAllocator) (i : ℕ)
    → ¬ Covers this i
    → is_used this i ≡ panics index_out_of_bounds
unfolding is_used frame_idx_to_parts
is_used_out this i h = rw (get_elem?-out this.bitmap (i / 32) h)

if-or : (a b : Bool) → (if a then true else b) ≡ (a || b)
if-or true b = refl
if-or false b = refl

if-and : (a b : Bool) → (if a then false else b) ≡ (not a && b)
if-and true b = refl
if-and false b = refl

pub mark_used_lem :
    (this : GlobalFrameAllocator) (i : ℕ) → Covers this i → mark_used this i ≡ ret (marked this i)
unfolding mark_used frame_idx_to_parts
mark_used_lem this i h =
    rw ((parts_lem i).0, (parts_lem i).1, get_elem?-eq-get_or this.bitmap (i / 32) 0 h)

pub mark_unused_lem :
    (this : GlobalFrameAllocator) (i : ℕ)
    → Covers this i
    → mark_unused this i ≡ ret (unmarked this i)
unfolding mark_unused frame_idx_to_parts
mark_unused_lem this i h =
    rw ((parts_lem i).0, (parts_lem i).1, get_elem?-eq-get_or this.bitmap (i / 32) 0 h)

pub Covers-with_word :
    (this : GlobalFrameAllocator) (i w j : ℕ) → Covers this j → Covers (with_word this i w) j
Covers-with_word this i w j h = rw (length-set this.bitmap (i / 32) w) h

-- A set bit of another frame is not touched.
used-with_word :
    (this : GlobalFrameAllocator) (i w j : ℕ) (b : Bool)
    → Covers this i
    → ((i ≡ j) → not (test_bit w (j % 32) == 0) ≡ b)
    → (i / 32 ≡ j / 32 → i ≢ j → test_bit w (j % 32) ≡ test_bit (word_of this i) (j % 32))
    → used (with_word this i w) j ≡ (if i == j then b else used this j)
used-with_word this i w j b h same other = elim (Bool-cases (i == j)) [
  | inl e ↦
      let eq : i ≡ j = (==_iff i j).0 e in
      let word : i / 32 ≡ j / 32 = ap (λ (t : ℕ). t / 32) eq in
      rw (e, ← word, get_or-set_self this.bitmap (i / 32) w 0 h) (same eq)
  | inr e ↦ rw e (elim (Bool-cases (i / 32 == j / 32)) [
    | inl f ↦
        let word : i / 32 ≡ j / 32 = (==_iff (i / 32) (j / 32)).0 f in
        rw (← word, get_or-set_self this.bitmap (i / 32) w 0 h)
          (ap (λ (t : ℕ). not (t == 0)) (other word (ground arith)))
    | inr f ↦ rw (get_or-set_ne this.bitmap (i / 32) (j / 32) w 0 (ground arith))
  ])
]

-- Marking puts one frame into the set and changes no other.
pub used-marked :
    (this : GlobalFrameAllocator) (i j : ℕ)
    → Covers this i
    → used (marked this i) j ≡ (if i == j then true else used this j)
used-marked this i j h =
    let w = word_of this i in
    used-with_word this i (bit_or w (2 ^ (i % 32))) j true h
      (λ e.
        ground (arith, test_bit-bit_or w (2 ^ (i % 32)) (j % 32), test_bit-pow (i % 32) (j % 32)))
      (λ e ne.
        ground (arith, test_bit-bit_or w (2 ^ (i % 32)) (j % 32), test_bit-pow (i % 32) (j % 32)))

-- Unmarking takes one frame out of the set and changes no other.
pub used-unmarked :
    (this : GlobalFrameAllocator) (i j : ℕ)
    → Covers this i
    → used (unmarked this i) j ≡ (if i == j then false else used this j)
used-unmarked this i j h =
    let w = word_of this i in
    let mask = 2 ^ 32 - 1 - 2 ^ (i % 32) in
    let few : 2 ^ (i % 32) ≤ 2 ^ 31 =
      pow-le-pow_right {n = 2} (omega arith) {j = 31} (omega arith) in
    let small : 2 ^ (i % 32) < 2 ^ 32 = omega arith in
    let flipped : test_bit mask (j % 32) ≡ 1 - test_bit (2 ^ (i % 32)) (j % 32) =
      test_bit_not 32 (2 ^ (i % 32)) (j % 32) small (omega arith) in
    used-with_word this i (bit_and w mask) j false h
      (λ e.
        ground (arith, flipped, test_bit-bit_and w mask (j % 32), test_bit-pow (i % 32) (j % 32)))
      (λ e ne. ground (
        arith,
        flipped,
        test_bit-le-one w (j % 32),
        test_bit-bit_and w mask (j % 32),
        test_bit-pow (i % 32) (j % 32),
      ))

-- After marking frame `i`, a frame `j` is in use exactly if it is `i` or was in use before; a `j`
-- beyond the bitmap panics before and after.
is_used-mark_used :
    (this : GlobalFrameAllocator) (i j : ℕ)
    → Covers this i
    → (mark_used this i >>= λ t. is_used t j) ≡ (is_used this j >>= λ b. ret (i == j || b))
is_used-mark_used this i j h =
    rw (mark_used_lem this i h) (elim (dec_lt (j / 32) (length this.bitmap)) [
      | yes p ↦
          rw (is_used_lem this j p, is_used_lem (marked this i) j (Covers-with_word this i _ j p))
            (ap ret (used-marked this i j h ∙ if-or (i == j) (used this j)))
      | no p ↦ rw (
        is_used_out this j p,
        is_used_out (marked this i) j (rw (length-set this.bitmap (i / 32) _) p),
      )
    ])

-- After unmarking frame `i`, a frame `j` is in use exactly if it is not `i` and was in use before; a
-- `j` beyond the bitmap panics before and after.
is_used-mark_unused :
    (this : GlobalFrameAllocator) (i j : ℕ)
    → Covers this i
    → (mark_unused this i >>= λ t. is_used t j) ≡ (is_used this j >>= λ b. ret (not (i == j) && b))
is_used-mark_unused this i j h =
    rw (mark_unused_lem this i h) (elim (dec_lt (j / 32) (length this.bitmap)) [
      | yes p ↦
          rw (is_used_lem this j p, is_used_lem (unmarked this i) j (Covers-with_word this i _ j p))
            (ap ret (used-unmarked this i j h ∙ if-and (i == j) (used this j)))
      | no p ↦ rw (
        is_used_out this j p,
        is_used_out (unmarked this i) j (rw (length-set this.bitmap (i / 32) _) p),
      )
    ])

-- After marking frame `i`, which the bitmap covers, a frame `j` is in use exactly if it is `i` or was in
-- use before; after unmarking it, exactly if it is not `i` and was in use before. A `j` beyond the
-- bitmap panics before and after.
pub is_used-marks :
    (this : GlobalFrameAllocator) (i j : ℕ)
    → Covers this i
    → ((mark_used this i >>= λ t. is_used t j) ≡ (is_used this j >>= λ b. ret (i == j || b)))
      × ((mark_unused this i >>= λ t. is_used t j)
          ≡ (is_used this j >>= λ b. ret (not (i == j) && b)))
is_used-marks this i j h = (is_used-mark_used this i j h, is_used-mark_unused this i j h)
