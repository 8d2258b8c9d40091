-- ===== src/Memory/Frames/Search.antt =====
-- The search for a free frame: `recalculate_next_usable` of src/memory/frame_allocator/mod.rs.
use capucho_os.Base.{
  ℕ, suc, ◌≡◌, inl, inr, ◌<◌, ◌≤◌, refl, Bool, true, false, List, [], ◌∷◌, Option, none, some, ret,
  ltb, if◌then◌else◌, arith, Bool-cases, All,
}
use capucho_os.Memory.Frames.Bitmap.{GlobalFrameAllocator, skip_below, find_unused}
use capucho_os.Memory.Frames.Marks.{Covers, used, is_used_lem}
use capucho_os.Memory.Region.Laws.{Member, Rises}

-- The first member of a list from `low` on whose frame is free.
abbrev pub first_free : GlobalFrameAllocator → List ℕ → Option ℕ
first_free this [] = none
first_free this (i ∷ is) = if used this i then first_free this is else some i

abbrev pub found : GlobalFrameAllocator → Option ℕ → Bool × GlobalFrameAllocator
found this none = (false, this)
found this (some i) = (true, record this { next_usable = i })

pub find_unused_lem :
    (this : GlobalFrameAllocator) (is : List ℕ)
    → All (Covers this) is
    → find_unused this is ≡ ret (found this (first_free this is))
unfolding find_unused
find_unused_lem this [] h = refl
find_unused_lem this (i ∷ is) h = elim (Bool-cases (used this i)) [
  | inl e ↦ rw (is_used_lem this i h.0, e) (find_unused_lem this is h.1)
  | inr e ↦ rw (is_used_lem this i h.0, e)
]

pub skip_below-All {ℓ} : (P : ℕ → Type ℓ) (n : ℕ) (is : List ℕ) → All P is → All P (skip_below n is)
unfolding skip_below
skip_below-All P n [] h = tt
skip_below-All P n (i ∷ is) h = elim (Bool-cases (ltb i n)) [
  | inl e ↦ rw e (skip_below-All P n is h.1)
  | inr e ↦ rw e h
]

-- What it means that `o` is the least free frame of a list at or above `low`.
abbrev pub IsLeastFree : GlobalFrameAllocator → List ℕ → ℕ → Option ℕ → Type 0
IsLeastFree this is low none = All (λ j. low ≤ j → used this j ≡ true) is
IsLeastFree this is low (some i) =
    Member i is
    × (low ≤ i)
    × (used this i ≡ false)
    × All (λ j. low ≤ j → j < i → used this j ≡ true) is

IsLeastFree-cons :
    (this : GlobalFrameAllocator) (i low : ℕ) (is : List ℕ) (o : Option ℕ)
    → (low ≤ i → used this i ≡ true)
    → IsLeastFree this is low o
    → IsLeastFree this (i ∷ is) low o
IsLeastFree-cons this i low is none u h = (u, h)
IsLeastFree-cons this i low is (some k) u h = (inr h.0, h.1, h.2, ((λ p q. u p), h.3))

none_below :
    (this : GlobalFrameAllocator) (i low bound : ℕ) (is : List ℕ)
    → i < bound
    → Rises bound is
    → All (λ j. low ≤ j → j < i → used this j ≡ true) is
none_below this i low bound [] h r = tt
none_below this i low bound (j ∷ js) h r =
    ((λ p q. absurd (omega arith)), none_below this i low (suc j) js (omega arith) r.1)

first_free-IsLeastFree :
    (this : GlobalFrameAllocator) (low bound : ℕ) (is : List ℕ)
    → Rises bound is
    → low ≤ bound
    → IsLeastFree this is low (first_free this is)
first_free-IsLeastFree this low bound [] r le = tt
first_free-IsLeastFree this low bound (i ∷ is) r le = elim (Bool-cases (used this i)) [
  | inl e ↦
      let later = first_free-IsLeastFree this low (suc i) is r.1 (omega arith) in
      rw (e, first_free) (IsLeastFree-cons this i low is (first_free this is) (λ _. e) later)
  | inr e ↦ rw e (
    inl refl,
    omega arith,
    e,
    ((λ p q. absurd (omega arith)), none_below this i low (suc i) is (omega arith) r.1),
  )
]

-- Skipping the frames below `n` first makes no difference in a rising list.
pub skip_below-IsLeastFree :
    (this : GlobalFrameAllocator) (n bound : ℕ) (is : List ℕ)
    → Rises bound is
    → IsLeastFree this is n (first_free this (skip_below n is))
unfolding skip_below
skip_below-IsLeastFree this n bound [] r = tt
skip_below-IsLeastFree this n bound (i ∷ is) r = elim (Bool-cases (ltb i n)) [
  | inl e ↦
      rw (e, skip_below)
        (IsLeastFree-cons this i n is _ (λ p. absurd (ground arith))
          (skip_below-IsLeastFree this n (suc i) is r.1))
  | inr e ↦
      rw (e, skip_below)
        (first_free-IsLeastFree this n i (i ∷ is) (omega arith, r.1) (ground arith))
]
