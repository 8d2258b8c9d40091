-- ===== src/Memory/Region/Laws.antt =====
-- The list of usable frames of a sorted memory map: rising, and the frames of the usable regions.
use capucho_os.Base.{
  ℕ, suc, zero, ◌+◌, ◌-◌, ◌^◌, ◌≡◌, ◌⊎◌, inl, inr, ◌<◌, ◌≤◌, refl, true, List, [], ◌∷◌, ◌++◌, arith,
  Bool-cases, All, ◌==◌, subst,
}
use capucho_os.Memory.External.{steps}
use capucho_os.Memory.Region.{MemoryRegion, is_usable, usable_frames, IsSorted}

-- The frame lies in a region of type `Usable`.
abbrev pub IsUsableFrame : List MemoryRegion → ℕ → Type 0
IsUsableFrame [] i = ⊥
IsUsableFrame (r ∷ rs) i =
    ((is_usable r.region_type ≡ true)
      × (r.range.start_frame_number ≤ i)
      × (i < r.range.end_frame_number))
    ⊎ IsUsableFrame rs i

abbrev pub Member : ℕ → List ℕ → Type 0
Member a [] = ⊥
Member a (i ∷ is) = (a ≡ i) ⊎ Member a is

-- A list of numbers in strictly rising order, from `low` on.
abbrev pub Rises : ℕ → List ℕ → Type 0
Rises low [] = Unit
Rises low (i ∷ is) = (low ≤ i) × Rises (suc i) is

Rises-mono : (a b : ℕ) (is : List ℕ) → a ≤ b → Rises b is → Rises a is
Rises-mono a b [] le h = tt
Rises-mono a b (i ∷ is) le h = (omega arith, h.1)

Rises-steps :
    (low n a : ℕ) (rest : List ℕ) → low ≤ a → Rises (a + n) rest → Rises low (steps 1 n a ++ rest)
Rises-steps low zero a rest le h = Rises-mono low (a + 0) rest (omega arith) h
Rises-steps low (suc n) a rest le h = (
  le,
  Rises-steps (suc a) n (a + 1) rest (omega arith)
      (Rises-mono (a + 1 + n) (a + suc n) rest (omega arith) h),
)

pub usable_frames-Rises :
    (low : ℕ) (rs : List MemoryRegion) → IsSorted low rs → Rises low (usable_frames rs)
unfolding usable_frames
usable_frames-Rises low [] h = tt
usable_frames-Rises low (r ∷ rs) h =
    let start = r.range.start_frame_number in
    let end = r.range.end_frame_number in
    let rest = usable_frames-Rises end rs h.3 in
    elim (Bool-cases (is_usable r.region_type)) [
      | inl e ↦ rw e (
          Rises-steps low (end - start) start (usable_frames rs) h.0
            (Rises-mono (start + (end - start)) end (usable_frames rs) (omega arith) rest))
      | inr e ↦ rw e (Rises-mono low end (usable_frames rs) (omega arith) rest)
    ]

Member-steps :
    (j n a : ℕ) (rest : List ℕ)
    → Member j (steps 1 n a ++ rest)
    → ((a ≤ j) × (j < a + n)) ⊎ Member j rest
Member-steps j zero a rest m = inr m
Member-steps j (suc n) a rest (inl e) = inl (omega arith, omega arith)
Member-steps j (suc n) a rest (inr m) = elim (Member-steps j n (a + 1) rest m) [
  | inl h ↦ inl (omega arith, omega arith)
  | inr h ↦ inr h
]

pub Member-usable_frames :
    (rs : List MemoryRegion) (j : ℕ) → Member j (usable_frames rs) → IsUsableFrame rs j
unfolding usable_frames
Member-usable_frames [] j m = m
Member-usable_frames (r ∷ rs) j m = elim (Bool-cases (is_usable r.region_type)) [
  | inl e ↦
      let start = r.range.start_frame_number in
      let end = r.range.end_frame_number in
      elim (Member-steps j (end - start) start (usable_frames rs) (rw (e, usable_frames) at m)) [
        | inl h ↦ inl (e, h.0, omega arith)
        | inr h ↦ inr (Member-usable_frames rs j h)
      ]
  | inr e ↦ inr (Member-usable_frames rs j (rw (e, usable_frames) at m))
]

module _ {ℓ} (P : ℕ → Type ℓ) where
  All-append-right : (n a : ℕ) (rest : List ℕ) → All P (steps 1 n a ++ rest) → All P rest
  All-append-right zero a rest h = h
  All-append-right (suc n) a rest h = All-append-right n (a + 1) rest h.1

  All-steps : (j n a : ℕ) (rest : List ℕ) → All P (steps 1 n a ++ rest) → a ≤ j → j < a + n → P j
  All-steps j zero a rest h p q = absurd (omega arith)
  All-steps j (suc n) a rest h p q = elim (Bool-cases (a == j)) [
    | inl e ↦ subst P (ground arith) h.0
    | inr e ↦ All-steps j n (a + 1) rest h.1 (ground arith) (omega arith)
  ]

  -- What holds of every listed frame holds of every frame of a usable region.
  pub All-usable_frames :
      (rs : List MemoryRegion) → All P (usable_frames rs) → (j : ℕ) → IsUsableFrame rs j → P j
  unfolding usable_frames
  All-usable_frames [] h j m = absurd m
  All-usable_frames (r ∷ rs) h j (inl m) =
      let start = r.range.start_frame_number in
      let end = r.range.end_frame_number in
      All-steps j (end - start) start (usable_frames rs) (rw (m.0, usable_frames) at h) m.1
        (omega arith)
  All-usable_frames (r ∷ rs) h j (inr m) = elim (Bool-cases (is_usable r.region_type)) [
    | inl e ↦
        let rest = All-append-right _ _ (usable_frames rs) (rw (e, usable_frames) at h) in
        All-usable_frames rs rest j m
    | inr e ↦ All-usable_frames rs (rw (e, usable_frames) at h) j m
  ]

  All-Member : (is : List ℕ) → ((j : ℕ) → Member j is → P j) → All P is
  All-Member [] h = tt
  All-Member (i ∷ is) h = (h i (inl refl), All-Member is (λ j m. h j (inr m)))

  pub usable_frames-All :
      (rs : List MemoryRegion) → ((j : ℕ) → IsUsableFrame rs j → P j) → All P (usable_frames rs)
  usable_frames-All rs h = All-Member (usable_frames rs) (λ j m. h j (Member-usable_frames rs j m))

pub IsUsableFrame-lt :
    (low : ℕ) (rs : List MemoryRegion) (i : ℕ) → IsSorted low rs → IsUsableFrame rs i → i < 2 ^ 40
IsUsableFrame-lt low (r ∷ rs) i h (inl m) = omega arith
IsUsableFrame-lt low (r ∷ rs) i h (inr m) = IsUsableFrame-lt r.range.end_frame_number rs i h.3 m
IsUsableFrame-lt low [] i h m = absurd m
