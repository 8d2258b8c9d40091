-- ===== src/Memory/Init/Laws.antt =====
-- The account of the bootstrap allocator read as the frames that
-- `GlobalFrameAllocator::init` (src/memory/frame_allocator/mod.rs) marks.
use capucho_os.Base.{
  ℕ, zero, suc, ◌+◌, ◌-◌, ◌≡◌, ◌≤◌, ◌<◌, ◌⊎◌, inl, inr, refl, Bool, true, false, List, [], ◌∷◌,
  some, get_elem?, get_or, replicate, length, ◌||◌, arith, Option-cases, ap, sym, ◌∙◌,
}
use capucho_os.Memory.Region.{MemoryRegion, IsSorted, last_end}
use capucho_os.Memory.Bootstrap.Taken.{taken, taken-le-size, taken_outside, taken-zero}
use capucho_os.Memory.Bootstrap.Invariant.{IsBoot}
use capucho_os.Memory.Init.{slice, new_bootstrap}
use capucho_os.Memory.Init.Marking.{handed_out, Fits, AllBelow}

pub AllBelow-last :
    (low end : ℕ) (rs : List MemoryRegion)
    → IsSorted low rs
    → last_end rs ≡ some end
    → AllBelow end rs
AllBelow-last low end [] s e = tt
AllBelow-last low end (r ∷ []) s e = (ground arith, tt)
AllBelow-last low end (r ∷ q ∷ rs) s e =
    let rest = AllBelow-last r.range.end_frame_number end (q ∷ rs) s.3 e in
    (omega (arith, rest.0, s.3.0, s.3.1), rest)

pub region_bounds :
    (low bound k : ℕ) (rs : List MemoryRegion) (r : MemoryRegion)
    → IsSorted low rs
    → AllBelow bound rs
    → get_elem? rs k ≡ some r
    → (r.range.start_frame_number ≤ r.range.end_frame_number) × (r.range.end_frame_number ≤ bound)
region_bounds low bound k [] r s b e = absurd (cc)
region_bounds low bound zero (q ∷ rs) r s b e = ground arith
region_bounds low bound (suc k) (q ∷ rs) r s b e =
    region_bounds q.range.end_frame_number bound k rs r s.3 b.1 e

pub taken_room :
    (bound b n : ℕ) (map : List MemoryRegion)
    → IsSorted 0 map
    → AllBelow bound map
    → (taken b n 0 map ≡ 0)
      ⊎ ((r : MemoryRegion) × (get_elem? map b ≡ some r)
          × (r.range.start_frame_number + taken b n 0 map ≤ bound))
taken_room bound b n map s below =
    let off : b - 0 ≡ b = omega arith in
    elim (Option-cases (get_elem? map b)) [
      | inl e ↦ inl (taken_outside b n 0 map (omega arith) (rw off e))
      | inr (r, e) ↦
          let bounds = region_bounds 0 bound b map r s below e in
          let few = taken-le-size b n 0 r map (omega arith) (rw off e) in inr (r, e, omega arith)
    ]

pub Fits-taken :
    (bound n block : ℕ) (map : List MemoryRegion) (sizes : List ℕ)
    → IsSorted 0 map
    → AllBelow bound map
    → ((k : ℕ) → get_or sizes k 0 ≡ taken (block + k) n 0 map)
    → Fits map bound block sizes
Fits-taken bound n block map [] s below h = tt
Fits-taken bound n block map (size ∷ sizes) s below h =
    let at : block + 0 ≡ block = omega arith in
    let here : size ≡ taken block n 0 map = h 0 ∙ rw at in
    (
      rw here (taken_room bound block n map s below),
      Fits-taken bound n (suc block) map sizes s below
          (λ k. let next : block + suc k ≡ suc block + k = omega arith in h (suc k) ∙ rw next),
    )

pub handed_out-true :
    (regions : List MemoryRegion) (block k : ℕ) (sizes : List ℕ) (i : ℕ) (r : MemoryRegion)
    → get_elem? regions (block + k) ≡ some r
    → r.range.start_frame_number ≤ i
    → i < r.range.start_frame_number + get_or sizes k 0
    → handed_out regions block sizes i ≡ true
handed_out-true regions block k [] i r e p q = absurd (omega arith)
handed_out-true regions block zero (size ∷ sizes) i r e p q =
    let at : block + 0 ≡ block = omega arith in
    let e' : get_elem? regions block ≡ some r = rw at at e in rw e' (ground arith)
handed_out-true regions block (suc k) (size ∷ sizes) i r e p q =
    let next : block + suc k ≡ suc block + k = omega arith in
    rw (handed_out-true regions (suc block) k sizes i r (rw next at e) p q) (or-true _)
  where
    or-true : (b : Bool) → (b || true) ≡ true
    or-true true = refl
    or-true false = refl

get_or-replicate : (n b : ℕ) → get_or {A = ℕ} (replicate n 0) b 0 ≡ 0
get_or-replicate zero b = refl
get_or-replicate (suc n) zero = refl
get_or-replicate (suc n) (suc b) = get_or-replicate n b

pub length-slice : (raw : ℕ → ℕ) (n i : ℕ) → length (slice raw n i) ≡ n
length-slice raw zero i = refl
length-slice raw (suc n) i = ap suc (length-slice raw n (suc i))

pub new_bootstrap-IsBoot : (map : List MemoryRegion) → IsBoot map [] (new_bootstrap map)
unfolding new_bootstrap
new_bootstrap-IsBoot map = record {
  same_map = refl;
  room = refl;
  counts = λ b. get_or-replicate 64 b ∙ sym (taken-zero b 0 map);
  logged = λ f m. absurd m;
}
