-- ===== src/Memory/Bootstrap/Taken.antt =====
-- How many frames of each region the bootstrap allocator of
-- src/memory/frame_allocator/bootstrap.rs has handed out after `n` allocations.
use capucho_os.Base.{
  ℕ, suc, ◌+◌, ◌-◌, ◌≡◌, ◌≤◌, ◌<◌, refl, true, List, [], ◌∷◌, Option, none, some, get_elem?, ltb,
  ◌==◌, if◌then◌else◌, arith, min, Bool-cases, inl, inr, ◌∙◌, ap, sym,
}
use capucho_os.Memory.Region.{MemoryRegion, is_usable}

abbrev pub size : MemoryRegion → ℕ
size r = r.range.end_frame_number - r.range.start_frame_number

-- The frames of region `b` among the first `n` usable frames of the regions from number `i` on.
abbrev pub taken : ℕ → ℕ → ℕ → List MemoryRegion → ℕ
taken b n i [] = 0
taken b n i (r ∷ rs) =
    let here = min n (size r) in
    let later = taken b (n - size r) (suc i) rs in
    let skipped = taken b n (suc i) rs in
    if is_usable r.region_type then (if b == i then here else later) else skipped

-- Frame `n` in terms of the regions: its number and the number of its region.
abbrev pub frame_at : ℕ → ℕ → List MemoryRegion → Option (ℕ × ℕ)
frame_at n i [] = none
frame_at n i (r ∷ rs) =
    let later = frame_at (n - size r) (suc i) rs in
    let skipped = frame_at n (suc i) rs in
    if is_usable r.region_type
    then (if ltb n (size r) then some (r.range.start_frame_number + n, i) else later)
    else skipped

taken_low : (b n i : ℕ) (rs : List MemoryRegion) → b < i → taken b n i rs ≡ 0
taken_low b n i [] h = refl
taken_low b n i (r ∷ rs) h =
    ground (arith, taken_low b (n - size r) (suc i) rs, taken_low b n (suc i) rs)

frame_at-ge :
    (n i f block : ℕ) (rs : List MemoryRegion) → frame_at n i rs ≡ some (f, block) → i ≤ block
frame_at-ge n i f block [] e = cc
frame_at-ge n i f block (r ∷ rs) e =
    ground (arith, frame_at-ge (n - size r) (suc i) f block rs, frame_at-ge n (suc i) f block rs)

-- One more allocation takes one frame more of the region of frame `n` and none of the others.
pub taken-suc :
    (b n i f block : ℕ) (rs : List MemoryRegion)
    → frame_at n i rs ≡ some (f, block)
    → taken b (suc n) i rs ≡ taken b n i rs + (if b == block then 1 else 0)
taken-suc b n i f block [] e = cc
taken-suc b n i f block (r ∷ rs) e = elim (Bool-cases (ltb n (size r))) [
  | inl here ↦
      let none_left : suc n - size r ≡ n - size r = ground arith in
      ground (
        arith,
        ap (λ (t : ℕ). taken b t (suc i) rs) none_left,
        taken-suc b n (suc i) f block rs,
        frame_at-ge n (suc i) f block rs,
      )
  | inr past ↦
      let one_more : suc n - size r ≡ suc (n - size r) = ground arith in
      ground (
        arith,
        ap (λ (t : ℕ). taken b t (suc i) rs) one_more,
        taken-suc b (n - size r) (suc i) f block rs,
        taken-suc b n (suc i) f block rs,
        frame_at-ge (n - size r) (suc i) f block rs,
        frame_at-ge n (suc i) f block rs,
      )
]

-- Frame `n` lies in region `block`, of type `Usable`, behind those that are taken already.
pub record IsNext (n i f block : ℕ) (rs : List MemoryRegion) : Type 0 where
  pub below : i ≤ block
  pub region : MemoryRegion
  pub at : get_elem? rs (block - i) ≡ some region
  pub first : f ≡ region.range.start_frame_number + taken block n i rs
  pub inside : f < region.range.end_frame_number
  pub fit : is_usable region.region_type ≡ true

get_elem?-later :
    (i block : ℕ) (r : MemoryRegion) (rs : List MemoryRegion)
    → suc i ≤ block
    → get_elem? (r ∷ rs) (block - i) ≡ get_elem? rs (block - suc i)
get_elem?-later i block r rs h = let e : block - i ≡ suc (block - suc i) = omega arith in rw e

IsNext-later :
    {n m i f block : ℕ} {r : MemoryRegion} {rs : List MemoryRegion}
    → taken block n i (r ∷ rs) ≡ taken block m (suc i) rs
    → IsNext m (suc i) f block rs
    → IsNext n i f block (r ∷ rs)
IsNext-later {i} {block} {r} {rs} e h = record {
  below = omega (arith, h.below);
  region = h.region;
  at = get_elem?-later i block r rs h.below ∙ h.at;
  first = omega (arith, e, h.first);
  inside = h.inside;
  fit = h.fit;
}

pub frame_at-IsNext :
    (n i f block : ℕ) (rs : List MemoryRegion)
    → frame_at n i rs ≡ some (f, block)
    → IsNext n i f block rs
frame_at-IsNext n i f block [] e = absurd (cc)
frame_at-IsNext n i f block (r ∷ rs) e = elim (Bool-cases (is_usable r.region_type)) [
  | inr skip ↦
      let e' : frame_at n (suc i) rs ≡ some (f, block) = rw (skip, frame_at) at e in
      IsNext-later (rw (skip, taken)) (frame_at-IsNext n (suc i) f block rs e')
  | inl use_it ↦ elim (Bool-cases (ltb n (size r))) [
    | inl here ↦
        let same : block ≡ i = ground arith in
        let zero_off : block - i ≡ 0 = omega arith in
        record {
          below = omega arith;
          region = r;
          at = rw zero_off;
          first = ground arith;
          inside = ground arith;
          fit = use_it;
        }
    | inr past ↦
        let e' : frame_at (n - size r) (suc i) rs ≡ some (f, block) = ground arith in
        let h = frame_at-IsNext (n - size r) (suc i) f block rs e' in
        IsNext-later (ground (arith, h.below)) h
  ]
]

pub taken-le-size :
    (b n i : ℕ) (r : MemoryRegion) (rs : List MemoryRegion)
    → i ≤ b
    → get_elem? rs (b - i) ≡ some r
    → taken b n i rs ≤ size r
taken-le-size b n i r [] h e = absurd (cc)
taken-le-size b n i r (s ∷ rs) h e = elim (Bool-cases (b == i)) [
  | inl here ↦
      let same : b ≡ i = ground arith in
      let zero_off : b - i ≡ 0 = omega arith in
      let e' : some s ≡ some r = rw zero_off at e in ground (arith, taken_low b n (suc i) rs)
  | inr past ↦
      let more : suc i ≤ b = ground arith in
      let e' = sym (get_elem?-later i b s rs more) ∙ e in
      ground (
        arith,
        taken-le-size b (n - size s) (suc i) r rs more e',
        taken-le-size b n (suc i) r rs more e',
      )
]

pub taken_mono : (b n i : ℕ) (rs : List MemoryRegion) → taken b n i rs ≤ taken b (suc n) i rs
taken_mono b n i [] = omega arith
taken_mono b n i (r ∷ rs) = elim (Bool-cases (ltb n (size r))) [
  | inl here ↦
      let none_left : suc n - size r ≡ n - size r = ground arith in
      ground (arith, ap (λ (t : ℕ). taken b t (suc i) rs) none_left, taken_mono b n (suc i) rs)
  | inr past ↦
      let one_more : suc n - size r ≡ suc (n - size r) = ground arith in
      ground (
        arith,
        ap (λ (t : ℕ). taken b t (suc i) rs) one_more,
        taken_mono b (n - size r) (suc i) rs,
        taken_mono b n (suc i) rs,
      )
]

pub taken_outside :
    (b n i : ℕ) (rs : List MemoryRegion) → i ≤ b → get_elem? rs (b - i) ≡ none → taken b n i rs ≡ 0
taken_outside b n i [] h e = refl
taken_outside b n i (r ∷ rs) h e = elim (Bool-cases (b == i)) [
  | inl here ↦
      let same : b ≡ i = ground arith in
      let zero_off : b - i ≡ 0 = omega arith in
      let e' : some r ≡ none = rw zero_off at e in absurd (cc)
  | inr past ↦
      let more : suc i ≤ b = ground arith in
      let e' = sym (get_elem?-later i b r rs more) ∙ e in
      ground (
        arith,
        taken_outside b (n - size r) (suc i) rs more e',
        taken_outside b n (suc i) rs more e',
      )
]

pub taken-zero : (b i : ℕ) (rs : List MemoryRegion) → taken b 0 i rs ≡ 0
taken-zero b i [] = refl
taken-zero b i (r ∷ rs) =
    let none_left : 0 - size r ≡ 0 = omega arith in
    ground (arith, ap (λ (t : ℕ). taken b t (suc i) rs) none_left, taken-zero b (suc i) rs)
