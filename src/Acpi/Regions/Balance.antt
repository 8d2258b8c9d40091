-- ===== src/Acpi/Regions/Balance.antt =====
-- `unmap_physical_region` of src/acpi/handlers.rs takes back what `map_physical_region` mapped.
use capucho_os.Base.{
  ret-injective, ℕ, ◌+◌, ◌-◌, ◌*◌, ◌/◌, ◌^◌, ◌≡◌, ◌≤◌, ◌<◌, ◌⊎◌, inl, inr, true, List, [], ◌∷◌, Run,
  ret, panics, index_out_of_bounds, ◌>>=◌, >>=-eq-ret, ltb, ◌==◌, if◌then◌else◌, arith, Bool-cases,
  ap, sym, ◌∙◌, subst,
}
use capucho_os.Memory.External.{Crates, Mapper, steps}
use capucho_os.Acpi.Handler.{Handler, map, unmap, failed_to_unmap}
use capucho_os.Acpi.Handler.Counts.{refs_of, Recounts, Unmaps, map-Maps, unmap-Unmaps}
use capucho_os.Acpi.Handler.Refs.{IsCounted}
use capucho_os.Acpi.Regions.{
  PhysicalMapping, map_all, unmap_all, map_physical_region, unmap_physical_region,
}

-- How often a frame stands in a list.
abbrev pub occurrences : ℕ → List ℕ → ℕ
occurrences j [] = 0
occurrences j (k ∷ ks) = (if k == j then 1 else 0) + occurrences j ks

summand-le : (x y z : ℕ) → x ≡ y + z → z ≤ x
summand-le x y z e = omega (arith, e)

module _ (crates : Crates) (mapper : Mapper) where
  pub map_all-counts :
      (this t : Handler crates mapper) (frames : List ℕ)
      → IsCounted this.mapping_refs
      → map_all crates mapper this frames ≡ ret t
      → IsCounted t.mapping_refs
        × ((j : ℕ)
            → refs_of crates mapper t j ≡ refs_of crates mapper this j + occurrences j frames)
  unfolding map_all
  map_all-counts this t [] h e =
      let same : this ≡ t = ret-injective e in rw (← same) (h, λ j. omega arith)
  map_all-counts this t (k ∷ ks) h e =
      let (next, one, rest) =
        >>=-eq-ret (map crates mapper this k) (λ next. map_all crates mapper next ks) e in
      let (step, _) = rw one at (map-Maps crates mapper this k h) in
      let (h', counts) = map_all-counts next t ks step.counted rest in
      (h', λ j. ground (arith, counts j, step.counts j))

  -- The outcomes of taking back the frames: each count is down by the frame's occurrences, or a frame
  -- could not be unmapped or given back.
  abbrev pub TakesBack : Handler crates mapper → List ℕ → Run (Handler crates mapper) → Type 0
  TakesBack this frames (panics p) = (p ≡ failed_to_unmap) ⊎ (p ≡ index_out_of_bounds)
  TakesBack this frames (ret t) =
      IsCounted t.mapping_refs
      × ((j : ℕ) → refs_of crates mapper t j + occurrences j frames ≡ refs_of crates mapper this j)

  TakesBack-cons :
      (this next : Handler crates mapper) (k : ℕ) (ks : List ℕ) (m : Run (Handler crates mapper))
      → 1 ≤ refs_of crates mapper this k
      → Recounts crates mapper this next k (refs_of crates mapper this k - 1)
      → TakesBack next ks m
      → TakesBack this (k ∷ ks) m
  TakesBack-cons this next k ks (panics p) pos step back = back
  TakesBack-cons this next k ks (ret t) pos step back = (
    back.0,
    λ j. elim (Bool-cases (k == j)) [
      | inl e ↦
          let eq : k ≡ j = ground arith in
          let pos' : 1 ≤ refs_of crates mapper this j = rw (← eq) pos in
          let down : refs_of crates mapper next j ≡ refs_of crates mapper this j - 1 =
            step.counts j ∙ rw (e, eq) in
          rw e (omega (arith, back.1 j))
      | inr e ↦
          let kept : refs_of crates mapper next j ≡ refs_of crates mapper this j =
            step.counts j ∙ rw e in
          rw e (omega (arith, back.1 j))
    ],
  )

  after_unmap :
      (this : Handler crates mapper) (k : ℕ) (ks : List ℕ) (m : Run (Handler crates mapper))
      → 1 ≤ refs_of crates mapper this k
      → Unmaps crates mapper this k m
      → ((next : Handler crates mapper)
          → Recounts crates mapper this next k (refs_of crates mapper this k - 1)
          → TakesBack next ks (unmap_all crates mapper next ks))
      → TakesBack this (k ∷ ks) (m >>= λ next. unmap_all crates mapper next ks)
  after_unmap this k ks (panics p) pos (inl (z, e)) rest = absurd (omega (arith, z))
  after_unmap this k ks (panics p) pos (inr (one, d)) rest = d
  after_unmap this k ks (ret next) pos (pos', step, kept) rest =
      TakesBack-cons this next k ks (unmap_all crates mapper next ks) pos step (rest next step)

  unmap_all-TakesBack :
      (this : Handler crates mapper) (pages : List ℕ)
      → IsCounted this.mapping_refs
      → ((j : ℕ) → occurrences j pages ≤ refs_of crates mapper this j)
      → TakesBack this pages (unmap_all crates mapper this pages)
  unfolding unmap_all
  unmap_all-TakesBack this [] h enough = (h, λ j. omega arith)
  unmap_all-TakesBack this (k ∷ ks) h enough =
      let pos : 1 ≤ refs_of crates mapper this k = ground (arith, enough k) in
      after_unmap this k ks (unmap crates mapper this k) pos (unmap-Unmaps crates mapper this k h)
        (λ next step. unmap_all-TakesBack next ks step.counted (λ j. elim (Bool-cases (k == j)) [
          | inl e ↦
              let eq : k ≡ j = ground arith in
              let down : refs_of crates mapper next j ≡ refs_of crates mapper this j - 1 =
                step.counts j ∙ rw (e, eq) in
              let before : 1 + occurrences j ks ≤ refs_of crates mapper this j =
                rw e at (enough j) in
              omega arith
          | inr e ↦
              let kept : refs_of crates mapper next j ≡ refs_of crates mapper this j =
                step.counts j ∙ rw e in
              let before : 0 + occurrences j ks ≤ refs_of crates mapper this j =
                rw e at (enough j) in
              omega arith
        ]))

  abbrev region_frames : ℕ → ℕ → List ℕ
  region_frames a size = steps 4096 ((a + size) / 4096 + 1 - a / 4096) (a / 4096 * 4096)

  abbrev region_of : ℕ → ℕ → PhysicalMapping
  region_of a size = record {
    physical_start = a / 4096 * 4096;
    virtual_start = a;
    region_length = size;
    mapped_length = (a + size) / 4096 * 4096 + 0x1000 - a / 4096 * 4096;
  }

  map_physical_region_lem :
      (this : Handler crates mapper) (a size : ℕ)
      → a + size + 4096 < 2 ^ 47
      → map_physical_region crates mapper this a size ≡ (
          map_all crates mapper this (region_frames a size) >>= λ after.
          ret (region_of a size, after))
  unfolding map_physical_region
  map_physical_region_lem this a size small =
      let fits : ltb (a + size) (2 ^ 64) ≡ true = ground arith in
      rw (
        crates.phys_addr_new_lem a (omega arith),
        fits,
        crates.phys_addr_new_lem (a + size) (omega arith),
        crates.frame_containing_lem a,
        crates.frame_containing_lem (a + size),
        crates.frame_range_inclusive_lem (a / 4096) ((a + size) / 4096),
      )

  unmap_physical_region_lem :
      (this : Handler crates mapper) (a size : ℕ)
      → a + size + 4096 < 2 ^ 47
      → unmap_physical_region crates mapper this (region_of a size)
        ≡ unmap_all crates mapper this (region_frames a size)
  unfolding unmap_physical_region
  unmap_physical_region_lem this a size small =
      let end : a / 4096 * 4096 + ((a + size) / 4096 * 4096 + 0x1000 - a / 4096 * 4096)
          ≡ ((a + size) / 4096 + 1) * 4096 =
        omega arith in
      let fits : ltb (((a + size) / 4096 + 1) * 4096) (2 ^ 64) ≡ true = ground arith in
      rw (
        crates.virt_addr_new_lem (a / 4096 * 4096) (omega arith),
        crates.page_from_start_lem (a / 4096),
        end,
        fits,
        crates.virt_addr_new_lem (((a + size) / 4096 + 1) * 4096) (omega arith),
        crates.page_from_start_lem ((a + size) / 4096 + 1),
        crates.page_range_lem (a / 4096) ((a + size) / 4096 + 1),
      )

  -- The run gives the counts of `this`, or a frame could not be unmapped or given back.
  abbrev pub Restores : Handler crates mapper → Run (Handler crates mapper) → Type 0
  Restores this (panics p) = (p ≡ failed_to_unmap) ⊎ (p ≡ index_out_of_bounds)
  Restores this (ret t) =
      IsCounted t.mapping_refs
      × ((j : ℕ) → refs_of crates mapper t j ≡ refs_of crates mapper this j)

  TakesBack-Restores :
      (this t : Handler crates mapper) (frames : List ℕ) (m : Run (Handler crates mapper))
      → ((j : ℕ) → refs_of crates mapper t j ≡ refs_of crates mapper this j + occurrences j frames)
      → TakesBack t frames m
      → Restores this m
  TakesBack-Restores this t frames (panics p) up down = down
  TakesBack-Restores this t frames (ret u) up down = (down.0, λ j. omega (arith, up j, down.1 j))

  -- After a region below 2 ^ 47 was mapped, unmapping it takes every count back to what it was before
  -- the region was mapped, or panics because a frame cannot be unmapped or given back.
  pub unmap_physical_region-map_physical_region :
      (this t : Handler crates mapper) (physical_address size : ℕ) (region : PhysicalMapping)
      → IsCounted this.mapping_refs
      → physical_address + size + 4096 < 2 ^ 47
      → map_physical_region crates mapper this physical_address size ≡ ret (region, t)
      → Restores this (unmap_physical_region crates mapper t region)
  unmap_physical_region-map_physical_region this t a size region h small e =
      let frames = region_frames a size in
      let (after, mapped, same) =
        >>=-eq-ret (map_all crates mapper this frames) (λ after. ret (region_of a size, after))
          (sym (map_physical_region_lem this a size small) ∙ e) in
      let pair : (region_of a size, after) ≡ (region, t) = ret-injective same in
      let run : map_all crates mapper this frames ≡ ret t = mapped ∙ ap (λ p. ret p.1) pair in
      let counted : IsCounted t.mapping_refs = (map_all-counts this t frames h run).0 in
      let up : (j : ℕ)
          → refs_of crates mapper t j ≡ refs_of crates mapper this j + occurrences j frames =
        (map_all-counts this t frames h run).1 in
      let back = unmap_all-TakesBack t frames counted (λ j. summand-le _ _ _ (up j)) in
      let plan : unmap_all crates mapper t frames ≡ unmap_physical_region crates mapper t region =
        sym (unmap_physical_region_lem t a size small)
        ∙ ap (λ p. unmap_physical_region crates mapper t p.0) pair in
      subst (Restores this) plan
        (TakesBack-Restores this t frames (unmap_all crates mapper t frames) up back)
