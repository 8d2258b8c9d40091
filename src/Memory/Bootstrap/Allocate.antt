-- ===== src/Memory/Bootstrap/Allocate.antt =====
-- `allocate_frame` of src/memory/frame_allocator/bootstrap.rs in terms of the regions.
use capucho_os.Base.{
  ℕ, zero, suc, ◌+◌, ◌-◌, ◌*◌, ◌/◌, ◌^◌, ◌≡◌, ◌≤◌, refl, List, [], ◌∷◌, ◌++◌, map, Option, none,
  some, ret, ltb, if◌then◌else◌, arith, Bool-cases, inl, inr, ap,
}
use capucho_os.Memory.External.{Crates, steps}
use capucho_os.Memory.Region.{MemoryRegion, is_usable, IsSorted}
use capucho_os.Memory.Bootstrap.{frame_addresses, nth_frame}
use capucho_os.Memory.Bootstrap.Taken.{size, frame_at}

-- A `PhysFrame` is given by its start address.
abbrev pub as_frame : Option (ℕ × ℕ) → Option (ℕ × ℕ)
as_frame none = none
as_frame (some (f, block)) = some (f * 4096, block)

module _ (crates : Crates) where
  nth_frame-region :
      (n m s i : ℕ) (rest : List (ℕ × ℕ))
      → s + m ≤ 2 ^ 40
      → nth_frame crates n (map (λ a. (a, i)) (steps 4096 m (s * 4096)) ++ rest)
        ≡ (if ltb n m then ret (some ((s + n) * 4096, i)) else nth_frame crates (n - m) rest)
  unfolding nth_frame
  nth_frame-region n zero s i rest h =
      let e : n - 0 ≡ n = omega arith in ground (arith, ap (λ (t : ℕ). nth_frame crates t rest) e)
  nth_frame-region zero (suc m) s i rest h =
      let frame : s * 4096 / 4096 * 4096 ≡ (s + 0) * 4096 = omega arith in
      rw
        (
          crates.phys_addr_new_lem (s * 4096) (omega arith),
          crates.frame_containing_lem (s * 4096),
          frame,
        )
        (ground arith)
  nth_frame-region (suc n) (suc m) s i rest h =
      let next : s * 4096 + 4096 ≡ (s + 1) * 4096 = omega arith in
      let ih = nth_frame-region n m (s + 1) i rest (omega arith) in
      let sum : s + 1 + n ≡ s + suc n = omega arith in
      let diff : n - m ≡ suc n - suc m = omega arith in
      rw (crates.phys_addr_new_lem (s * 4096) (omega arith), next, ih, sum, diff) (ground arith)

  pub nth_frame-frame_at :
      (n i low : ℕ) (rs : List MemoryRegion)
      → IsSorted low rs
      → nth_frame crates n (frame_addresses crates i rs) ≡ ret (as_frame (frame_at n i rs))
  unfolding frame_addresses
  nth_frame-frame_at zero i low [] h = unfold nth_frame in refl
  nth_frame-frame_at (suc n) i low [] h = unfold nth_frame in refl
  nth_frame-frame_at n i low (r ∷ rs) h = elim (Bool-cases (is_usable r.region_type)) [
    | inr skip ↦ rw (skip, frame_at) (nth_frame-frame_at n (suc i) r.range.end_frame_number rs h.3)
    | inl use_it ↦
        let start = r.range.start_frame_number in
        let end = r.range.end_frame_number in
        let count : (end * 4096 - start * 4096 + 4095) / 4096 ≡ size r = omega arith in
        rw
          (
            use_it,
            frame_at,
            crates.start_addr_lem r.range,
            crates.end_addr_lem r.range,
            count,
            nth_frame-region n (size r) start i (frame_addresses crates (suc i) rs) (omega arith),
          )
          (elim (Bool-cases (ltb n (size r))) [
            | inl here ↦ rw here
            | inr past ↦ rw past (nth_frame-frame_at (n - size r) (suc i) end rs h.3)
          ])
  ]
