-- ===== src/Kernel/Sata/Frames.antt =====
-- The frames that `kernel_main` of src/main.rs maps for the registers of the SATA controller.
use capucho_os.Base.{
  ℕ, ◌+◌, ◌*◌, ◌-◌, ◌/◌, ◌%◌, ◌^◌, ◌≡◌, ◌≤◌, ◌<◌, true, false, List, ret, ltb, leb, ◌==◌, ◌&&◌,
  if◌then◌else◌, arith, ◌∙◌, Bool-cases, inl, inr,
}
use capucho_os.Memory.External.{Crates, Mapper, steps}
use capucho_os.Acpi.Regions.Balance.{occurrences}
use capucho_os.Acpi.Tables.Loaded.{occurrences-steps, one_in, ltb_next}
use capucho_os.Kernel.Sata.{abar_frames}

-- 1 if a frame starts at `j` and has one of the bytes from `a` on, up to and without `b`.
abbrev pub touches : ℕ → ℕ → ℕ → ℕ
touches a b j = if (j % 4096 == 0) && ltb a (j + 4096) && ltb j b then 1 else 0

one_in-touches : (a b j : ℕ) → a < b → one_in (a / 4096) ((b - 1) / 4096) j ≡ touches a b j
one_in-touches a b j h = elim (Bool-cases (j % 4096 == 0)) [
  | inl e ↦
      let whole : j % 4096 ≡ 0 = ground arith in
      let lower : leb (a / 4096) (j / 4096) ≡ ltb a (j + 4096) = ground arith in
      let upper : leb (j / 4096) ((b - 1) / 4096) ≡ ltb j b = ground arith in rw (e, lower, upper)
  | inr e ↦ rw e
]

module _ (crates : Crates) (mapper : Mapper) where
  -- For a register block of at least one byte that ends below 2 ^ 47, no panic is met, and the frames to
  -- map are those that have a byte of the block, each of them once, and no others.
  pub abar_frames-touches :
      (abar_address abar_size : ℕ)
      → 1 ≤ abar_size
      → abar_address + abar_size < 2 ^ 47
      → (fs : List ℕ) × (abar_frames crates mapper abar_address abar_size ≡ ret fs)
        × ((j : ℕ) → occurrences j fs ≡ touches abar_address (abar_address + abar_size) j)
  unfolding abar_frames
  abar_frames-touches a size p small =
      let b = a + size in
      let fits : ltb (a + size) (2 ^ 64) ≡ true = ground arith in
      let more : (a + size == 0) ≡ false = ground arith in
      let last : a / 4096 + ((b - 1) / 4096 + 1 - a / 4096) ≡ (b - 1) / 4096 + 1 = omega arith in
      (
        steps 4096 ((b - 1) / 4096 + 1 - a / 4096) (a / 4096 * 4096),
        rw (
          crates.phys_addr_new_lem a (omega arith),
          fits,
          more,
          crates.phys_addr_new_lem (a + size - 1) (omega arith),
          crates.frame_containing_lem a,
          crates.frame_containing_lem (a + size - 1),
          crates.frame_range_inclusive_lem (a / 4096) ((a + size - 1) / 4096),
        ),
        λ j.
            occurrences-steps ((b - 1) / 4096 + 1 - a / 4096) (a / 4096) j
            ∙ rw (last, ltb_next (j / 4096) ((b - 1) / 4096)) (one_in-touches a b j (omega arith)),
      )
