-- ===== src/Acpi/Accesses/Counted.antt =====
-- What the memory accesses of `AmlHandler` in src/acpi/handlers.rs do to the counts of `Handler` in
-- src/acpi.rs.
use capucho_os.Base.Bits.{pow-pos}
use capucho_os.Acpi.Handler.{Handler, map}
use capucho_os.Memory.External.{Mapper, Crates}
use capucho_os.Acpi.Handler.Counts.{map-Maps, refs_of, Maps, Recounts}
use capucho_os.Acpi.Handler.Refs.{IsCounted}
use capucho_os.Base.{
  Bool, true, false, Bool-cases, inl, inr, Panic, refl, ◌⊎◌, ◌≤◌, ◌*◌, ◌^◌, ◌%◌, ret, List, panics,
  ◌<◌, ◌/◌, Run, ◌+◌, ◌≡◌, arith, ◌∷◌, ℕ,
}
use capucho_os.Base.Io.{
  Event, sized_read, Machine, pure, sized_write, write_sized, lift, read_sized, ◌>>=◌, ◌>>◌,
}
use capucho_os.Acpi.Accesses.{read, write, translate, page_fault}

above-mod : (v n : ℕ) → 1 ≤ n → v % n < n
above-mod v n p = omega arith

-- The start of the frame with the address.
abbrev pub frame_of : ℕ → ℕ
frame_of address = address / 4096 * 4096

module _ (crates : Crates) (mapper : Mapper) (lets : mapper.Table → Bool → ℕ → ℕ → Bool)
    (this : Handler crates mapper) (address : ℕ) (past : List Event) where
  -- The frame is counted once more, and nothing takes it back.
  abbrev pub Counted : Handler crates mapper → Type 0
  Counted t =
      Recounts crates mapper this t (frame_of address)
        (refs_of crates mapper this (frame_of address) + 1)

  -- The only reasons for a panic of the mapping.
  abbrev pub MayPanic : Type 0
  MayPanic =
      (refs_of crates mapper this (frame_of address) ≡ 0)
      ⊎ (2 ^ 64 ≤ refs_of crates mapper this (frame_of address) + 1)

  -- The frame was mapped, or was before, and the processor then does not let the access pass.
  abbrev pub Faults : Bool → ℕ → Panic → Type 0
  Faults writes size p =
      (p ≡ page_fault)
      × (t : Handler crates mapper) × (map crates mapper this (frame_of address) ≡ ret t)
      × Counted t
      × (lets t.context.table writes address size ≡ false)

  -- The frame was mapped, or was before, and the processor lets the access pass.
  abbrev pub Passes : Bool → ℕ → Handler crates mapper → Type 0
  Passes writes size t =
      (map crates mapper this (frame_of address) ≡ ret t)
      × Counted t
      × (lets t.context.table writes address size ≡ true)

  abbrev pub Reads : ℕ → Run ((ℕ × Handler crates mapper) × List Event) → Type 0
  Reads size (panics p) = MayPanic ⊎ Faults false size p
  Reads size (ret ((value, t), log)) =
      (value < 2 ^ size) × Passes false size t × (log ≡ sized_read size address value ∷ past)

  abbrev pub Writes : ℕ → ℕ → Run (Handler crates mapper × List Event) → Type 0
  Writes size value (panics p) = MayPanic ⊎ Faults true size p
  Writes size value (ret (t, log)) =
      Passes true size t × (log ≡ sized_write size address value ∷ past)

  module _ (mach : Machine) (size : ℕ) where
    read_mapped-Reads :
        (m : Run (Handler crates mapper))
        → map crates mapper this (frame_of address) ≡ m
        → Maps crates mapper this (frame_of address) m
        → Reads size (
            (lift m >>= λ after.
            lift (translate crates mapper lets after false address size)
            >> (read_sized size address >>= λ value. pure (value, after)))
              mach past)
    read_mapped-Reads (panics p) e h = inl h
    read_mapped-Reads (ret t) e h = elim (Bool-cases (lets t.context.table false address size)) [
      | inl passes ↦
          rw (◌>>=◌, ◌>>◌, passes)
            (
              above-mod (mach.sized_value past size address) (2 ^ size) (pow-pos size),
              (e, h.0, passes),
              refl,
            )
      | inr faults ↦ rw (◌>>=◌, ◌>>◌, faults) (inr (refl, t, e, h.0, faults))
    ]

    write_mapped-Writes :
        (value : ℕ) (m : Run (Handler crates mapper))
        → map crates mapper this (frame_of address) ≡ m
        → Maps crates mapper this (frame_of address) m
        → Writes size value (
            (lift m >>= λ after.
            lift (translate crates mapper lets after true address size)
            >> (write_sized size address value >> pure after))
              mach past)
    write_mapped-Writes value (panics p) e h = inl h
    write_mapped-Writes value (ret t) e h =
        elim (Bool-cases (lets t.context.table true address size)) [
          | inl passes ↦ rw (◌>>=◌, ◌>>◌, passes) ((e, h.0, passes), refl)
          | inr faults ↦ rw (◌>>=◌, ◌>>◌, faults) (inr (refl, t, e, h.0, faults))
        ]

    -- On a handler whose counts are at least 1, at an address below 2 ^ 52, for a type of any size: a
    -- read or a write first maps the frame of the address, which leaves its count one higher and every
    -- other count as it was, or panics only if the frame was not mapped or its count does not fit.
    -- Then, if the processor lets the access pass on the page tables as they are after that, a read
    -- gives a value of that size and makes that one access, and a write makes that one access with its
    -- value; otherwise it ends in a page fault, with no access.
    pub access_outcomes :
        (value : ℕ)
        → IsCounted this.mapping_refs
        → address < 2 ^ 52
        → Reads size (read crates mapper lets this size address mach past)
          × Writes size value (write crates mapper lets this size address value mach past)
    unfolding read write
    access_outcomes value h small =
        let m = map crates mapper this (frame_of address) in
        let outcome = map-Maps crates mapper this (frame_of address) h in
        (
          rw (◌>>=◌, crates.phys_addr_new_lem address small, crates.frame_containing_lem address)
              (read_mapped-Reads m refl outcome),
          rw (◌>>=◌, crates.phys_addr_new_lem address small, crates.frame_containing_lem address)
              (write_mapped-Writes value m refl outcome),
        )
