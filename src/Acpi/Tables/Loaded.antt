-- ===== src/Acpi/Tables/Loaded.antt =====
-- What mapping a table of `bios_get_acpi` in src/acpi.rs does to the handler's counts.
use capucho_os.Base.{
  ℕ, zero, suc, ◌+◌, ◌*◌, ◌-◌, ◌/◌, ◌%◌, ◌^◌, ◌≡◌, ◌<◌, true, ret, ◌==◌, leb, ltb, ◌&&◌,
  if◌then◌else◌, arith, ◌∙◌,
}
use capucho_os.Memory.External.{Crates, Mapper, steps}
use capucho_os.Acpi.Handler.{Handler}
use capucho_os.Acpi.Handler.Counts.{refs_of}
use capucho_os.Acpi.Handler.Refs.{IsCounted}
use capucho_os.Acpi.Regions.{map_all}
use capucho_os.Acpi.Regions.Balance.{occurrences, map_all-counts}
use capucho_os.Acpi.Tables.{AmlTable, map_table}

-- 1 if the address `j` is the start of one of the frames `first` to `last`.
abbrev pub one_in : ℕ → ℕ → ℕ → ℕ
one_in first last j =
    if (j % 4096 == 0) && leb first (j / 4096) && leb (j / 4096) last then 1 else 0

pub occurrences-steps :
    (n first j : ℕ)
    → occurrences j (steps 4096 n (first * 4096))
      ≡ (if (j % 4096 == 0) && leb first (j / 4096) && ltb (j / 4096) (first + n) then 1 else 0)
occurrences-steps zero first j = ground arith
occurrences-steps (suc n) first j =
    let next : first * 4096 + 4096 ≡ (first + 1) * 4096 = omega arith in
    let rest = occurrences-steps n (first + 1) j in rw (next, rest) (ground arith)

pub ltb_next : (m n : ℕ) → ltb m (n + 1) ≡ leb m n
ltb_next m n = ground arith

module _ (crates : Crates) (mapper : Mapper) where
  -- Mapping a table that ends below 2 ^ 47 succeeds or panics; when it succeeds, the count of every
  -- frame from the one of the table's first byte to the one of the first byte behind it is up by one,
  -- and no other count changes.
  pub map_table_counts :
      (this t : Handler crates mapper) (table : AmlTable)
      → IsCounted this.mapping_refs
      → table.address + table.length < 2 ^ 47
      → map_table crates mapper this table ≡ ret t
      → IsCounted t.mapping_refs
        × ((j : ℕ)
            → refs_of crates mapper t j
              ≡ refs_of crates mapper this j
                + one_in (table.address / 4096) ((table.address + table.length) / 4096) j)
  unfolding map_table
  map_table_counts this t table h small e =
      let a = table.address in
      let end = table.address + table.length in
      let fits : ltb end (2 ^ 64) ≡ true = ground arith in
      let run : map_all crates mapper this
            (steps 4096 (end / 4096 + 1 - a / 4096) (a / 4096 * 4096))
          ≡ ret t =
        rw
          (
            crates.phys_addr_new_lem a (omega arith),
            fits,
            crates.phys_addr_new_lem end (omega arith),
            crates.frame_containing_lem a,
            crates.frame_containing_lem end,
            crates.frame_range_inclusive_lem (a / 4096) (end / 4096),
          )
          at e in
      let last : a / 4096 + (end / 4096 + 1 - a / 4096) ≡ end / 4096 + 1 = omega arith in
      let (h', up) = map_all-counts crates mapper this t _ h run in
      (
        h',
        λ j.
            up j
            ∙ rw (
              occurrences-steps (end / 4096 + 1 - a / 4096) (a / 4096) j,
              last,
              ltb_next (j / 4096) (end / 4096),
            ),
      )
