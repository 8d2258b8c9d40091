-- ===== src/Acpi/Regions.antt =====
-- The trait `AcpiHandler` and the memory and port accesses of `AmlHandler`: src/acpi/handlers.rs, with
-- `LockedHandler::read` and `write` of src/acpi.rs. The lock adds nothing, so `LockedHandler` is `Handler`.
pub mod Balance
use capucho_os.Base.{
  ℕ, ◌+◌, ◌-◌, ◌^◌, ◌≡◌, List, [], ◌∷◌, Option, Run, ret, panics, overflow, unwrap_none, or_panic,
  ◌>>=◌, ltb, if◌then◌else◌,
}
use capucho_os.Memory.External.{Crates, Mapper}
use capucho_os.Acpi.Handler.{Handler, map, unmap}

-- `PhysicalMapping`, with the address that the pointer `virtual_start` has.
pub record PhysicalMapping : Type 0 where
  pub physical_start : ℕ
  pub virtual_start : ℕ
  pub region_length : ℕ
  pub mapped_length : ℕ

module _ (crates : Crates) (mapper : Mapper) where
  unfoldable pub map_all : Handler crates mapper → List ℕ → Run (Handler crates mapper)
  map_all this [] = ret this
  map_all this (frame ∷ frames) = map crates mapper this frame >>= λ next. map_all next frames

  unfoldable pub unmap_all : Handler crates mapper → List ℕ → Run (Handler crates mapper)
  unmap_all this [] = ret this
  unmap_all this (page ∷ pages) = unmap crates mapper this page >>= λ next. unmap_all next pages

  -- A sum of `usize`.
  abbrev pub in_usize : ℕ → Run ℕ
  in_usize n = if ltb n (2 ^ 64) then ret n else panics overflow

  unfoldable pub map_physical_region :
      Handler crates mapper → ℕ → ℕ → Run (PhysicalMapping × Handler crates mapper)
  map_physical_region this physical_address size = do
    first ← crates.phys_addr_new physical_address
    let start = crates.frame_containing first
    sum ← in_usize (physical_address + size)
    last ← crates.phys_addr_new sum
    let end = crates.frame_containing last
    after ← map_all this (crates.frame_range_inclusive start end)
    ret (
      record {
        physical_start = start;
        virtual_start = physical_address;
        region_length = size;
        mapped_length = end + 0x1000 - start;
      },
      after,
    )

  unfoldable pub unmap_physical_region :
      Handler crates mapper → PhysicalMapping → Run (Handler crates mapper)
  unmap_physical_region this region = do
    first ← crates.virt_addr_new region.physical_start
    start ← or_panic unwrap_none (crates.page_from_start first)
    sum ← in_usize (region.physical_start + region.mapped_length)
    last ← crates.virt_addr_new sum
    end ← or_panic unwrap_none (crates.page_from_start last)
    unmap_all this (crates.page_range start end)
