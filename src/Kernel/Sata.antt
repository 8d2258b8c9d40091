-- ===== src/Kernel/Sata.antt =====
-- The SATA controller in `kernel_main` of src/main.rs: the search for it and the mapping of its
-- registers. The crate `pci_types` reads the headers.
pub mod Log
pub mod Search
pub mod Frames
pub mod Registers
pub mod Mapped
use capucho_os.Kernel.Sata.Log.{Formats, memory64, info, Class, device_line, Bar, io, memory32}
use capucho_os.Base.{
  false, ℕ, ◌+◌, ◌-◌, ◌^◌, Bool, List, [], ◌∷◌, Option, none, some, Run, ret, panics, Panic,
  message, overflow, or_panic, unwrap_none, ltb, ◌==◌, ◌&&◌, if◌then◌else◌,
}
use capucho_os.Base
use capucho_os.Base.Io.{Io, ◌>>=◌, ◌>>◌, pure, lift}
use capucho_os.Pci.{PciAddress}
use capucho_os.Memory.External.{Crates, Mapper, MapResult, ok, err}
use capucho_os.Memory.Paging.{UnmapGuard, PagingContext, mmap_dev}
use capucho_os.Acpi.Regions.{in_usize}

-- What the source uses of the crate `pci_types`; a header is given by its address.
pub record PciTypes : Type 1 where
  pub EndpointHeader : Type 0
  pub revision_and_class : PciAddress → Io Class
  pub header_type : PciAddress → Io ℕ
  pub from_header : PciAddress → Io (Option EndpointHeader)
  pub bar : EndpointHeader → ℕ → Io (Option Bar)

abbrev pub is_sata : Class → Bool
is_sata c = (c.class == 0x01) && (c.subclass == 0x06) && (c.interface == 0x01)

module _ (pci : PciTypes) where
  -- The end of the body of the loop, after the class was read.
  unfoldable pub choose :
      PciAddress → Option pci.EndpointHeader → Bool → Io (Option pci.EndpointHeader)
  choose header sata_controller sata =
      if sata
      then (pci.from_header header >>= λ endpoint.
          lift (or_panic unwrap_none endpoint) >>= λ controller. pure (some controller))
      else pure sata_controller

  unfoldable pub find_sata :
      Formats → List PciAddress → Option pci.EndpointHeader → Io (Option pci.EndpointHeader)
  find_sata formats [] sata_controller = pure sata_controller
  find_sata formats (header ∷ devices) sata_controller = do
    c ← pci.revision_and_class header
    kind ← pci.header_type header
    info formats (device_line formats header c kind)
    chosen ← choose header sata_controller (is_sata c)
    find_sata formats devices chosen

  -- The address and the size of the sixth bar.
  unfoldable pub abar_range : Bar → Run (ℕ × ℕ)
  abar_range (memory32 address size) = ret (address, size)
  abar_range (memory64 address size) = ret (address, size)
  abar_range io = panics (message "ABAR is in port space o_O")

  unfoldable pub find_abar : Formats → Option pci.EndpointHeader → Io (ℕ × ℕ)
  find_abar formats sata_controller = do
    controller ← lift (or_panic (message "There's no sata controller :(") sata_controller)
    found ← pci.bar controller 5
    bar ← lift (or_panic (message "There's no ABAR -_-") found)
    info formats (formats.bar_text bar)
    lift (abar_range bar)

module _ (crates : Crates) (mapper : Mapper) where
  -- `abar_address + abar_size - 1`.
  abbrev pub last_byte : ℕ → ℕ → Run ℕ
  last_byte abar_address abar_size =
      Base.◌>>=◌ (in_usize crates mapper (abar_address + abar_size))
        (λ sum. if sum == 0 then panics overflow else ret (sum - 1))

  unfoldable pub abar_frames : ℕ → ℕ → Run (List ℕ)
  abar_frames abar_address abar_size = Base.◌>>=◌ (crates.phys_addr_new abar_address) (λ first.
      Base.◌>>=◌ (last_byte abar_address abar_size) (λ end.
        Base.◌>>=◌ (crates.phys_addr_new end) (λ last. ret (
          crates.frame_range_inclusive (crates.frame_containing first)
            (crates.frame_containing last)))))

  unfoldable pub expect_sata :
      MapResult UnmapGuard mapper.MapToError × PagingContext crates mapper
      → Run (PagingContext crates mapper)
  expect_sata (err e, paging) = panics (message "Failed to mmap the sata device")
  expect_sata (ok guard, paging) = ret paging

  unfoldable pub map_frames :
      PagingContext crates mapper → List ℕ → Run (PagingContext crates mapper)
  map_frames paging [] = ret paging
  map_frames paging (frame ∷ frames) =
      Base.◌>>=◌ (mmap_dev crates mapper paging frame Base.false)
        (λ mapped. Base.◌>>=◌ (expect_sata mapped) (λ next. map_frames next frames))

  unfoldable pub map_abar : PagingContext crates mapper → ℕ → ℕ → Run (PagingContext crates mapper)
  map_abar paging abar_address abar_size =
      Base.◌>>=◌ (abar_frames abar_address abar_size) (map_frames paging)
