-- ===== src/Acpi/Handler.antt =====
-- `Handler` of src/acpi.rs: which frames are mapped for the ACPI crates, and how often. Beside it
-- stands the paging context that `mmap_dev` and `unmap` of src/memory/mod.rs lock.

pub mod Refs
pub mod Counts
pub mod History
use capucho_os.Base.{
  ℕ, suc, ◌+◌, ◌-◌, ◌^◌, ◌≡◌, true, false, List, [], ◌∷◌, Option, none, some, Run, ret, panics,
  overflow, message, ◌>>=◌, ltb, ◌==◌, if◌then◌else◌, Panic,
}
use capucho_os.Base.Dict.{Dict, get, put, remove}
use capucho_os.Memory.External.{Crates, Mapper, MapResult, ok, err}
use capucho_os.Memory.Paging.{UnmapGuard, PagingContext, mmap_dev}
use capucho_os.Memory.Paging

abbrev pub failed_to_unmap : Panic
failed_to_unmap = message "Failed to unmap"

abbrev pub not_mapped : Panic
not_mapped = message "Trying to unmap non mapped frame"

module _ (crates : Crates) (mapper : Mapper) where
  pub record Handler : Type 0 where
    pub mapping_refs : Dict (ℕ × UnmapGuard)
    pub context : PagingContext crates mapper

  -- `Handler::new`.
  abbrev pub new : PagingContext crates mapper → Handler
  new context = record { mapping_refs = []; context = context }

  -- The key is not in the map: the result of `mmap_dev` and its `expect`.
  unfoldable pub first_map :
      Handler
      → ℕ
      → MapResult UnmapGuard mapper.MapToError × PagingContext crates mapper
      → Run Handler
  first_map this key (err e, context) = panics (message "Failed to identity map")
  first_map this key (ok guard, context) =
      ret (record { mapping_refs = put this.mapping_refs key (1, guard); context = context })

  -- The branches of `map` on `get_mut(&key)`.
  unfoldable pub map_entry : Handler → ℕ → Option (ℕ × UnmapGuard) → Run Handler
  map_entry this key none = mmap_dev crates mapper this.context key true >>= first_map this key
  map_entry this key (some (rc, guard)) =
      if ltb (rc + 1) (2 ^ 64)
      then ret (record this { mapping_refs = put this.mapping_refs key (rc + 1, guard) })
      else panics overflow

  unfoldable pub map : Handler → ℕ → Run Handler
  map this frame = map_entry this frame (get this.mapping_refs frame)

  -- The count fell to 0: the result of `unmap` and its `expect`.
  unfoldable pub last_unmap :
      Handler
      → ℕ
      → MapResult (Unit {0}) mapper.UnmapError × PagingContext crates mapper
      → Run Handler
  last_unmap this key (err e, context) = panics failed_to_unmap
  last_unmap this key (ok done, context) =
      ret (record { mapping_refs = remove this.mapping_refs key; context = context })

  -- The rest of `unmap` after `expect`.
  unfoldable pub unmap_entry : Handler → ℕ → Option (ℕ × UnmapGuard) → Run Handler
  unmap_entry this key none = panics not_mapped
  unmap_entry this key (some (rc, guard)) =
      if rc == 0
      then panics overflow
      else if rc - 1 == 0
      then (Paging.unmap crates mapper guard this.context >>= last_unmap this key)
      else ret (record this { mapping_refs = put this.mapping_refs key (rc - 1, guard) })

  unfoldable pub unmap : Handler → ℕ → Run Handler
  unmap this page = unmap_entry this page (get this.mapping_refs page)
