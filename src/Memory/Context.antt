-- ===== src/Memory/Context.antt =====
-- `init` and `active_level_4_table` of src/memory/mod.rs, and the static `PAGING_CTX`, which is none
-- until `init` has run.
use capucho_os.Memory.Paging.{PagingContext}
use capucho_os.Memory.External.{Crates, Mapper}
use capucho_os.Memory.Region.{MemoryRegion}
use capucho_os.Base.{◌>>=◌, none, ◌+◌, Run, ret, List, some, Option, ℕ}
use capucho_os.Memory.Init

-- `BootInfo` of the crate `bootloader`, with what the register Cr3 gives, and `OffsetPageTable::new` of
-- the crate `x86_64`: the tables at an address, for an offset.
pub record BootInfo (mapper : Mapper) : Type 0 where
  pub physical_memory_offset : ℕ
  pub memory_map : List MemoryRegion
  pub level_4_table_frame : ℕ
  pub offset_page_table : ℕ → ℕ → mapper.Table

-- `Once::call_once`: a value that is there stays.
unfoldable pub call_once : {A : Type 0} → Option A → A → Option A
call_once none a = some a
call_once (some old) a = some old

module _ (crates : Crates) (mapper : Mapper) where
  -- The address of the active table.
  unfoldable pub active_level_4_table : BootInfo mapper → ℕ → Run ℕ
  active_level_4_table boot physical_memory_offset =
      crates.virt_addr_new (physical_memory_offset + boot.level_4_table_frame)

  unfoldable pub init :
      Option (PagingContext crates mapper)
      → (ℕ → ℕ)
      → BootInfo mapper
      → ℕ
      → Run (Option (PagingContext crates mapper))
  init paging_ctx raw boot physical_memory_offset = do
    level_4_table ← active_level_4_table boot physical_memory_offset
    memory ←
        Init.init crates mapper raw boot.memory_map
          (boot.offset_page_table level_4_table physical_memory_offset)
    ret (call_once paging_ctx (record { table = memory.1; allocator = memory.0 }))
