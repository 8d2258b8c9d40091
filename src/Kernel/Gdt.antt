-- ===== src/Kernel/Gdt.antt =====
-- `TSS` and `GDT` of src/gdt.rs. A task state segment is given by the seven addresses of its interrupt
-- stack table.
use capucho_os.Memory.External.{Crates}
use capucho_os.Memory.Example.{crates}
use capucho_os.Base.{List, replicate, set, ◌+◌, Run, ret, ◌*◌, ℕ, ◌>>=◌}
use capucho_os.Interrupts.Handlers.{double_fault_ist_index}

abbrev pub stack_size : ℕ
stack_size = 4096 * 5

-- `Descriptor` of the crate `x86_64`.
pub data Descriptor : Type 0 where
  kernel_code_segment : Descriptor
  tss_segment : List ℕ → Descriptor

-- What the source uses of `GlobalDescriptorTable`: a selector is a number.
pub record GdtCrate : Type 1 where
  pub Table : Type 0
  pub new : Table
  pub add_entry : Table → Descriptor → Table × ℕ

pub record Selectors : Type 0 where
  pub code_selector : ℕ
  pub tss_selector : ℕ

-- The stack is an array at the address `stack`; the entry is its end.
unfoldable pub tss : Crates → ℕ → Run (List ℕ)
tss crates stack = do
  stack_start ← crates.virt_addr_new stack
  stack_end ← crates.virt_addr_new (stack_start + stack_size)
  ret (set (replicate 7 0) double_fault_ist_index stack_end)

unfoldable pub gdt : (crate : GdtCrate) → List ℕ → crate.Table × Selectors
gdt crate segment =
    let code = crate.add_entry crate.new kernel_code_segment in
    let task = crate.add_entry code.0 (tss_segment segment) in
    (task.0, record { code_selector = code.1; tss_selector = task.1 })
