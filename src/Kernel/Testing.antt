-- ===== src/Kernel/Testing.antt =====
-- The test runner of src/lib.rs and the panic handlers of src/lib.rs and src/main.rs. What `core::fmt`
-- writes for a number, for a test's type and for a panic is given as bytes.
pub mod Outcome
pub mod Handlers
use capucho_os.Kernel.Sata.Log.{info}
use capucho_os.Memory.Context.{BootInfo}
use capucho_os.Memory.Heap.{Kernel}
use capucho_os.Vga.{Writer}
use capucho_os.Kernel.Tick.{failed, success, exit_qemu}
use capucho_os.Vga.Print.{println}
use capucho_os.Memory.Region.{MemoryRegion}
use capucho_os.Kernel.Logger.{serial_print, Record, log_record}
use capucho_os.Interrupts.Exceptions.{hlt_loop}
use capucho_os.Memory.External.{Crates, Mapper, ok}
use capucho_os.Base.{Bool, if◌then◌else◌, [], length, ◌∷◌, List, Option, ◌++◌, ℕ}
use capucho_os.Base.Text.{codes}
use capucho_os.Kernel.Start
use capucho_os.Base.Io.{Io, lift, pure, ◌>>=◌, ◌>>◌}

-- A test: the name of its type, and the function.
pub record Testable : Type 0 where
  pub type_name : List ℕ
  pub body : Io (Unit {0})

-- `Testable::run`.
unfoldable pub run : Testable → Io (Unit {0})
run this = do
  serial_print (this.type_name ++ codes "...\t")
  this.body
  serial_print (codes "[ok]\n")

-- The loop over the tests.
unfoldable pub run_all : List Testable → Io (Unit {0})
run_all [] = pure tt
run_all (test ∷ tests) = run test >> run_all tests

-- `decimal` is what `{}` writes for a number.
unfoldable pub test_runner : (ℕ → List ℕ) → List Testable → Io (Unit {0})
test_runner decimal tests = do
  serial_print (codes "Running " ++ decimal (length tests) ++ codes " tests\n")
  run_all tests
  exit_qemu success

-- The panic handler of the tests, with `n` rounds of the loop at its end.
unfoldable pub test_panic_handler : List ℕ → ℕ → Io (Unit {0})
test_panic_handler info n = do
  serial_print (codes "[failed]\n\n")
  serial_print (codes "Error: " ++ info ++ codes "\n\n")
  exit_qemu failed
  hlt_loop n

-- The panic handler of the kernel; `place` is what the log record says of the handler itself, and
-- `logging` whether a logger is set then and the maximal level lets ERROR pass, as after `init`.
unfoldable pub panic_handler : List ℕ → Record → Bool → Writer → ℕ → Io Writer
panic_handler info place logging screen n = do
  shown ← lift (println screen (info ∷ []))
  if logging then log_record (record place { level = codes "ERROR"; args = info }) else pure tt
  hlt_loop n
  pure shown

-- `test_kernel_main`: `test_main` is made by the test harness, which calls the test runner.
unfoldable pub test_kernel_main :
    (crates : Crates) (mapper : Mapper)
    → Option (Unit {0})
    → (ℕ → ℕ)
    → BootInfo mapper
    → Io (Unit {0})
    → ℕ
    → Io (Unit {0})
test_kernel_main crates mapper set_logger raw boot_info test_main n = do
  kernel ← Start.init crates mapper set_logger raw boot_info
  test_main
  hlt_loop n
