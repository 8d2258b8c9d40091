-- ===== src/Kernel/Testing/Outcome.antt =====
-- What the test runner of src/lib.rs tells the host.
use capucho_os.Kernel.Logger.Line.{sent, serial_print-sent}
use capucho_os.Kernel.Tick.{exit_qemu}
use capucho_os.Base.{length, [], Run, ◌≡◌, ◌++◌, Panic, ◌∷◌, refl, ret, panics, List, ℕ}
use capucho_os.Base.Text.{codes}
use capucho_os.Base.Io.{dword, port_write, Event, Machine, ◌>>=◌, ◌>>◌}
use capucho_os.Kernel.Testing.{test_runner, run_all, Testable, run}

-- `Passed mach tests past log`: from the log `past`, the body of each test in turn, after its name,
-- returned, and the log is then `log`.
pub data Passed (mach : Machine) : List Testable → List Event → List Event → Type 0 where
  all_done : {past : List Event} → Passed mach [] past past
  passed :
      {past mid end : List Event} {test : Testable} {tests : List Testable}
      → test.body mach (sent past (test.type_name ++ codes "...\t")) ≡ ret (tt, mid)
      → Passed mach tests (sent mid (codes "[ok]\n")) end
      → Passed mach (test ∷ tests) past end

-- `Failed mach tests past p`: the tests before one of them returned, and that one panics with `p`.
pub data Failed (mach : Machine) (p : Panic) : List Testable → List Event → Type 0 where
  here :
      {past : List Event} {test : Testable} {tests : List Testable}
      → test.body mach (sent past (test.type_name ++ codes "...\t")) ≡ panics p
      → Failed mach p (test ∷ tests) past
  later :
      {past mid : List Event} {test : Testable} {tests : List Testable}
      → test.body mach (sent past (test.type_name ++ codes "...\t")) ≡ ret (tt, mid)
      → Failed mach p tests (sent mid (codes "[ok]\n"))
      → Failed mach p (test ∷ tests) past

abbrev pub Runs : Machine → List Testable → List Event → Run (Unit {0} × List Event) → Type 0
Runs mach tests past (panics p) = Failed mach p tests past
Runs mach tests past (ret (done, log)) = Passed mach tests past log

run-panics :
    (test : Testable) (mach : Machine) (past : List Event) (p : Panic)
    → test.body mach (sent past (test.type_name ++ codes "...\t")) ≡ panics p
    → run test mach past ≡ panics p
unfolding run
run-panics test mach past p e =
    rw (◌>>◌, ◌>>=◌, serial_print-sent (test.type_name ++ codes "...\t") mach past, e)

run-ret :
    (test : Testable) (mach : Machine) (past mid : List Event)
    → test.body mach (sent past (test.type_name ++ codes "...\t")) ≡ ret (tt, mid)
    → run test mach past ≡ ret (tt, sent mid (codes "[ok]\n"))
unfolding run
run-ret test mach past mid e = rw (
  ◌>>◌,
  ◌>>=◌,
  serial_print-sent (test.type_name ++ codes "...\t") mach past,
  e,
  serial_print-sent (codes "[ok]\n") mach mid,
)

extends-Runs :
    (test : Testable) (tests : List Testable) (mach : Machine) (past mid : List Event)
    (m : Run (Unit {0} × List Event))
    → test.body mach (sent past (test.type_name ++ codes "...\t")) ≡ ret (tt, mid)
    → Runs mach tests (sent mid (codes "[ok]\n")) m
    → Runs mach (test ∷ tests) past m
extends-Runs test tests mach past mid (panics p) e h = later e h
extends-Runs test tests mach past mid (ret (done, log)) e h = passed e h

-- The outcome of the first test, and then of the others.
after_body-Runs :
    (test : Testable) (tests : List Testable) (mach : Machine) (past : List Event)
    (o : Run (Unit {0} × List Event))
    → test.body mach (sent past (test.type_name ++ codes "...\t")) ≡ o
    → ((mid : List Event) → Runs mach tests mid (run_all tests mach mid))
    → Runs mach (test ∷ tests) past (run_all (test ∷ tests) mach past)
unfolding run_all
after_body-Runs test tests mach past (panics p) e rest =
    rw (run_all, ◌>>◌, ◌>>=◌, run-panics test mach past p e) (here e)
after_body-Runs test tests mach past (ret (done, mid)) e rest =
    rw (run_all, ◌>>◌, ◌>>=◌, run-ret test mach past mid e)
      (extends-Runs test tests mach past mid (run_all tests mach (sent mid (codes "[ok]\n"))) e
        (rest (sent mid (codes "[ok]\n"))))

run_all-Runs :
    (tests : List Testable) (mach : Machine) (past : List Event)
    → Runs mach tests past (run_all tests mach past)
unfolding run_all
run_all-Runs [] mach past = all_done
run_all-Runs (test ∷ tests) mach past =
    after_body-Runs test tests mach past
      (test.body mach (sent past (test.type_name ++ codes "...\t"))) refl (run_all-Runs tests mach)

-- The first line of the runner.
abbrev pub banner : (ℕ → List ℕ) → List Testable → List ℕ
banner decimal tests = codes "Running " ++ decimal (length tests) ++ codes " tests\n"

-- The outcomes of the runner: the code for success is sent right after all tests have passed; otherwise
-- a test panics.
abbrev pub Tested :
    (ℕ → List ℕ) → Machine → List Testable → List Event → Run (Unit {0} × List Event) → Type 0
Tested decimal mach tests past (panics p) = Failed mach p tests (sent past (banner decimal tests))
Tested decimal mach tests past (ret (done, log)) =
    (end : List Event) × Passed mach tests (sent past (banner decimal tests)) end
    × (log ≡ port_write dword 0xf4 0x10 ∷ end)

runner_end :
    (decimal : ℕ → List ℕ) (tests : List Testable) (mach : Machine) (past : List Event)
    (o : Run (Unit {0} × List Event))
    → run_all tests mach (sent past (banner decimal tests)) ≡ o
    → Runs mach tests (sent past (banner decimal tests)) o
    → Tested decimal mach tests past (test_runner decimal tests mach past)
unfolding test_runner exit_qemu
runner_end decimal tests mach past (panics p) e h =
    rw (test_runner, ◌>>◌, ◌>>=◌, serial_print-sent (banner decimal tests) mach past, e) h
runner_end decimal tests mach past (ret (done, end)) e h =
    rw (test_runner, ◌>>◌, ◌>>=◌, serial_print-sent (banner decimal tests) mach past, e)
      (end, h, refl)

-- For any tests: when the runner returns, every test ran, in the order of the list, each returned, and
-- the last access of the runner is the write of 0x10 to the port 0xf4; when it panics, a test
-- panicked, and those before it returned.
pub test_runner-Tested :
    (decimal : ℕ → List ℕ) (tests : List Testable) (mach : Machine) (past : List Event)
    → Tested decimal mach tests past (test_runner decimal tests mach past)
test_runner-Tested decimal tests mach past =
    runner_end decimal tests mach past (run_all tests mach (sent past (banner decimal tests))) refl
      (run_all-Runs tests mach (sent past (banner decimal tests)))
