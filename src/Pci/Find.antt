-- ===== src/Pci/Find.antt =====
-- `brute_force_find` of src/pci.rs, on a configuration space whose registers do not change.
use capucho_os.Base.{
  ℕ, zero, suc, ◌+◌, ◌*◌, ◌/◌, ◌%◌, ◌^◌, ◌≡◌, ◌≤◌, ◌<◌, refl, Bool, not, List, [], ◌∷◌, ◌++◌, Run,
  ret, bit_and, ◌==◌, if◌then◌else◌, arith, Bool-cases, inl, inr, ap, ◌∙◌,
}
use mathlib.Core.List.{append-nil}
use capucho_os.Base.Io.{dword, Event, port_write, port_read, Machine, Io, ◌>>=◌}
use capucho_os.Pci.{
  PciAddress, address_of, select, read, function_exists, find_function, find_device, find_bus,
  brute_force_find, config_address_port, config_data_port,
}

-- The data port reads the register that the address port was last given.
abbrev pub ServesConfig : Machine → (ℕ → ℕ) → Type 0
ServesConfig mach registers =
    (past : List Event) (selector : ℕ)
    → mach.port_value (port_write dword config_address_port selector ∷ past) dword config_data_port
      ≡ registers selector

abbrev pub present : (ℕ → ℕ) → PciAddress → Bool
present registers address = not (bit_and (registers (select address 0) % 2 ^ 32) 0xFFFF == 0xFFFF)

-- The address with the number `n`, in the order of bus, device and function.
abbrev pub nth_address : ℕ → PciAddress
nth_address n = address_of (n / 256) (n / 8 % 32) (n % 8)

-- The addresses with the numbers `n`, `n + 1`, ..., `k` of them, that are present.
unfoldable pub present_from : (ℕ → ℕ) → ℕ → ℕ → List PciAddress
present_from registers n zero = []
present_from registers n (suc k) =
    let rest = present_from registers (suc n) k in
    if present registers (nth_address n) then nth_address n ∷ rest else rest

-- The run `m` gives `found`, whatever is logged.
abbrev Finds : Run (List PciAddress × List Event) → List PciAddress → Type 0
Finds m found = (log : List Event) × (m ≡ ret (found, log))

Finds-eq :
    (m : Run (List PciAddress × List Event)) (xs ys : List PciAddress)
    → Finds m xs
    → xs ≡ ys
    → Finds m ys
Finds-eq m xs ys (log, run) e = (log, run ∙ ap (λ l. ret (l, log)) e)

Finds-bind :
    (m : Io (List PciAddress)) (k : List PciAddress → Io (List PciAddress)) (mach : Machine)
    (past : List Event) (xs ys : List PciAddress)
    → Finds (m mach past) xs
    → ((log : List Event) → Finds (k xs mach log) ys)
    → Finds ((m >>= k) mach past) ys
Finds-bind m k mach past xs ys (log, run) next = rw (◌>>=◌, run) (next log)

append_assoc {ℓ} : {A : Type ℓ} (xs ys zs : List A) → (xs ++ ys) ++ zs ≡ xs ++ (ys ++ zs)
append_assoc [] ys zs = refl
append_assoc (x ∷ xs) ys zs = ap (◌∷◌ x) (append_assoc xs ys zs)

module _ (mach : Machine) (registers : ℕ → ℕ) (serves : ServesConfig mach registers) where
  abbrev from : ℕ → ℕ → List PciAddress
  from = present_from registers

  from-add : (a n b : ℕ) → from n (a + b) ≡ from n a ++ from (n + a) b
  unfolding present_from
  from-add zero n b =
      let same : n + 0 ≡ n = omega arith in let none : 0 + b ≡ b = omega arith in rw (same, none)
  from-add (suc a) n b =
      let move : suc n + a ≡ n + suc a = omega arith in
      let more : suc a + b ≡ suc (a + b) = omega arith in
      let rest : from (suc n) (a + b) ≡ from (suc n) a ++ from (n + suc a) b =
        from-add a (suc n) b ∙ rw move in
      elim (Bool-cases (present registers (nth_address n))) [
        | inl e ↦ rw (more, e) (ap (◌∷◌ (nth_address n)) rest)
        | inr e ↦ rw (more, e) rest
      ]

  abbrev probe_log : PciAddress → List Event → List Event
  probe_log address past =
      port_read dword config_data_port (registers (select address 0) % 2 ^ 32)
      ∷ port_write dword config_address_port (select address 0)
      ∷ past

  function_exists-present :
      (address : PciAddress) (past : List Event)
      → function_exists address mach past ≡ ret (present registers address, probe_log address past)
  unfolding function_exists read
  function_exists-present address past = rw (serves past (select address 0))

  find_function-from :
      (bus device n function : ℕ) (results : List PciAddress) (past : List Event)
      → device < 32
      → function + n ≤ 8
      → Finds
          (find_function bus device n function results mach past)
          (results ++ from (bus * 256 + device * 8 + function) n)
  unfolding find_function present_from
  find_function-from bus device zero function results past d h = (past, rw (append-nil results))
  find_function-from bus device (suc n) function results past d h =
      let code = bus * 256 + device * 8 + function in
      let at_bus : code / 256 ≡ bus = omega arith in
      let at_device : code / 8 % 32 ≡ device = omega arith in
      let at_function : code % 8 ≡ function = omega arith in
      let next : suc code ≡ bus * 256 + device * 8 + suc function = omega arith in
      let address = address_of bus device function in
      let log = probe_log address past in
      let rest = from (bus * 256 + device * 8 + suc function) n in
      elim (Bool-cases (present registers address)) [
        | inl e ↦
            let found = results ++ address ∷ [] in
            let later = find_function-from bus device n (suc function) found log d (omega arith) in
            rw
              (◌>>=◌, function_exists-present address past, at_bus, at_device, at_function, e, next)
              (Finds-eq (find_function bus device n (suc function) found mach log) (found ++ rest)
                (results ++ address ∷ rest) later (append_assoc results (address ∷ []) rest))
        | inr e ↦
            rw
              (◌>>=◌, function_exists-present address past, at_bus, at_device, at_function, e, next)
              (find_function-from bus device n (suc function) results log d (omega arith))
      ]

  -- `a` addresses from `n` on, and then `b` more.
  joined :
      (results : List PciAddress) (n a b m c : ℕ)
      → n + a ≡ m
      → a + b ≡ c
      → (results ++ from n a) ++ from m b ≡ results ++ from n c
  joined results n a b m c e f =
      rw (← e, ← f, from-add a n b) (append_assoc results (from n a) (from (n + a) b))

  find_device-from :
      (bus n device : ℕ) (results : List PciAddress) (past : List Event)
      → device + n ≤ 32
      → Finds
          (find_device bus n device results mach past)
          (results ++ from (bus * 256 + device * 8) (n * 8))
  unfolding find_device
  find_device-from bus zero device results past h =
      (past, unfold present_from in rw (append-nil results))
  find_device-from bus (suc n) device results past h =
      let code = bus * 256 + device * 8 in
      let found = results ++ from code 8 in
      let start : code + 0 ≡ code = omega arith in
      Finds-bind (find_function bus device 8 0 results) (find_device bus n (suc device)) mach past
        found (results ++ from code (suc n * 8))
        (rw start at (find_function-from bus device 8 0 results past (omega arith) (omega arith)))
        (λ log.
          Finds-eq (find_device bus n (suc device) found mach log)
            (found ++ from (bus * 256 + suc device * 8) (n * 8)) (results ++ from code (suc n * 8))
            (find_device-from bus n (suc device) found log (omega arith))
            (joined results code 8 (n * 8) (bus * 256 + suc device * 8) (suc n * 8) (omega arith)
              (omega arith)))

  find_bus-from :
      (n bus : ℕ) (results : List PciAddress) (past : List Event)
      → Finds (find_bus n bus results mach past) (results ++ from (bus * 256) (n * 256))
  unfolding find_bus
  find_bus-from zero bus results past = (past, unfold present_from in rw (append-nil results))
  find_bus-from (suc n) bus results past =
      let code = bus * 256 in
      let found = results ++ from code 256 in
      let start : code + 0 * 8 ≡ code = omega arith in
      Finds-bind (find_device bus 32 0 results) (find_bus n (suc bus)) mach past found
        (results ++ from code (suc n * 256))
        (rw start at (find_device-from bus 32 0 results past (omega arith)))
        (λ log.
          Finds-eq (find_bus n (suc bus) found mach log) (found ++ from (suc bus * 256) (n * 256))
            (results ++ from code (suc n * 256)) (find_bus-from n (suc bus) found log)
            (joined results code 256 (n * 256) (suc bus * 256) (suc n * 256) (omega arith)
              (omega arith)))

  -- On a configuration space whose registers do not change, the search never panics and finds, in the
  -- order of bus, device and function, those of the 65536 addresses whose vendor is not 0xFFFF.
  pub brute_force_find-present :
      (past : List Event)
      → (log : List Event) × (brute_force_find mach past
          ≡ ret (present_from registers 0 65536, log))
  unfolding brute_force_find
  brute_force_find-present past = find_bus-from 256 0 [] past
