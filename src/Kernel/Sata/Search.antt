-- ===== src/Kernel/Sata/Search.antt =====
-- Which controller `kernel_main` of src/main.rs takes.
use capucho_os.Kernel.Logger.Line.{record_text, sent, log_record-sent}
use capucho_os.Kernel.Logger.{Record}
use capucho_os.Kernel.Sata.Log.{Formats, info, Class, device_line}
use capucho_os.Base.{
  unwrap_none, Bool, ◌&&◌, ◌||◌, Run, true, not, panics, false, ℕ, ◌≡◌, refl, List, [], ◌∷◌, Option,
  none, some, ret, if◌then◌else◌, Bool-cases, inl, inr,
}
use capucho_os.Base.Io.{Event, Machine, ◌>>=◌}
use capucho_os.Pci.{PciAddress}
use capucho_os.Kernel.Sata.{PciTypes, is_sata, choose, find_sata}
use capucho_os.Base.Io.{◌>>◌}
use capucho_os.Base.Text.{codes}

-- The first option that is not none.
abbrev pub first_of {ℓ} : {A : Type ℓ} → Option A → Option A → Option A
first_of (some a) o = some a
first_of none o = o

abbrev pub is_some {ℓ} : {A : Type ℓ} → Option A → Bool
is_some none = false
is_some (some a) = true

module _ (pci : PciTypes) where
  -- The reads of a header give always the class of `class_of` and the header of `endpoint_of`, which is
  -- none if `from_header` refuses, as it does a header that is not of type 0.
  pub record Answers (mach : Machine) (class_of : PciAddress → Class)
      (endpoint_of : PciAddress → Option pci.EndpointHeader) : Type 0 where
    pub class_read :
        (h : PciAddress) (past : List Event)
        → (log : List Event) × (pci.revision_and_class h mach past ≡ ret (class_of h, log))
    pub kind_read :
        (h : PciAddress) (past : List Event)
        → (kind : ℕ) × (log : List Event) × (pci.header_type h mach past ≡ ret (kind, log))
    pub header_read :
        (h : PciAddress) (past : List Event)
        → (log : List Event) × (pci.from_header h mach past ≡ ret (endpoint_of h, log))

  module _ (mach : Machine) (class_of : PciAddress → Class)
      (endpoint_of : PciAddress → Option pci.EndpointHeader) where
    -- The header of the last device of the list that is a SATA controller.
    abbrev pub last_sata : List PciAddress → Option pci.EndpointHeader
    last_sata [] = none
    last_sata (h ∷ devices) =
        first_of (last_sata devices) (if is_sata (class_of h) then endpoint_of h else none)

    -- Every SATA controller of the list has an endpoint's header.
    abbrev pub all_endpoints : List PciAddress → Bool
    all_endpoints [] = true
    all_endpoints (h ∷ devices) =
        (not (is_sata (class_of h)) || is_some (endpoint_of h)) && all_endpoints devices

    -- The outcome of the search with the controller `found` before.
    abbrev pub Chooses :
        List PciAddress
        → Option pci.EndpointHeader
        → Run (Option pci.EndpointHeader × List Event)
        → Type 0
    Chooses devices found out =
        (log : List Event) × (out ≡ (
          if all_endpoints devices
          then ret (first_of (last_sata devices) found, log)
          else panics unwrap_none))

    module _ (formats : Formats) (answers : Answers mach class_of endpoint_of) where
      info_lem :
          (args : List ℕ) (past : List Event)
          → (log : List Event) × (info formats args mach past ≡ ret (tt, log))
      unfolding info
      info_lem args past =
          let r : Record = record formats.place { level = codes "INFO"; args = args } in
          (sent past (record_text r), log_record-sent r mach past)

      first_of_assoc :
          (a b c : Option pci.EndpointHeader)
          → first_of a (first_of b c) ≡ first_of (first_of a b) c
      first_of_assoc (some x) b c = refl
      first_of_assoc none b c = refl

      -- What the body of the loop leaves as the controller, or its panic.
      choose_lem :
          (h : PciAddress) (found : Option pci.EndpointHeader) (past : List Event)
          (endpoint : Option pci.EndpointHeader) (sata : Bool)
          → endpoint_of h ≡ endpoint
          → (log : List Event) × (choose pci h found sata mach past ≡ (
              if not sata || is_some endpoint
              then ret (first_of (if sata then endpoint else none) found, log)
              else panics unwrap_none))
      unfolding choose
      choose_lem h found past endpoint false e = (past, refl)
      choose_lem h found past none true e =
          let (log, read) = answers.header_read h past in (log, rw (◌>>=◌, read, e))
      choose_lem h found past (some x) true e =
          let (log, read) = answers.header_read h past in (log, rw (◌>>=◌, read, e))

      find_sata_lem :
          (devices : List PciAddress) (found : Option pci.EndpointHeader) (past : List Event)
          → Chooses devices found (find_sata pci formats devices found mach past)
      unfolding find_sata
      find_sata_lem [] found past = (past, refl)
      find_sata_lem (h ∷ devices) found past =
          let sata = is_sata (class_of h) in
          let own : Option pci.EndpointHeader = if sata then endpoint_of h else none in
          let (log1, class_run) = answers.class_read h past in
          let (kind, log2, kind_run) = answers.kind_read h log1 in
          let (log, told) = info_lem (device_line formats h (class_of h) kind) log2 in
          let (log3, chosen) = choose_lem h found log (endpoint_of h) sata refl in
          let (log4, rest) = find_sata_lem devices (first_of own found) log3 in
          elim (Bool-cases (not sata || is_some (endpoint_of h))) [
            | inl good ↦ (
              log4,
              rw (
                ◌>>=◌,
                ◌>>◌,
                class_run,
                kind_run,
                told,
                chosen,
                good,
                rest,
                first_of_assoc (last_sata devices) own found,
              ),
            )
            | inr bad ↦ (log3, rw (◌>>=◌, ◌>>◌, class_run, kind_run, told, chosen, bad))
          ]

      -- When the class and the header of an address do not change: if every SATA controller of the
      -- list has an endpoint's header, the search ends with the header of the last one, or with none
      -- if there is no controller; otherwise it panics with an `unwrap`. The headers of the other
      -- devices play no part.
      pub find_sata-last_sata :
          (devices : List PciAddress) (past : List Event)
          → (log : List Event) × (find_sata pci formats devices none mach past ≡ (
              if all_endpoints devices then ret (last_sata devices, log) else panics unwrap_none))
      find_sata-last_sata devices past =
          let (log, run) = find_sata_lem devices none past in
          (log, rw (← none_last (last_sata devices)) run)
        where
          none_last : (o : Option pci.EndpointHeader) → first_of o none ≡ o
          none_last none = refl
          none_last (some x) = refl
