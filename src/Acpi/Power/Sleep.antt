-- ===== src/Acpi/Power/Sleep.antt =====
-- The registers that `Acpi::set_sleep_state` of src/acpi.rs writes.
use capucho_os.Base.{
  Panic, ℕ, zero, suc, ◌+◌, ◌*◌, ◌%◌, ◌/◌, ◌^◌, ◌≡◌, ◌<◌, ◌⊎◌, inl, inr, refl, Bool, true, false,
  List, [], ◌∷◌, Option, none, some, Run, ret, panics, unwrap_none, index_out_of_bounds, bit_or,
  bit_and, u16, ◌<<<◌, ◌>>>◌, arith, ap, get_elem?, or_panic,
}
use capucho_os.Base
use capucho_os.Base.Shifts.{bit_and-mask}
use capucho_os.Base.Io.{Event, Machine, word, port_write, after, ◌>>=◌, ◌>>◌, lift, pure}
use capucho_os.Acpi.Power.{
  write_second, Io, AmlCrate, SleepState, state_name, Registers, slp_en, as_aml_name, sleep_types,
  from_result, get_sleep_state, write_types, set_sleep_state,
}

-- The control register with SLP_EN, bit 13, and the sleep type in the bits 10 to 12.
abbrev pub control : ℕ → ℕ
control typ = 2 ^ 13 + typ * 2 ^ 10

abbrev pub second_write : Option ℕ → ℕ → List Event
second_write none typ = []
second_write (some cnt) typ = port_write word cnt (control typ) ∷ []

control_lem : (x : ℕ) → x < 8 → bit_or slp_en (u16 (x <<< 10)) ≡ control x
control_lem zero h = refl
control_lem (suc zero) h = refl
control_lem (suc (suc zero)) h = refl
control_lem (suc (suc (suc zero))) h = refl
control_lem (suc (suc (suc (suc zero)))) h = refl
control_lem (suc (suc (suc (suc (suc zero))))) h = refl
control_lem (suc (suc (suc (suc (suc (suc zero)))))) h = refl
control_lem (suc (suc (suc (suc (suc (suc (suc zero))))))) h = refl
control_lem (suc (suc (suc (suc (suc (suc (suc (suc x)))))))) h = absurd (omega arith)

write_second_lem :
    (cnt : Option ℕ) (typ : ℕ) (mach : Machine) (past : List Event)
    → typ < 8
    → write_second cnt typ mach past ≡ ret (tt, after past (second_write cnt typ))
unfolding write_second
write_second_lem none typ mach past h = refl
write_second_lem (some cnt) typ mach past h = rw (control_lem typ h)

module _ (aml : AmlCrate) (this : Registers) (context : aml.Context) (state : SleepState)
    (mach : Machine) (past : List Event) where
  -- The method of the state gave `value` in the context `later`, and the log was `mid` then.
  pub record Invoked (value : Option aml.Value) (later : aml.Context) (mid : List Event)
      : Type 0 where
    pub name : aml.Name
    pub named : aml.name_from_str (state_name state) ≡ some name
    pub invoked : aml.invoke_method context name none mach past ≡ ret ((value, later), mid)

  -- The value was a package whose first item is the integer `res`.
  pub record Answer (later : aml.Context) (mid : List Event) (res : ℕ) : Type 0 where
    pub value : aml.Value
    pub first : aml.Value
    pub items : List aml.Value
    pub asked : Invoked (some value) later mid
    pub packed : aml.package_items value ≡ some (first ∷ items)
    pub number : aml.as_integer first later ≡ some res

  -- The panics of the name, of the index, of the number, and of the method itself.
  abbrev pub MayPanic : Panic → Type 0
  MayPanic p =
      (p ≡ unwrap_none)
      ⊎ (p ≡ index_out_of_bounds)
      ⊎ ((name : aml.Name) × (aml.name_from_str (state_name state) ≡ some name)
          × (aml.invoke_method context name none mach past ≡ panics p))

  -- The outcomes: true after the control registers that exist were written with the sleep types that
  -- the first item of the package holds in its bits 0 to 2 and 8 to 10; false with no access after
  -- the method's, if it gave no package; or a panic.
  abbrev pub Sleeps : Run ((Bool × aml.Context) × List Event) → Type 0
  Sleeps (panics p) = MayPanic p
  Sleeps (ret ((false, later), log)) =
      (value : Option aml.Value) × Invoked value later log
      × ((value ≡ none) ⊎ ((v : aml.Value) × (value ≡ some v) × (aml.package_items v ≡ none)))
  Sleeps (ret ((true, later), log)) =
      (res : ℕ) × (mid : List Event) × Answer later mid res
      × (log
          ≡ after mid (
              port_write word this.pm1a_cnt (control (res % 8))
              ∷ second_write this.pm1b_cnt (res / 256 % 8)))

  abbrev types_of : ℕ → ℕ × ℕ
  types_of res = (res % 8, res / 256 % 8)

  types_lem : (res : ℕ) → (bit_and (u16 res) 0b111, bit_and (u16 (res >>> 8)) 0b111) ≡ types_of res
  types_lem res =
      let low : res % 2 ^ 16 % 2 ^ 3 ≡ res % 8 = omega arith in
      let high : res / 2 ^ 8 % 2 ^ 16 % 2 ^ 3 ≡ res / 256 % 8 = omega arith in
      rw (bit_and-mask 3 (u16 res), bit_and-mask 3 (u16 (res >>> 8)), low, high)

  -- The outcomes of `get_sleep_state`.
  abbrev Typed : Run ((Option (ℕ × ℕ) × aml.Context) × List Event) → Type 0
  Typed (panics p) = MayPanic p
  Typed (ret ((none, later), log)) =
      (value : Option aml.Value) × Invoked value later log
      × ((value ≡ none) ⊎ ((v : aml.Value) × (value ≡ some v) × (aml.package_items v ≡ none)))
  Typed (ret ((some types, later), log)) = (res : ℕ) × Answer later log res × (types ≡ types_of res)

  module _ (later : aml.Context) (mid : List Event) where
    number-Typed :
        (value first : aml.Value) (items : List aml.Value) (o : Option ℕ)
        → Invoked (some value) later mid
        → aml.package_items value ≡ some (first ∷ items)
        → aml.as_integer first later ≡ o
        → Typed (
            lift
              (Base.◌>>=◌
                (Base.◌>>=◌
                  (or_panic unwrap_none o)
                  (λ res. ret (bit_and (u16 res) 0b111, bit_and (u16 (res >>> 8)) 0b111)))
                (λ types. ret (some types, later)))
              mach
              mid)
    number-Typed value first items none asked e3 e4 = inl refl
    number-Typed value first items (some res) asked e3 e4 = (
      res,
      record {
        value = value;
        first = first;
        items = items;
        asked = asked;
        packed = e3;
        number = e4;
      },
      types_lem res,
    )

    package-Typed :
        (value : aml.Value) (o : Option (List aml.Value))
        → Invoked (some value) later mid
        → aml.package_items value ≡ o
        → Typed (
            lift
              (elim o [
                | none ↦ ret (none, later)
                | some items ↦
                    Base.◌>>=◌ (sleep_types aml items later) (λ types. ret (some types, later))
              ])
              mach
              mid)
    unfolding sleep_types
    package-Typed value none asked e3 = (some value, asked, inr (value, refl, e3))
    package-Typed value (some []) asked e3 = inr (inl refl)
    package-Typed value (some (first ∷ items)) asked e3 =
        number-Typed value first items (aml.as_integer first later) asked e3 refl

    result-Typed :
        (value : Option aml.Value)
        → Invoked value later mid
        → Typed (lift (from_result aml (value, later)) mach mid)
    unfolding from_result
    result-Typed none asked = (none, asked, inl refl)
    result-Typed (some value) asked = package-Typed value (aml.package_items value) asked refl

  invoked-Typed :
      (name : aml.Name) (m : Run ((Option aml.Value × aml.Context) × List Event))
      → aml.name_from_str (state_name state) ≡ some name
      → aml.invoke_method context name none mach past ≡ m
      → Typed (elim m [ panics p ↦ panics p | ret r ↦ lift (from_result aml r.0) mach r.1 ])
  invoked-Typed name (panics p) e1 e2 = inr (inr (name, e1, e2))
  invoked-Typed name (ret ((value, later), mid)) e1 e2 =
      result-Typed later mid value (record { name = name; named = e1; invoked = e2 })

  named-Typed :
      (o : Option aml.Name)
      → aml.name_from_str (state_name state) ≡ o
      → Typed (
          (lift (or_panic unwrap_none o) >>= λ name.
          aml.invoke_method context name none >>= λ r. lift (from_result aml r))
            mach past)
  named-Typed none e = inl refl
  named-Typed (some name) e =
      invoked-Typed name (aml.invoke_method context name none mach past) e refl

  get_sleep_state-Typed : Typed (get_sleep_state aml context state mach past)
  unfolding get_sleep_state as_aml_name
  get_sleep_state-Typed = named-Typed (aml.name_from_str (state_name state)) refl

  write_types_lem :
      (a b : ℕ) (mid : List Event)
      → a < 8
      → b < 8
      → write_types this a b mach mid
        ≡ ret (
          tt,
          after mid (port_write word this.pm1a_cnt (control a) ∷ second_write this.pm1b_cnt b),
        )
  unfolding write_types
  write_types_lem a b mid la lb =
      rw (◌>>=◌, ◌>>◌, control_lem a la)
        (write_second_lem this.pm1b_cnt b mach (port_write word this.pm1a_cnt (control a) ∷ mid) lb)

  -- The rest of `set_sleep_state` after `get_sleep_state`.
  abbrev entered : Option (ℕ × ℕ) × aml.Context → Io (Bool × aml.Context)
  entered got = elim got.0 [
    | none ↦ pure (false, got.1)
    | some types ↦ write_types this types.0 types.1 >> pure (true, got.1)
  ]

  entered-Sleeps :
      (m : Run ((Option (ℕ × ℕ) × aml.Context) × List Event))
      → Typed m
      → Sleeps (elim m [ panics p ↦ panics p | ret r ↦ entered r.0 mach r.1 ])
  entered-Sleeps (panics p) t = t
  entered-Sleeps (ret ((none, later), mid)) t = t
  entered-Sleeps (ret ((some types, later), mid)) (res, answer, same) =
      let run : write_types this types.0 types.1 mach mid
          ≡ ret (
            tt,
            after mid (
                port_write word this.pm1a_cnt (control (res % 8))
                ∷ second_write this.pm1b_cnt (res / 256 % 8)),
          ) =
        rw same (write_types_lem (res % 8) (res / 256 % 8) mid (omega arith) (omega arith)) in
      rw (◌>>=◌, run) (res, mid, answer, refl)

  -- Every outcome of `set_sleep_state`, for every state, interpreter and machine.
  pub set_sleep_state-Sleeps : Sleeps (set_sleep_state aml this context state mach past)
  unfolding set_sleep_state
  set_sleep_state-Sleeps =
      entered-Sleeps (get_sleep_state aml context state mach past) get_sleep_state-Typed
