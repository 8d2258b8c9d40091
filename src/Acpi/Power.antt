-- ===== src/Acpi/Power.antt =====
-- `Acpi` of src/acpi.rs: taking control from the firmware and the sleep states. The AML interpreter is
-- the crate `aml`.
pub mod Enable
pub mod Sleep
use Prim.Native.String.{String}
use capucho_os.Base.{
  ℕ, zero, suc, ◌*◌, ◌%◌, ◌/◌, ◌^◌, ◌≡◌, Bool, true, false, List, Option, none, some, Run, ret,
  unwrap_none, index_out_of_bounds, or_panic, bit_and, bit_or, u16, ◌<<<◌, ◌>>>◌, ◌==◌, ◌||◌,
  get_elem?, if◌then◌else◌,
}
use capucho_os.Base
use capucho_os.Base.Io.{Io, byte, word, ◌>>=◌, ◌>>◌, pure, lift, write_to_port, read_from_port}
use capucho_os.Kernel.Tick.{sleep}

-- What the source uses of the crate `aml`. A context holds the handler that the interpreter was given,
-- so a method may access the device and change the context.
pub record AmlCrate : Type 1 where
  pub Context : Type 0
  pub Name : Type 0
  pub Value : Type 0
  -- `AmlName::from_str`, `AmlContext::invoke_method` without and with one integer argument,
  -- the items of `AmlValue::Package`, and `AmlValue::as_integer`.
  pub name_from_str : String → Option Name
  pub invoke_method : Context → Name → Option ℕ → Io (Option Value × Context)
  pub package_items : Value → Option (List Value)
  pub as_integer : Value → Context → Option ℕ

abbrev pub slp_en : ℕ
slp_en = 1 <<< 13

pub data SleepState : Type 0 where
  s1 s2 s3 s4 s5 : SleepState

abbrev pub state_name : SleepState → String
state_name s1 = "\\_S1"
state_name s2 = "\\_S2"
state_name s3 = "\\_S3"
state_name s4 = "\\_S4"
state_name s5 = "\\_S5"

-- The fields of `Acpi` that are numbers.
pub record Registers : Type 0 where
  pub smi_cmd_port : ℕ
  pub pm1a_cnt : ℕ
  pub pm1b_cnt : Option ℕ
  pub acpi_enable : ℕ

-- `pm1b_cnt.map_or(true, …)`.
unfoldable pub second_enabled : Option ℕ → Io Bool
second_enabled none = pure true
second_enabled (some cnt) = read_from_port word cnt >>= λ value. pure (bit_and value 1 == 1)

-- The test of one round: the second register is read only if the first one says yes.
unfoldable pub enabled : Registers → Io Bool
enabled this = do
  value ← read_from_port word this.pm1a_cnt
  if bit_and value 1 == 1 then second_enabled this.pm1b_cnt else pure false

-- The loop of `enable` with `n` rounds left.
unfoldable pub enable_rounds : ℕ → Registers → Io Bool
enable_rounds zero this = pure false
enable_rounds (suc n) this =
    let again = sleep 10 >> enable_rounds n this in
    enabled this >>= λ done. if done then pure true else again

unfoldable pub enable : Registers → Io Bool
enable this =
    if this.smi_cmd_port == 0 || this.acpi_enable == 0
    then pure false
    else (write_to_port byte this.smi_cmd_port this.acpi_enable >> enable_rounds 300 this)

-- `if let Some(cnt) = self.pm1b_cnt`.
unfoldable pub write_second : Option ℕ → ℕ → Io (Unit {0})
write_second none slp_typb = pure tt
write_second (some cnt) slp_typb = write_to_port word cnt (bit_or slp_en (u16 (slp_typb <<< 10)))

unfoldable pub write_types : Registers → ℕ → ℕ → Io (Unit {0})
write_types this slp_typa slp_typb =
    write_to_port word this.pm1a_cnt (bit_or slp_en (u16 (slp_typa <<< 10)))
    >> write_second this.pm1b_cnt slp_typb

module _ (aml : AmlCrate) where
  unfoldable pub as_aml_name : SleepState → Run aml.Name
  as_aml_name state = or_panic unwrap_none (aml.name_from_str (state_name state))

  -- The items of the package: both values come from the first one.
  unfoldable pub sleep_types : List aml.Value → aml.Context → Run (ℕ × ℕ)
  sleep_types items context =
      Base.◌>>=◌ (or_panic index_out_of_bounds (get_elem? items 0)) (λ first.
        Base.◌>>=◌ (or_panic unwrap_none (aml.as_integer first context))
          (λ res. ret (bit_and (u16 res) 0b111, bit_and (u16 (res >>> 8)) 0b111)))

  -- The result of `invoke_method`, through `ok()?` and the pattern.
  unfoldable pub from_result : Option aml.Value × aml.Context → Run (Option (ℕ × ℕ) × aml.Context)
  from_result (none, context) = ret (none, context)
  from_result (some value, context) = elim (aml.package_items value) [
    | none ↦ ret (none, context)
    | some items ↦ Base.◌>>=◌ (sleep_types items context) (λ types. ret (some types, context))
  ]

  unfoldable pub get_sleep_state : aml.Context → SleepState → Io (Option (ℕ × ℕ) × aml.Context)
  get_sleep_state context state = do
    name ← lift (as_aml_name state)
    result ← aml.invoke_method context name none
    lift (from_result result)

  unfoldable pub set_sleep_state : Registers → aml.Context → SleepState → Io (Bool × aml.Context)
  set_sleep_state this context state = do
    got ← get_sleep_state context state
    elim got.0 [
      | none ↦ pure (false, got.1)
      | some types ↦ write_types this types.0 types.1 >> pure (true, got.1)
    ]
