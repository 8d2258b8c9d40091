-- ===== src/Apic/RedirEntry/Debug.antt =====
-- `Debug` of `RedirEntry` in src/apic.rs: the names and the values of the fields that
-- `debug_struct` is given; how they are written is up to `core::fmt`.
use capucho_os.Base.{[], List, if◌then◌else◌, Bool, ◌∷◌, ℕ}
use capucho_os.Base.Text.{codes}
use capucho_os.Apic.RedirEntry.{
  DeliveryMode, vector, delivery_mode, logical_mode, low_is_active, lapic_responded,
  level_sensitive, masked, destination_id,
}

pub data FieldValue : Type 0 where
  number : ℕ → FieldValue
  flag : Bool → FieldValue
  text : List ℕ → FieldValue
  mode : DeliveryMode → FieldValue

abbrev pub Fields : Type 0
Fields = List (List ℕ × FieldValue)

unfoldable pub debug_fields : ℕ → Fields
debug_fields e =
    (codes "vector", number (vector e))
    ∷ (codes "delivery_mode", mode (delivery_mode e))
    ∷ (
      codes "destinantion_mode",
      text (if logical_mode e then codes "logical" else codes "physical"),
    )
    ∷ (
      codes "polarity",
      text (if low_is_active e then codes "Low is active" else codes "High is active"),
    )
    ∷ (codes "lapic_responded", flag (lapic_responded e))
    ∷ (codes "trigger_mode", text (if level_sensitive e then codes "level" else codes "edge"))
    ∷ (codes "masked", flag (masked e))
    ∷ (codes "destination", number (destination_id e))
    ∷ []
