-- ===== src/Apic/Routing.antt =====
-- Which I/O APIC and which input of it an interrupt goes to: `get_interrupt_source` and
-- `get_interrupt_ioapic` of src/apic.rs.
pub mod Laws
use capucho_os.Base.{
  ℕ, zero, suc, ◌+◌, Bool, true, false, List, [], ◌∷◌, Option, none, some, Run, ret,
  index_out_of_bounds, or_panic, ◌>>=◌, get_elem?, u8, ◌==◌, ltb, if◌then◌else◌,
}

-- What the source reads of an `InterruptSourceOverride` of the crate `acpi`.
pub record InterruptSourceOverride : Type 0 where
  pub isa_source : ℕ
  pub global_system_interrupt : ℕ

pub record IoApic : Type 0 where
  pub base_address : ℕ
  pub base_interrupt : ℕ

-- Of `info` only the overrides are read after the start.
pub record Apic : Type 0 where
  pub interrupt_source_overrides : List InterruptSourceOverride
  pub io_apics : List IoApic

-- `find_map`, and `unwrap_or(vector)` at the end.
unfoldable pub find_source : List InterruptSourceOverride → ℕ → ℕ
find_source [] vector = vector
find_source (v ∷ vs) vector =
    if v.isa_source == vector then u8 v.global_system_interrupt else find_source vs vector

unfoldable pub get_interrupt_source : Apic → ℕ → ℕ
get_interrupt_source this vector = find_source this.interrupt_source_overrides vector

-- The loop at index `i`, with the best index and its base so far.
unfoldable pub search_ioapic : ℕ → ℕ → ℕ → ℕ → List IoApic → ℕ
search_ioapic vector i idx current_base [] = idx
search_ioapic vector i idx current_base (a ∷ rest) =
    let skip = search_ioapic vector (suc i) idx current_base rest in
    let choose = search_ioapic vector (suc i) i a.base_interrupt rest in
    if ltb vector a.base_interrupt
    then skip
    else if ltb current_base a.base_interrupt
    then choose
    else skip

unfoldable pub get_interrupt_ioapic : Apic → ℕ → Run ℕ
get_interrupt_ioapic this vector = do
  first ← or_panic index_out_of_bounds (get_elem? this.io_apics 0)
  ret (search_ioapic vector 0 0 first.base_interrupt this.io_apics)
