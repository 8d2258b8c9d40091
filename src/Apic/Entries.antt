-- ===== src/Apic/Entries.antt =====
-- `get_entry` and `set_entry` of src/apic.rs: an interrupt's entry, found by its override and by the
-- I/O APIC that is chosen for it.
use capucho_os.Base.{ℕ, index_out_of_bounds, or_panic, get_elem?}
use capucho_os.Base.Io.{Io, ◌>>=◌, lift}
use capucho_os.Apic.Routing.{Apic, get_interrupt_source, get_interrupt_ioapic}
use capucho_os.Apic.Registers.{redir_entry, set_redir_entry}

unfoldable pub get_entry : Apic → ℕ → Io ℕ
get_entry this vector =
    let source = get_interrupt_source this vector in
    lift (get_interrupt_ioapic this source) >>= λ idx.
    lift (or_panic index_out_of_bounds (get_elem? this.io_apics idx)) >>= λ io_apic.
    redir_entry io_apic source

unfoldable pub set_entry : Apic → ℕ → ℕ → Io (Unit {0})
set_entry this vector entry =
    let source = get_interrupt_source this vector in
    lift (get_interrupt_ioapic this source) >>= λ idx.
    lift (or_panic index_out_of_bounds (get_elem? this.io_apics idx)) >>= λ io_apic.
    set_redir_entry io_apic source entry
